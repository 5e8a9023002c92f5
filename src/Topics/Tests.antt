-- ===== src/Topics/Tests.antt =====
-- A topic of an uplink field, and one of an event.
use ttn.Base.{◌≡◌, ◌≢◌, refl, inl, inr, [], some, codes}
use ttn.Topics.{
  Protocol, TopicType, DeviceTopic, is_id, is_tail, is_alnum, is_joint, is_field, trim, trim_left,
  parse_device_topic, to_string,
}
use ttn.Topics.RoundTrip.{IsTopic, parse_device_topic-to_string}

abbrev topic : DeviceTopic
topic = record {
  app_id = codes "my-app";
  dev_id = [];
  type_of = TopicType.uplink;
  field = codes "gps/lat";
}

has_no_events : TopicType.uplink ≡ TopicType.events → codes "gps/lat" ≢ []
has_no_events e f = cc

topic-IsTopic : IsTopic Protocol.mqtt topic
unfolding is_id is_tail is_alnum is_joint is_field trim trim_left
topic-IsTopic = (inr refl, inl refl, (refl, refl), (λ e. cc), has_no_events)

parse_device_topic-to_string_example :
    parse_device_topic Protocol.mqtt (to_string Protocol.mqtt topic) ≡ some topic
parse_device_topic-to_string_example =
    parse_device_topic-to_string Protocol.mqtt topic topic-IsTopic
