-- ===== src/Topics.antt =====
-- mqtt/topics.go and amqp/routing_keys.go: the names under which messages of devices are published. The
-- two differ in their separator, their wildcards, and the types that have a field. A name is a
-- list of codes.
pub mod RoundTrip
mod Tests
use ttn.Base.{
  ℕ, suc, ◌+◌, ◌≡◌, ◌≢◌, ◌⊎◌, inl, inr, refl, sym, ap, ap₂, ◌∙◌, Bool, true, false, not, ◌&&◌, ◌||◌,
  List, [], ◌∷◌, ◌++◌, Option, none, some, String, ltb, leb, ◌==◌, if◌then◌else◌, codes, same_codes,
  same_codes_iff, strip_prefix, strip_prefix-append, reverse, arith,
}
use ttn.Base.Options.{◌>>=◌}

pub data Protocol : Type 0 where
  mqtt amqp : Protocol

pub data TopicType : Type 0 where
  events uplink downlink : TopicType

-- DeviceTopic and DeviceKey. An empty identifier stands for any.
pub record DeviceTopic : Type 0 where
  pub app_id : List ℕ
  pub dev_id : List ℕ
  pub type_of : TopicType
  pub field : List ℕ

abbrev pub separator : Protocol → ℕ
separator Protocol.mqtt = b'/'
separator Protocol.amqp = b'.'

-- The wildcard for an identifier.
abbrev pub any : Protocol → ℕ
any Protocol.mqtt = b'+'
any Protocol.amqp = b'*'

-- The field that stands for any event.
abbrev pub any_event : Protocol → ℕ
any_event Protocol.mqtt = b'+'
any_event Protocol.amqp = b'#'

abbrev pub has_field : Protocol → TopicType → Bool
has_field protocol TopicType.events = true
has_field Protocol.mqtt TopicType.uplink = true
has_field Protocol.amqp TopicType.uplink = false
has_field protocol TopicType.downlink = false

abbrev pub type_name : TopicType → List ℕ
type_name TopicType.events = codes "events"
type_name TopicType.uplink = codes "up"
type_name TopicType.downlink = codes "down"

-- [0-9a-z]
pub is_alnum : ℕ → Bool
is_alnum c = (leb b'0' c && leb c b'9') || (leb b'a' c && leb c b'z')

-- [_-]
pub is_joint : ℕ → Bool
is_joint c = (c == b'_') || (c == b'-')

-- (?:[_-]?[0-9a-z]){1,35}, after `n` repetitions, and within one if `half`.
pub is_tail : Bool → ℕ → List ℕ → Bool
unfolding is_alnum is_joint
is_tail half n [] = not half && leb 1 n && leb n 35
is_tail half n (c ∷ s) =
    let next = is_tail false (suc n) s in
    let opened = is_tail true n s in
    if is_alnum c then next else if not half && is_joint c then opened else false

-- [0-9a-z](?:[_-]?[0-9a-z]){1,35}
pub is_id : List ℕ → Bool
unfolding is_alnum is_tail
is_id [] = false
is_id (c ∷ s) = is_alnum c && is_tail false 0 s

-- The text up to a separator, and what follows it.
pub segment : ℕ → List ℕ → List ℕ × Option (List ℕ)
segment separator [] = ([], none)
segment separator (c ∷ s) =
    let (part, rest) = segment separator s in
    if c == separator then ([], some s) else (c ∷ part, rest)

read_id : Protocol → List ℕ × Option (List ℕ) → Option (List ℕ × List ℕ)
unfolding is_id
read_id protocol (part, none) = none
read_id protocol (part, some rest) =
    if same_codes part (any protocol ∷ [])
    then some ([], rest)
    else if is_id part
    then some (part, rest)
    else none

-- An identifier or the wildcard, and what follows the separator after it.
take_id : Protocol → List ℕ → Option (List ℕ × List ℕ)
unfolding read_id segment
take_id protocol s = read_id protocol (segment (separator protocol) s)

-- A literal, and what follows the separator after it.
take_devices : Protocol → List ℕ → Option (List ℕ)
take_devices protocol s = strip_prefix (codes "devices" ++ (separator protocol ∷ [])) s

take_type : List ℕ → Option (TopicType × List ℕ)
take_type s = elim (strip_prefix (type_name TopicType.events) s) [
  | some rest ↦ some (TopicType.events, rest)
  | none ↦ elim (strip_prefix (type_name TopicType.uplink) s) [
    | some rest ↦ some (TopicType.uplink, rest)
    | none ↦ elim (strip_prefix (type_name TopicType.downlink) s) [
      | some rest ↦ some (TopicType.downlink, rest)
      | none ↦ none
    ]
  ]
]

-- [0-9a-z/]* or [0-9a-z\.]*
pub is_field : Protocol → List ℕ → Bool
unfolding is_alnum
is_field protocol [] = true
is_field protocol (c ∷ s) = (is_alnum c || (c == separator protocol)) && is_field protocol s

trim_left : ℕ → List ℕ → List ℕ
trim_left separator [] = []
trim_left separator (c ∷ s) =
    let rest = trim_left separator s in if c == separator then rest else c ∷ s

-- strings.Trim
pub trim : ℕ → List ℕ → List ℕ
unfolding trim_left
trim separator s = reverse (trim_left separator (reverse (trim_left separator s)))

with_field : Protocol → List ℕ → List ℕ → TopicType × List ℕ → Option DeviceTopic
unfolding is_field trim
with_field protocol app_id dev_id (type_of, rest) =
    if is_field protocol rest
    then some (record {
      app_id = app_id;
      dev_id = dev_id;
      type_of = type_of;
      field = if has_field protocol type_of then trim (separator protocol) rest else [];
    })
    else none

-- ParseDeviceTopic and ParseDeviceKey.
pub parse_device_topic : Protocol → List ℕ → Option DeviceTopic
unfolding take_id take_devices take_type with_field
parse_device_topic protocol s = do
  (app_id, s1) ← take_id protocol s
  s2 ← take_devices protocol s1
  (dev_id, s3) ← take_id protocol s2
  typed ← take_type s3
  with_field protocol app_id dev_id typed

id_or_any : Protocol → List ℕ → List ℕ
id_or_any protocol [] = any protocol ∷ []
id_or_any protocol (c ∷ s) = c ∷ s

is_empty : List ℕ → Bool
is_empty [] = true
is_empty (c ∷ s) = false

-- The field that is written: that of any event, where an event has none.
field_or_any : Protocol → DeviceTopic → List ℕ
field_or_any protocol topic = elim topic.type_of [
  | TopicType.events ↦ if is_empty topic.field then any_event protocol ∷ [] else topic.field
  | _ ↦ topic.field
]

field_text : Protocol → DeviceTopic → List ℕ
unfolding field_or_any is_empty
field_text protocol topic =
    let field = field_or_any protocol topic in
    if has_field protocol topic.type_of && not (is_empty field)
    then separator protocol ∷ field
    else []

-- DeviceTopic.String and DeviceKey.String.
pub to_string : Protocol → DeviceTopic → List ℕ
unfolding id_or_any field_text
to_string protocol topic =
    id_or_any protocol topic.app_id
    ++ (separator protocol
        ∷ (codes "devices"
            ++ (separator protocol
                ∷ (id_or_any protocol topic.dev_id
                    ++ (separator protocol
                        ∷ (type_name topic.type_of ++ field_text protocol topic))))))
