-- ===== src/Topics/RoundTrip.antt =====
-- A name that is written for a topic is read as this topic.
use ttn.Base.{
  ℕ, suc, ◌≡◌, ◌≢◌, ◌⊎◌, inl, inr, refl, sym, ap, ◌∙◌, Bool, true, false, List, [], ◌∷◌, ◌++◌, some,
  ◌==◌, if◌then◌else◌, codes, same_codes, same_codes_iff, Bool-cases, strip_prefix,
  strip_prefix-append, arith,
}
use ttn.Topics.{
  Protocol, TopicType, DeviceTopic, separator, any, has_field, type_name, is_alnum, is_joint,
  is_tail, is_id, segment, read_id, take_id, take_devices, take_type, is_field, trim_left, trim,
  with_field, parse_device_topic, id_or_any, is_empty, field_or_any, field_text, to_string,
}

-- No separator of the protocol.
abbrev IsFree : ℕ → List ℕ → Type 0
IsFree separator [] = Unit
IsFree separator (c ∷ s) = ((c == separator) ≡ false) × IsFree separator s

alnum_free : (protocol : Protocol) (c : ℕ) → is_alnum c ≡ true → (c == separator protocol) ≡ false
unfolding is_alnum
alnum_free Protocol.mqtt c h = ground arith
alnum_free Protocol.amqp c h = ground arith

joint_free : (protocol : Protocol) (c : ℕ) → is_joint c ≡ true → (c == separator protocol) ≡ false
unfolding is_joint
joint_free Protocol.mqtt c h = ground arith
joint_free Protocol.amqp c h = ground arith

tail-IsFree :
    (protocol : Protocol) (half : Bool) (n : ℕ) (s : List ℕ)
    → is_tail half n s ≡ true
    → IsFree (separator protocol) s
unfolding is_tail
tail-IsFree protocol half n [] h = tt
tail-IsFree protocol half n (c ∷ s) h = elim (Bool-cases (is_alnum c)) [
  | inl e ↦ (alnum_free protocol c e, tail-IsFree protocol false (suc n) s (ground arith))
  | inr e ↦ elim (Bool-cases (is_joint c)) [
    | inl j ↦ (joint_free protocol c j, tail-IsFree protocol true n s (ground arith))
    | inr j ↦ absurd (ground arith)
  ]
]

id-IsFree : (protocol : Protocol) (s : List ℕ) → is_id s ≡ true → IsFree (separator protocol) s
unfolding is_id
id-IsFree protocol [] h = tt
id-IsFree protocol (c ∷ s) h =
    (alnum_free protocol c (ground arith), tail-IsFree protocol false 0 s (ground arith))

segment-append :
    (separator : ℕ) (s rest : List ℕ)
    → IsFree separator s
    → segment separator (s ++ (separator ∷ rest)) ≡ (s, some rest)
unfolding segment
segment-append separator [] rest h = ground arith
segment-append separator (c ∷ s) rest (f, h) = rw (segment-append separator s rest h) (rw f refl)

-- An identifier, or none.
abbrev pub IsIdentifier : List ℕ → Type 0
IsIdentifier s = (s ≡ []) ⊎ (is_id s ≡ true)

any_no_id : (protocol : Protocol) → is_id (any protocol ∷ []) ≡ false
unfolding is_id is_alnum
any_no_id Protocol.mqtt = refl
any_no_id Protocol.amqp = refl

any-IsFree : (protocol : Protocol) → IsFree (separator protocol) (any protocol ∷ [])
any-IsFree Protocol.mqtt = (refl, tt)
any-IsFree Protocol.amqp = (refl, tt)

true≢false : true ≢ false
true≢false e = cc

id_no_any :
    (protocol : Protocol) (s : List ℕ) → is_id s ≡ true → same_codes s (any protocol ∷ []) ≡ false
id_no_any protocol s h = elim (Bool-cases (same_codes s (any protocol ∷ []))) [
  | inr e ↦ e
  | inl e ↦
      let same = (same_codes_iff s (any protocol ∷ [])).0 e in
      let none = sym h ∙ ap is_id same ∙ any_no_id protocol in absurd (true≢false none)
]

read_any :
    (protocol : Protocol) (rest : List ℕ)
    → read_id protocol (any protocol ∷ [], some rest) ≡ some ([], rest)
unfolding read_id same_codes
read_any Protocol.mqtt rest = refl
read_any Protocol.amqp rest = refl

read_some :
    (protocol : Protocol) (s rest : List ℕ)
    → is_id s ≡ true
    → read_id protocol (s, some rest) ≡ some (s, rest)
unfolding read_id
read_some protocol s rest h = rw (id_no_any protocol s h) (rw h refl)

take_id-append :
    (protocol : Protocol) (s rest : List ℕ)
    → IsIdentifier s
    → take_id protocol (id_or_any protocol s ++ (separator protocol ∷ rest)) ≡ some (s, rest)
unfolding take_id id_or_any
take_id-append protocol [] rest h =
    ap (read_id protocol)
      (segment-append (separator protocol) (any protocol ∷ []) rest (any-IsFree protocol))
    ∙ read_any protocol rest
take_id-append protocol (c ∷ s) rest (inl e) = cc
take_id-append protocol (c ∷ s) rest (inr e) =
    ap (read_id protocol)
      (segment-append (separator protocol) (c ∷ s) rest (id-IsFree protocol (c ∷ s) e))
    ∙ read_some protocol (c ∷ s) rest e

take_devices-append :
    (protocol : Protocol) (rest : List ℕ)
    → take_devices protocol (codes "devices" ++ (separator protocol ∷ rest)) ≡ some rest
unfolding take_devices
take_devices-append protocol rest =
    strip_prefix-append (codes "devices" ++ (separator protocol ∷ [])) rest

take_type-append :
    (type_of : TopicType) (rest : List ℕ)
    → take_type (type_name type_of ++ rest) ≡ some (type_of, rest)
unfolding take_type strip_prefix
take_type-append TopicType.events rest = refl
take_type-append TopicType.uplink rest = refl
take_type-append TopicType.downlink rest = refl

-- A field that can be read: of letters, digits and separators, none of these at its ends.
abbrev pub IsField : Protocol → List ℕ → Type 0
IsField protocol s = (is_field protocol s ≡ true) × (trim (separator protocol) s ≡ s)

-- A topic that can be written and read: with identifiers or none, and a field only where the type
-- has one, which an event needs.
abbrev pub IsTopic : Protocol → DeviceTopic → Type 0
IsTopic protocol topic =
    IsIdentifier topic.app_id
    × IsIdentifier topic.dev_id
    × IsField protocol topic.field
    × (has_field protocol topic.type_of ≡ false → topic.field ≡ [])
    × (topic.type_of ≡ TopicType.events → topic.field ≢ [])

separator_self : (protocol : Protocol) → (separator protocol == separator protocol) ≡ true
separator_self Protocol.mqtt = refl
separator_self Protocol.amqp = refl

trim_separator :
    (protocol : Protocol) (s : List ℕ)
    → trim (separator protocol) (separator protocol ∷ s) ≡ trim (separator protocol) s
unfolding trim trim_left
trim_separator Protocol.mqtt s = refl
trim_separator Protocol.amqp s = refl

is_field-separator :
    (protocol : Protocol) (s : List ℕ)
    → is_field protocol s ≡ true
    → is_field protocol (separator protocol ∷ s) ≡ true
unfolding is_field is_alnum
is_field-separator Protocol.mqtt s h = h
is_field-separator Protocol.amqp s h = h

abbrev no_codes : List ℕ
no_codes = []

either_nil : (b : Bool) → (if b then no_codes else no_codes) ≡ no_codes
either_nil true = refl
either_nil false = refl

module _ (protocol : Protocol) (app_id dev_id : List ℕ) where
  abbrev with_parts : TopicType → List ℕ → DeviceTopic
  with_parts type_of field = record {
    app_id = app_id;
    dev_id = dev_id;
    type_of = type_of;
    field = field;
  }

  with_field_of_field :
      (type_of : TopicType) (s : List ℕ)
      → has_field protocol type_of ≡ true
      → IsField protocol s
      → with_field protocol app_id dev_id (type_of, separator protocol ∷ s)
        ≡ some (with_parts type_of s)
  unfolding with_field
  with_field_of_field type_of s h (f, t) =
      rw (is_field-separator protocol s f)
        (rw h (ap (λ x. some (with_parts type_of x)) (trim_separator protocol s ∙ t)))

  with_field_of_nothing :
      (type_of : TopicType)
      → with_field protocol app_id dev_id (type_of, []) ≡ some (with_parts type_of [])
  unfolding with_field is_field trim trim_left
  with_field_of_nothing type_of =
      ap (λ x. some (with_parts type_of x)) (either_nil (has_field protocol type_of))

cons≢nil : {c : ℕ} {s : List ℕ} → (c ∷ s) ≢ []
cons≢nil e = cc

with_field_text :
    (protocol : Protocol) (app_id dev_id : List ℕ) (type_of : TopicType) (field : List ℕ)
    → IsField protocol field
    → (has_field protocol type_of ≡ false → field ≡ [])
    → (type_of ≡ TopicType.events → field ≢ [])
    → with_field protocol app_id dev_id
        (type_of, field_text protocol (with_parts protocol app_id dev_id type_of field))
      ≡ some (with_parts protocol app_id dev_id type_of field)
unfolding field_text field_or_any is_empty
with_field_text p a d TopicType.events [] f n e = absurd (e refl refl)
with_field_text p a d TopicType.events (c ∷ s) f n e =
    with_field_of_field p a d TopicType.events (c ∷ s) refl f
with_field_text Protocol.mqtt a d TopicType.uplink [] f n e =
    with_field_of_nothing Protocol.mqtt a d TopicType.uplink
with_field_text Protocol.amqp a d TopicType.uplink [] f n e =
    with_field_of_nothing Protocol.amqp a d TopicType.uplink
with_field_text Protocol.mqtt a d TopicType.uplink (c ∷ s) f n e =
    with_field_of_field Protocol.mqtt a d TopicType.uplink (c ∷ s) refl f
with_field_text Protocol.amqp a d TopicType.uplink (c ∷ s) f n e = absurd (cons≢nil (n refl))
with_field_text p a d TopicType.downlink [] f n e = with_field_of_nothing p a d TopicType.downlink
with_field_text p a d TopicType.downlink (c ∷ s) f n e = absurd (cons≢nil (n refl))

-- The name that is written for a topic is read as this topic, for both protocols: where its
-- identifiers are well-formed or empty, its field has only letters, digits and separators, none of
-- these at its ends, the type has a field if there is one, and an event has one.
pub parse_device_topic-to_string :
    (protocol : Protocol) (topic : DeviceTopic)
    → IsTopic protocol topic
    → parse_device_topic protocol (to_string protocol topic) ≡ some topic
unfolding parse_device_topic to_string
parse_device_topic-to_string protocol topic (a, d, f, n, e) =
    rw (take_id-append protocol topic.app_id _ a) (
      rw (take_devices-append protocol _) (
        rw (take_id-append protocol topic.dev_id _ d) (
          rw (take_type-append topic.type_of _)
            (with_field_text protocol topic.app_id topic.dev_id topic.type_of topic.field f n e))))
