-- ===== src/Handler/ConvertFields.antt =====
-- core/handler/convert_fields.go: payloads from and to fields, by the JavaScript functions of an
-- application. The virtual machine is a parameter.
pub mod Laws
use ttn.Base.{
  ℕ, ◌-◌, ◌+◌, ◌≤◌, ◌<◌, ◌^◌, Bool, true, false, not, ◌||◌, List, [], ◌∷◌, Option, none, some,
  String, Result, ok, err, Error, ◌>>=◌, ltb, leb, str_eq, length, if◌then◌else◌,
}
use ttn.Base.Int.{ℤ, pos, negsuc}
use ttn.Errors.Texts.{append}
use ttn.Handler.Types.{Fields, AppDownlink, AppUplink, EventData, DeviceEvent, Verdict}

-- An element of an exported array, by the type that the code tells apart: a signed integer, or one of
-- up to 32 bits; a uint64; a float, with its integral part as an int64 and whether it is that
-- integer; anything else.
pub data Element : Type 0 where
  integer : ℤ → Element
  unsigned_64 : ℕ → Element
  floating : ℤ → Bool → Element
  other : Element

pub data Exported : Type 0 where
  object : Fields → Exported
  array : List Element → Exported
  other : Exported

-- A value of the virtual machine, by the methods that are called on it.
pub record Value : Type 0 where
  pub is_object : Bool
  pub is_boolean : Bool
  pub exported : Result Exported
  pub to_boolean : Result Bool

-- The variables that a function is run with.
pub data Variables : Type 0 where
  payload_bytes : List ℕ → ℕ → Variables
  fields : Fields → ℕ → Variables
  payload_fields : Fields → ℕ → Variables

-- functions.RunCode: by the name of the function, the code and the variables.
abbrev pub Vm : Type 0
Vm = String → String → Variables → Result Value

-- The functions of an application.
pub record Application : Type 0 where
  pub decoder : String
  pub converter : String
  pub validator : String
  pub encoder : String

-- The code of a function, and its call.
calling : String → String → String
calling function call = append "\n\t\t" (append function (append ";\n\t\t" (append call "\n\t")))

no_object : {A : Type 0} → String → Result A
no_object name = err (Error.invalid_argument name "does not return an object")

object_of : String → Result Exported → Result Fields
unfolding no_object
object_of name (ok (Exported.object given)) = ok given
object_of name (ok _) = no_object name
object_of name (err e) = no_object name

-- A value that must be an object with fields.
fields_of : String → Value → Result Fields
unfolding no_object object_of
fields_of name value = if value.is_object then object_of name value.exported else no_object name

boolean_of : Value → Result Bool
boolean_of value =
    if value.is_boolean
    then value.to_boolean
    else err (Error.invalid_argument "Validator" "does not return a boolean")

module _ (vm : Vm) (app : Application) where
  pub decode : List ℕ → ℕ → Result Fields
  unfolding calling fields_of
  decode payload port =
      if str_eq app.decoder ""
      then ok []
      else (vm "Decoder" (calling app.decoder "Decoder(payload.slice(0), port);")
            (Variables.payload_bytes payload port)
          >>= fields_of "Decoder")

  pub convert : Fields → ℕ → Result Fields
  unfolding calling fields_of
  convert given port =
      if str_eq app.converter ""
      then ok given
      else (vm "Converter" (calling app.converter "Converter(fields, port)")
            (Variables.fields given port)
          >>= fields_of "Converter")

  pub validate : Fields → ℕ → Result Bool
  unfolding calling boolean_of
  validate given port =
      if str_eq app.validator ""
      then ok true
      else (vm "Validator" (calling app.validator "Validator(fields, port)")
            (Variables.fields given port)
          >>= boolean_of)

  -- UplinkFunctions.Process: the fields, and whether they are valid.
  pub process_up : List ℕ → ℕ → Result (Fields × Bool)
  unfolding decode convert validate
  process_up payload port = do
    decoded ← decode payload port
    converted ← convert decoded port
    valid ← validate converted port
    ok (converted, valid)

-- int64 of a uint64.
int64 : ℕ → ℤ
int64 n = if ltb n (2 ^ 63) then pos n else negsuc (2 ^ 64 - n - 1)

no_integers : Result ℤ
no_integers = err (Error.invalid_argument "Encoder" "should return an Array of integer numbers")

pub number_of : Element → Result ℤ
unfolding int64 no_integers
number_of (Element.integer n) = ok n
number_of (Element.unsigned_64 n) = ok (int64 n)
number_of (Element.floating n is_exact) = if is_exact then ok n else no_integers
number_of Element.other = no_integers

no_byte : Result ℕ
no_byte =
    err (Error.invalid_argument "Encoder Output" "Numbers in Array should be between 0 and 255")

pub byte_of : ℤ → Result ℕ
unfolding no_byte
byte_of (pos n) = if ltb 255 n then no_byte else ok n
byte_of (negsuc n) = no_byte

-- The loop over the elements.
pub encode_elements : List Element → Result (List ℕ)
unfolding number_of byte_of
encode_elements [] = ok []
encode_elements (element ∷ rest) = do
  n ← number_of element
  byte ← byte_of n
  bytes ← encode_elements rest
  ok (byte ∷ bytes)

array_of : Exported → Result (List ℕ)
unfolding encode_elements
array_of (Exported.array elements) = encode_elements elements
array_of _ = err (Error.invalid_argument "Encoder" "does not return an Array")

encoded_of : Value → Result (List ℕ)
unfolding no_object array_of
encoded_of value = if value.is_object then (value.exported >>= array_of) else no_object "Encoder"

-- Encode, and DownlinkFunctions.Process.
pub encode : Vm → Application → Fields → ℕ → Result (List ℕ)
unfolding calling encoded_of
encode vm app given port =
    if str_eq app.encoder ""
    then err
        (Error.invalid_argument "Downlink Payload" "fields supplied, but no Encoder function set")
    else (vm "Encoder" (calling app.encoder "Encoder(payload, port)")
          (Variables.payload_fields given port)
        >>= encoded_of)

-- The end of ConvertFieldsUp, for what the functions give.
pub with_fields : AppUplink → Result (Fields × Bool) → Verdict × AppUplink × List DeviceEvent
with_fields up (err e) = (
  Verdict.goes_on,
  up,
  record { app_id = up.app_id; dev_id = up.dev_id; data_of = EventData.uplink_error e } ∷ [],
)
with_fields up (ok (given, valid)) =
    if valid then (Verdict.goes_on, record up { payload_fields = given }, []) else (
      Verdict.fails (Error.invalid_argument "Payload" "payload validator function returned false"),
      up,
      [],
    )

-- ConvertFieldsUp, for the application as the store gives it.
pub convert_fields_up : Vm → Result Application → AppUplink → Verdict × AppUplink × List DeviceEvent
unfolding process_up with_fields
convert_fields_up vm (err e) up = (Verdict.goes_on, up, [])
convert_fields_up vm (ok app) up = with_fields up (process_up vm app up.payload_raw up.f_port)

with_payload : AppDownlink → Result (List ℕ) → Verdict × AppDownlink
with_payload down (err e) = (Verdict.fails e, down)
with_payload down (ok bytes) = (Verdict.goes_on, record down { payload_raw = some bytes })

encode_for : Vm → Result Application → AppDownlink → Verdict × AppDownlink
unfolding encode with_payload
encode_for vm (err e) down = (Verdict.goes_on, down)
encode_for vm (ok app) down = with_payload down (encode vm app down.payload_fields down.f_port)

-- ConvertFieldsDown.
pub convert_fields_down : Vm → Result Application → AppDownlink → Verdict × AppDownlink
unfolding encode_for
convert_fields_down vm app down = elim down.payload_fields [
  | [] ↦ (Verdict.goes_on, down)
  | _ ∷ _ ↦ elim down.payload_raw [
    | some _ ↦
        (Verdict.fails (Error.invalid_argument "Downlink" "Both Fields and Payload provided"), down)
    | none ↦ encode_for vm app down
  ]
]
