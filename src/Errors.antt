-- ===== src/Errors.antt =====
-- utils/errors/errors.go: the typed errors, and their way through gRPC.
pub mod Texts
pub mod RoundTrip
mod Tests
use ttn.Base.{Bool, true, false, Option, none, some, String, Code, Error, str_eq, if◌then◌else◌}
use Texts.{append, trim_prefix, trim_suffix, split_two}

-- The error types that GetErrType tells apart. No function gives OutOfRange.
pub data ErrType : Type 0 where
  already_exists internal invalid_argument not_found out_of_range permission_denied unknown :
      ErrType

-- Cause of package pkg/errors: the innermost error.
unfoldable pub cause : Error → Error
cause (Error.wrapped m e) = cause e
cause e = e

abbrev direct_type : Error → ErrType
direct_type (Error.already_exists _) = ErrType.already_exists
direct_type (Error.internal _) = ErrType.internal
direct_type (Error.invalid_argument _ _) = ErrType.invalid_argument
direct_type (Error.not_found _) = ErrType.not_found
direct_type (Error.permission_denied _) = ErrType.permission_denied
direct_type e = ErrType.unknown

unfoldable pub get_err_type : Error → ErrType
unfolding cause
get_err_type e = direct_type (cause e)

-- Library functions: the text of a gRPC error, the formatting that grpc.Errorf does with a text for
-- its format and no arguments, and the name of a code.
pub record Grpc : Type 0 where
  pub text : Code → String → String
  pub sprintf : String → String
  pub code_name : Code → String

-- grpc.Code and grpc.ErrorDesc: an error that is no gRPC error has the code Unknown and its own text.
grpc_code : Error → Code
grpc_code (Error.grpc code _) = code
grpc_code e = Code.unknown

is_unknown : Code → Bool
is_unknown Code.unknown = true
is_unknown c = false

-- The code that BuildGRPCError chooses: by the cause's type, then by the error itself.
chosen_code : Error → Error → Code
chosen_code Error.context_canceled c = Code.canceled
chosen_code Error.eof c = Code.out_of_range
chosen_code e (Error.already_exists _) = Code.already_exists
chosen_code e (Error.internal _) = Code.internal
chosen_code e (Error.invalid_argument _ _) = Code.invalid_argument
chosen_code e (Error.not_found _) = Code.not_found
chosen_code e (Error.permission_denied _) = Code.permission_denied
chosen_code e c = Code.unknown

module _ (g : Grpc) where
  -- The Error methods.
  pub message : Error → String
  message (Error.already_exists entity) = append entity " already exists"
  message (Error.internal text) = append "Internal error: " text
  message (Error.invalid_argument argument reason) = append argument (append " not valid: " reason)
  message (Error.not_found entity) = append entity " not found"
  message (Error.permission_denied reason) = append "permission denied: " reason
  message (Error.other text) = text
  message (Error.wrapped text e) = append text (append ": " (message e))
  message (Error.grpc code text) = g.text code text
  message Error.eof = "EOF"
  message Error.context_canceled = "context canceled"

  grpc_desc : Error → String
  unfolding message
  grpc_desc (Error.grpc _ text) = text
  grpc_desc e = message e

  -- The error of a call that returned one; nil stays nil.
  pub build_grpc_error : Error → Error
  unfolding grpc_code is_unknown chosen_code cause
  build_grpc_error e =
      if is_unknown (grpc_code e)
      then Error.grpc (chosen_code e (cause e)) (g.sprintf (message e))
      else e

  from_code : Code → String → Error
  from_code Code.already_exists desc = Error.already_exists (trim_suffix " already exists" desc)
  from_code Code.internal desc = Error.internal (trim_prefix "Internal error: " desc)
  from_code Code.invalid_argument desc = elim (split_two " not valid: " desc) [
    | some (argument, reason) ↦ Error.invalid_argument argument reason
    | none ↦ Error.invalid_argument "Argument" desc
  ]
  from_code Code.not_found desc = Error.not_found (trim_suffix " not found" desc)
  from_code Code.permission_denied desc =
      Error.permission_denied (trim_prefix "permission denied: " desc)
  from_code Code.unknown desc = if str_eq desc "EOF" then Error.eof else Error.other desc
  from_code code desc = Error.internal (append "[" (append (g.code_name code) (append "] " desc)))

  pub from_grpc_error : Error → Error
  unfolding grpc_code grpc_desc from_code
  from_grpc_error e = from_code (grpc_code e) (grpc_desc e)
