-- ===== src/Errors/RoundTrip.antt =====
-- Errors that one component returns and another receives over gRPC.
use ttn.Base.{◌≡◌, refl, ◌∙◌, ap, String, Error, arith}
use ttn.Errors.{
  ErrType, Grpc, cause, get_err_type, direct_type, message, build_grpc_error, from_grpc_error,
  from_code, chosen_code,
}
use ttn.Errors.Texts.{trim_prefix, trim_suffix, trim_prefix-append, trim_suffix-append}

-- An error that the program made itself: no gRPC error, and no error of the runtime.
abbrev pub IsOwn : Error → Type 0
IsOwn (Error.grpc _ _) = ⊥
IsOwn Error.eof = ⊥
IsOwn Error.context_canceled = ⊥
IsOwn (Error.wrapped _ e) = IsOwn e
IsOwn e = Unit

chosen_code-own : (e c : Error) → IsOwn e → chosen_code e c ≡ chosen_code (Error.other "") c
unfolding chosen_code
chosen_code-own (Error.grpc _ _) c h = absurd h
chosen_code-own Error.eof c h = absurd h
chosen_code-own Error.context_canceled c h = absurd h
chosen_code-own e c h = refl

from_code-type :
    (g : Grpc) (c : Error) (desc : String)
    → get_err_type (from_code g (chosen_code (Error.other "") c) desc) ≡ direct_type c
unfolding get_err_type from_code chosen_code
from_code-type g (Error.invalid_argument a r) desc = ground arith
from_code-type g e desc = ground arith

-- An error of the program as it stands in the gRPC status.
build_own :
    (g : Grpc) (e : Error)
    → IsOwn e
    → build_grpc_error g e
      ≡ Error.grpc (chosen_code (Error.other "") (cause e)) (g.sprintf (message g e))
unfolding build_grpc_error
build_own g (Error.grpc _ _) h = absurd h
build_own g e h = ap (λ k. Error.grpc k (g.sprintf (message g e))) (chosen_code-own e (cause e) h)

-- The type of every error of the program, annotated or not, survives the way through gRPC.
pub get_err_type-round_trip :
    (g : Grpc) (e : Error)
    → IsOwn e
    → get_err_type (from_grpc_error g (build_grpc_error g e)) ≡ get_err_type e
unfolding from_grpc_error get_err_type
get_err_type-round_trip g e h =
    rw (build_own g e h) (from_code-type g (cause e) (g.sprintf (message g e)))

-- The typed errors with one field: an annotated error and an invalid argument are not among them.
abbrev pub IsSimple : Error → Type 0
IsSimple (Error.already_exists _) = Unit
IsSimple (Error.internal _) = Unit
IsSimple (Error.not_found _) = Unit
IsSimple (Error.permission_denied _) = Unit
IsSimple e = ⊥

-- A simple error whose text is its own format is received as it was sent.
pub from_grpc_error-build :
    (g : Grpc) (e : Error)
    → IsSimple e
    → g.sprintf (message g e) ≡ message g e
    → from_grpc_error g (build_grpc_error g e) ≡ e
unfolding from_grpc_error build_grpc_error message
from_grpc_error-build g (Error.already_exists s) h p =
    ap Error.already_exists (ap (trim_suffix " already exists") p ∙ trim_suffix-append s _)
from_grpc_error-build g (Error.internal s) h p =
    ap Error.internal (ap (trim_prefix "Internal error: ") p ∙ trim_prefix-append _ s)
from_grpc_error-build g (Error.not_found s) h p =
    ap Error.not_found (ap (trim_suffix " not found") p ∙ trim_suffix-append s _)
from_grpc_error-build g (Error.permission_denied s) h p =
    ap Error.permission_denied (ap (trim_prefix "permission denied: ") p ∙ trim_prefix-append _ s)
from_grpc_error-build g e h p = absurd h

-- The end of a stream does not survive: it is sent as OutOfRange, and received as an internal error.
pub eof_becomes_internal :
    (g : Grpc) → get_err_type (from_grpc_error g (build_grpc_error g Error.eof)) ≡ ErrType.internal
unfolding from_grpc_error build_grpc_error get_err_type
eof_becomes_internal g = refl
