-- ===== src/Base/Results.antt =====
-- Errors as values: the error types of utils/errors, and the results of fallible calls.
use Prim.Native.String.{String}
use mathlib.Core.Path.{◌≡◌, refl, ap}
use mathlib.Core.Option.{Option, none, some}

-- The status codes of gRPC.
pub data Code : Type 0 where
  canceled unknown invalid_argument deadline_exceeded not_found already_exists : Code
  permission_denied resource_exhausted failed_precondition aborted out_of_range : Code
  unimplemented internal unavailable data_loss unauthenticated : Code

-- utils/errors: the typed errors with their fields; an error that Wrap has annotated; a gRPC error;
-- io.EOF, context.Canceled, and any other error by its text.
pub data Error : Type 0 where
  already_exists internal not_found permission_denied other : String → Error
  invalid_argument : String → String → Error
  wrapped : String → Error → Error
  grpc : Code → String → Error
  eof context_canceled : Error

pub data Result {ℓ} (A : Type ℓ) : Type ℓ where
  ok : A → Result A
  err : Error → Result A

-- A missing value as an error.
abbrev pub or_fail {ℓ} : {A : Type ℓ} → Option A → Error → Result A
or_fail none e = err e
or_fail (some a) e = ok a

infixl 5 ◌>>=◌ ◌>>◌
abbrev pub ◌>>=◌ {ℓ κ} :
    {Value : Type ℓ} {Next : Type κ} → Result Value → (Value → Result Next) → Result Next
err failure >>= next = err failure
ok value >>= next = next value

-- A step that gives no value.
abbrev pub ◌>>◌ {ℓ} : {Next : Type ℓ} → Result (Unit {0}) → Result Next → Result Next
first >> next = first >>= λ _. next

pub or_fail-eq_ok {ℓ} :
    {A : Type ℓ} (o : Option A) (e : Error) {a : A} → or_fail o e ≡ ok a → o ≡ some a
or_fail-eq_ok none x h = cc
or_fail-eq_ok (some b) x h = cc

pub ok_inj {ℓ} : {A : Type ℓ} {a b : A} → ok a ≡ ok b → a ≡ b
ok_inj e = cc

-- How a call ends that may also panic, or wait for ever on a lock that is never released.
pub data Outcome {ℓ} (A : Type ℓ) : Type ℓ where
  done : A → Outcome A
  fails : Error → Outcome A
  panics blocks : Outcome A

-- A successful chain, taken apart at its first step.
pub from_bind {ℓ κ μ} :
    {A : Type ℓ} {B : Type κ} {C : Type μ} (m : Result A) (f : A → Result B) {b : B}
    → (m >>= f) ≡ ok b
    → ((a : A) → m ≡ ok a → f a ≡ ok b → C)
    → C
from_bind (ok a) f h k = k a refl h
from_bind (err e) f h k = cc

pub done_inj {ℓ} : {A : Type ℓ} {a b : A} → done a ≡ done b → a ≡ b
done_inj {a = a} e = ap (λ o. elim o [ done x ↦ x | _ ↦ a ]) e

pub bind_assoc {ℓ κ μ} :
    {A : Type ℓ} {B : Type κ} {C : Type μ} (m : Result A) (f : A → Result B) (g : B → Result C)
    → ((m >>= f) >>= g) ≡ (m >>= λ a. f a >>= g)
bind_assoc (ok a) f g = refl
bind_assoc (err e) f g = refl
