-- ===== src/Handler/ConvertFields/Laws.antt =====
-- The bytes that an encoder's array stands for, and what the payload functions can stop.
use ttn.Base.{
  ℕ, ◌≤◌, ◌<◌, ◌^◌, ◌≡◌, ◌≢◌, ◌↔◌, refl, sym, ◌∙◌, true, false, List, [], ◌∷◌, Result, ok, err,
  Error, ◌>>=◌, arith, bind_assoc, All,
}
use ttn.Base.Int.{ℤ, pos}
use ttn.Handler.Types.{Fields, AppUplink, DeviceEvent, EventData, Verdict}
use ttn.Handler.ConvertFields.{
  Element, Vm, Application, number_of, byte_of, encode_elements, process_up, int64, no_integers,
  no_byte,
}

-- The number that an element is; a float that is no integer, or a value of another type, is none.
abbrev pub Denotes : Element → ℕ → Type 0
Denotes (Element.integer n) b = n ≡ pos b
Denotes (Element.unsigned_64 n) b = n ≡ b
Denotes (Element.floating n true) b = n ≡ pos b
Denotes (Element.floating n false) b = ⊥
Denotes Element.other b = ⊥

-- One byte for each element.
abbrev pub IsEncoded : List Element → List ℕ → Type 0
IsEncoded [] [] = Unit
IsEncoded (e ∷ es) (b ∷ bs) = Denotes e b × (b ≤ 255) × IsEncoded es bs
IsEncoded es bs = ⊥

-- A uint64.
abbrev pub IsSized : Element → Type 0
IsSized (Element.unsigned_64 n) = n < 2 ^ 64
IsSized e = Unit

byte_of_iff : (n : ℤ) (b : ℕ) → (byte_of n ≡ ok b) ↔ ((n ≡ pos b) × (b ≤ 255))
unfolding byte_of no_byte
byte_of_iff n b = ground arith

element_iff :
    (e : Element) (b : ℕ)
    → IsSized e
    → ((number_of e >>= byte_of) ≡ ok b) ↔ (Denotes e b × (b ≤ 255))
unfolding number_of int64 no_integers byte_of no_byte
element_iff (Element.integer n) b s = byte_of_iff n b
element_iff (Element.unsigned_64 n) b s = ground arith
element_iff (Element.floating n true) b s = byte_of_iff n b
element_iff (Element.floating n false) b s = ground arith
element_iff Element.other b s = ground arith

cons_iff :
    (first : Result ℕ) (rest : Result (List ℕ)) (b : ℕ) (bs : List ℕ)
    → ((first >>= λ byte. rest >>= λ bytes. ok (byte ∷ bytes)) ≡ ok (b ∷ bs))
      ↔ ((first ≡ ok b) × (rest ≡ ok bs))
cons_iff (err x) rest b bs = ground arith
cons_iff (ok n) (err x) b bs = ground arith
cons_iff (ok n) (ok ns) b bs = ground arith

cons≢nil :
    (first : Result ℕ) (rest : Result (List ℕ))
    → (first >>= λ byte. rest >>= λ bytes. ok (byte ∷ bytes)) ≢ ok []
cons≢nil (err x) rest e = cc
cons≢nil (ok n) (err x) e = cc
cons≢nil (ok n) (ok ns) e = cc

encode_elements_cons :
    (e : Element) (es : List Element)
    → encode_elements (e ∷ es)
      ≡ ((number_of e >>= byte_of) >>= λ byte. encode_elements es >>= λ bytes. ok (byte ∷ bytes))
unfolding encode_elements
encode_elements_cons e es = sym (bind_assoc (number_of e) byte_of _)

-- An array is encoded as the bytes `bytes` exactly if these are the numbers of its elements, all of
-- which are integers from 0 to 255.
pub encode_elements_iff :
    (elements : List Element) (bytes : List ℕ)
    → All IsSized elements
    → (encode_elements elements ≡ ok bytes) ↔ IsEncoded elements bytes
unfolding encode_elements
encode_elements_iff [] [] s = ((λ e. tt), (λ e. refl))
encode_elements_iff [] (b ∷ bs) s = ((λ e. cc), (λ e. absurd e))
encode_elements_iff (e ∷ es) [] s = (
  (λ h.
      cons≢nil (number_of e >>= byte_of) (encode_elements es)
        (sym (encode_elements_cons e es) ∙ h)),
  (λ h. absurd h),
)
encode_elements_iff (e ∷ es) (b ∷ bs) (sized, all) =
    let rest = encode_elements_iff es bs all in
    let first = element_iff e b sized in
    let both = cons_iff (number_of e >>= byte_of) (encode_elements es) b bs in
    (
      (λ h.
          let (f, r) = both.0 (sym (encode_elements_cons e es) ∙ h) in
          let (d, l) = first.0 f in (d, l, rest.0 r)),
      (λ h. encode_elements_cons e es ∙ both.1 (first.1 (h.0, h.1), rest.1 h.2)),
    )

-- What comes of a message, by how the application is found and its functions end.
pub record PassesUp (vm : Vm) (app : Result Application) (up : AppUplink)
    (result : Verdict × AppUplink × List DeviceEvent) : Type 0 where
  pub unknown : (e : Error) → app ≡ err e → result ≡ (Verdict.goes_on, up, [])
  pub broken :
      (a : Application) (e : Error)
      → app ≡ ok a
      → process_up vm a up.payload_raw up.f_port ≡ err e
      → result ≡ (
        Verdict.goes_on,
        up,
        record { app_id = up.app_id; dev_id = up.dev_id; data_of = EventData.uplink_error e } ∷ [],
      )
  pub valid :
      (a : Application) (given : Fields)
      → app ≡ ok a
      → process_up vm a up.payload_raw up.f_port ≡ ok (given, true)
      → result ≡ (Verdict.goes_on, record up { payload_fields = given }, [])
