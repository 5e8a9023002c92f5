-- ===== src/Types/FixedBytes.antt =====
-- core/types/eui.go, keys.go, activation.go and dev_addr.go: values of a fixed number of bytes, with
-- their textual and binary forms. The types differ in their size and in the name that errors give
-- them: AppEUI and DevEUI use the methods of EUI64, the keys those of AES128Key.
-- A method with a pointer receiver gives what is left of the receiver, and its error.
use ttn.Base.{
  ℕ, zero, suc, ◌≡◌, refl, ap, sym, ◌∙◌, List, [], ◌∷◌, ◌++◌, Result, ok, err, Error, String, ◌==◌,
  if◌then◌else◌, arith, length, take, ==_iff,
}
use ttn.Errors.Texts.{append}
use ttn.Types.Hex.{parse_hex, to_text, zeros, IsBytes, length-zeros, parse_hex-to_text}

pub record Kind : Type 0 where
  pub size : ℕ
  pub name : String

abbrev pub dev_addr : Kind
dev_addr = record { size = 4; name = "DevAddr" }

abbrev pub eui64 : Kind
eui64 = record { size = 8; name = "EUI64" }

abbrev pub app_eui : Kind
app_eui = eui64

abbrev pub dev_eui : Kind
dev_eui = eui64

abbrev pub aes128_key : Kind
aes128_key = record { size = 16; name = "AES128Key" }

abbrev pub app_key : Kind
app_key = aes128_key

abbrev pub app_s_key : Kind
app_s_key = aes128_key

abbrev pub nwk_s_key : Kind
nwk_s_key = aes128_key

abbrev pub dev_nonce : Kind
dev_nonce = record { size = 2; name = "DevNonce" }

abbrev pub app_nonce : Kind
app_nonce = record { size = 3; name = "AppNonce" }

abbrev pub net_id : Kind
net_id = record { size = 3; name = "NetID" }

drop : ℕ → List ℕ → List ℕ
drop zero xs = xs
drop (suc n) [] = []
drop (suc n) (x ∷ xs) = drop n xs

-- The built-in copy: as many bytes as both have.
pub copy : List ℕ → List ℕ → List ℕ
unfolding drop
copy target source = take (length target) source ++ drop (length source) target

-- MarshalText, and String.
pub marshal_text : Kind → List ℕ → List ℕ
marshal_text kind value = to_text value

-- UnmarshalText; an error leaves the receiver as it is.
pub unmarshal_text : Kind → List ℕ → List ℕ → List ℕ × Result (Unit {0})
unmarshal_text kind receiver input = elim (parse_hex input kind.size) [
  | err e ↦ (receiver, err e)
  | ok bytes ↦ (copy receiver bytes, ok tt)
]

-- UnmarshalBinary; an error leaves the receiver as it is.
pub unmarshal_binary : Kind → List ℕ → List ℕ → List ℕ × Result (Unit {0})
unmarshal_binary kind receiver input =
    if length input == kind.size
    then (copy receiver input, ok tt)
    else (receiver, err (Error.other (append "ttn/core: Invalid length for " kind.name)))

-- MarshalTo: the buffer, and the number of bytes that it reports.
pub marshal_to : Kind → List ℕ → List ℕ → List ℕ × ℕ
marshal_to kind value buffer = (copy buffer value, kind.size)

-- Unmarshal: the receiver is reset first, also if there is an error.
pub unmarshal : Kind → List ℕ → List ℕ → List ℕ × Result (Unit {0})
unmarshal kind receiver input = unmarshal_binary kind (zeros kind.size) input

drop-end : (n : ℕ) (xs : List ℕ) → length xs ≡ n → drop n xs ≡ []
unfolding drop
drop-end zero [] h = refl
drop-end zero (x ∷ xs) h = absurd (omega arith)
drop-end (suc n) [] h = refl
drop-end (suc n) (x ∷ xs) h = drop-end n xs (omega arith)

take-all : (n : ℕ) (xs : List ℕ) → length xs ≡ n → take n xs ++ [] ≡ xs
take-all zero [] h = refl
take-all zero (x ∷ xs) h = absurd (omega arith)
take-all (suc n) [] h = refl
take-all (suc n) (x ∷ xs) h = ap (λ (ys : List ℕ). x ∷ ys) (take-all n xs (omega arith))

copy-same : (target source : List ℕ) → length target ≡ length source → copy target source ≡ source
unfolding copy
copy-same target source h =
    rw (drop-end (length source) target h) (take-all (length target) source (sym h))

-- A value that was marshaled as text or in binary is unmarshaled as the same value, whatever the
-- receiver held.
pub unmarshal-marshal :
    (kind : Kind) (receiver value : List ℕ)
    → IsBytes kind.size value
    → length receiver ≡ kind.size
    → (unmarshal_text kind receiver (marshal_text kind value) ≡ (value, ok tt))
      × (unmarshal_binary kind receiver value ≡ (value, ok tt))
      × (unmarshal kind receiver value ≡ (value, ok tt))
unfolding unmarshal_text marshal_text unmarshal_binary unmarshal
unmarshal-marshal kind receiver value (h, k) l =
    let (_, same) = ==_iff (length value) kind.size in
    (
      rw
          (
            unmarshal_text,
            parse_hex-to_text kind.size value (h, k),
            copy-same receiver value (l ∙ sym k),
          )
          refl,
      rw (same k, copy-same receiver value (l ∙ sym k)) refl,
      rw (same k, copy-same (zeros kind.size) value (length-zeros kind.size ∙ sym k)) refl,
    )
