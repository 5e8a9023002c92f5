-- ===== src/Types/Hex.antt =====
-- core/types/parse_hex.go, and the textual form of the binary types.
use ttn.Base.{
  ℕ, zero, suc, ◌+◌, ◌-◌, ◌*◌, ◌/◌, ◌%◌, ◌<◌, ◌≡◌, refl, ap, ap₂, sym, ◌∙◌, inl, inr, Bool, true,
  false, ◌&&◌, ◌||◌, List, [], ◌∷◌, Result, ok, err, Error, ltb, leb, ◌==◌, if◌then◌else◌, All,
  arith, length, Bool-cases, ==_iff,
}

-- The class [[:xdigit:]].
pub is_xdigit : ℕ → Bool
is_xdigit c = (leb 48 c && leb c 57) || ((leb 65 c && leb c 70) || (leb 97 c && leb c 102))

digit_value : ℕ → ℕ
digit_value c = if leb c 57 then c - 48 else if leb c 70 then c - 55 else c - 87

all_xdigits : List ℕ → Bool
all_xdigits [] = true
all_xdigits (c ∷ cs) = is_xdigit c && all_xdigits cs

-- hex.DecodeString, which is given pairs of digits only.
decode : List ℕ → List ℕ
unfolding digit_value
decode (a ∷ b ∷ cs) = (16 * digit_value a + digit_value b) ∷ decode cs
decode cs = []

pub zeros : ℕ → List ℕ
zeros zero = []
zeros (suc n) = 0 ∷ zeros n

pub length-zeros : (n : ℕ) → length (zeros n) ≡ n
unfolding zeros
length-zeros zero = refl
length-zeros (suc n) = omega (arith, length-zeros n)

-- ParseHEX: the empty text stands for zeros. The text of the error also names the input.
pub parse_hex : List ℕ → ℕ → Result (List ℕ)
unfolding all_xdigits decode
parse_hex [] n = ok (zeros n)
parse_hex (c ∷ cs) n =
    if all_xdigits (c ∷ cs) && (length (c ∷ cs) == 2 * n)
    then ok (decode (c ∷ cs))
    else err (Error.other "Invalid input: not hex")

upper_digit : ℕ → ℕ
upper_digit d = if ltb d 10 then 48 + d else 55 + d

-- strings.ToUpper of hex.EncodeToString.
pub encode : List ℕ → List ℕ
unfolding upper_digit
encode [] = []
encode (b ∷ bs) = upper_digit (b / 16) ∷ upper_digit (b % 16) ∷ encode bs

pub is_zero : List ℕ → Bool
is_zero [] = true
is_zero (b ∷ bs) = (b == 0) && is_zero bs

-- String: the empty text for zeros.
pub to_text : List ℕ → List ℕ
to_text bs = if is_zero bs then [] else encode bs

-- Bytes, and as many as a type has.
abbrev pub IsBytes : ℕ → List ℕ → Type 0
IsBytes n bs = All (λ b. b < 256) bs × (length bs ≡ n)

upper_digit_lem :
    (d : ℕ) → d < 16 → (is_xdigit (upper_digit d) ≡ true) × (digit_value (upper_digit d) ≡ d)
unfolding is_xdigit upper_digit digit_value
upper_digit_lem d h = ground arith

all_xdigits-encode : (bs : List ℕ) → All (λ b. b < 256) bs → all_xdigits (encode bs) ≡ true
unfolding all_xdigits encode
all_xdigits-encode [] h = refl
all_xdigits-encode (b ∷ bs) (h, k) =
    let (p, q) = upper_digit_lem (b / 16) (omega arith) in
    let (r, s) = upper_digit_lem (b % 16) (omega arith) in rw (p, r, all_xdigits-encode bs k)

decode-encode : (bs : List ℕ) → All (λ b. b < 256) bs → decode (encode bs) ≡ bs
unfolding decode encode
decode-encode [] h = refl
decode-encode (b ∷ bs) (h, k) =
    let (p, q) = upper_digit_lem (b / 16) (omega arith) in
    let (r, s) = upper_digit_lem (b % 16) (omega arith) in
    let whole : 16 * (b / 16) + b % 16 ≡ b = omega arith in
    ap₂ (λ (x : ℕ) (xs : List ℕ). x ∷ xs) (ap₂ (λ x y. 16 * x + y) q s ∙ whole) (decode-encode bs k)

length-encode : (bs : List ℕ) → length (encode bs) ≡ 2 * length bs
unfolding encode
length-encode [] = omega arith
length-encode (b ∷ bs) = omega (arith, length-encode bs)

is_zero-zeros : (bs : List ℕ) → is_zero bs ≡ true → zeros (length bs) ≡ bs
unfolding is_zero zeros
is_zero-zeros [] e = refl
is_zero-zeros (b ∷ bs) e = elim (Bool-cases (b == 0)) [
  | inl k ↦
      let (zero_b, _) = ==_iff b 0 in
      ap₂ (λ (x : ℕ) (xs : List ℕ). x ∷ xs) (sym (zero_b k)) (is_zero-zeros bs (rw k at e))
  | inr k ↦ let absurd_e : false ≡ true = rw k at e in cc
]

parse_hex_lem :
    (cs : List ℕ) (n : ℕ)
    → all_xdigits cs ≡ true
    → length cs ≡ 2 * n
    → parse_hex cs n ≡ ok (decode cs)
unfolding parse_hex zeros
parse_hex_lem [] zero e h = refl
parse_hex_lem [] (suc n) e h = absurd (omega arith)
parse_hex_lem (c ∷ cs) n e h =
    let (_, same) = ==_iff (length (c ∷ cs)) (2 * n) in rw (e, same h) refl

-- The text of any value is read back as the value.
pub parse_hex-to_text : (n : ℕ) (bs : List ℕ) → IsBytes n bs → parse_hex (to_text bs) n ≡ ok bs
unfolding parse_hex to_text
parse_hex-to_text n bs (h, k) = elim (Bool-cases (is_zero bs)) [
  | inl z ↦ rw z (ap ok (rw k at (is_zero-zeros bs z)))
  | inr z ↦ rw z (
      parse_hex_lem (encode bs) n (all_xdigits-encode bs h) (length-encode bs ∙ ap (λ m. 2 * m) k)
      ∙ ap ok (decode-encode bs h))
]
