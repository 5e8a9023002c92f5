-- ===== src/Types/DevAddr.antt =====
-- core/types/dev_addr.go: prefixes of device addresses. An address is a list of four bytes; the masks
-- 0xff >> k and their complements are written as remainders and quotients by 2^(8 - k).
use ttn.Base.{
  ℕ, ◌+◌, ◌-◌, ◌*◌, ◌/◌, ◌%◌, ◌^◌, ◌<◌, ◌≡◌, refl, ap, ap₂, sym, ◌∙◌, inl, inr, Bool, true, List,
  [], ◌∷◌, Result, ok, err, Error, leb, if◌then◌else◌, arith, length, same_codes, same_codes_iff,
  Bool-cases,
}
use native.Mathlib.Nat.{
  one-le-pow, mul-add-div_right, div-eq_of_lt, mod-lt, mod-mod, mul-add-mod_self_right,
  div-add-mod', add-zero,
}
use ttn.Types.Hex.{zeros, length-zeros}

pub record DevAddrPrefix : Type 0 where
  pub dev_addr : List ℕ
  pub length : ℕ

-- The body of the loop of WithPrefix for a byte with k < 8 bits of the prefix.
merge : ℕ → ℕ → ℕ → ℕ
merge k prefix addr = prefix / 2 ^ (8 - k) * 2 ^ (8 - k) + addr % 2 ^ (8 - k)

-- The loop: k is the number of bits of the prefix that are left.
with_bits : ℕ → List ℕ → List ℕ → List ℕ
unfolding merge
with_bits k (a ∷ addr) (p ∷ prefix) =
    let whole = with_bits (k - 8) addr prefix in
    let rest = with_bits 0 addr prefix in if leb 8 k then p ∷ whole else merge k p a ∷ rest
with_bits k addr prefix = []

pub with_prefix : List ℕ → DevAddrPrefix → List ℕ
unfolding with_bits
with_prefix addr prefix = with_bits prefix.length addr prefix.dev_addr

pub mask : List ℕ → ℕ → List ℕ
mask addr bits = with_prefix (zeros 4) (record { dev_addr = addr; length = bits })

pub has_prefix : List ℕ → DevAddrPrefix → Bool
has_prefix addr prefix = same_codes (mask addr prefix.length) (mask prefix.dev_addr prefix.length)

-- The binary form of a prefix: its length in a byte, and the address.
pub prefix_bytes : DevAddrPrefix → List ℕ
prefix_bytes prefix = prefix.length % 2 ^ 8 ∷ prefix.dev_addr

pub unmarshal_prefix : List ℕ → Result DevAddrPrefix
unmarshal_prefix (n ∷ a ∷ b ∷ c ∷ d ∷ []) =
    ok (record { dev_addr = mask (a ∷ b ∷ c ∷ d ∷ []) n; length = n })
unmarshal_prefix bytes = err (Error.other "ttn/core: Invalid length for DevAddrPrefix")

power_pos : (k : ℕ) → 0 < 2 ^ k
power_pos k = one-le-pow k 2 (omega arith)

merge_prefix : (k p a z : ℕ) → merge k (merge k p a) z ≡ merge k p z
unfolding merge
merge_prefix k p a z =
    let m = 2 ^ (8 - k) in
    let sum = mul-add-div_right (power_pos (8 - k)) (p / m) (a % m) in
    let small = div-eq_of_lt (mod-lt a (power_pos (8 - k))) in
    ap (λ (q : ℕ). q * m + z % m) (sum ∙ ap (λ (q : ℕ). p / m + q) small ∙ add-zero (p / m))

merge_back : (k p a : ℕ) → merge k a (merge k p a) ≡ a
unfolding merge
merge_back k p a =
    let m = 2 ^ (8 - k) in
    ap (λ (r : ℕ). a / m * m + r) (mul-add-mod_self_right (p / m) m (a % m) ∙ mod-mod a m)
    ∙ div-add-mod' a m

with_bits_prefix :
    (k : ℕ) (addr prefix other : List ℕ)
    → length addr ≡ length prefix
    → length other ≡ length prefix
    → with_bits k other (with_bits k addr prefix) ≡ with_bits k other prefix
unfolding with_bits
with_bits_prefix k [] [] [] h l = refl
with_bits_prefix k (a ∷ addr) (p ∷ prefix) (o ∷ other) h l =
    let whole = with_bits_prefix (k - 8) addr prefix other (omega arith) (omega arith) in
    let rest = with_bits_prefix 0 addr prefix other (omega arith) (omega arith) in
    elim (Bool-cases (leb 8 k)) [
      | inl e ↦ rw e (rw e (ap (λ (xs : List ℕ). p ∷ xs) whole))
      | inr e ↦ rw e (rw e (ap₂ (λ (x : ℕ) (xs : List ℕ). x ∷ xs) (merge_prefix k p a o) rest))
    ]
with_bits_prefix k [] [] (o ∷ other) h l = absurd (omega arith)
with_bits_prefix k [] (p ∷ prefix) other h l = absurd (omega arith)
with_bits_prefix k (a ∷ addr) [] other h l = absurd (omega arith)
with_bits_prefix k (a ∷ addr) (p ∷ prefix) [] h l = absurd (omega arith)

with_bits_back :
    (k : ℕ) (addr prefix : List ℕ)
    → length addr ≡ length prefix
    → with_bits k (with_bits k addr prefix) addr ≡ addr
unfolding with_bits
with_bits_back k [] [] h = refl
with_bits_back k (a ∷ addr) (p ∷ prefix) h =
    let whole = with_bits_back (k - 8) addr prefix (omega arith) in
    let rest = with_bits_back 0 addr prefix (omega arith) in
    elim (Bool-cases (leb 8 k)) [
      | inl e ↦ rw e (rw e (ap (λ (xs : List ℕ). a ∷ xs) whole))
      | inr e ↦ rw e (rw e (ap₂ (λ (x : ℕ) (xs : List ℕ). x ∷ xs) (merge_back k p a) rest))
    ]
with_bits_back k [] (p ∷ prefix) h = absurd (omega arith)
with_bits_back k (a ∷ addr) [] h = absurd (omega arith)

-- An address with a prefix has the prefix, and is otherwise the address as it was: with the bits of the
-- address in place of the prefix again, it is the address.
pub with_prefix-has_prefix :
    (addr : List ℕ) (prefix : DevAddrPrefix)
    → length addr ≡ 4
    → length prefix.dev_addr ≡ 4
    → (has_prefix (with_prefix addr prefix) prefix ≡ true)
      × (with_prefix (with_prefix addr prefix) (record { dev_addr = addr; length = prefix.length })
          ≡ addr)
unfolding with_prefix has_prefix mask
with_prefix-has_prefix addr prefix h l =
    let same =
      same_codes_iff (mask (with_prefix addr prefix) prefix.length)
        (mask prefix.dev_addr prefix.length) in
    (
      same.1 (
          with_bits_prefix prefix.length addr prefix.dev_addr (zeros 4) (h ∙ sym l)
            (length-zeros 4 ∙ sym l)),
      with_bits_back prefix.length addr prefix.dev_addr (h ∙ sym l),
    )
