-- ===== src/Otaa.antt =====
-- utils/otaa/session_keys.go: the keys of a session, from the join of a device. AES is a parameter.
mod Tests
use ttn.Base.{
  ℕ, zero, suc, ◌+◌, ◌*◌, ◌/◌, ◌%◌, ◌^◌, ◌<◌, ◌≡◌, ◌≢◌, refl, sym, ap, ap₂, ◌∙◌, List, [], ◌∷◌,
  ◌++◌, arith, reverse, length, All,
}

-- The bytes of a number, most significant first.
unfoldable pub big_endian : ℕ → ℕ → List ℕ
big_endian zero n = []
big_endian (suc w) n = big_endian w (n / 256) ++ (n % 256 ∷ [])

-- One block, with its key: aes.NewCipher and Encrypt. The result is a key.
abbrev pub Aes : Type 0
Aes = ℕ → List ℕ → ℕ

-- The block that is encrypted: its first byte tells the two keys apart.
pub session_block : ℕ → ℕ → ℕ → ℕ → List ℕ
session_block kind app_nonce net_id dev_nonce =
    kind
    ∷ (reverse (big_endian 3 app_nonce)
        ++ reverse (big_endian 3 net_id)
        ++ reverse (big_endian 2 dev_nonce)
        ++ (0 ∷ 0 ∷ 0 ∷ 0 ∷ 0 ∷ 0 ∷ 0 ∷ []))

-- CalculateSessionKeys: the application and the network session key. It has no error.
pub calculate_session_keys : Aes → ℕ → ℕ → ℕ → ℕ → ℕ × ℕ
unfolding session_block
calculate_session_keys aes app_key app_nonce net_id dev_nonce = (
  aes app_key (session_block 2 app_nonce net_id dev_nonce),
  aes app_key (session_block 1 app_nonce net_id dev_nonce),
)

-- The block of a join, byte by byte: the kind of the key, the two nonces and the network, each with
-- its least significant byte first.
abbrev pub key_block : ℕ → ℕ → ℕ → ℕ → List ℕ
key_block kind app_nonce net_id dev_nonce =
    kind
    ∷ app_nonce % 256
    ∷ app_nonce / 256 % 256
    ∷ app_nonce / 65536 % 256
    ∷ net_id % 256
    ∷ net_id / 256 % 256
    ∷ net_id / 65536 % 256
    ∷ dev_nonce % 256
    ∷ dev_nonce / 256 % 256
    ∷ 0
    ∷ 0
    ∷ 0
    ∷ 0
    ∷ 0
    ∷ 0
    ∷ 0
    ∷ []

third_byte : (n : ℕ) → n / 256 / 256 % 256 ≡ n / 65536 % 256
third_byte n = omega arith

session_block-eq-key_block : (kind a m d : ℕ) → session_block kind a m d ≡ key_block kind a m d
unfolding session_block big_endian
session_block-eq-key_block kind a m d =
    ap₂
      (λ x y.
        kind
        ∷ a % 256
        ∷ a / 256 % 256
        ∷ x
        ∷ m % 256
        ∷ m / 256 % 256
        ∷ y
        ∷ d % 256
        ∷ d / 256 % 256
        ∷ 0
        ∷ 0
        ∷ 0
        ∷ 0
        ∷ 0
        ∷ 0
        ∷ 0
        ∷ [])
      (third_byte a) (third_byte m)

pub calculate_session_keys_lem :
    (aes : Aes) (app_key a m d : ℕ)
    → calculate_session_keys aes app_key a m d
      ≡ (aes app_key (key_block 2 a m d), aes app_key (key_block 1 a m d))
unfolding calculate_session_keys
calculate_session_keys_lem aes app_key a m d =
    ap₂ (λ x y. (aes app_key x, aes app_key y)) (session_block-eq-key_block 2 a m d)
      (session_block-eq-key_block 1 a m d)

abbrev pub IsBlock : List ℕ → Type 0
IsBlock xs = (length xs ≡ 16) × All (λ x. x < 256) xs

-- A cipher is injective on blocks of 16 bytes, for each key.
abbrev pub IsCipher : Aes → Type 0
IsCipher aes = (key : ℕ) (a b : List ℕ) → IsBlock a → IsBlock b → aes key a ≡ aes key b → a ≡ b

session_block-IsBlock : (kind a m d : ℕ) → kind < 256 → IsBlock (session_block kind a m d)
unfolding session_block big_endian
session_block-IsBlock kind a m d h = (
  omega arith,
  (
    h,
    (
      omega arith,
      (
        omega arith,
        (
          omega arith,
          (
            omega arith,
            (
              omega arith,
              (
                omega arith,
                (
                  omega arith,
                  (
                    omega arith,
                    (
                      omega arith,
                      (
                        omega arith,
                        (
                          omega arith,
                          (omega arith, (omega arith, (omega arith, (omega arith, tt)))),
                        ),
                      ),
                    ),
                  ),
                ),
              ),
            ),
          ),
        ),
      ),
    ),
  ),
)

-- A byte of a block.
abbrev at : ℕ → List ℕ → ℕ
at i [] = 0
at zero (x ∷ xs) = x
at (suc i) (x ∷ xs) = at i xs

block_kind : (a b m n d e : ℕ) → session_block 2 a m d ≢ session_block 1 b n e
unfolding session_block
block_kind a b m n d e h = absurd (omega (arith, ap (at 0) h))

block_unique :
    (kind a b m n d e : ℕ)
    → a < 2 ^ 24
    → b < 2 ^ 24
    → m < 2 ^ 24
    → n < 2 ^ 24
    → d < 2 ^ 16
    → e < 2 ^ 16
    → session_block kind a m d ≡ session_block kind b n e
    → (a ≡ b) × (m ≡ n) × (d ≡ e)
unfolding session_block big_endian
block_unique kind a b m n d e ha hb hm hn hd he h = (
  omega (arith, ap (at 1) h, ap (at 2) h, ap (at 3) h),
  omega (arith, ap (at 4) h, ap (at 5) h, ap (at 6) h),
  omega (arith, ap (at 7) h, ap (at 8) h),
)

-- Under one application key and a cipher, no application session key is a network session key, and
-- two joins that differ in the application's nonce, the network or the nonce of the device, all in
-- their ranges, have other application session keys and other network session keys.
pub session_keys_unique :
    (aes : Aes) (app_key a b m n d e : ℕ)
    → IsCipher aes
    → a < 2 ^ 24
    → b < 2 ^ 24
    → m < 2 ^ 24
    → n < 2 ^ 24
    → d < 2 ^ 16
    → e < 2 ^ 16
    → ((calculate_session_keys aes app_key a m d).0 ≢ (calculate_session_keys aes app_key b n e).1)
      × (((calculate_session_keys aes app_key a m d).0
            ≡ (calculate_session_keys aes app_key b n e).0)
          → (a ≡ b) × (m ≡ n) × (d ≡ e))
      × (((calculate_session_keys aes app_key a m d).1
            ≡ (calculate_session_keys aes app_key b n e).1)
          → (a ≡ b) × (m ≡ n) × (d ≡ e))
unfolding calculate_session_keys session_block big_endian
session_keys_unique aes app_key a b m n d e inj ha hb hm hn hd he = (
  (λ h. block_kind a b m n d e (
      inj app_key _ _ (session_block-IsBlock 2 a m d (omega arith))
        (session_block-IsBlock 1 b n e (omega arith)) h)),
  (λ h. block_unique 2 a b m n d e ha hb hm hn hd he (
      inj app_key _ _ (session_block-IsBlock 2 a m d (omega arith))
        (session_block-IsBlock 2 b n e (omega arith)) h)),
  (λ h. block_unique 1 a b m n d e ha hb hm hn hd he (
      inj app_key _ _ (session_block-IsBlock 1 a m d (omega arith))
        (session_block-IsBlock 1 b n e (omega arith)) h)),
)
