-- ===== src/Otaa/Tests.antt =====
-- A cipher that is injective.
use ttn.Base.{ℕ, ◌+◌, ◌*◌, ◌<◌, ◌≡◌, ◌≢◌, refl, sym, ap₂, ◌∙◌, List, [], ◌∷◌, arith, length, All}
use ttn.Otaa.{Aes, IsCipher, calculate_session_keys, session_keys_unique}

abbrev value : List ℕ → ℕ
value [] = 0
value (x ∷ xs) = x + 256 * value xs

value_unique :
    (a b : List ℕ)
    → length a ≡ length b
    → All (λ x. x < 256) a
    → All (λ x. x < 256) b
    → value a ≡ value b
    → a ≡ b
value_unique [] [] l p q e = refl
value_unique [] (y ∷ ys) l p q e = absurd (omega arith)
value_unique (x ∷ xs) [] l p q e = absurd (omega arith)
value_unique (x ∷ xs) (y ∷ ys) l (px, ps) (qy, qs) e =
    ap₂ (λ h t. h ∷ t) (omega arith) (value_unique xs ys (omega arith) ps qs (omega arith))

abbrev aes : Aes
aes key block = value block

aes-IsCipher : IsCipher aes
aes-IsCipher key a b (la, pa) (lb, pb) e = value_unique a b (la ∙ sym lb) pa pb e

abbrev app_nonce : ℕ
app_nonce = 1

abbrev net_id : ℕ
net_id = 19

abbrev dev_nonce : ℕ
dev_nonce = 4

abbrev other_nonce : ℕ
other_nonce = 5

session_keys_unique_example :
    ((calculate_session_keys aes 7 app_nonce net_id dev_nonce).0
      ≢ (calculate_session_keys aes 7 app_nonce net_id other_nonce).1)
    × (((calculate_session_keys aes 7 app_nonce net_id dev_nonce).0
          ≡ (calculate_session_keys aes 7 app_nonce net_id other_nonce).0)
        → (app_nonce ≡ app_nonce) × (net_id ≡ net_id) × (dev_nonce ≡ other_nonce))
    × (((calculate_session_keys aes 7 app_nonce net_id dev_nonce).1
          ≡ (calculate_session_keys aes 7 app_nonce net_id other_nonce).1)
        → (app_nonce ≡ app_nonce) × (net_id ≡ net_id) × (dev_nonce ≡ other_nonce))
session_keys_unique_example =
    session_keys_unique aes 7 app_nonce app_nonce net_id net_id dev_nonce other_nonce aes-IsCipher
      (omega arith) (omega arith) (omega arith) (omega arith) (omega arith) (omega arith)
