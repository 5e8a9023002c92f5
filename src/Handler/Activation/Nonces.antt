-- ===== src/Handler/Activation/Nonces.antt =====
-- The nonces of a device: the loop that draws one, and the lists of those that are used.
use ttn.Base.{
  ℕ, zero, suc, ◌+◌, ◌<◌, ◌≤◌, ◌≡◌, ◌≢◌, refl, ap, ◌∙◌, inl, inr, true, false, List, [], ◌∷◌, ◌++◌,
  some, arith, Bool-cases,
}
use ttn.Handler.Activation.{is_used, draw_nonce}

-- The loop ends once it has drawn a nonce that is not used: with a bound that reaches the first such
-- nonce at `i`, it gives a nonce that is drawn and not used.
pub draw_nonce_terminates :
    (used : List ℕ) (random : ℕ → ℕ) (position fuel i : ℕ)
    → i < fuel
    → is_used used (random (position + i)) ≡ false
    → (n j : ℕ) × (draw_nonce used random position fuel ≡ some n)
      × (is_used used n ≡ false)
      × (n ≡ random (position + j))
      × (j ≤ i)
unfolding draw_nonce
draw_nonce_terminates used random position zero i l u = absurd (omega arith)
draw_nonce_terminates used random position (suc fuel) zero l u =
    let v = ap (λ k. is_used used (random k)) {x = position} {y = position + 0} (omega arith) ∙ u in
    (random position, 0, rw v refl, v, ap random (omega arith), omega arith)
draw_nonce_terminates used random position (suc fuel) (suc i) l u =
    elim (Bool-cases (is_used used (random position))) [
      | inr e ↦ (random position, 0, rw e refl, e, ap random (omega arith), omega arith)
      | inl e ↦
          let next = suc position + i in
          let v =
            ap (λ k. is_used used (random k)) {x = next} {y = position + suc i} (omega arith) ∙ u in
          let (n, j, d, f, r, b) =
            draw_nonce_terminates used random (suc position) fuel i (omega arith) v in
          (n, suc j, rw e d, f, r ∙ ap random (omega arith), omega arith)
    ]

pub draw_nonce-eq_some :
    (used : List ℕ) (random : ℕ → ℕ) (position fuel : ℕ) {n : ℕ}
    → draw_nonce used random position fuel ≡ some n
    → is_used used n ≡ false
unfolding draw_nonce
draw_nonce-eq_some used random position zero h = cc
draw_nonce-eq_some used random position (suc fuel) h =
    elim (Bool-cases (is_used used (random position))) [
      | inr e ↦ ground arith
      | inl e ↦ draw_nonce-eq_some used random (suc position) fuel (ground arith)
    ]

-- No nonce stands twice in a list.
abbrev pub IsDistinct : List ℕ → Type 0
IsDistinct [] = Unit
IsDistinct (n ∷ ns) = (is_used ns n ≡ false) × IsDistinct ns

is_used-append : (ns : List ℕ) (m n : ℕ) → is_used (ns ++ (m ∷ [])) n ≡ false → is_used ns n ≡ false
unfolding is_used
is_used-append [] m n h = refl
is_used-append (x ∷ ns) m n h = ground (arith, is_used-append ns m n)

is_used_append_false :
    (ns : List ℕ) (m n : ℕ) → is_used ns n ≡ false → m ≢ n → is_used (ns ++ (m ∷ [])) n ≡ false
unfolding is_used
is_used_append_false [] m n h d = ground arith
is_used_append_false (x ∷ ns) m n h d = ground (arith, is_used_append_false ns m n)

pub is_used_last : (ns : List ℕ) (n : ℕ) → is_used (ns ++ (n ∷ [])) n ≡ true
unfolding is_used
is_used_last [] n = ground arith
is_used_last (x ∷ ns) n = ground (arith, is_used_last ns n)

pub append-IsDistinct :
    (ns : List ℕ) (n : ℕ) → IsDistinct ns → is_used ns n ≡ false → IsDistinct (ns ++ (n ∷ []))
unfolding is_used
append-IsDistinct [] n d u = (refl, tt)
append-IsDistinct (x ∷ ns) n (f, d) u = (
  is_used_append_false ns n x f (λ e. absurd (ground arith)),
  append-IsDistinct ns n d (ground arith),
)
