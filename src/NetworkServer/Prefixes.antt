-- ===== src/NetworkServer/Prefixes.antt =====
-- core/networkserver/networkserver.go: the prefixes of device addresses, and their usages.
-- The map of prefixes is a list of its entries, in the order in which the range statement meets them.
use ttn.Base.{
  ℕ, suc, ◌+◌, ◌/◌, ◌≤◌, ◌≡◌, ◌≢◌, refl, ap, sym, ◌⊎◌, inl, inr, Bool, true, ◌&&◌, not, List, [],
  ◌∷◌, String, Result, ok, err, Error, ltb, ◌==◌, if◌then◌else◌, str_eq, str_eq_iff, arith, length,
  IsIn, All, Bool-cases, same_codes, subst, ==_iff,
}
use ttn.Types.DevAddr.{DevAddrPrefix}

first_byte : List ℕ → ℕ
first_byte [] = 0
first_byte (b ∷ bs) = b

same_prefix : DevAddrPrefix → DevAddrPrefix → Bool
same_prefix p q = same_codes p.dev_addr q.dev_addr && (p.length == q.length)

-- An assignment to the map.
set :
    DevAddrPrefix
    → List String
    → List (DevAddrPrefix × List String)
    → List (DevAddrPrefix × List String)
unfolding same_prefix
set prefix usage [] = (prefix, usage) ∷ []
set prefix usage ((p, u) ∷ m) =
    let rest = set prefix usage m in
    if same_prefix p prefix then (prefix, usage) ∷ m else (p, u) ∷ rest

-- UsePrefix, for a network whose last byte is `net_id`.
pub use_prefix :
    ℕ
    → List (DevAddrPrefix × List String)
    → DevAddrPrefix
    → List String
    → Result (List (DevAddrPrefix × List String))
unfolding set first_byte
use_prefix net_id prefixes prefix usage =
    if ltb prefix.length 7
    then err (Error.invalid_argument "Prefix" "invalid length")
    else if not (first_byte prefix.dev_addr / 2 == net_id)
    then err (Error.invalid_argument "Prefix" "invalid netID")
    else ok (set prefix usage prefixes)

-- The inner loops: how often the usage occurs, and the sum over the usages that are required.
occurrences : String → List String → ℕ
occurrences usage [] = 0
occurrences usage (u ∷ offered) =
    let rest = occurrences usage offered in if str_eq u usage then suc rest else rest

matches : List String → List String → ℕ
unfolding occurrences
matches [] offered = 0
matches (r ∷ required) offered = occurrences r offered + matches required offered

pub get_prefixes_for : List (DevAddrPrefix × List String) → List String → List DevAddrPrefix
unfolding matches
get_prefixes_for [] required = []
get_prefixes_for ((prefix, offered) ∷ m) required =
    let rest = get_prefixes_for m required in
    if matches required offered == length required then prefix ∷ rest else rest

-- No usage is offered twice.
abbrev pub Distinct : List String → Type 0
Distinct [] = Unit
Distinct (u ∷ us) = All (λ v. v ≢ u) us × Distinct us

-- Each usage is offered.
abbrev pub Offers : List String → List String → Type 0
Offers offered required = All (λ r. IsIn r offered) required

absent :
    (usage : String) (offered : List String)
    → All (λ v. v ≢ usage) offered
    → occurrences usage offered ≡ 0
unfolding occurrences
absent usage [] h = refl
absent usage (u ∷ offered) (n, h) = elim (Bool-cases (str_eq u usage)) [
  | inl e ↦ absurd (n ((str_eq_iff u usage).0 e))
  | inr e ↦ rw e (absent usage offered h)
]

-- Once if it is offered, and otherwise not at all.
occurrences_lem :
    (usage : String) (offered : List String)
    → Distinct offered
    → ((occurrences usage offered ≡ 1) × IsIn usage offered) ⊎ (occurrences usage offered ≡ 0)
unfolding occurrences
occurrences_lem usage [] d = inr refl
occurrences_lem usage (u ∷ offered) (n, d) = elim (Bool-cases (str_eq u usage)) [
  | inl e ↦
      let same = (str_eq_iff u usage).0 e in
      rw e (inl (ap suc (absent usage offered (rw same at n)), inl (sym same)))
  | inr e ↦ rw e (elim (occurrences_lem usage offered d) [
    | inl (one, i) ↦ inl (one, inr i)
    | inr zero_times ↦ inr zero_times
  ])
]

once :
    (usage : String) (offered : List String)
    → IsIn usage offered
    → Distinct offered
    → occurrences usage offered ≡ 1
unfolding occurrences
once usage [] i d = absurd i
once usage (u ∷ offered) (inl same) (n, d) =
    rw ((str_eq_iff u usage).1 (sym same)) (ap suc (absent usage offered (rw (sym same) at n)))
once usage (u ∷ offered) (inr i) (n, d) = elim (Bool-cases (str_eq u usage)) [
  | inl e ↦ rw e (ap suc (absent usage offered (rw ((str_eq_iff u usage).0 e) at n)))
  | inr e ↦ rw e (once usage offered i d)
]

matches_le :
    (required offered : List String) → Distinct offered → matches required offered ≤ length required
unfolding matches
matches_le [] offered d = omega arith
matches_le (r ∷ required) offered d = elim (occurrences_lem r offered d) [
  | inl (one, i) ↦ omega (arith, matches_le required offered d)
  | inr zero_times ↦ omega (arith, matches_le required offered d)
]

matches-Offers :
    (required offered : List String)
    → Distinct offered
    → matches required offered ≡ length required
    → Offers offered required
unfolding matches
matches-Offers [] offered d e = tt
matches-Offers (r ∷ required) offered d e = elim (occurrences_lem r offered d) [
  | inl (one, i) ↦ (i, matches-Offers required offered d (omega arith))
  | inr zero_times ↦ let k = matches_le required offered d in absurd (omega arith)
]

Offers-matches :
    (required offered : List String)
    → Distinct offered
    → Offers offered required
    → matches required offered ≡ length required
unfolding matches
Offers-matches [] offered d o = refl
Offers-matches (r ∷ required) offered d (i, o) =
    let one = once r offered i d in let rest = Offers-matches required offered d o in omega arith

-- An entry of the map that offers what is required.
abbrev pub Suits : List (DevAddrPrefix × List String) → List String → DevAddrPrefix → Type 0
Suits m required prefix =
    (offered : List String) × IsIn (prefix, offered) m × Offers offered required

push_Suits :
    (m : List (DevAddrPrefix × List String)) (entry : DevAddrPrefix × List String)
    (required : List String) (prefix : DevAddrPrefix)
    → Suits m required prefix
    → Suits (entry ∷ m) required prefix
push_Suits m entry required prefix (offered, i, o) = (offered, inr i, o)

first_Suits :
    (m : List (DevAddrPrefix × List String)) (p : DevAddrPrefix) (u required : List String)
    (prefix : DevAddrPrefix) (rest : List DevAddrPrefix)
    → Distinct u
    → (matches required u == length required) ≡ true
    → (IsIn prefix rest → Suits m required prefix)
    → IsIn prefix (p ∷ rest)
    → Suits ((p, u) ∷ m) required prefix
first_Suits m p u required prefix rest d e later (inl same) = (
  u,
  inl (ap (λ (x : DevAddrPrefix). (x, u)) same),
  matches-Offers required u d ((==_iff _ _).0 e),
)
first_Suits m p u required prefix rest d e later (inr i) =
    push_Suits m (p, u) required prefix (later i)

get_prefixes_for_sound :
    (m : List (DevAddrPrefix × List String)) (required : List String) (prefix : DevAddrPrefix)
    → All (λ entry. Distinct entry.1) m
    → IsIn prefix (get_prefixes_for m required)
    → Suits m required prefix
unfolding get_prefixes_for
get_prefixes_for_sound [] required prefix d i = absurd i
get_prefixes_for_sound ((p, u) ∷ m) required prefix (d, ds) i =
    elim (Bool-cases (matches required u == length required)) [
      | inl e ↦
          first_Suits m p u required prefix (get_prefixes_for m required) d e
            (get_prefixes_for_sound m required prefix ds) (rw (get_prefixes_for, e) at i)
      | inr e ↦
          push_Suits m (p, u) required prefix
            (get_prefixes_for_sound m required prefix ds (rw (get_prefixes_for, e) at i))
    ]

get_prefixes_for_complete :
    (m : List (DevAddrPrefix × List String)) (required : List String) (prefix : DevAddrPrefix)
    (offered : List String)
    → All (λ entry. Distinct entry.1) m
    → IsIn (prefix, offered) m
    → Offers offered required
    → IsIn prefix (get_prefixes_for m required)
unfolding get_prefixes_for
get_prefixes_for_complete [] required prefix offered d i o = absurd i
get_prefixes_for_complete ((p, u) ∷ m) required prefix offered (d, ds) (inl same) o =
    let q : offered ≡ u = ap (λ e. e.1) same in
    let all = (==_iff _ _).1 (Offers-matches required u d (subst (λ x. Offers x required) q o)) in
    rw all (inl (ap (λ e. e.0) same))
get_prefixes_for_complete ((p, u) ∷ m) required prefix offered (d, ds) (inr i) o =
    let rest = get_prefixes_for_complete m required prefix offered ds i o in
    elim (Bool-cases (matches required u == length required)) [
      | inl e ↦ rw e (inr rest)
      | inr e ↦ rw e rest
    ]

-- While no prefix offers a usage twice, the prefixes for some usages are exactly those that offer them
-- all.
pub get_prefixes_for_iff :
    (m : List (DevAddrPrefix × List String)) (required : List String) (prefix : DevAddrPrefix)
    → All (λ entry. Distinct entry.1) m
    → (IsIn prefix (get_prefixes_for m required) → Suits m required prefix)
      × (Suits m required prefix → IsIn prefix (get_prefixes_for m required))
get_prefixes_for_iff m required prefix d = (
  get_prefixes_for_sound m required prefix d,
  λ (offered, i, o). get_prefixes_for_complete m required prefix offered d i o,
)
