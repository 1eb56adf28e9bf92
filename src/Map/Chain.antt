-- ===== src/Map/Chain.antt =====
-- Chains: the bucket of an entry and the keys of a chain.
use kitura_http.Prelude.{
  ℕ, zero, suc, ◌<◌, ◌≡◌, ◌≢◌, refl, List, [], ◌∷◌, false, none, length, set, ◌==◌, replicate,
  if◌then◌else◌, All, arith, Bool-cases, inl, inr, ◌∙◌, ap, sym, get_or-set,
}
use native.Mathlib.Nat.{mod-lt}
use kitura_http.Map.{Entry, hash, lookup, unlink, chain}

-- The key stands in a chain once.
abbrev pub IsUnique : List Entry → Type 0
IsUnique [] = Unit
IsUnique (e ∷ es) = (lookup e.key es ≡ none) × IsUnique es

-- Entries that hash to `h` in a table of `n` chains.
abbrev pub HashesTo : ℕ → ℕ → Entry → Type 0
HashesTo n h e = hash e.key n ≡ h

pub hash-lt : (k n : ℕ) → 0 < n → hash k n < n
unfolding hash
hash-lt k n h = mod-lt _ h

-- A key that hashes elsewhere is not in the chain.
pub lookup_elsewhere :
    (n h k : ℕ) (es : List Entry) → All (HashesTo n h) es → hash k n ≢ h → lookup k es ≡ none
lookup_elsewhere n h k [] a d = refl
lookup_elsewhere n h k (e ∷ es) (here, rest) d = elim (Bool-cases (e.key == k)) [
  | inl same ↦ let eq : e.key ≡ k = ground arith in absurd (d (ap (λ t. hash t n) (sym eq) ∙ here))
  | inr other ↦ rw other (lookup_elsewhere n h k es rest d)
]

pub unlink-All : (P : Entry → Type 0) (k : ℕ) (es : List Entry) → All P es → All P (unlink k es)
unlink-All P k [] a = a
unlink-All P k (e ∷ es) (here, rest) = elim (Bool-cases (e.key == k)) [
  | inl same ↦ rw same rest
  | inr other ↦ rw other (here, unlink-All P k es rest)
]

pub lookup-unlink_other : (k j : ℕ) (es : List Entry) → k ≢ j → lookup j (unlink k es) ≡ lookup j es
lookup-unlink_other k j [] d = refl
lookup-unlink_other k j (e ∷ es) d = elim (Bool-cases (e.key == k)) [
  | inl same ↦ let eq : (e.key == j) ≡ false = ground arith in rw (same, eq) refl
  | inr other ↦ let rest = lookup-unlink_other k j es d in rw (other, rest) refl
]

pub lookup-unlink_self : (k : ℕ) (es : List Entry) → IsUnique es → lookup k (unlink k es) ≡ none
lookup-unlink_self k [] u = refl
lookup-unlink_self k (e ∷ es) (new, u) = elim (Bool-cases (e.key == k)) [
  | inl same ↦ let eq : e.key ≡ k = ground arith in rw same (rw eq at new)
  | inr other ↦ let rest = lookup-unlink_self k es u in rw (other, other, rest) refl
]

pub unlink-IsUnique : (k : ℕ) (es : List Entry) → IsUnique es → IsUnique (unlink k es)
unlink-IsUnique k [] u = u
unlink-IsUnique k (e ∷ es) (new, u) = elim (Bool-cases (e.key == k)) [
  | inl same ↦ rw same u
  | inr other ↦
      let d : k ≢ e.key = ground arith in
      rw other (lookup-unlink_other k e.key es d ∙ new, unlink-IsUnique k es u)
]

-- Setting a chain leaves the others.
pub chain-set :
    (t : List (List Entry)) (h i : ℕ) (c : List Entry)
    → h < length t
    → chain (set t h c) i ≡ (if h == i then c else chain t i)
chain-set t h i c l = get_or-set [] t h i c l

pub chain-replicate : (n i : ℕ) → chain (replicate n []) i ≡ []
chain-replicate zero i = refl
chain-replicate (suc n) zero = refl
chain-replicate (suc n) (suc i) = chain-replicate n i
