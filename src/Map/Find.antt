-- ===== src/Map/Find.antt =====
-- Tables: what a new entry and a removed one change for a search.
use kitura_http.Prelude.{
  ℕ, ◌<◌, ◌≡◌, ◌≢◌, refl, ap, ◌∙◌, List, ◌∷◌, true, Option, none, some, length, set, length-set,
  ◌==◌, if◌then◌else◌, All, arith, Bool-cases, inl, inr,
}
use kitura_http.Map.{Entry, hash, lookup, unlink, chain}
use kitura_http.Map.Chain.{
  IsUnique, HashesTo, hash-lt, unlink-All, unlink-IsUnique, lookup-unlink_self, lookup-unlink_other,
  chain-set,
}

-- A table of `n` chains, each with the entries that hash to it, and no key twice.
pub record IsTable (n : ℕ) (t : List (List Entry)) : Type 0 where
  pub chains : length t ≡ n
  pub some_chain : 0 < n
  pub hashed : (i : ℕ) → All (HashesTo n i) (chain t i)
  pub unique : (i : ℕ) → IsUnique (chain t i)

-- nghttp2_map_find in a table.
abbrev pub find : ℕ → List (List Entry) → ℕ → Option Entry
find n t k = lookup k (chain t (hash k n))

module _ (n : ℕ) (t : List (List Entry)) (v : IsTable n t) where
  -- Another chain in the place of one, with entries that belong there.
  replace-IsTable :
      (h : ℕ) (c : List Entry) → h < n → All (HashesTo n h) c → IsUnique c → IsTable n (set t h c)
  replace-IsTable h c l a u =
      let size = v.chains in
      let inside : h < length t = omega arith in
      record {
        chains = length-set t h c ∙ v.chains;
        some_chain = v.some_chain;
        hashed = λ i. elim (Bool-cases (h == i)) [
          | inl same ↦ let e : h ≡ i = ground arith in rw (chain-set t h i c inside, same, ← e) a
          | inr other ↦ rw (chain-set t h i c inside, other) (v.hashed i)
        ];
        unique = λ i. elim (Bool-cases (h == i)) [
          | inl same ↦ rw (chain-set t h i c inside, same) u
          | inr other ↦ rw (chain-set t h i c inside, other) (v.unique i)
        ];
      }

  replace-find :
      (h : ℕ) (c : List Entry) (k : ℕ)
      → h < n
      → find n (set t h c) k ≡ (if h == hash k n then lookup k c else find n t k)
  replace-find h c k l =
      let size = v.chains in
      let inside : h < length t = omega arith in
      elim (Bool-cases (h == hash k n)) [
        | inl same ↦ rw (chain-set t h (hash k n) c inside, same) refl
        | inr other ↦ rw (chain-set t h (hash k n) c inside, other) refl
      ]

  module _ (e : Entry) (new : find n t e.key ≡ none) where
    abbrev pub grown : List (List Entry)
    grown = set t (hash e.key n) (e ∷ chain t (hash e.key n))

    pub grown-IsTable : IsTable n grown
    grown-IsTable =
        replace-IsTable (hash e.key n) (e ∷ chain t (hash e.key n)) (hash-lt e.key n v.some_chain)
          (refl, v.hashed (hash e.key n)) (new, v.unique (hash e.key n))

    pub grown-find : (k : ℕ) → find n grown k ≡ (if e.key == k then some e else find n t k)
    grown-find k =
        replace-find (hash e.key n) (e ∷ chain t (hash e.key n)) k (hash-lt e.key n v.some_chain)
        ∙ elim (Bool-cases (e.key == k)) [
          | inl same ↦
              let eq : e.key ≡ k = ground arith in
              let there : (hash e.key n == hash k n) ≡ true =
                ground (arith, ap (λ x. hash x n) eq) in
              rw (there, same) refl
          | inr other ↦ elim (Bool-cases (hash e.key n == hash k n)) [
            | inl near ↦
                let eq : hash e.key n ≡ hash k n = ground arith in rw (near, other) (rw eq refl)
            | inr far ↦ rw (far, other) refl
          ]
        ]

  module _ (k : ℕ) where
    abbrev pub shrunk : List (List Entry)
    shrunk = set t (hash k n) (unlink k (chain t (hash k n)))

    pub shrunk-IsTable : IsTable n shrunk
    shrunk-IsTable =
        replace-IsTable (hash k n) _ (hash-lt k n v.some_chain)
          (unlink-All (HashesTo n (hash k n)) k _ (v.hashed (hash k n)))
          (unlink-IsUnique k _ (v.unique (hash k n)))

    pub shrunk-find : (j : ℕ) → find n shrunk j ≡ (if k == j then none else find n t j)
    shrunk-find j =
        replace-find (hash k n) (unlink k (chain t (hash k n))) j (hash-lt k n v.some_chain)
        ∙ elim (Bool-cases (k == j)) [
          | inl same ↦
              let eq : k ≡ j = ground arith in
              let there : (hash k n == hash j n) ≡ true = ground (arith, ap (λ x. hash x n) eq) in
              rw (there, same)
                (rw (← eq) (lookup-unlink_self k (chain t (hash k n)) (v.unique (hash k n))))
          | inr other ↦ elim (Bool-cases (hash k n == hash j n)) [
            | inl near ↦
                let eq : hash k n ≡ hash j n = ground arith in
                let d : k ≢ j = ground arith in
                rw (near, other) (rw (lookup-unlink_other k j (chain t (hash k n)) d, eq) refl)
            | inr far ↦ rw (far, other) refl
          ]
        ]
