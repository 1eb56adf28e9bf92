-- ===== src/Map/Rehash.antt =====
-- The new table of `resize` beside the old one.
use kitura_http.Prelude.{
  ℕ, suc, ◌+◌, ◌-◌, ◌<◌, ◌≡◌, refl, sym, ap, subst, ◌∙◌, List, [], ◌∷◌, true, false, Option, none,
  some, replicate, length-replicate, ◌==◌, leb, if◌then◌else◌, All, arith, Bool-cases, Option-cases,
  inl, inr,
}
use kitura_http.Map.{Entry, hash, lookup, chain, insert, or_kept, reinsert, rehash}
use kitura_http.Map.Chain.{HashesTo, lookup_elsewhere, chain-replicate}
use kitura_http.Map.Find.{IsTable, find, grown, grown-IsTable, grown-find}

abbrev or_else : Option Entry → Option Entry → Option Entry
or_else none y = y
or_else (some e) y = some e

or_else-none : (x : Option Entry) → or_else x none ≡ x
or_else-none none = refl
or_else-none (some e) = refl

or_else_assoc : (x y z : Option Entry) → or_else (or_else x y) z ≡ or_else x (or_else y z)
or_else_assoc none y z = refl
or_else_assoc (some e) y z = refl

pub insert_new :
    (n : ℕ) (t : List (List Entry)) (v : IsTable n t) (e : Entry) (new : find n t e.key ≡ none)
    → insert t n e ≡ some (grown n t v e new)
unfolding insert
insert_new n t v e new = rw new refl

pub insert_old :
    (n : ℕ) (t : List (List Entry)) (e f : Entry) → find n t e.key ≡ some f → insert t n e ≡ none
unfolding insert
insert_old n t e f old = rw old refl

-- `u` is a table in which a search finds what it finds in `t`, and else what it finds in `more`.
abbrev Joins : ℕ → List (List Entry) → List (List Entry) → (ℕ → Option Entry) → Type 0
Joins n t u more = IsTable n u × ((k : ℕ) → find n u k ≡ or_else (find n t k) (more k))

insert-Joins :
    (n : ℕ) (t : List (List Entry)) (e : Entry)
    → IsTable n t
    → Joins n t (or_kept t (insert t n e)) (λ k. lookup k (e ∷ []))
insert-Joins n t e v = elim (Option-cases (find n t e.key)) [
  | inl new ↦ rw (insert_new n t v e new) (
    grown-IsTable n t v e new,
    λ k. grown-find n t v e new k ∙ elim (Bool-cases (e.key == k)) [
      | inl same ↦ let eq : e.key ≡ k = ground arith in rw (same, ← eq, new) refl
      | inr other ↦ rw (other, or_else-none (find n t k)) refl
    ],
  )
  | inr (f, old) ↦ rw (insert_old n t e f old) (
    v,
    λ k. elim (Bool-cases (e.key == k)) [
      | inl same ↦ let eq : e.key ≡ k = ground arith in rw (← eq, old) refl
      | inr other ↦ rw (other, or_else-none (find n t k)) refl
    ],
  )
]

first_of :
    (k : ℕ) (e : Entry) (es : List Entry)
    → or_else (lookup k (e ∷ [])) (lookup k es) ≡ lookup k (e ∷ es)
first_of k e es = elim (Bool-cases (e.key == k)) [
  | inl same ↦ rw same refl
  | inr other ↦ rw other refl
]

reinsert-Joins :
    (n : ℕ) (t : List (List Entry)) (es : List Entry)
    → IsTable n t
    → Joins n t (reinsert n t es) (λ k. lookup k es)
unfolding reinsert
reinsert-Joins n t [] v = (v, λ k. sym (or_else-none (find n t k)))
reinsert-Joins n t (e ∷ es) v =
    let (v', here) = insert-Joins n t e v in
    let (w, rest) = reinsert-Joins n (or_kept t (insert t n e)) es v' in
    (
      w,
      λ k.
          rest k
          ∙ ap (λ x. or_else x (lookup k es)) (here k)
          ∙ or_else_assoc (find n t k) (lookup k (e ∷ [])) (lookup k es)
          ∙ ap (or_else (find n t k)) (first_of k e es),
    )

abbrev lookup_all : ℕ → List (List Entry) → Option Entry
lookup_all k [] = none
lookup_all k (c ∷ cs) = or_else (lookup k c) (lookup_all k cs)

rehash-Joins :
    (n : ℕ) (t cs : List (List Entry))
    → IsTable n t
    → Joins n t (rehash n t cs) (λ k. lookup_all k cs)
unfolding rehash
rehash-Joins n t [] v = (v, λ k. sym (or_else-none (find n t k)))
rehash-Joins n t (c ∷ cs) v =
    let (v', here) = reinsert-Joins n t c v in
    let (w, rest) = rehash-Joins n (reinsert n t c) cs v' in
    (
      w,
      λ k.
          rest k
          ∙ ap (λ x. or_else x (lookup_all k cs)) (here k)
          ∙ or_else_assoc (find n t k) (lookup k c) (lookup_all k cs),
    )

-- Of all chains, only that of its hash holds a key.
lookup_all-chain :
    (n k j : ℕ) (cs : List (List Entry))
    → ((i : ℕ) → All (HashesTo n (j + i)) (chain cs i))
    → lookup_all k cs ≡ (if leb j (hash k n) then lookup k (chain cs (hash k n - j)) else none)
lookup_all-chain n k j [] h = elim (Bool-cases (leb j (hash k n))) [
  | inl e ↦ rw e refl
  | inr e ↦ rw e refl
]
lookup_all-chain n k j (c ∷ cs) h =
    let rest = lookup_all-chain n k (j + 1) cs (λ i. next i) in
    elim (Bool-cases (hash k n == j)) [
      | inl here ↦
          let from : leb j (hash k n) ≡ true = ground arith in
          let past : leb (j + 1) (hash k n) ≡ false = ground arith in
          let first : hash k n - j ≡ 0 = ground arith in
          rw (rest, from, past, first) (or_else-none (lookup k c))
      | inr away ↦
          let none_here = lookup_elsewhere n j k c own (ground arith) in
          elim (Bool-cases (leb (j + 1) (hash k n))) [
            | inl later ↦
                let from : leb j (hash k n) ≡ true = ground arith in
                let step : hash k n - j ≡ suc (hash k n - (j + 1)) = ground arith in
                rw (none_here, rest, later, from, step) refl
            | inr before ↦
                let from : leb j (hash k n) ≡ false = ground arith in
                rw (none_here, rest, before, from) refl
          ]
    ]
  where
    own : All (HashesTo n j) c
    own = subst (λ x. All (HashesTo n x) c) (omega arith) (h 0)

    next : (i : ℕ) → All (HashesTo n (j + 1 + i)) (chain cs i)
    next i = subst (λ x. All (HashesTo n x) (chain cs i)) (omega arith) (h (suc i))

pub replicate-IsTable : (n : ℕ) → 0 < n → IsTable n (replicate n [])
replicate-IsTable n h = record {
  chains = length-replicate n [];
  some_chain = h;
  hashed = λ i. rw (chain-replicate n i) tt;
  unique = λ i. rw (chain-replicate n i) tt;
}

-- A search in the larger table finds what it finds in the old one.
pub rehash-find :
    (n m : ℕ) (t : List (List Entry))
    → IsTable n t
    → 0 < m
    → IsTable m (rehash m (replicate m []) t)
      × ((k : ℕ) → find m (rehash m (replicate m []) t) k ≡ find n t k)
rehash-find n m t v h =
    let (w, joined) = rehash-Joins m (replicate m []) t (replicate-IsTable m h) in
    (w, λ k. joined k ∙ old_table k)
  where
    from_zero : (i : ℕ) → All (HashesTo n (0 + i)) (chain t i)
    from_zero i = subst (λ x. All (HashesTo n x) (chain t i)) (omega arith) (v.hashed i)

    old_table : (k : ℕ) → or_else (find m (replicate m []) k) (lookup_all k t) ≡ find n t k
    old_table k =
        let from : leb 0 (hash k n) ≡ true = ground arith in
        let all_of : hash k n - 0 ≡ hash k n = omega arith in
        rw (chain-replicate m (hash k m), lookup_all-chain n k 0 t from_zero, from, all_of) refl
