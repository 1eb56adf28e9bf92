-- ===== src/Queue/Fifo.antt =====
-- The queue seen as the list of the data in its cells.
use kitura_http.Prelude.{
  ℕ, ◌≡◌, ◌≢◌, refl, sym, ap, subst, ap₂, ◌∙◌, List, [], ◌∷◌, ◌++◌, true, false, Option, none, some,
  map, ◌==◌, if◌then◌else◌, All, arith, Bool-cases, inl, inr,
}
use kitura_http.Result.{ok}
use kitura_http.Queue.{
  Cell, Queue, store, link, queue_push, pop_cell, is_same, queue_pop, queue_front, data_at,
}

-- The cells from `p` on stand at these addresses, up to NULL.
abbrev pub Links : (ℕ → Cell) → Option ℕ → List ℕ → Type 0
Links mem p [] = p ≡ none
Links mem p (a ∷ l) = (p ≡ some a) × Links mem (mem a).next l

abbrev pub last_of : List ℕ → Option ℕ
last_of [] = none
last_of (a ∷ []) = some a
last_of (a ∷ b ∷ l) = last_of (b ∷ l)

abbrev pub IsOther : ℕ → ℕ → Type 0
IsOther a b = b ≢ a

abbrev pub Distinct : List ℕ → Type 0
Distinct [] = Unit
Distinct (a ∷ l) = All (IsOther a) l × Distinct l

abbrev pub contents : (ℕ → Cell) → List ℕ → List ℕ
contents mem l = map (λ a. (mem a).data_of) l

-- The queue has its cells at these addresses, and holds this data.
pub record Holds (q : Queue) (l xs : List ℕ) : Type 0 where
  pub linked : Links q.mem q.front l
  pub ends : q.back ≡ last_of l
  pub distinct : Distinct l
  pub data_list : contents q.mem l ≡ xs

last_of-All : (P : ℕ → Type 0) (l : List ℕ) (b : ℕ) → All P l → last_of l ≡ some b → P b
last_of-All P [] b h e = cc
last_of-All P (a ∷ []) b (h, t) e = let eq : a ≡ b = cc in rw (← eq) h
last_of-All P (a ∷ c ∷ l) b (h, t) e = last_of-All P (c ∷ l) b t e

last_of-some : (a : ℕ) (l : List ℕ) → (b : ℕ) × (last_of (a ∷ l) ≡ some b)
last_of-some a [] = (a, refl)
last_of-some a (c ∷ l) = last_of-some c l

-- Memory after a push behind the cell at `b`.
module _ (mem : ℕ → Cell) (d a b : ℕ) (old : b ≢ a) where
  abbrev linked_mem : ℕ → Cell
  linked_mem =
      let m = store mem a (record { data_of = d; next = none }) in
      store m b (record (m b) { next = some a })

  linked-new : linked_mem a ≡ record { data_of = d; next = none }
  linked-new =
      let far : (a == b) ≡ false = ground arith in
      let here : (a == a) ≡ true = ground arith in rw (far, here) refl

  linked-back : (linked_mem b).next ≡ some a
  linked-back = let here : (b == b) ≡ true = ground arith in rw here refl

  linked-other : (x : ℕ) → x ≢ a → x ≢ b → linked_mem x ≡ mem x
  linked-other x n m =
      let p : (x == b) ≡ false = ground arith in
      let q : (x == a) ≡ false = ground arith in rw (p, q) refl

  linked-data : (x : ℕ) → x ≢ a → (linked_mem x).data_of ≡ (mem x).data_of
  linked-data x n = elim (Bool-cases (x == b)) [
    | inl same ↦
        let eq : x ≡ b = ground arith in
        let far : (b == a) ≡ false = ground arith in rw (same, far, eq) refl
    | inr other ↦ let q : (x == a) ≡ false = ground arith in rw (other, q) refl
  ]

  linked-contents : (l : List ℕ) → All (IsOther a) l → contents linked_mem l ≡ contents mem l
  linked-contents [] h = refl
  linked-contents (x ∷ l) (n, h) = ap₂ (◌∷◌) (linked-data x n) (linked-contents l h)

  linked-Links :
      (p : Option ℕ) (l : List ℕ)
      → Links mem p l
      → Distinct l
      → All (IsOther a) l
      → last_of l ≡ some b
      → Links linked_mem p (l ++ a ∷ [])
  linked-Links p [] k u n e = cc
  linked-Links p (x ∷ []) (here, end) u (f, n) e =
      let eq : x ≡ b = cc in
      (here, (ap (λ t. (linked_mem t).next) eq ∙ linked-back, ap (λ (c : Cell). c.next) linked-new))
  linked-Links p (x ∷ y ∷ l) (here, rest) (new, u) (f, n) e =
      let away : x ≢ b = λ eq. last_of-All (IsOther x) (y ∷ l) b new e (sym eq) in
      let kept = linked-other x f away in
      (here, rw kept (linked-Links (mem x).next (y ∷ l) rest u n e))

contents-snoc :
    (mem : ℕ → Cell) (l : List ℕ) (a : ℕ)
    → contents mem (l ++ a ∷ []) ≡ contents mem l ++ (mem a).data_of ∷ []
contents-snoc mem [] a = refl
contents-snoc mem (x ∷ l) a = ap (λ t. (mem x).data_of ∷ t) (contents-snoc mem l a)

last_of-snoc : (l : List ℕ) (a : ℕ) → last_of (l ++ a ∷ []) ≡ some a
last_of-snoc [] a = refl
last_of-snoc (x ∷ []) a = refl
last_of-snoc (x ∷ y ∷ l) a = last_of-snoc (y ∷ l) a

All-snoc : (P : ℕ → Type 0) (l : List ℕ) (a : ℕ) → All P l → P a → All P (l ++ a ∷ [])
All-snoc P [] a h p = (p, tt)
All-snoc P (x ∷ l) a (f, h) p = (f, All-snoc P l a h p)

Distinct-snoc : (l : List ℕ) (a : ℕ) → Distinct l → All (IsOther a) l → Distinct (l ++ a ∷ [])
Distinct-snoc [] a u n = (tt, tt)
Distinct-snoc (x ∷ l) a (new, u) (f, n) =
    (All-snoc (IsOther x) l a new (λ e. f (sym e)), Distinct-snoc l a u n)

module _ (q : Queue) (d a : ℕ) where
  link_first : (xs : List ℕ) → Holds q [] xs → Holds (link q d a none) (a ∷ []) (xs ++ d ∷ [])
  link_first xs h =
      let here : (a == a) ≡ true = ground arith in
      record {
        linked = (refl, rw here refl);
        ends = refl;
        distinct = (tt, tt);
        data_list = rw (here, ← h.data_list) refl;
      }

  link_last :
      (l xs : List ℕ) (b : ℕ)
      → Holds q l xs
      → All (IsOther a) l
      → last_of l ≡ some b
      → Holds (link q d a (some b)) (l ++ a ∷ []) (xs ++ d ∷ [])
  link_last l xs b h n e =
      let old = last_of-All (IsOther a) l b n e in
      record {
        linked = linked-Links q.mem d a b old q.front l h.linked h.distinct n e;
        ends = sym (last_of-snoc l a);
        distinct = Distinct-snoc l a h.distinct n;
        data_list =
            contents-snoc (link q d a (some b)).mem l a
            ∙ ap₂ (◌++◌) (linked-contents q.mem d a b old l n ∙ h.data_list)
                (ap (λ (c : Cell). c.data_of ∷ []) (linked-new q.mem d a b old));
      }

-- A push whose cell is new puts the data behind all other, without a fault.
pub queue_push-Holds :
    (q : Queue) (l xs : List ℕ) (d a : ℕ)
    → Holds q l xs
    → All (IsOther a) l
    → (r : Queue) × (queue_push q d (some a) ≡ ok r) × Holds r (l ++ a ∷ []) (xs ++ d ∷ [])
unfolding queue_push
queue_push-Holds q [] xs d a h n = (
  link q d a q.back,
  refl,
  subst (λ t. Holds (link q d a t) (a ∷ []) (xs ++ d ∷ [])) (sym h.ends) (link_first q d a xs h),
)
queue_push-Holds q (x ∷ l) xs d a h n =
    let (b, e) = last_of-some x l in
    (
      link q d a q.back,
      refl,
      subst (λ t. Holds (link q d a t) (x ∷ l ++ a ∷ []) (xs ++ d ∷ [])) (sym (h.ends ∙ e))
          (link_last q d a (x ∷ l) xs b h n e),
    )

-- Behind the first cell, `back` is what a pop leaves of it.
popped_back :
    (a : ℕ) (l : List ℕ)
    → All (IsOther a) l
    → (if is_same a (last_of (a ∷ l)) then none else last_of (a ∷ l)) ≡ last_of l
popped_back a [] n = let here : (a == a) ≡ true = ground arith in rw here refl
popped_back a (c ∷ l) n =
    let (b, e) = last_of-some c l in
    let old = last_of-All (IsOther a) (c ∷ l) b n e in
    let far : (a == b) ≡ false = ground arith in rw (e, far) refl

-- A pop of a queue that holds something takes the first of it out, without a fault, and
-- nghttp2_queue_front has handed out just that.
pub queue_pop-Holds :
    (q : Queue) (a : ℕ) (l xs : List ℕ) (x : ℕ)
    → Holds q (a ∷ l) (x ∷ xs)
    → (queue_front q ≡ ok x) × (r : Queue) × (queue_pop q ≡ ok r) × Holds r l xs
unfolding queue_pop queue_front
queue_pop-Holds q a l xs x h =
    let (here, rest) = h.linked in
    let (new, u) = h.distinct in
    let e = h.data_list in
    let first : (q.mem a).data_of ≡ x = cc in
    let others : contents q.mem l ≡ xs = cc in
    (
      ap (data_at q.mem) here ∙ ap ok first,
      record q { front = (q.mem a).next; back = if is_same a q.back then none else q.back },
      ap (pop_cell q) here,
      record {
        linked = rest;
        ends = ap (λ t. if is_same a t then none else t) h.ends ∙ popped_back a l new;
        distinct = u;
        data_list = others;
      },
    )
