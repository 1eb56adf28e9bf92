-- ===== src/Pq.antt =====
-- Sources/nghttp2/nghttp2_pq.c: a binary heap of entries, each of which knows its place.
-- An entry is a number; the store `index` holds the `index` member of every entry. The list holds
-- the `length` entries in use, so `--pq->length` drops the last one. `less` is the callback.
pub mod Order
pub mod Up
pub mod Down
pub mod Move
pub mod Ops
pub mod Remove
pub mod Tests
use kitura_http.Prelude.{
  ℕ, zero, suc, ◌+◌, ◌-◌, ◌*◌, ◌/◌, max, List, [], ◌∷◌, ◌++◌, Bool, true, false, ◌||◌, Option, none,
  some, length, get_or, get_elem?, set, take, ltb, leb, not, ◌==◌, if◌then◌else◌,
}
use kitura_http.Result.{Result, ok, err, fault, nomem, ◌>>=◌, require}

pub record Pq : Type 0 where
  pub q : List ℕ
  pub index : ℕ → ℕ
  pub capacity : ℕ

-- `entry->index = i`.
abbrev pub put_index : (ℕ → ℕ) → ℕ → ℕ → ℕ → ℕ
put_index index entry i e = if e == entry then i else index e

-- nghttp2_pq_init.
unfoldable pub pq_init : (ℕ → ℕ) → Pq
pq_init index = record { q = []; index = index; capacity = 0 }

abbrev pub parent : ℕ → ℕ
parent i = (i - 1) / 2

-- `pq->q[i]`.
abbrev pub at : List ℕ → ℕ → ℕ
at q i = get_or q i 0

unfoldable pub pq_swap : Pq → ℕ → ℕ → Pq
pq_swap pq i j =
    let a = at pq.q i in
    let b = at pq.q j in
    record pq { q = set (set pq.q i b) j a; index = put_index (put_index pq.index b i) a j }

-- nghttp2_pq_top and nghttp2_pq_empty; nghttp2_pq_size is the length of the list.
unfoldable pub pq_top : Pq → Option ℕ
pq_top pq = get_elem? pq.q 0

unfoldable pub pq_empty : Pq → Bool
pq_empty pq = length pq.q == 0

abbrev enter : Pq → ℕ → Pq
enter pq item = record pq { q = pq.q ++ item ∷ []; index = put_index pq.index item (length pq.q) }

-- `pq->q[i] = pq->q[pq->length - 1]`, its index set, and `--pq->length`.
abbrev move_last : Pq → ℕ → Pq
move_last pq i =
    let n = length pq.q - 1 in
    let last = at pq.q n in
    record pq { q = take n (set pq.q i last); index = put_index pq.index last i }

module _ (less : ℕ → ℕ → Bool) where
  -- The `while` of bubble_up halves `index`, so `index` rounds are enough.
  unfoldable pub bubble_up_loop : ℕ → Pq → ℕ → Pq
  bubble_up_loop zero pq i = pq
  bubble_up_loop (suc fuel) pq i =
      let rest = bubble_up_loop fuel (pq_swap pq (parent i) i) (parent i) in
      let step = if not (less (at pq.q i) (at pq.q (parent i))) then pq else rest in
      if i == 0 then pq else step

  unfoldable pub bubble_up : Pq → ℕ → Pq
  unfolding bubble_up_loop pq_swap
  bubble_up pq i = bubble_up_loop i pq i

  abbrev smaller : List ℕ → ℕ → ℕ → ℕ
  smaller q j m = if leb (length q) j then m else if less (at q j) (at q m) then j else m

  -- The inner loop of bubble_down; past the last entry its second round changes nothing either.
  abbrev pub minindex : List ℕ → ℕ → ℕ
  minindex q i = smaller q (i * 2 + 2) (smaller q (i * 2 + 1) i)

  -- Each round moves `index` down the tree.
  unfoldable pub bubble_down_loop : ℕ → Pq → ℕ → Pq
  bubble_down_loop zero pq i = pq
  bubble_down_loop (suc fuel) pq i =
      let m = minindex pq.q i in
      let rest = bubble_down_loop fuel (pq_swap pq i m) m in if m == i then pq else rest

  unfoldable pub bubble_down : Pq → ℕ → Pq
  unfolding bubble_down_loop pq_swap
  bubble_down pq i = bubble_down_loop (length pq.q) pq i

  -- nghttp2_pq_push; `granted` is the answer of the allocator when the array must grow.
  unfoldable pub pq_push : Pq → ℕ → Bool → Result Pq
  unfolding bubble_up
  pq_push pq item granted =
      let n = length pq.q in
      if leb pq.capacity n
      then (if granted
          then ok (bubble_up (enter (record pq { capacity = max 4 (pq.capacity * 2) }) item) n)
          else err nomem)
      else ok (bubble_up (enter pq item) n)

  unfoldable pub pq_pop : Pq → Pq
  unfolding bubble_down
  pq_pop pq = if ltb 0 (length pq.q) then bubble_down (move_last pq 0) 0 else pq

  -- nghttp2_pq_remove. The branch for the last entry leaves the array and every index alone.
  unfoldable pub pq_remove : Pq → ℕ → Result Pq
  unfolding bubble_up bubble_down pq_pop
  pq_remove pq item =
      let i = pq.index item in
      let n = length pq.q - 1 in
      let moved = move_last pq i in
      require (ltb i (length pq.q)) (
        require (at pq.q i == item) (
          if i == 0
          then ok (pq_pop pq)
          else if i == n
          then ok (record pq { q = take n pq.q })
          else if less item (at moved.q i)
          then ok (bubble_down moved i)
          else ok (bubble_up moved i)))

  -- The second loop of nghttp2_pq_update, from the last entry to the first.
  unfoldable pub pq_rebuild : ℕ → Pq → Pq
  unfolding bubble_down
  pq_rebuild zero pq = pq
  pq_rebuild (suc i) pq = pq_rebuild i (bubble_down pq i)

  -- nghttp2_pq_update, after the callback has visited the entries: `less` is the order of the
  -- entries as it left them, and `rv` is nonzero if it changed one.
  unfoldable pub pq_update : ℕ → Pq → Pq
  unfolding pq_rebuild
  pq_update rv pq =
      if length pq.q == 0 then pq else if rv == 0 then pq else pq_rebuild (length pq.q) pq
