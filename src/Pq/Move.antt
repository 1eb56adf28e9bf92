-- ===== src/Pq/Move.antt =====
-- The list after an entry is added behind it, or after the last entry takes the place of another.
use mathlib.Core.List.{Perm}
use mathlib.Core.List.Perm
use kitura_http.Prelude.{
  ℕ, suc, ◌-◌, ◌≤◌, ◌<◌, ◌≡◌, sym, ap, ◌∙◌, subst, ◌≢◌, List, [], ◌∷◌, ◌++◌, Bool, true, false,
  length, set, take, arith, ◌==◌, if◌then◌else◌, length-append, length-take, length-set,
  get_or-append, get_or-append_last, get_or-take, get_or-set, take-append-last, concat-perm,
  set-perm,
}
use kitura_http.Pq.{Pq, at, parent, put_index, enter, move_last}
use kitura_http.Pq.Order.{StrictWeak, IsHeap, IsIndexed}
use kitura_http.Pq.Up.{UpInv}
use kitura_http.Pq.Down.{DownInv}

-- `item` is not in the queue.
abbrev pub IsNew : Pq → ℕ → Type 0
IsNew pq item = (i : ℕ) → i < length pq.q → at pq.q i ≢ item

module _ (less : ℕ → ℕ → Bool) (pq : Pq) where
  pub enter-IsIndexed : (item : ℕ) → IsIndexed pq → IsNew pq item → IsIndexed (enter pq item)
  enter-IsIndexed item x new c h = ground (
    arith,
    length-append pq.q (item ∷ []),
    get_or-append 0 pq.q (item ∷ []) c,
    get_or-append_last 0 pq.q item,
    x c,
    new c,
  )

  pub enter-UpInv : (item : ℕ) → IsHeap less pq.q → UpInv less (enter pq item).q (length pq.q)
  enter-UpInv item heap =
      let size = length-append pq.q (item ∷ []) in
      let kept = get_or-append 0 pq.q (item ∷ []) in
      record {
        inside = omega arith;
        edges = λ c h k n. ground (arith, size, heap c, kept c, kept (parent c));
        bridged = λ c h k e z. absurd (omega arith);
      }

module _ (less : ℕ → ℕ → Bool) (pq : Pq) (i n : ℕ) (size : length pq.q ≡ suc n) where
  abbrev pub last : ℕ
  last = at pq.q n

  -- The list after `q[i] = q[n]` and `--length`.
  abbrev pub cut : List ℕ
  cut = take n (set pq.q i last)

  pub length-cut : length cut ≡ n
  length-cut = omega (arith, length-take n (set pq.q i last), length-set pq.q i last)

  pub at-cut : i ≤ n → (c : ℕ) → c < n → at cut c ≡ (if i == c then last else at pq.q c)
  at-cut h c k =
      ground (arith, size, get_or-take 0 n (set pq.q i last) c, get_or-set 0 pq.q i c last)

  pub cut-perm : i ≤ n → Perm (at pq.q i ∷ cut) pq.q
  cut-perm h =
      let inside : i < length pq.q = omega arith in
      let whole = take-append-last 0 n (set pq.q i last) (length-set pq.q i last ∙ size) in
      let end : at (set pq.q i last) n ≡ last = ground (arith, size, get_or-set 0 pq.q i n last) in
      let joined : cut ++ last ∷ [] ≡ set pq.q i last = ap (λ t. cut ++ t ∷ []) (sym end) ∙ whole in
      let traded =
        subst (λ t. Perm (at pq.q i ∷ t) (last ∷ pq.q)) (sym joined)
          (set-perm 0 pq.q i last inside) in
      Perm.cons_inv {a = last} (
        Perm.trans (Perm.swap (at pq.q i) last cut)
          (Perm.trans (Perm.cons (at pq.q i) (Perm.symm (concat-perm 0 cut last))) traded))

  abbrev pub moved : Pq
  moved = record pq { q = cut; index = put_index pq.index last i }

  pub move_last-moved : move_last pq i ≡ moved
  move_last-moved = let e : length pq.q - 1 ≡ n = omega arith in rw e

  pub moved-IsIndexed : i ≤ n → IsIndexed pq → IsIndexed moved
  moved-IsIndexed h x c k =
      let below : c < n = omega (arith, length-cut) in
      ground
        (arith, size, at-cut h c below, x c (omega arith), x i (omega arith), x n (omega arith))

  pub root-DownInv : i ≡ 0 → IsHeap less pq.q → DownInv 0 less cut 0
  root-DownInv e heap = record {
    edges = λ c h k l r. ground (
      arith,
      size,
      length-cut,
      heap c,
      at-cut (omega arith) c (omega (arith, length-cut)),
      at-cut (omega arith) (parent c) (omega (arith, length-cut)),
    );
    bridged = λ c h k l z. absurd (omega arith);
  }

  module _ (w : StrictWeak less) (pos : 0 < i) (h : i < n) (heap : IsHeap less pq.q) where
    -- The last entry is not less than the parent of the removed one if that is less than it.
    pub greater-DownInv : less (at pq.q i) last ≡ true → DownInv 0 less cut i
    greater-DownInv less_last =
        let item = at pq.q i in
        let up = at pq.q (parent i) in
        let before =
          w.trans up item last (heap i pos (omega arith) (omega arith))
            (w.asym item last less_last) in
        record {
          edges = λ c a b l r. ground (
            arith,
            size,
            length-cut,
            heap c,
            before,
            at-cut (omega arith) c (omega (arith, length-cut)),
            at-cut (omega arith) (parent c) (omega (arith, length-cut)),
          );
          bridged = λ c a b e z l. ground (
            arith,
            size,
            length-cut,
            heap c,
            heap i,
            w.trans up item (at pq.q c),
            at-cut (omega arith) c (omega (arith, length-cut)),
            at-cut (omega arith) (parent i) (omega arith),
          );
        }

    pub no_greater-UpInv : less (at pq.q i) last ≡ false → UpInv less cut i
    no_greater-UpInv not_less =
        let item = at pq.q i in
        let up = at pq.q (parent i) in
        record {
          inside = omega (arith, length-cut);
          edges = λ c a b r. ground (
            arith,
            size,
            length-cut,
            heap c,
            not_less,
            w.trans last item (at pq.q c),
            at-cut (omega arith) c (omega (arith, length-cut)),
            at-cut (omega arith) (parent c) (omega (arith, length-cut)),
          );
          bridged = λ c a b e z. ground (
            arith,
            size,
            length-cut,
            heap c,
            heap i,
            w.trans up item (at pq.q c),
            at-cut (omega arith) c (omega (arith, length-cut)),
            at-cut (omega arith) (parent i) (omega arith),
          );
        }
