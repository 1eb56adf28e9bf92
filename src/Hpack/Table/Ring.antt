-- ===== src/Hpack/Table/Ring.antt =====
-- The ring buffer seen as the list of its entries, the newest one first.
use native.Mathlib.Nat.{mod-lt, mod-eq_of_lt, mod-eq-sub-mod}
use kitura_http.Prelude.{
  ℕ, zero, suc, ◌+◌, ◌-◌, ◌*◌, ◌%◌, ◌≤◌, ◌<◌, ◌≡◌, ◌≢◌, ◌⊎◌, refl, ap, ap₂, ◌∙◌, List, [], ◌∷◌,
  ◌++◌, true, false, length, get_or, replicate, ltb, leb, ◌==◌, arith, Bool-cases, inl, inr,
  get_or-set, get_or-append, length-set, length-append, length-replicate,
}
use kitura_http.Result.{ok}
use kitura_http.Hpack.Table.{
  HdEntry, no_entry, Ringbuf, double_to, place, entries_from, ringbuf_reserve, put_front,
  ringbuf_push_front,
}

pub record IsRing (r : Ringbuf) : Type 0 where
  pub first_in : r.first < length r.buffer
  pub fits : r.len ≤ length r.buffer

-- The entries in order, the newest first.
abbrev pub entries : Ringbuf → List HdEntry
entries r = entries_from r r.len 0

wrap_add :
    (n a b : ℕ)
    → a < n
    → b < n
    → (((a + b) % n ≡ a + b) × (a + b < n)) ⊎ (((a + b) % n ≡ a + b - n) × (n ≤ a + b))
wrap_add n a b h k = elim (Bool-cases (ltb (a + b) n)) [
  | inl small ↦ let l : a + b < n = ground arith in inl (mod-eq_of_lt l, l)
  | inr large ↦
      let l : n ≤ a + b = ground arith in
      let s : a + b - n < n = omega arith in inr (mod-eq-sub-mod l ∙ mod-eq_of_lt s, l)
]

-- Behind the place before `first`, the places are those from `first` on, and different ones.
shifted :
    (n first j p : ℕ)
    → first < n
    → j + 1 < n
    → p ≡ (first + n - 1) % n
    → ((p + (j + 1)) % n ≡ (first + j) % n) × ((p + (j + 1)) % n ≢ p) × (p < n)
shifted n first j p h k e =
    let back : first + n - 1 ≡ first + (n - 1) = omega arith in
    let at : p ≡ (first + (n - 1)) % n = rw back at e in
    let before = wrap_add n first (n - 1) h (omega arith) in
    let inside : p < n = omega arith in
    let moved = wrap_add n p (j + 1) inside k in
    let here = wrap_add n first j h (omega arith) in (omega arith, λ q. omega arith, inside)

pub length-entries_from : (r : Ringbuf) (k j : ℕ) → length (entries_from r k j) ≡ k
length-entries_from r zero j = refl
length-entries_from r (suc k) j = ap suc (length-entries_from r k (j + 1))

pub get_or-entries_from :
    (r : Ringbuf) (k j i : ℕ) → i < k → get_or (entries_from r k j) i no_entry ≡ place r (j + i)
get_or-entries_from r zero j i h = elim h [ ]
get_or-entries_from r (suc k) j zero h = ap (place r) (omega arith)
get_or-entries_from r (suc k) j (suc i) h =
    get_or-entries_from r k (j + 1) i (omega arith) ∙ ap (place r) (omega arith)

-- Places that hold the same entries, `s` further on.
entries_from-same :
    (r t : Ringbuf) (s k j : ℕ)
    → ((i : ℕ) → i < j + k → place t (i + s) ≡ place r i)
    → entries_from t k (j + s) ≡ entries_from r k j
entries_from-same r t s zero j h = refl
entries_from-same r t s (suc k) j h = ap₂ (◌∷◌) (h j (omega arith)) (
    ap (entries_from t k) (omega arith)
    ∙ entries_from-same r t s k (j + 1) (λ i l. h i (omega arith)))

pub entries_from-snoc :
    (r : Ringbuf) (k j : ℕ) → entries_from r (suc k) j ≡ entries_from r k j ++ place r (j + k) ∷ []
entries_from-snoc r zero j = ap (λ t. place r t ∷ []) (omega arith)
entries_from-snoc r (suc k) j =
    ap (λ t. place r j ∷ t)
      (entries_from-snoc r k (j + 1)
        ∙ ap (λ t. entries_from r k (j + 1) ++ place r t ∷ []) (omega arith))

front_in : (n first : ℕ) → first < n → (first + n - 1) % n < n
front_in n first h = mod-lt _ (omega arith)

newest : (r : Ringbuf) (e : HdEntry) → IsRing r → place (put_front e r) 0 ≡ e
newest r e v =
    let n = length r.buffer in
    let front = front_in n r.first v.first_in in
    let size = length-set r.buffer ((r.first + n - 1) % n) e in
    let zero_on : (r.first + n - 1) % n + 0 ≡ (r.first + n - 1) % n = omega arith in
    let same : ((r.first + n - 1) % n == (r.first + n - 1) % n) ≡ true = ground arith in
    rw
      (
        size,
        zero_on,
        mod-eq_of_lt front,
        get_or-set no_entry r.buffer ((r.first + n - 1) % n) ((r.first + n - 1) % n) e front,
        same,
      )
      refl

moved :
    (r : Ringbuf) (e : HdEntry)
    → IsRing r
    → (i : ℕ) → i + 1 < length r.buffer
    → place (put_front e r) (i + 1) ≡ place r i
moved r e v i h =
    let n = length r.buffer in
    let p : ℕ = (r.first + n - 1) % n in
    let (same, other, inside) = shifted n r.first i p v.first_in h refl in
    let size = length-set r.buffer p e in
    let differs : (p == (r.first + i) % n) ≡ false = ground (arith, same) in
    rw (size, same, get_or-set no_entry r.buffer p ((r.first + i) % n) e inside, differs) refl

put_front-entries :
    (r : Ringbuf) (e : HdEntry)
    → IsRing r
    → r.len < length r.buffer
    → IsRing (put_front e r) × (entries (put_front e r) ≡ e ∷ entries r)
put_front-entries r e v room =
    let first_in = v.first_in in
    let n = length r.buffer in
    let p : ℕ = (r.first + n - 1) % n in
    let front = front_in n r.first first_in in
    let size = length-set r.buffer p e in
    (
      record { first_in = omega arith; fits = omega arith },
      ap₂ (◌∷◌) (newest r e v)
          (entries_from-same r (put_front e r) 1 r.len 0 (λ i l. moved r e v i (omega arith))),
    )

double_to-enough :
    (fuel size bufsize : ℕ)
    → 0 < size
    → bufsize ≤ size + fuel
    → bufsize ≤ double_to fuel size bufsize
unfolding double_to
double_to-enough zero size bufsize h k = omega arith
double_to-enough (suc fuel) size bufsize h k =
    let rest = double_to-enough fuel (size * 2) bufsize (omega arith) (omega arith) in ground arith

-- The buffer that ringbuf_reserve makes.
abbrev larger : Ringbuf → ℕ → Ringbuf
larger r size = record r { buffer = entries r ++ replicate (size - r.len) no_entry; first = 0 }

larger-length : (r : Ringbuf) (size : ℕ) → r.len ≤ size → length (larger r size).buffer ≡ size
larger-length r size h =
    let a = length-append (entries r) (replicate (size - r.len) no_entry) in
    let b = length-entries_from r r.len 0 in
    let c = length-replicate (size - r.len) no_entry in omega arith

larger-place :
    (r : Ringbuf) (size i : ℕ) → r.len ≤ size → i < r.len → place (larger r size) i ≡ place r i
larger-place r size i h l =
    let n = larger-length r size h in
    let zero_on : 0 + i ≡ i = omega arith in
    let small : i < size = omega arith in
    let len = length-entries_from r r.len 0 in
    rw (n, zero_on, mod-eq_of_lt small)
      (get_or-append no_entry (entries r) (replicate (size - r.len) no_entry) i (omega arith)
        ∙ get_or-entries_from r r.len 0 i l
        ∙ ap (place r) zero_on)

-- With memory at hand the buffer has room for one more entry, and the same entries.
reserve-entries :
    (r : Ringbuf)
    → IsRing r
    → (t : Ringbuf) × (ringbuf_reserve r (r.len + 1) true ≡ ok t)
      × IsRing t
      × (t.len < length t.buffer)
      × (t.len ≡ r.len)
      × (entries t ≡ entries r)
unfolding ringbuf_reserve
reserve-entries r v = elim (Bool-cases (leb (r.len + 1) (length r.buffer))) [
  | inl room ↦ (r, rw room refl, v, ground arith, refl, refl)
  | inr full ↦
      let size = double_to (r.len + 1) 1 (r.len + 1) in
      let enough = double_to-enough (r.len + 1) 1 (r.len + 1) (omega arith) (omega arith) in
      let n = larger-length r size (omega arith) in
      (
        larger r size,
        rw full refl,
        record { first_in = omega arith; fits = omega arith },
        omega arith,
        refl,
        entries_from-same r (larger r size) 0 r.len 0 (λ i l.
            ap (place (larger r size)) (omega arith)
            ∙ larger-place r size i (omega arith) (omega arith)),
      )
]

-- A push with memory at hand puts the entry before the others, whether the buffer grows or not.
pub push_front-entries :
    (r : Ringbuf) (e : HdEntry)
    → IsRing r
    → (t : Ringbuf) × (ringbuf_push_front r e true ≡ ok t)
      × IsRing t
      × (t.len ≡ suc r.len)
      × (entries t ≡ e ∷ entries r)
unfolding ringbuf_push_front
push_front-entries r e v =
    let (t, done, w, room, len, same) = reserve-entries r v in
    let (w', all) = put_front-entries t e w room in
    (put_front e t, rw done refl, w', ap suc len, all ∙ ap (λ l. e ∷ l) same)
