-- ===== src/Hpack/Table/Evict.antt =====
-- The loops that evict entries from the back of the table.
use kitura_http.Prelude.{
  ℕ, zero, suc, ◌+◌, ◌-◌, ◌≤◌, ◌<◌, ◌≡◌, refl, sym, ap, ◌∙◌, subst, List, [], ◌∷◌, ◌++◌, true,
  false, ltb, leb, if◌then◌else◌, arith, Bool-cases, inl, inr,
}
use kitura_http.Hpack.Table.{
  HdEntry, Ringbuf, place, entries_from, Context, room_of, evict_last, evict,
}
use kitura_http.Hpack.Table.Ring.{IsRing, entries, entries_from-snoc}

-- The size of a table (RFC 7541, 4.1).
abbrev pub total : List HdEntry → ℕ
total [] = 0
total (e ∷ es) = room_of e + total es

-- The longest run of the newest entries that fits into `max` beside the `used` octets (4.3, 4.4).
abbrev pub keep : ℕ → ℕ → List HdEntry → List HdEntry
keep max used [] = []
keep max used (e ∷ es) =
    let rest = keep max (used + room_of e) es in if leb (used + room_of e) max then e ∷ rest else []

keep_all : (max used : ℕ) (es : List HdEntry) → used + total es ≤ max → keep max used es ≡ es
keep_all max used [] h = refl
keep_all max used (e ∷ es) h =
    let fits : leb (used + room_of e) max ≡ true = ground arith in
    let rest = keep_all max (used + room_of e) es (omega arith) in rw (fits, rest) refl

-- The last entry is not kept when all of them do not fit.
keep-snoc :
    (max used : ℕ) (es : List HdEntry) (x : HdEntry)
    → max < used + total (es ++ x ∷ [])
    → keep max used (es ++ x ∷ []) ≡ keep max used es
keep-snoc max used [] x h =
    let over : leb (used + room_of x) max ≡ false = ground arith in rw over refl
keep-snoc max used (e ∷ es) x h =
    let rest = keep-snoc max (used + room_of e) es x (omega arith) in rw rest refl

total-snoc : (es : List HdEntry) (x : HdEntry) → total (es ++ x ∷ []) ≡ total es + room_of x
total-snoc [] x = omega arith
total-snoc (e ∷ es) x = let rest = total-snoc es x in omega arith

pub total-keep :
    (max used : ℕ) (es : List HdEntry) → used ≤ max → used + total (keep max used es) ≤ max
total-keep max used [] h = omega arith
total-keep max used (e ∷ es) h = elim (Bool-cases (leb (used + room_of e) max)) [
  | inl fits ↦
      let rest = total-keep max (used + room_of e) es (ground arith) in rw fits (omega arith)
  | inr over ↦ rw over (omega arith)
]

-- A table of the entries `es`, whose size is accounted for.
pub record IsTable (c : Context) (es : List HdEntry) : Type 0 where
  pub ring : IsRing c.hd_table
  pub held : entries c.hd_table ≡ es
  pub accounted : c.hd_table_bufsize ≡ total es

-- `d` is `c` but for the entries and the size.
abbrev pub SameLimits : Context → Context → Type 0
SameLimits c d = (d.hd_table_bufsize_max ≡ c.hd_table_bufsize_max) × (d.next_seq ≡ c.next_seq)

pub split_last :
    (c : Context) (m : ℕ)
    → c.hd_table.len ≡ suc m
    → entries c.hd_table ≡ entries_from c.hd_table m 0 ++ place c.hd_table m ∷ []
split_last c m e =
    ap (λ k. entries_from c.hd_table k 0) e
    ∙ entries_from-snoc c.hd_table m 0
    ∙ ap (λ t. entries_from c.hd_table m 0 ++ place c.hd_table t ∷ []) (omega arith)

pub evict_last-IsTable :
    (c : Context) (m : ℕ)
    → c.hd_table.len ≡ suc m
    → IsTable c (entries c.hd_table)
    → IsTable (evict_last c) (entries_from c.hd_table m 0)
evict_last-IsTable c m e v =
    let less : c.hd_table.len - 1 ≡ m = omega arith in
    let first_in = v.ring.first_in in
    let fits = v.ring.fits in
    let size = v.accounted in
    let whole = ap total (split_last c m e) in
    let snoc = total-snoc (entries_from c.hd_table m 0) (place c.hd_table m) in
    rw less (record {
      ring = record { first_in = first_in; fits = omega arith };
      held = refl;
      accounted = omega arith;
    })

pub no_entries : (r : Ringbuf) → r.len ≡ 0 → entries r ≡ []
no_entries r e = ap (λ k. entries_from r k 0) e

pub itself : {c : Context} {es : List HdEntry} → IsTable c es → IsTable c (entries c.hd_table)
itself v = record { ring = v.ring; held = refl; accounted = v.accounted ∙ ap total (sym v.held) }

-- The entries that a round takes out are not kept.
round-keep :
    (c : Context) (m room : ℕ)
    → c.hd_table.len ≡ suc m
    → IsTable c (entries c.hd_table)
    → c.hd_table_bufsize_max < c.hd_table_bufsize + room
    → keep c.hd_table_bufsize_max room (entries (evict_last c).hd_table)
      ≡ keep c.hd_table_bufsize_max room (entries c.hd_table)
round-keep c m room e v over =
    let max = c.hd_table_bufsize_max in
    let split = split_last c m e in
    let whole = ap total split in
    let size = v.accounted in
    let w = evict_last-IsTable c m e v in
    ap (keep max room) w.held
    ∙ sym (keep-snoc max room (entries_from c.hd_table m 0) (place c.hd_table m) (omega arith))
    ∙ ap (keep max room) (sym split)

-- Evicting for an entry that needs `room` leaves the longest run of the newest entries that fits
-- beside it, and the size of what is left.
pub evict-keep :
    (fuel room : ℕ) (c : Context)
    → IsTable c (entries c.hd_table)
    → c.hd_table.len ≤ fuel
    → IsTable (evict fuel room c) (keep c.hd_table_bufsize_max room (entries c.hd_table))
      × SameLimits c (evict fuel room c)
unfolding evict
evict-keep zero room c v h =
    let none_left = no_entries c.hd_table (omega arith) in
    let kept : entries c.hd_table ≡ keep c.hd_table_bufsize_max room (entries c.hd_table) =
      none_left ∙ ap (keep c.hd_table_bufsize_max room) (sym none_left) in
    (subst (IsTable c) kept v, (refl, refl))
evict-keep (suc fuel) room c v h =
    let max = c.hd_table_bufsize_max in
    let size = v.accounted in
    elim (Bool-cases (ltb max (c.hd_table_bufsize + room))) [
      | inr fits ↦
          let kept = keep_all max room (entries c.hd_table) (ground arith) in
          rw fits (subst (IsTable c) (sym kept) v, (refl, refl))
      | inl over ↦ elim (Bool-cases (ltb 0 c.hd_table.len)) [
        | inr empty ↦
            let none_left = no_entries c.hd_table (ground arith) in
            let kept : entries c.hd_table ≡ keep max room (entries c.hd_table) =
              none_left ∙ ap (keep max room) (sym none_left) in
            rw (over, empty) (subst (IsTable c) kept v, (refl, refl))
        | inl more ↦
            let e : c.hd_table.len ≡ suc (c.hd_table.len - 1) = ground arith in
            let w = itself (evict_last-IsTable c (c.hd_table.len - 1) e v) in
            let (left, same) = evict-keep fuel room (evict_last c) w (omega arith) in
            let kept = round-keep c (c.hd_table.len - 1) room e v (ground arith) in
            rw (over, more) (subst (IsTable (evict fuel room (evict_last c))) kept left, same)
      ]
    ]
