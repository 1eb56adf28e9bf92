-- ===== src/Window/Credit.antt =====
-- The peer's credit and the WINDOW_UPDATE that is to be sent.
use kitura_http.Prelude.{◌≡◌, true, false, arith, Bool-cases, inl, inr}
use kitura_http.Prelude.Int.{ltb_ℤ, ℤ, pos, ◌+ℤ◌, ◌-ℤ◌, -ℤ_parts, int_laws}
use kitura_http.Result.{ok}
use kitura_http.Window.{
  Window, adjust_local_window_size, increase_local_window_size, enlarge, max_ℤ, min_ℤ, adjust-ok,
  grow_local-ok, shrink_local-ok,
}

-- What the peer may still send: the window without the bytes that were not yet given back.
abbrev pub credit : Window → ℤ
credit w = w.local -ℤ w.recv

-- The peer's credit grows from `w` to `r` by the delta that is left to be sent.
abbrev pub Credited : Window → Window → Type 0
Credited w r = credit r ≡ credit w +ℤ r.delta

enlarged_below :
    (l r dl owed : ℤ) → l +ℤ (pos 0 -ℤ (pos 0 -ℤ dl)) -ℤ (r +ℤ owed) ≡ l -ℤ r +ℤ (dl -ℤ owed)
enlarged_below l r dl owed = omega int_laws

enlarged_above : (l r dl owed : ℤ) → l +ℤ (pos 0 -ℤ (r -ℤ dl)) -ℤ owed ≡ l -ℤ r +ℤ (dl -ℤ owed)
enlarged_above l r dl owed = omega int_laws

enlarge-Credited :
    (w : Window) → Credited w (enlarge w (pos 0 -ℤ (max_ℤ (pos 0) w.recv -ℤ w.delta)))
enlarge-Credited w = elim (Bool-cases (ltb_ℤ w.recv (pos 0))) [
  | inl neg ↦ rw neg (enlarged_below w.local w.recv w.delta _)
  | inr nonneg ↦ rw nonneg (enlarged_above w.local w.recv w.delta _)
]

returned-Credited :
    (w : Window)
    → ltb_ℤ (pos 0) w.delta ≡ true
    → ltb_ℤ (max_ℤ (pos 0) w.recv -ℤ w.delta) (pos 0) ≡ false
    → Credited w (record w { recv = max_ℤ (pos 0) w.recv -ℤ w.delta })
returned-Credited w h k = elim (Bool-cases (ltb_ℤ w.recv (pos 0))) [
  | inl neg ↦ absurd (returned_below w.delta h (rw neg at k))
  | inr nonneg ↦ rw nonneg (omega int_laws)
]
  where
    returned_below : (dl : ℤ) → ltb_ℤ (pos 0) dl ≡ true → ltb_ℤ (pos 0 -ℤ dl) (pos 0) ≡ false → ⊥
    returned_below dl p q = ground (arith, -ℤ_parts (pos 0) dl)

shrunk-Credited : (l r dl : ℤ) → l +ℤ dl -ℤ (r +ℤ dl) ≡ l -ℤ r +ℤ pos 0
shrunk-Credited l r dl = omega int_laws

-- When nghttp2_adjust_local_window_size succeeds, on any branch, the peer's credit grows by the
-- delta that it leaves to be sent.
pub adjust-Credited : (w r : Window) → adjust_local_window_size w ≡ ok r → Credited w r
adjust-Credited w r h = elim (adjust-ok w r h) [
  | inl (grows, g) ↦ elim (grow_local-ok w _ _ r g) [
    | inl (nonneg, e) ↦ rw e (returned-Credited w grows nonneg)
    | inr (fits, neg, e) ↦ rw e (enlarge-Credited w)
  ]
  | inr (shrinks, g) ↦ rw ((shrink_local-ok w r g).1) (shrunk-Credited w.local w.recv w.delta)
]

increased : (l r dl owed : ℤ) → l +ℤ dl -ℤ (r +ℤ owed) ≡ l -ℤ r +ℤ (dl -ℤ owed)
increased l r dl owed = omega int_laws

-- When nghttp2_increase_local_window_size succeeds, the peer's credit grows by the delta that it
-- leaves to be sent.
pub increase-Credited : (w r : Window) → increase_local_window_size w ≡ ok r → Credited w r
unfolding increase_local_window_size
increase-Credited w r h =
    ground (arith, increased w.local w.recv w.delta (min_ℤ w.reduction w.delta))
