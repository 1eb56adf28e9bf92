-- ===== src/Window/Bounds.antt =====
-- The ranges of the variables of a window.
use kitura_http.Prelude.{◌≡◌, refl, true, false, arith, Bool-cases, inl, inr}
use kitura_http.Prelude.Int.{ltb_ℤ, ℤ, pos, ◌+ℤ◌, ◌-ℤ◌, ◌≤ℤ◌, int_laws}
use kitura_http.Result.{ok}
use kitura_http.Window.{
  Window, adjust_local_window_size, enlarge, max_ℤ, min_ℤ, max_window_size, int32_min, adjust-ok,
  grow_local, shrunk, shrink_refused, grow_local-ok, shrink_local-ok,
}

-- The window and the reduction lie in 0 to 2^31 - 1. What was received and not given back is at
-- least minus the reduction, and no more than the window allows; the delta is an int32_t.
pub record IsWindow (w : Window) : Type 0 where
  pub local_nonneg : pos 0 ≤ℤ w.local
  pub local_fits : w.local ≤ℤ max_window_size
  pub reduction_nonneg : pos 0 ≤ℤ w.reduction
  pub reduction_fits : w.reduction ≤ℤ max_window_size
  pub recv_owed : pos 0 ≤ℤ w.recv +ℤ w.reduction
  pub recv_allowed : w.recv ≤ℤ w.local
  pub delta_low : int32_min ≤ℤ w.delta
  pub delta_fits : w.delta ≤ℤ max_window_size

not_less : (a b : ℤ) → ltb_ℤ a b ≡ false → b ≤ℤ a
not_less a b h = ground arith

less : (a b : ℤ) → ltb_ℤ a b ≡ true → a ≤ℤ b
less a b h = ground arith

min_ℤ_bounds :
    (a b : ℤ) → pos 0 ≤ℤ a → pos 0 ≤ℤ b → (pos 0 ≤ℤ min_ℤ a b) × (min_ℤ a b ≤ℤ a) × (min_ℤ a b ≤ℤ b)
min_ℤ_bounds a b h k = ground arith

max_ℤ-nonneg : (a : ℤ) → pos 0 ≤ℤ max_ℤ (pos 0) a
max_ℤ-nonneg a = ground arith

module _ (w : Window) (v : IsWindow w) where
  returned-IsWindow :
      ltb_ℤ (pos 0) w.delta ≡ true
      → ltb_ℤ (max_ℤ (pos 0) w.recv -ℤ w.delta) (pos 0) ≡ false
      → IsWindow (record w { recv = max_ℤ (pos 0) w.recv -ℤ w.delta })
  returned-IsWindow h k =
      let grows = less (pos 0) w.delta h in
      let left = not_less (max_ℤ (pos 0) w.recv -ℤ w.delta) (pos 0) k in
      let top : max_ℤ (pos 0) w.recv ≤ℤ w.local = elim (Bool-cases (ltb_ℤ w.recv (pos 0))) [
        | inl neg ↦ rw neg v.local_nonneg
        | inr nonneg ↦ rw nonneg v.recv_allowed
      ] in
      record {
        local_nonneg = v.local_nonneg;
        local_fits = v.local_fits;
        reduction_nonneg = v.reduction_nonneg;
        reduction_fits = v.reduction_fits;
        recv_owed = let r = v.reduction_nonneg in omega int_laws;
        recv_allowed = omega int_laws;
        delta_low = v.delta_low;
        delta_fits = v.delta_fits;
      }

  enlarge-IsWindow :
      (d : ℤ)
      → pos 0 ≤ℤ d
      → d ≤ℤ w.delta
      → ltb_ℤ (max_window_size -ℤ d) w.local ≡ false
      → IsWindow (enlarge w d)
  enlarge-IsWindow d nonneg le fits =
      let room = not_less (max_window_size -ℤ d) w.local fits in
      let (o1, o2, o3) = min_ℤ_bounds w.reduction d v.reduction_nonneg nonneg in
      let a = v.local_nonneg in
      let b = v.reduction_fits in
      let c = v.recv_owed in
      let e = v.delta_fits in
      let f = v.recv_allowed in
      record {
        local_nonneg = omega int_laws;
        local_fits = omega int_laws;
        reduction_nonneg = omega int_laws;
        reduction_fits = omega int_laws;
        recv_owed = elim (Bool-cases (ltb_ℤ w.recv (pos 0))) [
          | inl neg ↦ rw neg (omega int_laws)
          | inr above ↦ rw above (omega int_laws)
        ];
        recv_allowed = elim (Bool-cases (ltb_ℤ w.recv (pos 0))) [
          | inl neg ↦ rw neg (let n = less w.recv (pos 0) neg in omega int_laws)
          | inr above ↦ rw above (omega int_laws)
        ];
        delta_low = omega int_laws;
        delta_fits = omega int_laws;
      }

  shrunk-IsWindow : ltb_ℤ (pos 0) w.delta ≡ false → shrink_refused w ≡ false → IsWindow (shrunk w)
  shrunk-IsWindow down fine =
      let nonpos = not_less (pos 0) w.delta down in
      let stays : ltb_ℤ (w.local +ℤ w.delta) (pos 0) ≡ false = ground arith in
      let room : ltb_ℤ (max_window_size +ℤ w.delta) w.reduction ≡ false = ground arith in
      let a = not_less (w.local +ℤ w.delta) (pos 0) stays in
      let b = not_less (max_window_size +ℤ w.delta) w.reduction room in
      let c = v.reduction_nonneg in
      let d = v.local_fits in
      let e = v.recv_owed in
      let f = v.recv_allowed in
      record {
        local_nonneg = a;
        local_fits = omega int_laws;
        reduction_nonneg = omega int_laws;
        reduction_fits = omega int_laws;
        recv_owed = omega int_laws;
        recv_allowed = omega int_laws;
        delta_low = omega int_laws;
        delta_fits = omega int_laws;
      }

  grown-IsWindow :
      (r : Window)
      → ltb_ℤ (pos 0) w.delta ≡ true
      → grow_local w (max_ℤ (pos 0) w.recv -ℤ w.delta) (pos 0 -ℤ (max_ℤ (pos 0) w.recv -ℤ w.delta))
        ≡ ok r
      → IsWindow r
  grown-IsWindow r grows g = elim (grow_local-ok w _ _ r g) [
    | inl (nonneg, e) ↦ rw e (returned-IsWindow grows nonneg)
    | inr (fits, neg, e) ↦
        let n = less (max_ℤ (pos 0) w.recv -ℤ w.delta) (pos 0) neg in
        let m = max_ℤ-nonneg w.recv in
        rw e (
          enlarge-IsWindow (pos 0 -ℤ (max_ℤ (pos 0) w.recv -ℤ w.delta)) (omega int_laws)
            (omega int_laws) fits)
  ]

-- When nghttp2_adjust_local_window_size succeeds on variables in their ranges, they are in their
-- ranges afterwards.
pub adjust-IsWindow : (w r : Window) → IsWindow w → adjust_local_window_size w ≡ ok r → IsWindow r
adjust-IsWindow w r v h = elim (adjust-ok w r h) [
  | inl (grows, g) ↦ grown-IsWindow w v r grows g
  | inr (shrinks, g) ↦
      let (fine, e) = shrink_local-ok w r g in rw e (shrunk-IsWindow w v shrinks fine)
]

le_not_less : (a b : ℤ) → b ≤ℤ a → ltb_ℤ a b ≡ false
le_not_less a b h = ground arith

grow_local_in_range :
    (w : Window) (nr d : ℤ)
    → w.local +ℤ d ≤ℤ max_window_size
    → (r : Window) × (grow_local w nr d ≡ ok r)
unfolding grow_local
grow_local_in_range w nr d h =
    let fits = le_not_less (max_window_size -ℤ d) w.local (omega int_laws) in
    elim (Bool-cases (ltb_ℤ nr (pos 0))) [
      | inl neg ↦ (enlarge w d, rw (neg, fits, grow_local) refl)
      | inr nonneg ↦ (record w { recv = nr }, rw (nonneg, grow_local) refl)
    ]

-- A positive delta that keeps the window within 2^31 - 1 is never refused.
pub adjust_in_range :
    (w : Window)
    → pos 1 ≤ℤ w.delta
    → w.local +ℤ w.delta ≤ℤ max_window_size
    → (r : Window) × (adjust_local_window_size w ≡ ok r)
adjust_in_range w h k =
    let m = max_ℤ-nonneg w.recv in
    let grows : ltb_ℤ (pos 0) w.delta ≡ true = ground arith in
    let (r, e) =
      grow_local_in_range w (max_ℤ (pos 0) w.recv -ℤ w.delta)
        (pos 0 -ℤ (max_ℤ (pos 0) w.recv -ℤ w.delta)) (omega int_laws) in
    (r, unfold adjust_local_window_size in rw grows e)
