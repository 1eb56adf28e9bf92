-- ===== src/Window.antt =====
-- Sources/nghttp2/nghttp2_helper.c: the arithmetic of flow control windows. An int32_t is an integer
-- here, without the wrap-around that C leaves undefined.
pub mod Credit
pub mod Bounds
pub mod Tests
use kitura_http.Prelude.{
  ℕ, ◌+◌, ◌-◌, ◌/◌, Bool, true, false, ◌&&◌, ◌||◌, not, if◌then◌else◌, ◌≡◌, sym, ◌⊎◌, inl, inr,
  Bool-cases,
}
use kitura_http.Prelude.Int.{ℤ, pos, negsuc, ◌+ℤ◌, ◌-ℤ◌, ltb_ℤ}
use kitura_http.Result.{Result, ok, err, fault, flow_control, require, ok-injective}

-- The four variables that the functions take by pointer. On an error none of them is written.
pub record Window : Type 0 where
  pub local : ℤ
  pub recv : ℤ
  pub reduction : ℤ
  pub delta : ℤ

-- NGHTTP2_MAX_WINDOW_SIZE, which is INT32_MAX, and INT32_MIN.
abbrev pub max_window_size : ℤ
max_window_size = pos 2147483647

abbrev pub int32_min : ℤ
int32_min = negsuc 2147483647

abbrev pub min_ℤ : ℤ → ℤ → ℤ
min_ℤ a b = if ltb_ℤ a b then a else b

abbrev pub max_ℤ : ℤ → ℤ → ℤ
max_ℤ a b = if ltb_ℤ b a then a else b

-- The enlarging half of nghttp2_adjust_local_window_size, with the reduction of it that is owed.
abbrev pub enlarge : Window → ℤ → Window
enlarge w d =
    let owed = min_ℤ w.reduction d in
    record {
      local = w.local +ℤ d;
      recv = if ltb_ℤ w.recv (pos 0) then w.recv +ℤ owed else owed;
      reduction = w.reduction -ℤ owed;
      delta = w.delta -ℤ owed;
    }

-- nghttp2_adjust_local_window_size on a positive delta; `new_recv` and `d` are its variables.
unfoldable pub grow_local : Window → ℤ → ℤ → Result Window
grow_local w new_recv d =
    if not (ltb_ℤ new_recv (pos 0))
    then ok (record w { recv = new_recv })
    else if ltb_ℤ (max_window_size -ℤ d) w.local
    then err flow_control
    else ok (enlarge w d)

abbrev pub shrink_refused : Window → Bool
shrink_refused w =
    ltb_ℤ (w.local +ℤ w.delta) (pos 0)
    || (ltb_ℤ w.recv (int32_min -ℤ w.delta) || ltb_ℤ (max_window_size +ℤ w.delta) w.reduction)

-- The rest of it.
unfoldable pub shrink_local : Window → Result Window
shrink_local w =
    if shrink_refused w
    then err flow_control
    else ok (record {
      local = w.local +ℤ w.delta;
      recv = w.recv +ℤ w.delta;
      reduction = w.reduction -ℤ w.delta;
      delta = pos 0;
    })

unfoldable pub adjust_local_window_size : Window → Result Window
unfolding grow_local shrink_local
adjust_local_window_size w =
    let new_recv = max_ℤ (pos 0) w.recv -ℤ w.delta in
    if ltb_ℤ (pos 0) w.delta then grow_local w new_recv (pos 0 -ℤ new_recv) else shrink_local w

abbrev pub shrunk : Window → Window
shrunk w = record {
  local = w.local +ℤ w.delta;
  recv = w.recv +ℤ w.delta;
  reduction = w.reduction -ℤ w.delta;
  delta = pos 0;
}

-- nghttp2_increase_local_window_size, which asserts that the delta is not negative.
unfoldable pub increase_local_window_size : Window → Result Window
increase_local_window_size w =
    let owed = min_ℤ w.reduction w.delta in
    require (not (ltb_ℤ w.delta (pos 0))) (
      if ltb_ℤ (max_window_size -ℤ w.delta) w.local
      then err flow_control
      else ok (record {
        local = w.local +ℤ w.delta;
        recv = w.recv +ℤ owed;
        reduction = w.reduction -ℤ owed;
        delta = w.delta -ℤ owed;
      }))

-- `/ 2` in C rounds towards zero.
abbrev half : ℤ → ℤ
half (pos n) = pos (n / 2)
half (negsuc n) = pos 0 -ℤ pos ((n + 1) / 2)

-- nghttp2_should_send_window_update.
unfoldable pub should_send_window_update : ℤ → ℤ → Bool
unfolding ◌-ℤ◌
should_send_window_update local recv = ltb_ℤ (pos 0) recv && not (ltb_ℤ recv (half local))

-- How the two halves end.
pub grow_local-ok :
    (w : Window) (nr d : ℤ) (r : Window)
    → grow_local w nr d ≡ ok r
    → ((ltb_ℤ nr (pos 0) ≡ false) × (r ≡ record w { recv = nr }))
      ⊎ ((ltb_ℤ (max_window_size -ℤ d) w.local ≡ false)
          × (ltb_ℤ nr (pos 0) ≡ true)
          × (r ≡ enlarge w d))
unfolding grow_local
grow_local-ok w nr d r h = elim (Bool-cases (ltb_ℤ nr (pos 0))) [
  | inl neg ↦ elim (Bool-cases (ltb_ℤ (max_window_size -ℤ d) w.local)) [
    | inl over ↦ cc (rw (neg, over, grow_local) at h)
    | inr fits ↦ inr (fits, neg, sym (ok-injective (rw (neg, fits, grow_local) at h)))
  ]
  | inr nonneg ↦ inl (nonneg, sym (ok-injective (rw (nonneg, grow_local) at h)))
]

pub shrink_local-ok :
    (w r : Window) → shrink_local w ≡ ok r → (shrink_refused w ≡ false) × (r ≡ shrunk w)
unfolding shrink_local
shrink_local-ok w r h = elim (Bool-cases (shrink_refused w)) [
  | inl no_way ↦ cc (rw (no_way, shrink_local) at h)
  | inr fine ↦ (fine, sym (ok-injective (rw (fine, shrink_local) at h)))
]

pub adjust-ok :
    (w r : Window)
    → adjust_local_window_size w ≡ ok r
    → ((ltb_ℤ (pos 0) w.delta ≡ true)
        × (grow_local w
              (max_ℤ (pos 0) w.recv -ℤ w.delta)
              (pos 0 -ℤ (max_ℤ (pos 0) w.recv -ℤ w.delta))
            ≡ ok r))
      ⊎ ((ltb_ℤ (pos 0) w.delta ≡ false) × (shrink_local w ≡ ok r))
adjust-ok w r h = elim (Bool-cases (ltb_ℤ (pos 0) w.delta)) [
  | inl grows ↦ inl (grows, unfold adjust_local_window_size in rw grows at h)
  | inr shrinks ↦ inr (shrinks, unfold adjust_local_window_size in rw shrinks at h)
]
