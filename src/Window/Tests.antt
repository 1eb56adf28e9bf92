-- ===== src/Window/Tests.antt =====
-- A default window of 65535 bytes, of which 40000 came in, and the theorems at it.
use kitura_http.Prelude.{◌≡◌, refl, true, arith}
use kitura_http.Prelude.Int.{ℤ, pos, negsuc, ◌+ℤ◌, ◌-ℤ◌}
use kitura_http.Result.{ok, err, flow_control}
use kitura_http.Window.{
  Window, adjust_local_window_size, increase_local_window_size, should_send_window_update,
}
use kitura_http.Window.Credit.{Credited, adjust-Credited, increase-Credited}
use kitura_http.Window.Bounds.{IsWindow, adjust-IsWindow, adjust_in_range}

abbrev received : ℤ → Window
received d = record { local = pos 65535; recv = pos 40000; reduction = pos 0; delta = d }

abbrev grown : Window
grown = record { local = pos 75535; recv = pos 0; reduction = pos 0; delta = pos 50000 }

abbrev reduced : Window
reduced = record { local = pos 65435; recv = pos 39900; reduction = pos 100; delta = pos 0 }

adjust_up : adjust_local_window_size (received (pos 50000)) ≡ ok grown
unfolding adjust_local_window_size ◌+ℤ◌ ◌-ℤ◌
adjust_up = refl

adjust_down : adjust_local_window_size (received (negsuc 99)) ≡ ok reduced
unfolding adjust_local_window_size ◌+ℤ◌ ◌-ℤ◌
adjust_down = refl

adjust_too_far : adjust_local_window_size (received (pos 2147483647)) ≡ err flow_control
unfolding adjust_local_window_size ◌+ℤ◌ ◌-ℤ◌
adjust_too_far = refl

increase_up :
    increase_local_window_size (received (pos 5))
    ≡ ok (record { local = pos 65540; recv = pos 40000; reduction = pos 0; delta = pos 5 })
unfolding increase_local_window_size ◌+ℤ◌ ◌-ℤ◌
increase_up = refl

half_is_enough : should_send_window_update (pos 65535) (pos 32767) ≡ true
unfolding should_send_window_update
half_is_enough = refl

received-IsWindow : IsWindow (received (pos 50000))
unfolding ◌+ℤ◌
received-IsWindow = record {
  local_nonneg = omega arith;
  local_fits = omega arith;
  reduction_nonneg = omega arith;
  reduction_fits = omega arith;
  recv_owed = omega arith;
  recv_allowed = omega arith;
  delta_low = omega arith;
  delta_fits = omega arith;
}

adjust-Credited_example : Credited (received (pos 50000)) grown
adjust-Credited_example = adjust-Credited (received (pos 50000)) grown adjust_up

increase-Credited_example :
    Credited
      (received (pos 5))
      (record { local = pos 65540; recv = pos 40000; reduction = pos 0; delta = pos 5 })
increase-Credited_example = increase-Credited (received (pos 5)) _ increase_up

adjust-IsWindow_example : IsWindow grown
adjust-IsWindow_example = adjust-IsWindow (received (pos 50000)) grown received-IsWindow adjust_up

adjust_in_range_example : (r : Window) × (adjust_local_window_size (received (pos 50000)) ≡ ok r)
unfolding ◌+ℤ◌
adjust_in_range_example = adjust_in_range (received (pos 50000)) (omega arith) (omega arith)
