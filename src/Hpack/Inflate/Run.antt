-- ===== src/Hpack/Inflate/Run.antt =====
-- Sources/nghttp2/nghttp2_hd.c, nghttp2_hd_inflate_hd_nv: the loop around the switch, and its ends.
use kitura_http.Prelude.{
  ℕ, zero, suc, ◌+◌, ◌*◌, List, [], ◌∷◌, Bool, true, false, ◌&&◌, not, length, if◌then◌else◌,
}
use kitura_http.Result.{Error, Result, ok, err, fault, header_comp}
use kitura_http.Hpack.Inflater.{Inflater, InflateState, inflate_start, opcode}
use kitura_http.Hpack.Inflate.{HdNv}
use kitura_http.Hpack.Inflate.Step.{Step, next, almost_ok, emit, inflate_step}

-- How the call ends: with a field and NGHTTP2_HD_INFLATE_EMIT, with the input processed and the answer
-- if NGHTTP2_HD_INFLATE_FINAL is set, or with an error. What is left of the input comes last.
pub data Inflated : Type 0 where
  emitted : Inflater → HdNv → List ℕ → Inflated
  processed : Inflater → Bool → List ℕ → Inflated
  failed : Inflater → Error → Inflated
  crashed : Inflated
  out_of_fuel : Inflated

-- `fail`; of the other members of the inflater none is read by a later call.
abbrev pub fail : Inflater → Error → Inflated
fail f e = failed (record f { bad = true }) e

abbrev pub between_fields : InflateState → Bool
between_fields opcode = true
between_fields inflate_start = true
between_fields _ = false

-- Behind the loop.
abbrev pub all_read : Inflater → Bool → Inflated
all_read f in_final =
    if in_final
    then (if between_fields f.state then processed f true [] else fail f header_comp)
    else processed f false []

abbrev pub is_empty : List ℕ → Bool
is_empty [] = true
is_empty (b ∷ bs) = false

-- How a case of the switch goes on, with the next round for `break`.
abbrev pub after_step :
    Inflater → Bool → (Inflater → Bool → List ℕ → Inflated) → Result Step → Inflated
after_step f in_final round (err e) = fail f e
after_step f in_final round fault = crashed
after_step f in_final round (ok (next g again rest)) = round g again rest
after_step f in_final round (ok (almost_ok g rest)) =
    if in_final then fail g header_comp else processed g false rest
after_step f in_final round (ok (emit g nv rest)) = emitted g nv rest

unfoldable pub inflate_loop : ℕ → Inflater → Bool → List ℕ → Bool → Inflated
unfolding inflate_step
inflate_loop zero f busy input in_final = out_of_fuel
inflate_loop (suc fuel) f busy input in_final =
    if is_empty input && not busy
    then all_read f in_final
    else after_step f in_final (λ g again rest. inflate_loop fuel g again rest in_final)
        (inflate_step f f.state input)

-- nghttp2_hd_inflate_hd_nv. Two rounds for each byte, and two more, are enough: a round that takes no
-- byte moves on to a state that takes one or ends the call.
unfoldable pub inflate_hd_nv : Inflater → List ℕ → Bool → Inflated
unfolding inflate_loop
inflate_hd_nv f input in_final =
    if f.bad
    then failed f header_comp
    else inflate_loop (length input * 2 + 2) f false input in_final

-- nghttp2_hd_inflate_end_headers.
unfoldable pub inflate_end_headers : Inflater → Inflater
inflate_end_headers f = record f { state = inflate_start }
