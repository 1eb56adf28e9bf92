-- ===== src/Frame/Pad.antt =====
-- Sources/nghttp2/nghttp2_frame.c: padding is put into a frame that is packed already.
pub mod Layout
pub mod Tests
use kitura_http.Prelude.{
  ℕ, ◌+◌, ◌-◌, ◌*◌, ◌/◌, ◌%◌, List, [], ◌∷◌, ◌++◌, Bool, true, false, length, get_or, set, take,
  drop, write, replicate, leb, ◌==◌, set_bit, if◌then◌else◌,
}
use kitura_http.Result.{Result, ok, err, fault, require, ◌>>=◌}
use kitura_http.Wire.{get_uint32, put_uint32be}
use kitura_http.Buf.{Buf}
use kitura_http.Frame.{FrameHd, flag_padded}

-- `memmove(buf->pos - 1, buf->pos, NGHTTP2_FRAME_HDLEN)` and `--buf->pos`: the last byte of the
-- header stays behind in its old place, too.
abbrev pub move_hd : List ℕ → List ℕ
move_hd bytes = take 9 bytes ++ get_or bytes 8 0 ∷ drop 9 bytes

-- The header with the flag and the length of a padded frame.
abbrev pub pad_hd : List ℕ → ℕ → List ℕ
pad_hd bytes padlen =
    let flagged = set bytes 4 (set_bit (get_or bytes 4 0) flag_padded) in
    let newlen = get_uint32 flagged / 256 + padlen in
    write flagged 0 (put_uint32be (newlen * 256 + get_or flagged 3 0))

-- frame_set_pad. The accesses stay in the buffer if there is a byte before `pos`, and the trailing
-- padding fits behind `last`, which the caller asserts.
unfoldable pub frame_set_pad : Buf → ℕ → Bool → Result Buf
unfolding get_uint32 put_uint32be
frame_set_pad b padlen framehd_only =
    let headed = pad_hd (move_hd b.bytes) padlen in
    require (leb 1 b.room) (
      if framehd_only
      then ok (record b { room = b.room - 1; bytes = headed })
      else ok (record b {
        room = b.room - 1;
        bytes = set headed 9 ((padlen - 1) % 256) ++ replicate (padlen - 1) 0;
        avail = b.avail - (padlen - 1);
      }))

-- nghttp2_frame_add_pad on the head of a chain; the header that the caller holds is changed, too.
unfoldable pub frame_add_pad : Buf → FrameHd → ℕ → Bool → Result (Buf × FrameHd)
unfolding frame_set_pad
frame_add_pad b hd padlen framehd_only =
    if padlen == 0
    then ok (b, hd)
    else require (leb (padlen - 1) b.avail) (
        frame_set_pad b padlen framehd_only >>= λ c.
        ok (c, record hd { len = hd.len + padlen; flags = set_bit hd.flags flag_padded }))
