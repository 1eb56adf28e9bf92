-- ===== src/Hpack/Inflate/Safe.antt =====
-- nghttp2_hd_inflate_hd_nv as a whole: the loop around the cases, from a valid inflater.
use kitura_http.Prelude.{ℕ, ◌+◌, ◌*◌, ◌<◌, ◌≡◌, List, [], Bool, true, length}
use kitura_http.Result.{Result}
use kitura_http.Hpack.Inflater.{Inflater}
use kitura_http.Hpack.Inflate.Step.{Step}
use kitura_http.Hpack.Inflate.Valid.{rank, Fed}

abbrev Enough : ℕ → Inflater → Bool → List ℕ → Type 0
Enough fuel f busy input = (length input * 2 + rank f.state < fuel) × (busy ≡ true → Fed f.state [])
