-- ===== src/Http/Request.antt =====
-- The pseudo headers that a request needs at the end of its fields.
use kitura_http.Prelude.{
  ℕ, ◌+◌, ◌≤◌, ◌≡◌, refl, ap, List, Bool, true, false, not, ◌&&◌, ◌||◌, Option, none, some, arith,
  if◌then◌else◌,
}
use kitura_http.Frame.{FrameHd}
use kitura_http.Http.{Stream, stream_init, authority, method, path, scheme, host, Nv}
use kitura_http.Http.Message.{on_request_headers, req_headers, check_path, promised}
use kitura_http.Http.Marks.{once}
use kitura_http.Http.Once.{Run, Run-count, count}

and_parts : (a b : Bool) → (a && b) ≡ true → (a ≡ true) × (b ≡ true)
and_parts true b h = (refl, h)
and_parts false b h = cc

one_of : (a b : Bool) → (a || b) ≡ true → 1 ≤ once a + once b
one_of true b h = omega arith
one_of false true h = omega arith
one_of false false h = cc

required :
    {A : Type 0} (r n p : Bool) (x : Option A) (v : A)
    → (if not r || not n then none else if not p then none else x) ≡ some v
    → (r ≡ true) × (n ≡ true)
required true true p x v h = (refl, refl)
required true false p x v h = cc
required false n p x v h = cc

otherwise :
    {A : Type 0} (b : Bool) (x y : Option A) (v : A)
    → (if b then x else y) ≡ some v
    → b ≡ false
    → y ≡ some v
otherwise true x y v h e = cc
otherwise false x y v h e = h

-- The bits that are set when a request that is no CONNECT passes the check at its end.
on_request_headers-regular :
    (u v : Stream) (hd : FrameHd)
    → on_request_headers u hd ≡ some v
    → u.flags.meth_connect ≡ false
    → (u.flags.method ≡ true)
      × (u.flags.scheme ≡ true)
      × (u.flags.path ≡ true)
      × ((u.flags.authority || u.flags.host) ≡ true)
unfolding on_request_headers
on_request_headers-regular u v hd h e =
    let (all, named) =
      required (req_headers u.flags) (u.flags.authority || u.flags.host) (check_path u)
        (promised hd u) v (otherwise u.flags.meth_connect _ _ v h e) in
    let (m, rest) = and_parts u.flags.method (u.flags.path && u.flags.scheme) all in
    let (p, s) = and_parts u.flags.path u.flags.scheme rest in (m, s, p, named)

-- What RFC 7540, 8.1.2.3, asks of a request: one method, one scheme, one path and an authority; of
-- a CONNECT, which has no use for two of them, just the authority.
abbrev pub IsComplete : List Nv → Type 0
IsComplete nvs =
    (count method nvs ≡ 1)
    × (count scheme nvs ≡ 1)
    × (count path nvs ≡ 1)
    × (1 ≤ count authority nvs + count host nvs)

-- When the fields of a request were taken and its header block is accepted at the end, it has one
-- method, one scheme, one path and an authority or a host, unless it is a CONNECT.
pub request-IsComplete :
    (id : ℕ) (nvs : List Nv) (u v : Stream) (hd : FrameHd)
    → Run (stream_init id) nvs u
    → on_request_headers u hd ≡ some v
    → u.flags.meth_connect ≡ false
    → IsComplete nvs
unfolding stream_init
request-IsComplete id nvs u v hd run h e =
    let m = Run-count method (omega arith) run in
    let s = Run-count scheme (omega arith) run in
    let p = Run-count path (omega arith) run in
    let a = Run-count authority (omega arith) run in
    let o = Run-count host (omega arith) run in
    let (method_seen, scheme_seen, path_seen, named) = on_request_headers-regular u v hd h e in
    (
      omega (arith, ap once method_seen),
      omega (arith, ap once scheme_seen),
      omega (arith, ap once path_seen),
      omega (arith, one_of u.flags.authority u.flags.host named),
    )
