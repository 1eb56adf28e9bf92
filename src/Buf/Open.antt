-- ===== src/Buf/Open.antt =====
-- nghttp2_bufs_add and nghttp2_bufs_addb leave a chain open on which they succeed.
use kitura_http.Prelude.{
  ℕ, zero, suc, ◌≡◌, refl, ◌⊎◌, inl, inr, List, [], ◌∷◌, min, ◌==◌, arith, Bool-cases, length, drop,
}
use kitura_http.Result.{buffer_error, nomem}
use kitura_http.Buf.{
  Bufs, Status, done, failed, overrun, out_of_fuel, bufs_add, bufs_add_loop, bufs_addb, copy_in,
  put_byte, resume,
}
use kitura_http.Buf.Valid.{IsValid, Safe, bufs_add-Safe, copy_in-IsValid}
use kitura_http.Buf.Byte.{
  IsOpen, Ensured, alloc-Ensured, ensure-Ensured, put_byte-done, failed-Ends, other_end,
}

-- How a call that writes may end.
abbrev pub Wrote : Bufs × Status → Type 0
Wrote (t, done) = IsOpen t
Wrote (t, failed e) = IsValid t × ((e ≡ buffer_error) ⊎ (e ≡ nomem))
Wrote (t, overrun) = ⊥
Wrote (t, out_of_fuel) = ⊥

-- The chain after success.
abbrev OpenAfter : Bufs × Status → Type 0
OpenAfter r = r.1 ≡ done → IsOpen r.0

after_alloc :
    (s : Bufs) (k : Bufs → Bufs × Status) (r : Bufs × Status)
    → Ensured s r
    → ((t : Bufs) → IsOpen t → OpenAfter (k t))
    → OpenAfter (resume k r)
after_alloc s k (t, done) h go = go t h.0
after_alloc s k (t, failed e) h go = λ d. cc
after_alloc s k (t, overrun) h go = elim h [ ]
after_alloc s k (t, out_of_fuel) h go = elim h [ ]

loop-OpenAfter : (fuel : ℕ) (s : Bufs) (p : List ℕ) → IsOpen s → OpenAfter (bufs_add_loop fuel s p)
unfolding bufs_add_loop
loop-OpenAfter fuel s [] o = λ d. o
loop-OpenAfter zero s (x ∷ p) o = λ d. cc
loop-OpenAfter (suc fuel) s (x ∷ p) o = elim (Bool-cases (min s.cur.avail (length (x ∷ p)) == 0)) [
  | inl full ↦
      rw (full, bufs_add_loop)
        (after_alloc s _ _ (alloc-Ensured s o) (λ t w. loop-OpenAfter fuel t (x ∷ p) w))
  | inr room ↦
      let n = min s.cur.avail (length (x ∷ p)) in
      rw (room, bufs_add_loop)
        (loop-OpenAfter fuel (copy_in s (x ∷ p) n) (drop n (x ∷ p)) (record {
          valid = copy_in-IsValid s o.valid (x ∷ p) n (omega arith) (omega arith);
          fresh = o.fresh;
          roomy = o.roomy;
          rooms = o.rooms;
        }))
]

wrote : (r : Bufs × Status) → Safe r → OpenAfter r → Wrote r
wrote (t, done) s o = o refl
wrote (t, failed e) s o = (s.0, failed-Ends e s.1)
wrote (t, overrun) s o = absurd (other_end overrun (inl refl) s.1)
wrote (t, out_of_fuel) s o = absurd (other_end out_of_fuel (inr refl) s.1)

pub bufs_add-Wrote : (s : Bufs) (p : List ℕ) → IsOpen s → Wrote (bufs_add s p)
unfolding bufs_add
bufs_add-Wrote s p o = wrote (bufs_add s p) (bufs_add-Safe s p o.valid) (loop-OpenAfter _ s p o)

put-Wrote :
    (s : Bufs) (b : ℕ) (r : Bufs × Status) → Ensured s r → Wrote (resume (λ t. put_byte t b) r)
put-Wrote s b (t, done) h = let (u, e, o, holds, room) = put_byte-done t b h.0 h.2 in rw e o
put-Wrote s b (t, failed e) h = h
put-Wrote s b (t, overrun) h = h
put-Wrote s b (t, out_of_fuel) h = h

pub bufs_addb-Wrote : (s : Bufs) (b : ℕ) → IsOpen s → Wrote (bufs_addb s b)
unfolding bufs_addb
bufs_addb-Wrote s b o = put-Wrote s b _ (ensure-Ensured s o)
