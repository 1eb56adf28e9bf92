-- ===== src/Buf/Byte.antt =====
-- bufs_ensure_addb, and a byte written at `last`, on a chain whose chunks all have room behind the offset.
use mathlib.Core.List.{append_assoc, append-nil}
use kitura_http.Prelude.{
  ℕ, ◌-◌, ◌<◌, ◌≡◌, refl, ◌⊎◌, inl, inr, List, [], ◌∷◌, ◌++◌, Bool, true, false, ltb, ◌==◌, arith,
  Bool-cases, length-append, All, ltb→lt, lt→ltb,
}
use kitura_http.Result.{Error, buffer_error, nomem}
use kitura_http.Buf.{
  Buf, Bufs, Status, done, failed, overrun, out_of_fuel, bufs_bytes, advance, grow,
  bufs_alloc_chain, bufs_ensure_addb, put_byte,
}
use kitura_http.Buf.Add.{IsFresh, alloc_chain-bytes}
use kitura_http.Buf.Valid.{IsValid, Ends, alloc_chain-Advanced}

-- A valid chain with nothing behind `cur`, and chunks that can hold a byte.
pub record IsOpen (s : Bufs) : Type 0 where
  pub valid : IsValid s
  pub fresh : IsFresh s
  pub roomy : s.offset < s.chunk_length
  pub rooms : All (λ b. 0 < b.avail) s.after

abbrev Roomy : Bufs → Bufs × Status → Type 0
Roomy s r =
    (r.0.offset ≡ s.offset)
    × (r.0.chunk_length ≡ s.chunk_length)
    × All (λ b. 0 < b.avail) r.0.after
    × (r.1 ≡ done → 0 < r.0.cur.avail)

module _ (s : Bufs) (o : IsOpen s) where
  grow-Roomy : (m : List Bool) → Roomy s (grow s m)
  grow-Roomy [] = (refl, refl, o.rooms, λ d. cc)
  grow-Roomy (false ∷ m) = (refl, refl, o.rooms, λ d. cc)
  grow-Roomy (true ∷ m) = (refl, refl, o.rooms, λ d. let r = o.roomy in omega arith)

  advance-Roomy : (bs : List Buf) → s.after ≡ bs → Roomy s (advance s bs)
  advance-Roomy [] e = elim (Bool-cases (s.max_chunk == s.chunk_used)) [
    | inl full ↦ rw full (refl, refl, o.rooms, λ d. cc)
    | inr room ↦ rw room (grow-Roomy s.mem)
  ]
  advance-Roomy (b ∷ bs) e = let rooms = rw e at o.rooms in (refl, refl, rooms.1, λ d. rooms.0)

  alloc_chain-Roomy : Roomy s (bufs_alloc_chain s)
  unfolding bufs_alloc_chain
  alloc_chain-Roomy = advance-Roomy s.after refl

-- How a call that makes room for a byte may end.
abbrev pub Ensured : Bufs → Bufs × Status → Type 0
Ensured s (t, done) = IsOpen t × (bufs_bytes t ≡ bufs_bytes s) × (0 < t.cur.avail)
Ensured s (t, failed e) = IsValid t × ((e ≡ buffer_error) ⊎ (e ≡ nomem))
Ensured s (t, overrun) = ⊥
Ensured s (t, out_of_fuel) = ⊥

pub failed-Ends : (e : Error) → Ends (failed e) → (e ≡ buffer_error) ⊎ (e ≡ nomem)
failed-Ends e (inl x) = cc
failed-Ends e (inr (inl x)) = inl (cc x)
failed-Ends e (inr (inr x)) = inr (cc x)

pub other_end : (st : Status) → ((st ≡ overrun) ⊎ (st ≡ out_of_fuel)) → ¬ Ends st
other_end st (inl x) (inl y) = cc
other_end st (inl x) (inr (inl y)) = cc
other_end st (inl x) (inr (inr y)) = cc
other_end st (inr x) (inl y) = cc
other_end st (inr x) (inr (inl y)) = cc
other_end st (inr x) (inr (inr y)) = cc

ensured :
    (s : Bufs) (r : Bufs × Status)
    → IsOpen s
    → IsValid r.0
    → Ends r.1
    → (bufs_bytes r.0 ≡ bufs_bytes s) × IsFresh r.0
    → Roomy s r
    → Ensured s r
ensured s (t, done) o v e f r =
    (record { valid = v; fresh = f.1; roomy = rw (r.0, r.1) o.roomy; rooms = r.2 }, f.0, r.3 refl)
ensured s (t, failed x) o v e f r = (v, failed-Ends x e)
ensured s (t, overrun) o v e f r = absurd (other_end overrun (inl refl) e)
ensured s (t, out_of_fuel) o v e f r = absurd (other_end out_of_fuel (inr refl) e)

pub alloc-Ensured : (s : Bufs) → IsOpen s → Ensured s (bufs_alloc_chain s)
alloc-Ensured s o =
    let a = alloc_chain-Advanced s o.valid in
    ensured s (bufs_alloc_chain s) o a.0 a.1 (alloc_chain-bytes s o.fresh) (alloc_chain-Roomy s o)

pub ensure-Ensured : (s : Bufs) → IsOpen s → Ensured s (bufs_ensure_addb s)
unfolding bufs_ensure_addb
ensure-Ensured s o = elim (Bool-cases (ltb 0 s.cur.avail)) [
  | inl room ↦ rw room (o, refl, ltb→lt _ _ room)
  | inr full ↦ rw full (alloc-Ensured s o)
]

with_byte : Bufs → ℕ → Bufs
with_byte s b = record s {
  cur = record s.cur { bytes = s.cur.bytes ++ b ∷ []; avail = s.cur.avail - 1 };
}

pub put_byte-done :
    (s : Bufs) (b : ℕ)
    → IsOpen s
    → 0 < s.cur.avail
    → (t : Bufs) × (put_byte s b ≡ (t, done))
      × IsOpen t
      × (bufs_bytes t ≡ bufs_bytes s ++ b ∷ [])
      × (t.cur.avail ≡ s.cur.avail - 1)
unfolding put_byte with_byte bufs_bytes
put_byte-done s b o room = (
  with_byte s b,
  rw (lt→ltb 0 s.cur.avail room) refl,
  record {
    valid = record {
      counted = o.valid.counted;
      bounded = o.valid.bounded;
      offset_fits = o.valid.offset_fits;
      caps_before = o.valid.caps_before;
      cap_cur = let cap = o.valid.cap_cur in omega (arith, length-append s.cur.bytes (b ∷ []));
      caps_after = o.valid.caps_after;
    };
    fresh = o.fresh;
    roomy = o.roomy;
    rooms = o.rooms;
  },
  rw o.fresh (simp (append_assoc, append-nil)),
  refl,
)
