-- ===== src/Buf/Add.antt =====
-- What nghttp2_bufs_add leaves in a chain of buffers.
use mathlib.Core.List.{append_assoc, append-nil, append-eq-nil_iff}
use kitura_http.Result.{ok}
use kitura_http.Prelude.{
  ◌≤◌, ◌<◌, ◌-◌, arith, ℕ, zero, suc, min, ◌≡◌, refl, sym, ap, ◌∙◌, inl, inr, List, [], ◌∷◌, ◌++◌,
  Bool, true, false, length, drop, ◌==◌, Bool-cases, take-append-drop,
}
use kitura_http.Buf.{
  Buf, Bufs, Status, done, failed, overrun, out_of_fuel, resume, chain_bytes, bufs_bytes, advance,
  buf_put, grow, bufs_alloc_chain, bufs_add_loop, bufs_add, copy_in,
}

pub chain_bytes-append : (a b : List Buf) → chain_bytes (a ++ b) ≡ chain_bytes a ++ chain_bytes b
chain_bytes-append [] b = refl
chain_bytes-append (x ∷ a) b = rw (chain_bytes-append a b, append_assoc)

-- The chunks behind `cur` hold nothing yet.
abbrev pub IsFresh : Bufs → Type 0
IsFresh s = chain_bytes s.after ≡ []

enter :
    (before : List Buf) (c : Buf) (rest : List ℕ)
    → chain_bytes (before ++ c ∷ []) ++ rest ≡ chain_bytes before ++ (c.bytes ++ rest)
enter before c rest = simp (chain_bytes-append, append_assoc, append-nil)

module _ (s : Bufs) where
  grow-bytes :
      (m : List Bool) → IsFresh s → (bufs_bytes (grow s m).0 ≡ bufs_bytes s) × IsFresh (grow s m).0
  unfolding bufs_bytes
  grow-bytes [] h = (refl, h)
  grow-bytes (false ∷ m) h = (refl, h)
  grow-bytes (true ∷ m) h = (enter s.before s.cur (chain_bytes s.after), h)

  advance-bytes :
      (bs : List Buf)
      → s.after ≡ bs
      → IsFresh s
      → (bufs_bytes (advance s bs).0 ≡ bufs_bytes s) × IsFresh (advance s bs).0
  advance-bytes [] e h = elim (Bool-cases (s.max_chunk == s.chunk_used)) [
    | inl full ↦ rw full (refl, h)
    | inr room ↦ rw room (grow-bytes s.mem h)
  ]
  advance-bytes (b ∷ bs) e h = (
    unfold bufs_bytes in rw e (enter s.before s.cur (b.bytes ++ chain_bytes bs)),
    (append-eq-nil_iff.0 (rw e at h)).1,
  )

  pub alloc_chain-bytes :
      IsFresh s
      → (bufs_bytes (bufs_alloc_chain s).0 ≡ bufs_bytes s) × IsFresh (bufs_alloc_chain s).0
  unfolding bufs_alloc_chain
  alloc_chain-bytes h = advance-bytes s.after refl h

  copy_in-bytes :
      (p : List ℕ) (n : ℕ) → IsFresh s → bufs_bytes (copy_in s p n) ++ drop n p ≡ bufs_bytes s ++ p
  unfolding bufs_bytes
  copy_in-bytes p n h = rw h (simp (append_assoc, append-nil, take-append-drop n p))

-- `rest` is what did not fit; after success there is none.
abbrev pub Written : Bufs → List ℕ → Bufs × Status → Type 0
Written s p r =
    (rest : List ℕ) × (bufs_bytes r.0 ++ rest ≡ bufs_bytes s ++ p)
    × (r.1 ≡ done → rest ≡ [])
    × IsFresh r.0

Written-resume :
    (k : Bufs → Bufs × Status) (p : List ℕ) (r : Bufs × Status)
    → ((s : Bufs) → IsFresh s → Written s p (k s))
    → IsFresh r.0
    → Written r.0 p (resume k r)
Written-resume k p (s, done) w h = w s h
Written-resume k p (s, failed e) w h = (p, refl, λ d. cc, h)
Written-resume k p (s, overrun) w h = (p, refl, λ d. cc, h)
Written-resume k p (s, out_of_fuel) w h = (p, refl, λ d. cc, h)

Written-shift :
    (s t : Bufs) (p q : List ℕ) (r : Bufs × Status)
    → bufs_bytes t ++ q ≡ bufs_bytes s ++ p
    → Written t q r
    → Written s p r
Written-shift s t p q r e (rest, w, d, f) = (rest, w ∙ e, d, f)

bufs_add_loop-Written :
    (fuel : ℕ) (s : Bufs) (p : List ℕ) → IsFresh s → Written s p (bufs_add_loop fuel s p)
unfolding bufs_add_loop
bufs_add_loop-Written fuel s [] h = ([], refl, λ e. refl, h)
bufs_add_loop-Written zero s (x ∷ p) h = (x ∷ p, refl, λ e. cc, h)
bufs_add_loop-Written (suc fuel) s (x ∷ p) h =
    let (same, fresh) = alloc_chain-bytes s h in
    elim (Bool-cases (min s.cur.avail (length (x ∷ p)) == 0)) [
      | inl full ↦
          rw (full, bufs_add_loop)
            (Written-shift s _ (x ∷ p) (x ∷ p) _ (ap (λ t. t ++ x ∷ p) same) (
              Written-resume _ (x ∷ p) (bufs_alloc_chain s)
                (λ s' h'. bufs_add_loop-Written fuel s' (x ∷ p) h') fresh))
      | inr room ↦
          rw (room, bufs_add_loop)
            (Written-shift s _ (x ∷ p) _ _ (copy_in-bytes s (x ∷ p) _ h)
              (bufs_add_loop-Written fuel _ _ h))
    ]

-- What nghttp2_bufs_add wrote is the data as far as it fitted, and all of it after success.
pub bufs_add-Written : (s : Bufs) (p : List ℕ) → IsFresh s → Written s p (bufs_add s p)
unfolding bufs_add
bufs_add-Written s p h = bufs_add_loop-Written _ s p h

pub buf_put-ok :
    (b : Buf) (xs : List ℕ)
    → length xs ≤ b.avail
    → buf_put b xs ≡ ok (record b { bytes = b.bytes ++ xs; avail = b.avail - length xs })
unfolding buf_put
buf_put-ok b xs h = ground arith

-- When nghttp2_bufs_add succeeds on a chain with nothing behind `cur`, the chain holds the data
-- behind what it held, and still nothing behind `cur`.
pub bufs_add_appends :
    (s : Bufs) (p : List ℕ)
    → IsFresh s
    → (bufs_add s p).1 ≡ done
    → (bufs_bytes (bufs_add s p).0 ≡ bufs_bytes s ++ p) × IsFresh (bufs_add s p).0
bufs_add_appends s p h e =
    let (rest, all, none_left, fresh) = bufs_add-Written s p h in
    (
      sym (append-nil _) ∙ ap (λ t. bufs_bytes (bufs_add s p).0 ++ t) (sym (none_left e)) ∙ all,
      fresh,
    )

drop-length_nil : (xs : List ℕ) → drop (length xs) xs ≡ []
drop-length_nil [] = refl
drop-length_nil (x ∷ xs) = drop-length_nil xs

bufs_add_loop-nil : (fuel : ℕ) (s : Bufs) (p : List ℕ) → p ≡ [] → (bufs_add_loop fuel s p).1 ≡ done
unfolding bufs_add_loop
bufs_add_loop-nil fuel s [] e = refl
bufs_add_loop-nil fuel s (x ∷ p) e = cc

bufs_add_loop-fits :
    (fuel : ℕ) (s : Bufs) (p : List ℕ)
    → 0 < fuel
    → length p ≤ s.cur.avail
    → (bufs_add_loop fuel s p).1 ≡ done
unfolding bufs_add_loop
bufs_add_loop-fits fuel s [] f h = refl
bufs_add_loop-fits zero s (x ∷ p) f h = absurd (omega arith)
bufs_add_loop-fits (suc fuel) s (x ∷ p) f h =
    let all : min s.cur.avail (length (x ∷ p)) ≡ length (x ∷ p) = omega arith in
    let more : (min s.cur.avail (length (x ∷ p)) == 0) ≡ false = ground arith in
    rw (more, bufs_add_loop) (bufs_add_loop-nil fuel _ _ (rw all (drop-length_nil p)))

-- Data that fits behind `last` of the current chunk is always taken.
pub bufs_add_fits : (s : Bufs) (p : List ℕ) → length p ≤ s.cur.avail → (bufs_add s p).1 ≡ done
unfolding bufs_add
bufs_add_fits s p h = bufs_add_loop-fits _ s p (omega arith) h
