-- ===== src/Buf/Valid.antt =====
-- nghttp2_bufs_add and the limits of a chain: its buffers, `max_chunk`, and the ways the call ends.
use kitura_http.Prelude.{
  ℕ, zero, suc, ◌+◌, ◌-◌, ◌≤◌, ◌<◌, min, ◌≡◌, refl, ap, ◌⊎◌, inl, inr, List, [], ◌∷◌, Bool, true,
  false, length, take, ◌==◌, arith, Bool-cases, length-drop, length-take, length-append, All,
  All-append,
}
use kitura_http.Result.{buffer_error, nomem}
use kitura_http.Buf.{
  Buf, Bufs, Status, done, failed, overrun, out_of_fuel, resume, buf_cap, advance, grow,
  bufs_alloc_chain, bufs_add_loop, bufs_add, copy_in,
}

abbrev pub HasCap : ℕ → Buf → Type 0
HasCap n b = buf_cap b ≡ n

pub record IsValid (s : Bufs) : Type 0 where
  pub counted : length s.before + 1 + length s.after ≡ s.chunk_used
  pub bounded : s.chunk_used ≤ s.max_chunk
  pub offset_fits : s.offset ≤ s.chunk_length
  pub caps_before : All (HasCap s.chunk_length) s.before
  pub cap_cur : HasCap s.chunk_length s.cur
  pub caps_after : All (HasCap s.chunk_length) s.after

-- How often `cur` can still move on.
abbrev pub budget : Bufs → ℕ
budget s = s.max_chunk - s.chunk_used + length s.after

abbrev pub Ends : Status → Type 0
Ends t = (t ≡ done) ⊎ (t ≡ failed buffer_error) ⊎ (t ≡ failed nomem)

abbrev pub Advanced : Bufs → Bufs × Status → Type 0
Advanced s r = IsValid r.0 × Ends r.1 × (r.1 ≡ done → budget r.0 < budget s)

module _ (s : Bufs) (v : IsValid s) where
  grow-Advanced :
      (m : List Bool) → s.after ≡ [] → (s.max_chunk == s.chunk_used) ≡ false → Advanced s (grow s m)
  grow-Advanced [] e room = (v, inr (inr refl), λ d. cc)
  grow-Advanced (false ∷ m) e room = (
    record {
      counted = v.counted;
      bounded = v.bounded;
      offset_fits = v.offset_fits;
      caps_before = v.caps_before;
      cap_cur = v.cap_cur;
      caps_after = v.caps_after;
    },
    inr (inr refl),
    λ d. cc,
  )
  grow-Advanced (true ∷ m) e room =
      let len = length-append s.before (s.cur ∷ []) in
      let counted = v.counted in
      let bounded = v.bounded in
      let fits = v.offset_fits in
      (
        record {
          counted = omega (arith, len, ap length e);
          bounded = ground arith;
          offset_fits = v.offset_fits;
          caps_before = All-append (HasCap s.chunk_length) s.before _ v.caps_before (v.cap_cur, tt);
          cap_cur = omega arith;
          caps_after = v.caps_after;
        },
        inl refl,
        λ d. ground arith,
      )

  advance-Advanced : (bs : List Buf) → s.after ≡ bs → Advanced s (advance s bs)
  advance-Advanced [] e = elim (Bool-cases (s.max_chunk == s.chunk_used)) [
    | inl full ↦ rw full (v, inr (inl refl), λ d. cc)
    | inr room ↦ rw room (grow-Advanced s.mem e room)
  ]
  advance-Advanced (b ∷ bs) e =
      let len = length-append s.before (s.cur ∷ []) in
      let counted = v.counted in
      let bounded = v.bounded in
      let caps = rw e at v.caps_after in
      (
        record {
          counted = omega (arith, len, ap length e);
          bounded = v.bounded;
          offset_fits = v.offset_fits;
          caps_before = All-append (HasCap s.chunk_length) s.before _ v.caps_before (v.cap_cur, tt);
          cap_cur = caps.0;
          caps_after = caps.1;
        },
        inl refl,
        λ d. omega (arith, ap length e),
      )

  pub alloc_chain-Advanced : Advanced s (bufs_alloc_chain s)
  unfolding bufs_alloc_chain
  alloc_chain-Advanced = advance-Advanced s.after refl

  pub copy_in-IsValid :
      (p : List ℕ) (n : ℕ) → n ≤ s.cur.avail → n ≤ length p → IsValid (copy_in s p n)
  copy_in-IsValid p n h k = record {
    counted = v.counted;
    bounded = v.bounded;
    offset_fits = v.offset_fits;
    caps_before = v.caps_before;
    cap_cur =
        let cap = v.cap_cur in omega (arith, length-append s.cur.bytes (take n p), length-take n p);
    caps_after = v.caps_after;
  }

abbrev pub Safe : Bufs × Status → Type 0
Safe r = IsValid r.0 × Ends r.1

Safe-resume :
    (k : Bufs → Bufs × Status) (s : Bufs) (r : Bufs × Status)
    → Advanced s r
    → ((t : Bufs) → IsValid t → budget t < budget s → Safe (k t))
    → Safe (resume k r)
Safe-resume k s (t, done) (v, e, d) h = h t v (d refl)
Safe-resume k s (t, failed x) (v, e, d) h = (v, e)
Safe-resume k s (t, overrun) (v, e, d) h = (v, e)
Safe-resume k s (t, out_of_fuel) (v, e, d) h = (v, e)

bufs_add_loop-Safe :
    (fuel : ℕ) (s : Bufs) (p : List ℕ)
    → IsValid s
    → length p + budget s < fuel
    → Safe (bufs_add_loop fuel s p)
unfolding bufs_add_loop
bufs_add_loop-Safe fuel s [] v h = (v, inl refl)
bufs_add_loop-Safe zero s (x ∷ p) v h = absurd (omega arith)
bufs_add_loop-Safe (suc fuel) s (x ∷ p) v h =
    elim (Bool-cases (min s.cur.avail (length (x ∷ p)) == 0)) [
      | inl full ↦
          rw (full, bufs_add_loop)
            (Safe-resume _ s _ (alloc_chain-Advanced s v)
              (λ t w b. bufs_add_loop-Safe fuel t (x ∷ p) w (omega arith)))
      | inr room ↦
          let n = min s.cur.avail (length (x ∷ p)) in
          let pos : 0 < n = ground arith in
          rw (room, bufs_add_loop)
            (bufs_add_loop-Safe fuel _ _ (copy_in-IsValid s v (x ∷ p) n (omega arith) (omega arith))
              (omega (arith, length-drop n (x ∷ p))))
    ]

-- On a valid chain nghttp2_bufs_add ends within its fuel and writes inside its chunks only: it
-- succeeds, reports a buffer error or a lack of memory, and leaves a valid chain each time.
pub bufs_add-Safe : (s : Bufs) (p : List ℕ) → IsValid s → Safe (bufs_add s p)
unfolding bufs_add
bufs_add-Safe s p v = bufs_add_loop-Safe _ s p v (omega arith)
