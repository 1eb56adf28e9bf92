-- ===== src/Hpack/Inflate/Steps.antt =====
-- The cases of the switch in nghttp2_hd_inflate_hd_nv: how each may end, from a valid inflater.
use kitura_http.Prelude.{
  ℕ, ◌+◌, ◌-◌, ◌*◌, ◌≤◌, ◌<◌, ◌≡◌, inl, inr, refl, sym, subst, List, ◌∷◌, Bool, true, false, ◌==◌,
  length, All, IsByte, Bool-cases, arith, if◌then◌else◌, test_bit,
}
use kitura_http.Result.{Result}
use kitura_http.Hpack.Inflater.{
  Inflater, InflateState, Opcode, read_table_size, read_index, opcode_none, indexed, newname,
  indname,
}
use kitura_http.Hpack.Table.{HdEntry}
use kitura_http.Hpack.Table.Evict.{IsTable}
use kitura_http.Hpack.Table.Add.{shrink_table_size-keep}
use kitura_http.Hpack.Inflate.{get_max_index}
use kitura_http.Hpack.Inflate.Step.{
  Step, with_len, is_size_update, is_new_name, start_step, table_size_step, index_step, indexed_end,
  index_prefix,
}
use kitura_http.Hpack.Inflate.Valid.{IsValid, Ready, IndexIn, StepOk}
use kitura_http.Hpack.Inflate.Reads.{LenRead, read_len-LenRead}
use kitura_http.Hpack.Inflate.Commit.{table_get_in}

pub if_ok :
    (n limit : ℕ) (b : Bool) (x y : Result Step)
    → StepOk n limit x
    → StepOk n limit y
    → StepOk n limit (if b then x else y)
if_ok n limit true x y h k = h
if_ok n limit false x y h k = k

module _ (f : Inflater) (es : List HdEntry) (t : IsTable f.ctx es) (b : ℕ) (rest : List ℕ)
    (h : All IsByte (b ∷ rest)) where
  -- A representation starts.
  pub start_ok :
      (in_block : Bool)
      → StepOk (length (b ∷ rest)) (length (b ∷ rest) * 2 + 1) (start_step f in_block b rest)
  unfolding start_step
  start_ok in_block =
      if_ok _ _ (is_size_update b) _ _
        (if_ok _ _ in_block _ _ (inl refl)
          (record { entries = es; table = t; ready = tt }, h, omega arith, omega arith, λ e. cc))
        (if_ok _ _ (test_bit b 0x80) _ _
          (record { entries = es; table = t; ready = tt }, h, omega arith, omega arith, λ e. cc)
          (if_ok _ _ (is_new_name b) _ _
            (
              record { entries = es; table = t; ready = refl },
              h.1,
              omega arith,
              omega arith,
              λ e. cc,
            )
            (record { entries = es; table = t; ready = tt }, h, omega arith, omega arith, λ e. cc)))

-- An integer, and what follows it when it is complete.
pub with_len_ok :
    (f : Inflater) (b : ℕ) (bs : List ℕ) (maxlen limit : ℕ) (r : Result (Inflater × Bool × List ℕ))
    (k : Inflater → List ℕ → Result Step)
    → ((l s : ℕ) → IsValid (record f { left = l; shift = s }))
    → ((l s : ℕ) (rest : List ℕ)
        → l ≤ maxlen
        → All IsByte rest
        → length rest ≤ length bs
        → StepOk (length (b ∷ bs)) limit (k (record f { left = l; shift = s }) rest))
    → LenRead f b bs maxlen r
    → StepOk (length (b ∷ bs)) limit (with_len r k)
with_len_ok f b bs maxlen limit r k v go (inl bad) = rw bad (inl refl)
with_len_ok f b bs maxlen limit r k v go (inr (l, s, true, rest, e, le, bytes, len)) =
    rw e (go l s rest le bytes len)
with_len_ok f b bs maxlen limit r k v go (inr (l, s, false, rest, e, le, bytes, len)) =
    rw e (v l s, omega arith)

indexed_end_ok :
    (g : Inflater) (o : Opcode) (n limit : ℕ) (rest : List ℕ) (es : List HdEntry)
    → g.opcode ≡ o
    → IsTable g.ctx es
    → g.index < get_max_index g.ctx
    → All IsByte rest
    → (length rest * 2 < limit) × (length rest ≤ n)
    → StepOk n limit (indexed_end g o rest)
indexed_end_ok g indexed n limit rest es e t i h len =
    let (nv, found) = table_get_in g.ctx g.index i in
    rw found (record { entries = es; table = t; ready = tt }, len.1)
indexed_end_ok g newname n limit rest es e t i h len = (
  record { entries = es; table = t; ready = subst (IndexIn g.ctx g.index) (sym e) tt },
  h,
  omega arith,
  len.1,
  λ e. cc,
)
indexed_end_ok g indname n limit rest es e t i h len = (
  record { entries = es; table = t; ready = subst (IndexIn g.ctx g.index) (sym e) i },
  h,
  omega arith,
  len.1,
  λ e. cc,
)
indexed_end_ok g opcode_none n limit rest es e t i h len = (
  record { entries = es; table = t; ready = subst (IndexIn g.ctx g.index) (sym e) i },
  h,
  omega arith,
  len.1,
  λ e. cc,
)

module _ (f : Inflater) (es : List HdEntry) (t : IsTable f.ctx es) (b : ℕ) (bs : List ℕ)
    (h : All IsByte (b ∷ bs)) where
  pub relen :
      (st : InflateState)
      → f.state ≡ st
      → ((l s : ℕ) → Ready (record f { left = l; shift = s }) st)
      → (l s : ℕ) → IsValid (record f { left = l; shift = s })
  relen st e ready l s = record {
    entries = es;
    table = t;
    ready = subst (Ready (record f { left = l; shift = s })) (sym e) (ready l s);
  }

  pub table_size_ok :
      f.state ≡ read_table_size
      → StepOk (length (b ∷ bs)) (length (b ∷ bs) * 2) (table_size_step f (b ∷ bs))
  unfolding table_size_step
  table_size_ok e =
      with_len_ok f b bs _ _ _ _ (relen read_table_size e (λ l s. tt))
        (λ l s rest le bytes len. (
          record {
            entries = _;
            table =
                (shrink_table_size-keep (record f.ctx { hd_table_bufsize_max = l }) es
                  (record { ring = t.ring; held = t.held; accounted = t.accounted })).0;
            ready = tt;
          },
          bytes,
          omega arith,
          omega arith,
          λ e. cc,
        ))
        (read_len-LenRead f b bs 5 _ h)

  pub index_ok :
      f.state ≡ read_index → StepOk (length (b ∷ bs)) (length (b ∷ bs) * 2) (index_step f (b ∷ bs))
  unfolding index_step
  index_ok e =
      with_len_ok f b bs _ _ _ _ (relen read_index e (λ l s. tt))
        (λ l s rest le bytes len. elim (Bool-cases (l == 0)) [
          | inl zero_index ↦ rw zero_index (inl refl)
          | inr positive ↦
              let inside : l - 1 < get_max_index f.ctx = ground arith in
              rw positive (
                indexed_end_ok (record f { left = l; index = l - 1; shift = s }) f.opcode _ _ rest
                  es refl t inside bytes (omega arith, omega arith))
        ])
        (read_len-LenRead f b bs (index_prefix f) _ h)
