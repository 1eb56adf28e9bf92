-- ===== src/Hpack/Inflate/Commit.antt =====
-- hd_inflate_commit_newname and hd_inflate_commit_indname, from a valid table.
use kitura_http.Prelude.{
  ℕ, ◌-◌, ◌<◌, ◌≡◌, inl, inr, refl, List, Bool, true, false, ltb, leb, Bool-cases, arith,
  if◌then◌else◌,
}
use kitura_http.Result.{Result, ok, err, fault, ◌>>=◌}
use kitura_http.Hpack.Inflater.{Inflater, Opcode, opcode_none, indexed, newname, indname}
use kitura_http.Hpack.Table.{HdEntry, Context, ringbuf_get}
use kitura_http.Hpack.Table.Evict.{IsTable}
use kitura_http.Hpack.Table.Grant.{add_hd_table_incremental-Granted}
use kitura_http.Hpack.Table.Add.{add_hd_table_incremental-added}
use kitura_http.Hpack.Inflate.{
  HdNv, get_max_index, table_get, alloc, add_nv, commit_newname, commit_indname,
}
use kitura_http.Hpack.Inflate.Step.{commit}
use kitura_http.Hpack.Inflate.Valid.{IndexIn, Refusal}

pub table_get_in :
    (c : Context) (i : ℕ) → i < get_max_index c → (nv : HdNv) × (table_get c i ≡ ok nv)
unfolding table_get ringbuf_get
table_get_in c i h = elim (Bool-cases (leb 61 i)) [
  | inr static ↦ rw static (_, refl)
  | inl dynamic ↦
      let inside : ltb (i - 61) c.hd_table.len ≡ true = ground arith in
      rw (dynamic, inside) (_, refl)
]

abbrev pub CommitOk : Result (Inflater × HdNv) → Type 0
CommitOk (ok (g, nv)) = (es : List HdEntry) × IsTable g.ctx es
CommitOk (err e) = Refusal e
CommitOk fault = ⊥

either_ok :
    (b : Bool) (x y : Result (Inflater × HdNv))
    → CommitOk x
    → CommitOk y
    → CommitOk (if b then x else y)
either_ok true x y h k = h
either_ok false x y h k = k

add_nv-ok :
    (f : Inflater) (nv : HdNv) (es : List HdEntry)
    → IsTable f.ctx es
    → CommitOk (add_nv f nv >>= λ f'. ok (f', nv))
add_nv-ok f nv es t =
    let (d, e, table, size, limit) = add_hd_table_incremental-added f.ctx es nv.name nv.value t in
    elim (add_hd_table_incremental-Granted f.ctx nv.name nv.value (alloc f).0
      (alloc (alloc f).1).0) [ inl bad ↦ rw bad (inr refl) | inr same ↦ rw (same, e) (_, table) ]

pub commit_ok :
    (g : Inflater) (o : Opcode) (value : List ℕ) (es : List HdEntry)
    → IsTable g.ctx es
    → IndexIn g.ctx g.index o
    → CommitOk (commit g o value)
unfolding commit_newname commit_indname
commit_ok g newname value es t i = either_ok g.index_required _ _ (add_nv-ok g _ es t) (es, t)
commit_ok g indname value es t i =
    let (nv, e) = table_get_in g.ctx g.index i in
    rw e (either_ok g.index_required _ _ (add_nv-ok g _ es t) (es, t))
commit_ok g indexed value es t i =
    let (nv, e) = table_get_in g.ctx g.index i in
    rw e (either_ok g.index_required _ _ (add_nv-ok g _ es t) (es, t))
commit_ok g opcode_none value es t i =
    let (nv, e) = table_get_in g.ctx g.index i in
    rw e (either_ok g.index_required _ _ (add_nv-ok g _ es t) (es, t))
