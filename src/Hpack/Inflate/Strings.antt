-- ===== src/Hpack/Inflate/Strings.antt =====
-- The cases of the switch in nghttp2_hd_inflate_hd_nv that read a name or a value.
use kitura_http.Prelude.{
  ℕ, ◌+◌, ◌-◌, ◌*◌, ◌≤◌, ◌<◌, ◌≡◌, ◌⊎◌, inl, inr, refl, sym, subst, List, [], ◌∷◌, Bool, true,
  false, ltb, ◌==◌, min, length, drop, length-drop, All, IsByte, Bool-cases, arith,
}
use kitura_http.Result.{Result, ok, err, fault, nomem, ◌>>=◌}
use kitura_http.Buf.{Buf, new_buf}
use kitura_http.Hpack.Inflater.{
  Inflater, opcode, newname_read_namelen, newname_read_namehuff, newname_read_name, read_valuelen,
  read_valuehuff, read_value, newname,
}
use kitura_http.Hpack.Table.{HdEntry}
use kitura_http.Hpack.Table.Evict.{IsTable}
use kitura_http.Hpack.Huffman.{huff_decode_context_init}
use kitura_http.Hpack.Huffman.Tree.{to_bits}
use kitura_http.Hpack.Huffman.Checked.{is_padding, node_bits}
use kitura_http.Hpack.Inflate.Steps.{with_len_ok, relen}
use kitura_http.Hpack.Inflate.{HdNv, alloc, next_answer, read_huff, read_plain}
use kitura_http.Hpack.Inflate.Step.{
  emit, string_buf, name_len_step, name_begins, value_begins, value_len_step, name_step, value_step,
}
use kitura_http.Hpack.Inflate.Valid.{Ready, IndexIn, HuffRoom, PlainRoom, AtNode, StepOk}
use kitura_http.Hpack.Inflate.Reads.{read_len-LenRead, read_huff-ends, read_plain-ends, All-drop}
use kitura_http.Hpack.Inflate.Commit.{CommitOk, commit_ok}

answer_same :
    (f : Inflater) (m : List Bool)
    → (m' : List Bool) × ((next_answer f m).1 ≡ record f { mem = m' })
answer_same f [] = (f.mem, refl)
answer_same f (granted ∷ m) = (m, refl)

string_buf-ends :
    (f : Inflater) (size : ℕ)
    → (string_buf f size ≡ err nomem)
      ⊎ ((m : List Bool) × (string_buf f size ≡ ok (record f { mem = m }, new_buf size)))
string_buf-ends f size =
    let (m, e) = answer_same f f.mem in
    elim (Bool-cases (alloc f).0) [
      | inl granted ↦ inr (m, rw (granted, e) refl)
      | inr refused ↦ inl (rw refused refl)
    ]

init-AtNode : AtNode huff_decode_context_init
unfolding is_padding node_bits to_bits
init-AtNode = record { state_in = omega arith; final = refl }

module _ (f : Inflater) (es : List HdEntry) (t : IsTable f.ctx es) (n limit : ℕ) (rest : List ℕ)
    (h : All IsByte rest) (len : length rest * 2 + 1 < limit × length rest ≤ n) where
  -- The buffer for a string has room for it.
  name_begins-ok : (huff : Bool) → f.opcode ≡ newname → StepOk n limit (name_begins f huff rest)
  name_begins-ok true o = elim (string_buf-ends f (f.left * 2 + 1)) [
    | inl bad ↦ rw bad (inr refl)
    | inr (m, e) ↦ rw e (
      record { entries = es; table = t; ready = ((omega arith, init-AtNode), o) },
      h,
      omega arith,
      len.1,
      λ e. cc,
    )
  ]
  name_begins-ok false o = elim (string_buf-ends f (f.left + 1)) [
    | inl bad ↦ rw bad (inr refl)
    | inr (m, e) ↦ rw e (
      record { entries = es; table = t; ready = (omega arith, o) },
      h,
      omega arith,
      len.1,
      λ e. cc,
    )
  ]

  value_begins-ok :
      (huff : Bool) → IndexIn f.ctx f.index f.opcode → StepOk n limit (value_begins f huff rest)
  value_begins-ok true i = elim (string_buf-ends f (f.left * 2 + 1)) [
    | inl bad ↦ rw bad (inr refl)
    | inr (m, e) ↦ rw e (
      record { entries = es; table = t; ready = ((omega arith, init-AtNode), i) },
      h,
      omega arith,
      len.1,
      λ e. tt,
    )
  ]
  value_begins-ok false i = elim (string_buf-ends f (f.left + 1)) [
    | inl bad ↦ rw bad (inr refl)
    | inr (m, e) ↦ rw e (
      record { entries = es; table = t; ready = (omega arith, i) },
      h,
      omega arith,
      len.1,
      λ e. tt,
    )
  ]

module _ (f : Inflater) (es : List HdEntry) (t : IsTable f.ctx es) (b : ℕ) (bs : List ℕ)
    (h : All IsByte (b ∷ bs)) where
  pub name_len_ok :
      f.opcode ≡ newname
      → f.state ≡ newname_read_namelen
      → StepOk (length (b ∷ bs)) (length (b ∷ bs) * 2) (name_len_step f (b ∷ bs))
  unfolding name_len_step
  name_len_ok o e =
      with_len_ok f b bs _ _ _ _ (relen f es t b bs h newname_read_namelen e (λ l s. o))
        (λ l s rest le bytes len.
          name_begins-ok (record f { left = l; shift = s }) es t _ _ rest bytes
            (omega arith, omega arith) f.huffman_encoded o)
        (read_len-LenRead f b bs 7 _ h)

  pub value_len_ok :
      IndexIn f.ctx f.index f.opcode
      → f.state ≡ read_valuelen
      → StepOk (length (b ∷ bs)) (length (b ∷ bs) * 2) (value_len_step f (b ∷ bs))
  unfolding value_len_step
  value_len_ok i e =
      with_len_ok f b bs _ _ _ _ (relen f es t b bs h read_valuelen e (λ l s. i))
        (λ l s rest le bytes len.
          value_begins-ok (record f { left = l; shift = s }) es t _ _ rest bytes
            (omega arith, omega arith) f.huffman_encoded i)
        (read_len-LenRead f b bs 7 _ h)

emit_ok :
    (n limit : ℕ) (rest : List ℕ) (r : Result (Inflater × HdNv))
    → length rest ≤ n
    → CommitOk r
    → StepOk n limit (r >>= λ done. ok (emit (record done.0 { state = opcode }) done.1 rest))
emit_ok n limit rest (ok (g, nv)) len (es, t) =
    (record { entries = es; table = t; ready = tt }, len)
emit_ok n limit rest (err e) len h = h
emit_ok n limit rest fault len h = elim h [ ]

-- A string goes on, or ends.
module _ (g : Inflater) (es : List HdEntry) (t : IsTable g.ctx es) (b : Buf) (room : 0 < b.avail)
    (n limit : ℕ) (rest : List ℕ) (h : All IsByte rest)
    (len : length rest * 2 < limit × length rest ≤ n) where
  name_step-ok :
      g.opcode ≡ newname
      → Ready (record g { namebuf = b }) g.state
      → StepOk n limit (name_step (ok (g, b, rest)))
  unfolding name_step
  name_step-ok o ready = elim (Bool-cases (g.left == 0)) [
    | inl ended ↦
        let fits : ltb 0 b.avail ≡ true = ground arith in
        rw (ended, fits)
          (
            record { entries = es; table = t; ready = subst (IndexIn g.ctx g.index) (sym o) tt },
            h,
            omega arith,
            len.1,
            λ e. cc,
          )
    | inr more ↦ rw more (record { entries = es; table = t; ready = ready }, len.1)
  ]

  value_step-ok :
      IndexIn g.ctx g.index g.opcode
      → Ready (record g { valuebuf = b }) g.state
      → StepOk n limit (value_step (ok (g, b, rest)))
  unfolding value_step
  value_step-ok i ready = elim (Bool-cases (g.left == 0)) [
    | inl ended ↦
        let fits : ltb 0 b.avail ≡ true = ground arith in
        let done = commit_ok (record g { valuebuf = b }) g.opcode b.bytes es t i in
        rw (ended, fits) (emit_ok n limit rest _ len.1 done)
    | inr more ↦ rw more (record { entries = es; table = t; ready = ready }, len.1)
  ]

module _ (f : Inflater) (es : List HdEntry) (t : IsTable f.ctx es) (input : List ℕ)
    (h : All IsByte input) where
  bounds :
      (k : ℕ)
      → (length (drop k input) * 2 < length input * 2 + 1) × (length (drop k input) ≤ length input)
  bounds k = let e = length-drop k input in (omega arith, omega arith)

  pub name_huff_ok :
      f.state ≡ newname_read_namehuff
      → HuffRoom f f.namebuf
      → f.opcode ≡ newname
      → StepOk (length input) (length input * 2 + 1) (name_step (read_huff f f.namebuf input))
  unfolding name_step
  name_huff_ok e room o = elim (read_huff-ends f f.namebuf input room h) [
    | inl bad ↦ rw bad (inl refl)
    | inr (c, l, b, read, after) ↦
        let g = record f { huff_decode_ctx = c; left = l } in
        rw read (
          name_step-ok g es t b (omega arith) _ _ _ (All-drop f.left input h) (bounds f.left) o
            (subst (Ready (record g { namebuf = b })) (sym e) (after, o)))
  ]

  pub name_plain_ok :
      f.state ≡ newname_read_name
      → PlainRoom f f.namebuf
      → f.opcode ≡ newname
      → StepOk (length input) (length input * 2 + 1) (name_step (read_plain f f.namebuf input))
  unfolding name_step
  name_plain_ok e room o =
      let k = min (length input) f.left in
      let (b, read, after) = read_plain-ends f f.namebuf input room in
      let g = record f { left = f.left - k } in
      rw read (
        name_step-ok g es t b (omega arith) _ _ _ (All-drop k input h) (bounds k) o
          (subst (Ready (record g { namebuf = b })) (sym e) (after, o)))

  pub value_huff_ok :
      f.state ≡ read_valuehuff
      → HuffRoom f f.valuebuf
      → IndexIn f.ctx f.index f.opcode
      → StepOk (length input) (length input * 2 + 1) (value_step (read_huff f f.valuebuf input))
  unfolding value_step
  value_huff_ok e room i = elim (read_huff-ends f f.valuebuf input room h) [
    | inl bad ↦ rw bad (inl refl)
    | inr (c, l, b, read, after) ↦
        let g = record f { huff_decode_ctx = c; left = l } in
        rw read (
          value_step-ok g es t b (omega arith) _ _ _ (All-drop f.left input h) (bounds f.left) i
            (subst (Ready (record g { valuebuf = b })) (sym e) (after, i)))
  ]

  pub value_plain_ok :
      f.state ≡ read_value
      → PlainRoom f f.valuebuf
      → IndexIn f.ctx f.index f.opcode
      → StepOk (length input) (length input * 2 + 1) (value_step (read_plain f f.valuebuf input))
  unfolding value_step
  value_plain_ok e room i =
      let k = min (length input) f.left in
      let (b, read, after) = read_plain-ends f f.valuebuf input room in
      let g = record f { left = f.left - k } in
      rw read (
        value_step-ok g es t b (omega arith) _ _ _ (All-drop k input h) (bounds k) i
          (subst (Ready (record g { valuebuf = b })) (sym e) (after, i)))
