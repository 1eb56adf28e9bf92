-- ===== src/Hpack/Table/Resize.antt =====
-- nghttp2_hd_inflate_change_table_size: the application's limit on the table.
use kitura_http.Prelude.{
  ℕ, ◌≤◌, ◌≡◌, refl, List, Bool, true, false, ltb, if◌then◌else◌, Bool-cases, inl, inr,
}
use kitura_http.Result.{Result, ok, err, invalid_state}
use kitura_http.Hpack.Inflater.{Inflater, InflateState, expect_table_size, inflate_start}
use kitura_http.Hpack.Table.{HdEntry, Context, shrink_table_size}
use kitura_http.Hpack.Table.Evict.{IsTable, keep}
use kitura_http.Hpack.Table.Add.{shrink_table_size-keep}

-- The `switch` on the state: only between header blocks, or before one.
abbrev pub between_blocks : InflateState → Bool
between_blocks expect_table_size = true
between_blocks inflate_start = true
between_blocks _ = false

-- A smaller limit must be announced by the peer at the start of the next block.
abbrev pub demand_update : Inflater → ℕ → Inflater
demand_update i size =
    if ltb size i.ctx.hd_table_bufsize_max
    then record i { state = expect_table_size; min_hd_table_bufsize_max = size }
    else i

unfoldable pub inflate_change_table_size : Inflater → ℕ → Result Inflater
unfolding shrink_table_size
inflate_change_table_size i size =
    if between_blocks i.state
    then ok (record (demand_update i size) {
      settings_hd_table_bufsize_max = size;
      ctx = shrink_table_size (record i.ctx { hd_table_bufsize_max = size });
    })
    else err invalid_state

-- Another limit is the same table.
relimited :
    (c : Context) (size : ℕ) (es : List HdEntry)
    → IsTable c es
    → IsTable (record c { hd_table_bufsize_max = size }) es
relimited c size es v = record { ring = v.ring; held = v.held; accounted = v.accounted }

-- Between header blocks the inflater takes the new limit: the newest entries that fit are left, the
-- size is within the limit, and a limit below the old one makes it expect an update of the size.
pub inflate_change_table_size-keep :
    (i : Inflater) (es : List HdEntry) (size : ℕ)
    → IsTable i.ctx es
    → between_blocks i.state ≡ true
    → (r : Inflater) × (inflate_change_table_size i size ≡ ok r)
      × IsTable r.ctx (keep size 0 es)
      × (r.ctx.hd_table_bufsize ≤ size)
      × (r.state ≡ (if ltb size i.ctx.hd_table_bufsize_max then expect_table_size else i.state))
unfolding inflate_change_table_size
inflate_change_table_size-keep i es size v e =
    let c = record i.ctx { hd_table_bufsize_max = size } in
    let (table, bound) = shrink_table_size-keep c es (relimited i.ctx size es v) in
    (
      record (demand_update i size) {
        settings_hd_table_bufsize_max = size;
        ctx = shrink_table_size c;
      },
      rw e refl,
      table,
      bound,
      elim (Bool-cases (ltb size i.ctx.hd_table_bufsize_max)) [
        | inl smaller ↦ rw smaller refl
        | inr other ↦ rw other refl
      ],
    )
