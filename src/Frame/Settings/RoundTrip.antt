-- ===== src/Frame/Settings/RoundTrip.antt =====
-- SETTINGS frames, packed into an empty buffer and unpacked.
use kitura_http.Prelude.{
  ◌-◌, ◌*◌, ◌/◌, ◌≤◌, ◌<◌, ◌≡◌, refl, ap, ap₂, ◌∙◌, List, [], ◌∷◌, ◌++◌, true, false, length, drop,
  ltb, ◌==◌, All, IsU16, IsU32, arith, Bool-cases, inl, inr,
}
use kitura_http.Result.{ok, err, frame_size}
use kitura_http.Buf.{Buf}
use kitura_http.Buf.Add.{buf_put-ok}
use kitura_http.Frame.Header.{IsFrameHd, hd_bytes, unpack-hd_bytes}
use kitura_http.Frame.Control.RoundTrip.{IsReady, framed, pack_hd_left-ok, ReadsBack}
use kitura_http.Frame.Settings.{
  SettingsEntry, Settings, entry_length, pack_settings_payload, pack_settings,
  unpack_settings_entry, unpack_entries, unpack_settings_payload2,
}

-- What an entry holds on the wire.
abbrev pub EntryFits : SettingsEntry → Type 0
EntryFits e = IsU16 e.settings_id × IsU32 e.value

length-pack_settings_payload :
    (iv : List SettingsEntry) → length (pack_settings_payload iv) ≡ length iv * 6
unfolding pack_settings_payload
length-pack_settings_payload [] = refl
length-pack_settings_payload (e ∷ iv) = let rest = length-pack_settings_payload iv in omega arith

first_entry :
    (e : SettingsEntry) (iv : List SettingsEntry)
    → EntryFits e
    → unpack_settings_entry (pack_settings_payload (e ∷ iv)) ≡ e
unfolding unpack_settings_entry pack_settings_payload
first_entry e iv (i, v) = ground arith

behind_entry :
    (e : SettingsEntry) (iv : List SettingsEntry)
    → drop entry_length (pack_settings_payload (e ∷ iv)) ≡ pack_settings_payload iv
unfolding pack_settings_payload
behind_entry e iv = refl

unpack_entries-pack :
    (iv : List SettingsEntry)
    → All EntryFits iv
    → unpack_entries (length iv) (pack_settings_payload iv) ≡ iv
unfolding unpack_entries
unpack_entries-pack [] h = refl
unpack_entries-pack (e ∷ iv) (fits, h) =
    ap₂ (◌∷◌) (first_entry e iv fits)
      (ap (unpack_entries (length iv)) (behind_entry e iv) ∙ unpack_entries-pack iv h)

payload_reads_back :
    (iv : List SettingsEntry)
    → All EntryFits iv
    → unpack_settings_payload2 (pack_settings_payload iv) true ≡ ok iv
unfolding unpack_settings_payload2
payload_reads_back iv h =
    let size = length-pack_settings_payload iv in
    let count : length (pack_settings_payload iv) / entry_length ≡ length iv = omega arith in
    elim (Bool-cases (length iv == 0)) [
      | inl empty ↦ rw (count, empty) (ap ok (no_entries iv (ground arith)))
      | inr entries ↦ rw (count, entries) (ap ok (unpack_entries-pack iv h))
    ]
  where
    no_entries : (iv : List SettingsEntry) → length iv ≡ 0 → [] ≡ iv
    no_entries [] e = refl
    no_entries (x ∷ iv) e = absurd (omega arith)

module _ (b : Buf) (r : IsReady b) where
  -- A SETTINGS frame packed into an empty buffer with room for it reads back with its header and all
  -- its entries, if the length in the header is that of the entries and these fit their widths.
  pub settings_ReadsBack :
      (f : Settings)
      → IsFrameHd f.hd
      → f.hd.len ≡ length f.iv * 6
      → All EntryFits f.iv
      → f.hd.len ≤ b.avail
      → ReadsBack (pack_settings b f) f.hd (λ p. unpack_settings_payload2 p true) (ok f.iv)
  unfolding pack_settings
  settings_ReadsBack f v len fits h =
      let size = length-pack_settings_payload f.iv in
      let room : ltb b.avail f.hd.len ≡ false = ground arith in
      let c = record b { room = b.room - 9; bytes = hd_bytes f.hd ++ b.bytes } in
      (
        framed b f.hd (pack_settings_payload f.iv),
        rw
            (
              room,
              pack_hd_left-ok b f.hd r.room_fits,
              buf_put-ok c (pack_settings_payload f.iv) (omega arith),
              r.empty,
            )
            refl,
        unpack-hd_bytes f.hd _ v,
        payload_reads_back f.iv fits,
      )

-- A frame that is longer than the room is refused, and nothing is written.
pub pack_settings-frame_size :
    (b : Buf) (f : Settings) → b.avail < f.hd.len → pack_settings b f ≡ err frame_size
unfolding pack_settings
pack_settings-frame_size b f h =
    let long : ltb b.avail f.hd.len ≡ true = ground arith in rw long refl
