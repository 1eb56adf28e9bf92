-- ===== src/Frame/Settings.antt =====
-- Sources/nghttp2/nghttp2_frame.c: SETTINGS frames, whose entries are an id of 16 bits and a value of
-- 32 bits, and the check of the values. `settings_id` is an int32_t, of which 16 bits are sent.
pub mod RoundTrip
pub mod Check
pub mod Tests
use kitura_http.Prelude.{
  ℕ, zero, suc, ◌-◌, ◌*◌, ◌/◌, List, [], ◌∷◌, ◌++◌, Bool, true, false, not, ◌&&◌, ◌||◌, Option,
  none, some, length, drop, ltb, ◌==◌, if◌then◌else◌,
}
use kitura_http.Result.{Result, ok, err, fault, frame_size, nomem, ◌>>=◌}
use kitura_http.Wire.{put_uint16be, put_uint32be, get_uint16, get_uint32}
use kitura_http.Buf.{Buf, buf_put}
use kitura_http.Frame.{FrameHd, frame_hd_init}
use kitura_http.Frame.Control.{pack_hd_left}

-- nghttp2_settings_entry.
pub record SettingsEntry : Type 0 where
  pub settings_id : ℕ
  pub value : ℕ

pub record Settings : Type 0 where
  pub hd : FrameHd
  pub iv : List SettingsEntry

-- NGHTTP2_FRAME_SETTINGS_ENTRY_LENGTH.
abbrev pub entry_length : ℕ
entry_length = 6

unfoldable pub settings_init : ℕ → List SettingsEntry → Settings
unfolding frame_hd_init
settings_init flags iv = record {
  hd = frame_hd_init (length iv * entry_length) 0x04 flags 0;
  iv = iv;
}

-- The bytes that nghttp2_frame_pack_settings_payload writes.
unfoldable pub pack_settings_payload : List SettingsEntry → List ℕ
unfolding put_uint16be put_uint32be
pack_settings_payload [] = []
pack_settings_payload (e ∷ iv) =
    put_uint16be e.settings_id ++ (put_uint32be e.value ++ pack_settings_payload iv)

-- nghttp2_frame_pack_settings: the room is compared with the length in the header.
unfoldable pub pack_settings : Buf → Settings → Result Buf
unfolding pack_hd_left buf_put pack_settings_payload
pack_settings b f =
    if ltb b.avail f.hd.len
    then err frame_size
    else pack_hd_left b f.hd >>= λ c. buf_put c (pack_settings_payload f.iv)

unfoldable pub unpack_settings_entry : List ℕ → SettingsEntry
unfolding get_uint16 get_uint32
unpack_settings_entry payload = record {
  settings_id = get_uint16 payload;
  value = get_uint32 (drop 2 payload);
}

-- The loop over the entries; `off` is a multiple of six.
unfoldable pub unpack_entries : ℕ → List ℕ → List SettingsEntry
unfolding unpack_settings_entry
unpack_entries zero payload = []
unpack_entries (suc niv) payload =
    unpack_settings_entry payload ∷ unpack_entries niv (drop entry_length payload)

-- nghttp2_frame_unpack_settings_payload2: bytes behind the last whole entry are left out.
unfoldable pub unpack_settings_payload2 : List ℕ → Bool → Result (List SettingsEntry)
unfolding unpack_entries
unpack_settings_payload2 payload granted =
    let niv = length payload / entry_length in
    if niv == 0 then ok [] else if granted then ok (unpack_entries niv payload) else err nomem

-- nghttp2_frame_iv_copy: `none` is NULL, which stands for no entries, too.
unfoldable pub iv_copy : List SettingsEntry → Bool → Option (List SettingsEntry)
iv_copy [] granted = none
iv_copy (e ∷ iv) granted = if granted then some (e ∷ iv) else none

-- The `switch` of nghttp2_iv_check, in the order of its cases.
unfoldable pub entry_check : SettingsEntry → Bool
entry_check e =
    if e.settings_id == 0x01
    then true
    else if e.settings_id == 0x03
    then true
    else if e.settings_id == 0x02
    then (if not (e.value == 0) && not (e.value == 1) then false else true)
    else if e.settings_id == 0x04
    then (if ltb 2147483647 e.value then false else true)
    else if e.settings_id == 0x05
    then (if ltb e.value 16384 || ltb 16777215 e.value then false else true)
    else true

unfoldable pub iv_check : List SettingsEntry → Bool
unfolding entry_check
iv_check [] = true
iv_check (e ∷ iv) = let rest = iv_check iv in if entry_check e then rest else false
