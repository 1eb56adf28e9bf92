-- ===== src/Frame/Settings/Tests.antt =====
-- A SETTINGS frame of two entries, and the theorems at it.
use kitura_http.Prelude.{ℕ, ◌≡◌, ◌↔◌, refl, List, [], ◌∷◌, true, false, none, All, arith}
use kitura_http.Result.{ok}
use kitura_http.Buf.{Buf}
use kitura_http.Frame.{FrameHd}
use kitura_http.Frame.Control.RoundTrip.{ReadsBack}
use kitura_http.Frame.Settings.{
  SettingsEntry, settings_init, pack_settings, unpack_settings_payload2, iv_check, iv_copy,
}
use kitura_http.Frame.Settings.RoundTrip.{settings_ReadsBack}
use kitura_http.Frame.Settings.Check.{IsAllowed, iv_check_iff}

abbrev entry : ℕ → ℕ → SettingsEntry
entry id v = record { settings_id = id; value = v }

abbrev pair : List SettingsEntry
pair = entry 3 100 ∷ entry 4 65535 ∷ []

abbrev hd : FrameHd
hd = record { len = 12; type = 4; flags = 0; stream_id = 0; reserved = 0 }

abbrev ready : Buf
ready = record { room = 10; bytes = []; avail = 20 }

init_pair : settings_init 0 pair ≡ record { hd = hd; iv = pair }
unfolding settings_init
init_pair = refl

cut_entry :
    unpack_settings_payload2 (0 ∷ 3 ∷ 0 ∷ 0 ∷ 0 ∷ 100 ∷ 0 ∷ 4 ∷ []) true ≡ ok (entry 3 100 ∷ [])
unfolding unpack_settings_payload2
cut_entry = refl

push_two : iv_check (entry 2 2 ∷ []) ≡ false
unfolding iv_check
push_two = refl

copy_refused : iv_copy pair false ≡ none
unfolding iv_copy
copy_refused = refl

settings_ReadsBack_example :
    ReadsBack
      (pack_settings ready (record { hd = hd; iv = pair }))
      hd
      (λ p. unpack_settings_payload2 p true)
      (ok pair)
settings_ReadsBack_example =
    settings_ReadsBack ready (record { room_fits = omega arith; empty = refl })
      (record { hd = hd; iv = pair })
      (record {
        len_fits = omega arith;
        type_fits = omega arith;
        flags_fit = omega arith;
        id_fits = omega arith;
        no_reserved = refl;
      })
      refl ((omega arith, omega arith), ((omega arith, omega arith), tt)) (omega arith)

iv_check_iff_example : (iv_check pair ≡ true) ↔ All IsAllowed pair
iv_check_iff_example = iv_check_iff pair
