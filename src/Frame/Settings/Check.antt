-- ===== src/Frame/Settings/Check.antt =====
-- nghttp2_iv_check beside the values of RFC 7540, 6.5.2.
use kitura_http.Prelude.{◌≤◌, ◌≡◌, ◌↔◌, refl, List, [], ◌∷◌, true, All, arith, Bool-cases, inl, inr}
use kitura_http.Frame.Settings.{SettingsEntry, entry_check, iv_check}

-- ENABLE_PUSH is 0 or 1, INITIAL_WINDOW_SIZE at most 2^31 - 1, and MAX_FRAME_SIZE from 2^14 to
-- 2^24 - 1. Other settings, known or not, have any value.
abbrev pub IsAllowed : SettingsEntry → Type 0
IsAllowed e =
    (e.settings_id ≡ 0x02 → e.value ≤ 1)
    × (e.settings_id ≡ 0x04 → e.value ≤ 2147483647)
    × (e.settings_id ≡ 0x05 → (16384 ≤ e.value) × (e.value ≤ 16777215))

entry_check_iff : (e : SettingsEntry) → (entry_check e ≡ true) ↔ IsAllowed e
unfolding entry_check
entry_check_iff e = ground arith

-- nghttp2_iv_check accepts exactly the lists of which every entry has an allowed value.
pub iv_check_iff : (iv : List SettingsEntry) → (iv_check iv ≡ true) ↔ All IsAllowed iv
unfolding iv_check
iv_check_iff [] = (λ h. tt, λ h. refl)
iv_check_iff (e ∷ iv) =
    let here = entry_check_iff e in
    let rest = iv_check_iff iv in
    elim (Bool-cases (entry_check e)) [
      | inl good ↦ rw good (λ h. (here.0 good, rest.0 h), λ (a, h). rest.1 h)
      | inr bad ↦ rw bad (λ h. cc, λ (a, h). cc (here.1 a))
    ]
