-- ===== src/Result.antt =====
-- How a call of the library ends: include/nghttp2/nghttp2.h `nghttp2_error`.
-- `fault` is no return value: an `assert` failed or memory outside a buffer was touched.
use kitura_http.Prelude.{◌≡◌, Bool, true, false}

-- The codes that the modelled functions return, by their C names without `NGHTTP2_ERR_`.
pub data Error : Type 0 where
  invalid_argument buffer_error frame_size header_comp flow_control nomem invalid_state : Error
  http_header ign_http_header remove_http_header http_messaging : Error

pub data Result {ℓ} (A : Type ℓ) : Type ℓ where
  ok : A → Result A
  err : Error → Result A
  fault : Result A

infixl 5 ◌>>=◌
abbrev pub ◌>>=◌ {ℓ κ} : {A : Type ℓ} {B : Type κ} → Result A → (A → Result B) → Result B
ok a >>= f = f a
err e >>= f = err e
fault >>= f = fault

-- `assert(b)`, or an access that is inside its buffer exactly when `b` holds.
abbrev pub require {ℓ} : {A : Type ℓ} → Bool → Result A → Result A
require true r = r
require false r = fault

pub ok-injective {ℓ} : {A : Type ℓ} {a b : A} → ok a ≡ ok b → a ≡ b
ok-injective h = cc
