-- ===== src/Pq/Remove.antt =====
-- nghttp2_pq_remove: the root, the last entry, or one between, which the last one replaces.
use mathlib.Core.List.{Perm}
use mathlib.Core.List.Perm
use kitura_http.Prelude.{ℕ, List, ◌∷◌, Bool}
use kitura_http.Pq.{Pq}
use kitura_http.Pq.Ops.{Holds}

-- What nghttp2_pq_remove leaves of the entries.
abbrev pub Removed : (ℕ → ℕ → Bool) → Pq → ℕ → Pq → Type 0
Removed less pq item r = (rest : List ℕ) × Perm (item ∷ rest) pq.q × Holds less rest r
