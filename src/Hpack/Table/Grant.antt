-- ===== src/Hpack/Table/Grant.antt =====
-- The answers of the allocator in add_hd_table_incremental.
use kitura_http.Prelude.{
  ℕ, ◌+◌, ◌≡◌, ◌⊎◌, inl, inr, refl, ap, List, Bool, true, false, ltb, leb, length, Bool-cases,
}
use kitura_http.Result.{Result, err, nomem, ◌>>=◌}
use kitura_http.Hpack.Table.{
  HdEntry, Ringbuf, Context, ringbuf_push_front, ringbuf_reserve, add_after,
  add_hd_table_incremental, entry_room,
}

-- A call that was refused memory reports that, or it did not need it.
abbrev pub Granted {ℓ} : {A : Type ℓ} → Result A → Result A → Type ℓ
Granted r granted = (r ≡ err nomem) ⊎ (r ≡ granted)

Granted-bind :
    {A B : Type 0} (r g : Result A) (f : A → Result B) → Granted r g → Granted (r >>= f) (g >>= f)
Granted-bind r g f (inl e) = rw e (inl refl)
Granted-bind r g f (inr e) = inr (ap (λ x. x >>= f) e)

reserve-Granted :
    (r : Ringbuf) (n : ℕ) (b : Bool) → Granted (ringbuf_reserve r n b) (ringbuf_reserve r n true)
unfolding ringbuf_reserve
reserve-Granted r n true = inr refl
reserve-Granted r n false = elim (Bool-cases (leb n (length r.buffer))) [
  | inl fits ↦ rw fits (inr refl)
  | inr more ↦ rw more (inl refl)
]

push_front-Granted :
    (r : Ringbuf) (e : HdEntry) (b : Bool)
    → Granted (ringbuf_push_front r e b) (ringbuf_push_front r e true)
unfolding ringbuf_push_front
push_front-Granted r e b = Granted-bind _ _ _ (reserve-Granted r (r.len + 1) b)

pub add_after-Granted :
    (c : Context) (name value : List ℕ) (entry buffer : Bool)
    → Granted (add_after c name value entry buffer) (add_after c name value true true)
unfolding add_after
add_after-Granted c name value entry buffer =
    elim (Bool-cases (ltb c.hd_table_bufsize_max (entry_room (length name) (length value)))) [
      | inl large ↦ rw large (inr refl)
      | inr fits ↦ rw fits (elim (Bool-cases entry) [
        | inl granted ↦ rw granted (Granted-bind _ _ _ (push_front-Granted c.hd_table _ buffer))
        | inr refused ↦ rw refused (inl refl)
      ])
    ]

pub add_hd_table_incremental-Granted :
    (c : Context) (name value : List ℕ) (entry buffer : Bool)
    → Granted
        (add_hd_table_incremental c name value entry buffer)
        (add_hd_table_incremental c name value true true)
unfolding add_hd_table_incremental
add_hd_table_incremental-Granted c name value entry buffer =
    add_after-Granted _ name value entry buffer
