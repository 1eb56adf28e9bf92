-- ===== src/Queue.antt =====
-- Sources/nghttp2/nghttp2_queue.c: a queue as a chain of cells, linked from the front to the back.
-- Memory maps the address of a cell to its contents; `none` is NULL. `data_of` is a pointer's number.
pub mod Fifo
pub mod Tests
use kitura_http.Prelude.{ℕ, Bool, true, false, Option, none, some, ◌==◌, if◌then◌else◌}
use kitura_http.Result.{Result, ok, err, fault, nomem}

-- nghttp2_queue_cell.
pub record Cell : Type 0 where
  pub data_of : ℕ
  pub next : Option ℕ

pub record Queue : Type 0 where
  pub mem : ℕ → Cell
  pub front : Option ℕ
  pub back : Option ℕ

-- A store to the cell at `a`.
abbrev pub store : (ℕ → Cell) → ℕ → Cell → ℕ → Cell
store mem a c x = if x == a then c else mem x

unfoldable pub queue_init : (ℕ → Cell) → Queue
queue_init mem = record { mem = mem; front = none; back = none }

-- nghttp2_queue_push behind the allocation, whose cell is at `a`.
abbrev pub link : Queue → ℕ → ℕ → Option ℕ → Queue
link q d a (some b) =
    let mem = store q.mem a (record { data_of = d; next = none }) in
    record q { mem = store mem b (record (mem b) { next = some a }); back = some a }
link q d a none = record {
  mem = store q.mem a (record { data_of = d; next = none });
  front = some a;
  back = some a;
}

-- nghttp2_queue_push, with the answer of malloc.
unfoldable pub queue_push : Queue → ℕ → Option ℕ → Result Queue
queue_push q d none = err nomem
queue_push q d (some a) = ok (link q d a q.back)

abbrev pub is_same : ℕ → Option ℕ → Bool
is_same a none = false
is_same a (some b) = a == b

abbrev pub pop_cell : Queue → Option ℕ → Result Queue
pop_cell q none = fault
pop_cell q (some a) =
    ok (record q { front = (q.mem a).next; back = if is_same a q.back then none else q.back })

-- nghttp2_queue_pop.
unfoldable pub queue_pop : Queue → Result Queue
queue_pop q = pop_cell q q.front

abbrev pub data_at : (ℕ → Cell) → Option ℕ → Result ℕ
data_at mem none = fault
data_at mem (some a) = ok ((mem a).data_of)

-- nghttp2_queue_front, nghttp2_queue_back and nghttp2_queue_empty.
unfoldable pub queue_front : Queue → Result ℕ
queue_front q = data_at q.mem q.front

unfoldable pub queue_back : Queue → Result ℕ
queue_back q = data_at q.mem q.back

abbrev is_null : Option ℕ → Bool
is_null none = true
is_null (some a) = false

unfoldable pub queue_empty : Queue → Bool
queue_empty q = is_null q.front
