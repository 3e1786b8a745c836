-- ===== src/Common/LfQueue.antt =====
-- common/lf_queue.h: a ring of slots with one writing and one reading thread. A writer fills the slot
-- of `getNextToWriteTo` and then calls `updateWriteIndex`; a reader uses the slot of `getNextToRead`
-- and then calls `updateReadIndex`. Counters are unbounded here: the source's `size_t` counters count
-- messages of one run.
pub mod Fifo
pub mod Threads
pub mod Drain
pub mod Writes
use trading_ecosystem.Prelude.{
  ℕ, zero, suc, ◌+◌, ◌-◌, ◌*◌, ◌/◌, ◌%◌, ◌^◌, ◌≤◌, ◌<◌, min, ◌≡◌, refl, sym, ap, ◌∙◌, ◌≢◌, ◌↔◌, ◌⊎◌,
  inl, inr, Bool, true, false, not, ◌&&◌, ◌||◌, Option, none, some, List, [], ◌∷◌, ◌++◌, map, arith,
  ltb, leb, ◌==◌, if◌then◌else◌, ==_iff, ==_refl, Bool-cases, Option-cases, length, length-append,
  update, All, All-append, Fault, assertion, null_pointer, out_of_range, out_of_fuel, Outcome, ok,
  failed, ◌>>=◌, ◌>>◌, assert, in_range, deref, >>=-eq-ok,
}

pub record LfQueue (T : Type 0) : Type 0 where
  pub size : ℕ
  pub store : ℕ → T
  pub next_write_index : ℕ
  pub next_read_index : ℕ
  pub num_elements : ℕ

module _ {T : Type 0} where
  -- `LFQueue(num_elems)`; `default` is `T()`.
  unfoldable pub lf_queue : T → ℕ → LfQueue T
  lf_queue default num_elems = record {
    size = num_elems;
    store = λ _. default;
    next_write_index = 0;
    next_read_index = 0;
    num_elements = 0;
  }

  -- `*getNextToWriteTo() = x`
  unfoldable pub write_next : LfQueue T → T → LfQueue T
  write_next q x = record q { store = update q.store q.next_write_index x }

  unfoldable pub update_write_index : LfQueue T → LfQueue T
  update_write_index q = record q {
    next_write_index = (q.next_write_index + 1) % q.size;
    num_elements = q.num_elements + 1;
  }

  -- `nullptr` is `none`; else the message behind the pointer.
  unfoldable pub get_next_to_read : LfQueue T → Option T
  get_next_to_read q = if q.num_elements == 0 then none else some (q.store q.next_read_index)

  unfoldable pub update_read_index : LfQueue T → Outcome (LfQueue T)
  update_read_index q = do
    let advanced = record q { next_read_index = (q.next_read_index + 1) % q.size }
    assert (not (advanced.num_elements == 0))
    ok (record advanced { num_elements = advanced.num_elements - 1 })

  -- The two calls of a writer, as every writer of the program makes them.
  unfoldable pub push : LfQueue T → T → LfQueue T
  unfolding write_next update_write_index
  push q x = update_write_index (write_next q x)
