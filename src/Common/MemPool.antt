-- ===== src/Common/MemPool.antt =====
-- common/mem_pool.h: a fixed array of object blocks with a cursor to the next free one.
-- A pointer to an object is the index of its block. The bytes of a freed block stay readable, as
-- `deallocate` runs no destructor.
pub mod Scan
pub mod Laws
use trading_ecosystem.Prelude.{
  ℕ, zero, suc, ◌+◌, Bool, true, false, ◌&&◌, not, Outcome, ok, failed, assertion, out_of_fuel,
  assert, ◌>>=◌, ◌>>◌, ◌==◌, ltb, if◌then◌else◌, update,
}

pub record ObjectBlock (T : Type 0) : Type 0 where
  pub object : T
  pub is_free : Bool

pub record MemPool (T : Type 0) : Type 0 where
  pub size : ℕ
  pub store : ℕ → ObjectBlock T
  pub next_free_index : ℕ

abbrev pub block : {T : Type 0} → T → Bool → ObjectBlock T
block x free = record { object = x; is_free = free }

-- `++next_free_index_`, going back to 0 at the end of the store
unfoldable pub next_index : ℕ → ℕ → ℕ
next_index size i = if suc i == size then 0 else suc i

-- the loop of `updateNextFreeIndex`, with the blocks' `is_free_` flags
unfoldable pub scan : (ℕ → Bool) → ℕ → ℕ → ℕ → ℕ → Outcome ℕ
scan free size initial zero i = failed out_of_fuel
scan free size initial (suc fuel) i = elim (free i) [
  | true ↦ ok i
  | false ↦ elim (initial == next_index size i) [
    | true ↦ failed assertion
    | false ↦ scan free size initial fuel (next_index size i)
  ]
]

module _ {T : Type 0} where
  -- `MemPool(num_elems)`; `default` is `T()`.
  unfoldable pub mem_pool : T → ℕ → MemPool T
  mem_pool default num_elems = record {
    size = num_elems;
    store = λ _. block default true;
    next_free_index = 0;
  }

  abbrev pub free_at : MemPool T → ℕ → Bool
  free_at pool i = (pool.store i).is_free

  -- The loop passes every block once at most, so `size` rounds are enough.
  unfoldable pub update_next_free_index : MemPool T → Outcome (MemPool T)
  update_next_free_index pool = do
    i ← scan (free_at pool) pool.size pool.next_free_index pool.size pool.next_free_index
    ok (record pool { next_free_index = i })

  unfoldable pub allocate : MemPool T → T → Outcome (ℕ × MemPool T)
  allocate pool object = do
    assert (free_at pool pool.next_free_index)
    pool' ←
        update_next_free_index
          (record pool { store = update pool.store pool.next_free_index (block object false) })
    ok (pool.next_free_index, pool')

  unfoldable pub deallocate : MemPool T → ℕ → Outcome (MemPool T)
  deallocate pool elem = do
    assert (ltb elem pool.size)
    assert (not (free_at pool elem))
    ok (record pool { store = update pool.store elem (block (pool.store elem).object true) })

  -- `*elem`, and an assignment through the pointer
  abbrev pub object_at : MemPool T → ℕ → T
  object_at pool elem = (pool.store elem).object

  unfoldable pub set_object : MemPool T → ℕ → T → MemPool T
  set_object pool elem object = record pool {
    store = update pool.store elem (block object (free_at pool elem));
  }
