-- ===== src/Common/MemPool/Laws.antt =====
-- What a client of common/mem_pool.h may rely on, and how many objects a pool of n blocks serves.
use trading_ecosystem.Prelude.{
  ℕ, ◌<◌, ◌≡◌, refl, ◌≢◌, inl, inr, true, false, arith, update, assertion, ok, failed,
}
use trading_ecosystem.Common.MemPool.{
  MemPool, block, mem_pool, free_at, update_next_free_index, allocate, deallocate, object_at,
}
use trading_ecosystem.Common.MemPool.Scan.{scan_start}

module _ {T : Type 0} where
  -- Between calls the cursor is on a free block of the store.
  pub record IsValid (pool : MemPool T) : Type 0 where
    pub cursor_in : pool.next_free_index < pool.size
    pub cursor_free : free_at pool pool.next_free_index ≡ true

  -- Everything that a successful call of `allocate` does.
  pub record Allocated (pool : MemPool T) (object : T) (result : ℕ × MemPool T) : Type 0 where
    pub elem_in : result.0 < pool.size
    pub was_free : free_at pool result.0 ≡ true
    pub valid : IsValid result.1
    pub size : result.1.size ≡ pool.size
    pub store : result.1.store ≡ update pool.store result.0 (block object false)

  -- A pool is nearly full when its cursor is on the only free block that is left.
  abbrev pub IsNearlyFull : MemPool T → Type 0
  IsNearlyFull pool = (j : ℕ) → j < pool.size → j ≢ pool.next_free_index → free_at pool j ≡ false

  -- A fresh pool with a block or more is valid, and all its blocks are free.
  pub mem_pool-IsValid : (default : T) (n : ℕ) → 0 < n → IsValid (mem_pool default n)
  unfolding mem_pool
  mem_pool-IsValid default n h = record { cursor_in = h; cursor_free = refl }

  -- In a valid pool with a free block beside the one at the cursor, `allocate` succeeds: it hands out a block that was free, puts the object there, marks the block as used, changes no other block, and leaves the pool valid.
  pub allocate-Allocated :
      (pool : MemPool T) (object : T) (j : ℕ)
      → IsValid pool
      → j < pool.size
      → j ≢ pool.next_free_index
      → free_at pool j ≡ true
      → (result : ℕ × MemPool T) × (allocate pool object ≡ ok result) × Allocated pool object result
  unfolding allocate update_next_free_index
  allocate-Allocated pool object j v hj ne free =
      elim (scan_start (free_at marked) pool.size pool.next_free_index v.cursor_in) [
        | inl (i, e, hi, f) ↦ (
          (pool.next_free_index, record marked { next_free_index = i }),
          rw (v.cursor_free, e),
          record {
            elem_in = v.cursor_in;
            was_free = v.cursor_free;
            valid = record { cursor_in = hi; cursor_free = f };
            size = refl;
            store = refl;
          },
        )
        | inr (e, all) ↦ absurd (ground (arith, all j hj))
      ]
    where
      marked : MemPool T
      marked = record pool { store = update pool.store pool.next_free_index (block object false) }

  -- In a valid pool whose only free block is the one at the cursor, `allocate` stops the process, though that block could have been handed out.
  pub allocate_last :
      (pool : MemPool T) (object : T)
      → IsValid pool
      → IsNearlyFull pool
      → allocate pool object ≡ failed assertion
  unfolding allocate update_next_free_index
  allocate_last pool object v full =
      elim (scan_start (free_at marked) pool.size pool.next_free_index v.cursor_in) [
        | inl (i, e, hi, f) ↦ absurd (ground (arith, full i hi))
        | inr (e, all) ↦ rw (v.cursor_free, e)
      ]
    where
      marked : MemPool T
      marked = record pool { store = update pool.store pool.next_free_index (block object false) }

  -- `deallocate` of a used block frees that block alone and leaves the pool valid.
  pub deallocate-ok :
      (pool : MemPool T) (elem : ℕ)
      → IsValid pool
      → elem < pool.size
      → free_at pool elem ≡ false
      → (pool' : MemPool T) × (deallocate pool elem ≡ ok pool')
        × IsValid pool'
        × (pool'.size ≡ pool.size)
        × (pool'.store ≡ update pool.store elem (block (object_at pool elem) true))
  unfolding deallocate
  deallocate-ok pool elem v h used = (
    record pool { store = update pool.store elem (block (object_at pool elem) true) },
    ground arith,
    ground arith,
    refl,
    refl,
  )

  -- A second `deallocate` of the same block stops the process.
  pub deallocate-deallocate :
      (pool : MemPool T) (elem : ℕ) {pool' : MemPool T}
      → deallocate pool elem ≡ ok pool'
      → deallocate pool' elem ≡ failed assertion
  unfolding deallocate
  deallocate-deallocate pool elem e = ground arith
