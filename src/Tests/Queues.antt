-- ===== src/Tests/Queues.antt =====
-- The memory pool and the queue at small inputs.
use trading_ecosystem.Prelude.{
  ℕ, ◌+◌, ◌<◌, ◌≡◌, refl, true, not, some, List, ◌++◌, arith, ◌==◌, length, assertion, ok, failed,
}
use trading_ecosystem.Common.MemPool.{MemPool, block, allocate}
use trading_ecosystem.Common.MemPool.Laws.{Allocated, allocate-Allocated, allocate_last}
use trading_ecosystem.Common.LfQueue.{LfQueue, push, get_next_to_read}
use trading_ecosystem.Common.LfQueue.Fifo as Fifo
use trading_ecosystem.Common.LfQueue.Fifo.{unread, push-append, read-cons, push-full}
use trading_ecosystem.Common.LfQueue.Threads.{
  System, Reach, here, next, fill, move, count, see, take, start, in_flight, taken, received-sent,
  drop-assert,
}

-- Three blocks, of which the second is in use.
abbrev pool_three : MemPool ℕ
pool_three = record { size = 3; store = λ i. block 7 (not (i == 1)); next_free_index = 2 }

allocate-Allocated_example :
    (result : ℕ × MemPool ℕ) × (allocate pool_three 9 ≡ ok result) × Allocated pool_three 9 result
allocate-Allocated_example =
    allocate-Allocated pool_three 9 0 (record { cursor_in = omega arith; cursor_free = refl })
      (omega arith) (omega arith) refl

abbrev pool_one : MemPool ℕ
pool_one = record { size = 1; store = λ i. block 7 true; next_free_index = 0 }

allocate_last_example : allocate pool_one 9 ≡ failed assertion
allocate_last_example =
    allocate_last pool_one 9 (record { cursor_in = omega arith; cursor_free = refl })
      (λ j h k. absurd (omega arith))

-- A ring of three slots around which the queue has gone; the last slot and the first are unread.
abbrev queue_two : LfQueue ℕ
queue_two = record {
  size = 3;
  store = λ i. 10 + i;
  next_write_index = 1;
  next_read_index = 2;
  num_elements = 2;
}

queue_two-IsValid : Fifo.IsValid queue_two
queue_two-IsValid = record { read_in = omega arith; fits = omega arith; write_at = refl }

abbrev queue_full : LfQueue ℕ
queue_full = record queue_two { next_write_index = 2; num_elements = 3 }

push-full_example : get_next_to_read (push queue_full 5) ≡ some 5
push-full_example =
    push-full queue_full 5 (record { read_in = omega arith; fits = omega arith; write_at = refl })
      refl

-- One message on its way through a ring of two slots, up to where the reader has taken it.
one_taken : (s : System ℕ) × Reach (start 0 2) s × (s.reader ≡ taken)
unfolding start
one_taken = (
  _,
  next
      (next (next (next (next here (fill 7 refl (omega arith))) (move 7 refl)) (count 7 refl))
        (see refl (omega arith)))
      (take refl),
  refl,
)

received-sent_example :
    (rest : List ℕ) × (one_taken.0.sent ≡ one_taken.0.received ++ rest)
    × (length rest ≡ in_flight one_taken.0)
received-sent_example = received-sent 0 2 (omega arith) one_taken.1

drop-assert_example : 0 < one_taken.0.queue.num_elements
drop-assert_example = drop-assert 0 2 (omega arith) one_taken.1 one_taken.2
