-- ===== src/Common/LfQueue/Threads.antt =====
-- The writing and the reading thread of a queue of common/lf_queue.h, interleaved. Each step is one
-- access to the shared queue: the writer fills a slot, moves its index, counts the message; the
-- reader tests the count, takes the message and moves its index, counts it off.
use native.Mathlib.Nat.{mod-add-mod}
use mathlib.Core.List.{append_assoc}
use trading_ecosystem.Prelude.{
  ℕ, zero, suc, ◌+◌, ◌-◌, ◌%◌, ◌≤◌, ◌<◌, ◌≡◌, refl, sym, ap, ◌∙◌, List, [], ◌∷◌, ◌++◌, arith,
  ==_refl, length, update,
}
use trading_ecosystem.Common.LfQueue.{LfQueue, lf_queue, write_next}
use trading_ecosystem.Common.LfQueue.Fifo.{slots, slots-update, slots-suc, mod-in}

-- Where the writer is: between messages, after filling the slot, after moving `next_write_index_`.
pub data Writer (T : Type 0) : Type 0 where
  idle : Writer T
  filled : T → Writer T
  moved : T → Writer T

-- Where the reader is: between messages, after seeing a count above 0, after moving
-- `next_read_index_`.
pub data Reader : Type 0 where
  waiting seen taken : Reader

-- The queue, both threads, the messages counted in and the messages taken out.
pub record System (T : Type 0) : Type 0 where
  pub queue : LfQueue T
  pub writer : Writer T
  pub reader : Reader
  pub sent : List T
  pub received : List T

abbrev pub left : Reader → ℕ → ℕ
left taken num = num - 1
left _ num = num

abbrev ReaderAt : ℕ → Reader → Type 0
ReaderAt num waiting = Unit {0}
ReaderAt num seen = 0 < num
ReaderAt num taken = 0 < num

left_le : (r : Reader) (num : ℕ) → left r num ≤ num
left_le taken num = omega arith
left_le _ num = omega arith

left_count : (r : Reader) (num : ℕ) → ReaderAt num r → left r (num + 1) ≡ suc (left r num)
left_count waiting num h = omega arith
left_count seen num h = omega arith
left_count taken num h = omega arith

ReaderAt-count : (r : Reader) (num : ℕ) → ReaderAt num r → ReaderAt (num + 1) r
ReaderAt-count waiting num h = h
ReaderAt-count seen num h = omega arith
ReaderAt-count taken num h = omega arith

shift : (size rd n : ℕ) → 0 < n → ((rd + 1) % size + (n - 1)) % size ≡ (rd + n) % size
shift size rd n more = rw mod-add-mod (ap (λ k. k % size) (omega arith))

shift_suc : (size rd n : ℕ) → 0 < n → ((rd + 1) % size + suc (n - 1)) % size ≡ (rd + suc n) % size
shift_suc size rd n more = rw mod-add-mod (ap (λ k. k % size) (omega arith))

module _ {T : Type 0} where
  pub data Step (s : System T) : System T → Type 0 where
    -- `*getNextToWriteTo() = x`, where the program keeps fewer than `size` messages in flight.
    fill :
        (x : T)
        → s.writer ≡ idle
        → s.queue.num_elements < s.queue.size
        → Step s (record s { queue = write_next s.queue x; writer = filled x })
    -- `next_write_index_ = (next_write_index_ + 1) % store_.size()`
    move :
        (x : T)
        → s.writer ≡ filled x
        → Step s (record s {
          queue = record (s.queue) {
            next_write_index = (s.queue.next_write_index + 1) % s.queue.size;
          };
          writer = moved x;
        })
    -- `num_elements_++`
    count :
        (x : T)
        → s.writer ≡ moved x
        → Step s (record s {
          queue = record (s.queue) { num_elements = s.queue.num_elements + 1 };
          writer = idle;
          sent = s.sent ++ x ∷ [];
        })
    -- `getNextToRead()` finds the count above 0.
    see : s.reader ≡ waiting → 0 < s.queue.num_elements → Step s (record s { reader = seen })
    -- The message is used, and `next_read_index_` moves on.
    take :
        s.reader ≡ seen
        → Step s (record s {
          queue = record (s.queue) {
            next_read_index = (s.queue.next_read_index + 1) % s.queue.size;
          };
          reader = taken;
          received = s.received ++ s.queue.store s.queue.next_read_index ∷ [];
        })
    -- `num_elements_--`
    drop :
        s.reader ≡ taken
        → Step s (record s {
          queue = record (s.queue) { num_elements = s.queue.num_elements - 1 };
          reader = waiting;
        })

  pub data Reach (s : System T) : System T → Type 0 where
    here : Reach s s
    next : {t u : System T} → Reach s t → Step t u → Reach s u

  unfoldable pub start : T → ℕ → System T
  unfolding lf_queue
  start default size = record {
    queue = lf_queue default size;
    writer = idle;
    reader = waiting;
    sent = [];
    received = [];
  }

  -- The messages in the ring that the reader has not taken.
  abbrev pub in_flight : System T → ℕ
  in_flight s = left s.reader s.queue.num_elements

  module _ (store : ℕ → T) (size rd wr n : ℕ) where
    abbrev WriterAt : Writer T → Type 0
    WriterAt idle = wr ≡ (rd + n) % size
    WriterAt (filled x) = (wr ≡ (rd + n) % size) × (n < size) × (store ((rd + n) % size) ≡ x)
    WriterAt (moved x) = (wr ≡ (rd + suc n) % size) × (n < size) × (store ((rd + n) % size) ≡ x)

    -- The ring while `n` messages are in it, seen from both threads.
    record IsRing (w : Writer T) (sent received : List T) : Type 0 where
      read_in : rd < size
      fits : n ≤ size
      writer_at : WriterAt w
      order : sent ≡ received ++ slots store size rd n

  module _ (store : ℕ → T) (size rd wr n : ℕ) where
    -- The writer's place is the same when the reader takes a message out.
    WriterAt-take :
        (w : Writer T)
        → 0 < n
        → WriterAt store size rd wr n w
        → WriterAt store size ((rd + 1) % size) wr (n - 1) w
    WriterAt-take idle more v = v ∙ sym (shift size rd n more)
    WriterAt-take (filled x) more v =
        (v.0 ∙ sym (shift size rd n more), omega arith, rw (shift size rd n more) v.2)
    WriterAt-take (moved x) more v =
        (v.0 ∙ sym (shift_suc size rd n more), omega arith, rw (shift size rd n more) v.2)

    slots_of_pos :
        0 < n → slots store size rd n ≡ store rd ∷ slots store size ((rd + 1) % size) (n - 1)
    slots_of_pos = slots_of_pos' n
      where
        slots_of_pos' :
            (k : ℕ)
            → 0 < k
            → slots store size rd k ≡ store rd ∷ slots store size ((rd + 1) % size) (k - 1)
        slots_of_pos' zero h = absurd (omega arith)
        slots_of_pos' (suc k) h =
            ap (λ m. store rd ∷ slots store size ((rd + 1) % size) m) (omega arith)

  module _ {store : ℕ → T} {size rd wr n : ℕ} {sent received : List T} where
    IsRing-fill :
        (x : T)
        → n < size
        → IsRing store size rd wr n idle sent received
        → IsRing (update store wr x) size rd wr n (filled x) sent received
    IsRing-fill x room v = record {
      read_in = v.read_in;
      fits = v.fits;
      writer_at = (v.writer_at, room, rw (← v.writer_at, ==_refl));
      order = rw (slots-update store size x n rd wr v.read_in room v.writer_at) v.order;
    }

    IsRing-move :
        {x : T}
        → IsRing store size rd wr n (filled x) sent received
        → IsRing store size rd ((wr + 1) % size) n (moved x) sent received
    IsRing-move v = record {
      read_in = v.read_in;
      fits = v.fits;
      writer_at = (
        rw (v.writer_at.0, mod-add-mod) (ap (λ k. k % size) (omega arith)),
        v.writer_at.1,
        v.writer_at.2,
      );
      order = v.order;
    }

    IsRing-count :
        {x : T}
        → IsRing store size rd wr n (moved x) sent received
        → IsRing store size rd wr (suc n) idle (sent ++ x ∷ []) received
    IsRing-count {x} v = record {
      read_in = v.read_in;
      fits = v.writer_at.1;
      writer_at = v.writer_at.0;
      order = rw (slots-suc store size n rd v.read_in, v.writer_at.2, v.order, append_assoc) refl;
    }

    IsRing-take :
        {w : Writer T}
        → 0 < n
        → IsRing store size rd wr n w sent received
        → IsRing store size ((rd + 1) % size) wr (n - 1) w sent (received ++ store rd ∷ [])
    IsRing-take {w} more v = record {
      read_in = mod-in size (rd + 1) (omega arith);
      fits = omega arith;
      writer_at = WriterAt-take store size rd wr n w more v.writer_at;
      order = rw (append_assoc, v.order, slots_of_pos store size rd wr n more) refl;
    }

  length-slots : (store : ℕ → T) (size rd n : ℕ) → length (slots store size rd n) ≡ n
  length-slots store size rd zero = refl
  length-slots store size rd (suc n) = ap suc (length-slots store size ((rd + 1) % size) n)

  -- What holds between any two accesses of either thread.
  record IsSafe (s : System T) : Type 0 where
    ring :
        IsRing s.queue.store s.queue.size s.queue.next_read_index s.queue.next_write_index
          (in_flight s)
          s.writer
          s.sent
          s.received
    reader_at : ReaderAt s.queue.num_elements s.reader

  Step-IsSafe : {s t : System T} → Step s t → IsSafe s → IsSafe t
  unfolding write_next
  Step-IsSafe {s} (fill x e room) v = record {
    ring = IsRing-fill x (omega (arith, left_le s.reader s.queue.num_elements)) (rw e at (v.ring));
    reader_at = v.reader_at;
  }
  Step-IsSafe {s} (move x e) v = record {
    ring = IsRing-move (rw e at (v.ring));
    reader_at = v.reader_at;
  }
  Step-IsSafe {s} (count x e) v = record {
    ring =
        rw (left_count s.reader s.queue.num_elements v.reader_at) (IsRing-count (rw e at (v.ring)));
    reader_at = ReaderAt-count s.reader s.queue.num_elements v.reader_at;
  }
  Step-IsSafe {s} (see e more) v = record { ring = rw e at (v.ring); reader_at = more }
  Step-IsSafe {s} (take e) v =
      let more : 0 < s.queue.num_elements = rw e at (v.reader_at) in
      record { ring = IsRing-take more (rw e at (v.ring)); reader_at = more }
  Step-IsSafe {s} (drop e) v = record { ring = rw e at (v.ring); reader_at = tt }

  start-IsSafe : (default : T) (size : ℕ) → 0 < size → IsSafe (start default size)
  unfolding start
  start-IsSafe default size h = record {
    ring = record { read_in = h; fits = omega arith; writer_at = omega arith; order = refl };
    reader_at = tt;
  }

  Reach-IsSafe : {s t : System T} → IsSafe s → Reach s t → IsSafe t
  Reach-IsSafe v here = v
  Reach-IsSafe v (next r st) = Step-IsSafe st (Reach-IsSafe v r)

  -- However the steps of the two threads are interleaved, as long as a writer fills a slot only while the count is below the size, the reader has taken the messages that were counted in, in the order in which they were sent, and the rest of them, as many as are in flight, are still to come.
  pub received-sent :
      (default : T) (size : ℕ) {s : System T}
      → 0 < size
      → Reach (start default size) s
      → (rest : List T) × (s.sent ≡ s.received ++ rest) × (length rest ≡ in_flight s)
  received-sent default size {s} h r =
      let v = Reach-IsSafe (start-IsSafe default size h) r in
      (
        slots s.queue.store s.queue.size s.queue.next_read_index (in_flight s),
        v.ring.order,
        length-slots s.queue.store s.queue.size s.queue.next_read_index (in_flight s),
      )

  -- In every reachable state where the reader is about to count a message off, the count is above 0: the assertion of `updateReadIndex` does not fail.
  pub drop-assert :
      (default : T) (size : ℕ) {s : System T}
      → 0 < size
      → Reach (start default size) s
      → s.reader ≡ taken
      → 0 < s.queue.num_elements
  drop-assert default size {s} h r e =
      rw e at ((Reach-IsSafe (start-IsSafe default size h) r).reader_at)
