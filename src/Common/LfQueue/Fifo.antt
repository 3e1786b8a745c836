-- ===== src/Common/LfQueue/Fifo.antt =====
-- A queue of common/lf_queue.h as a list of messages, oldest first.
use native.Mathlib.Nat.{mod-add-mod, mod-eq_of_lt, mod-eq-sub-mod, add-zero}
use native.Mathlib.Numerals.{add-one}
use native.Mathlib.Decide.{dec_lt}
use mathlib.Core.Path.{ap₂}
use trading_ecosystem.Prelude.{
  ℕ, zero, suc, ◌+◌, ◌-◌, ◌%◌, ◌≤◌, ◌<◌, ◌≡◌, refl, sym, ap, ◌∙◌, ◌≢◌, none, some, List, [], ◌∷◌,
  ◌++◌, arith, ==_refl, update, assertion, ok, failed,
}
use trading_ecosystem.Common.LfQueue.{LfQueue, lf_queue, get_next_to_read, update_read_index, push}

module _ {T : Type 0} where
  -- The `n` slots from index `i` on, going round at `size`.
  abbrev pub slots : (ℕ → T) → ℕ → ℕ → ℕ → List T
  slots store size i zero = []
  slots store size i (suc n) = store i ∷ slots store size ((i + 1) % size) n

  -- The messages that are written and not yet read.
  abbrev pub unread : LfQueue T → List T
  unread q = slots q.store q.size q.next_read_index q.num_elements

  pub record IsValid (q : LfQueue T) : Type 0 where
    pub read_in : q.next_read_index < q.size
    pub fits : q.num_elements ≤ q.size
    pub write_at : q.next_write_index ≡ (q.next_read_index + q.num_elements) % q.size

pub next-mod : (size i n : ℕ) → ((i + 1) % size + n) % size ≡ (i + suc n) % size
next-mod size i n = rw mod-add-mod (ap (λ k. k % size) (omega arith))

pub round-ne : (size i n : ℕ) → i < size → suc n < size → (i + suc n) % size ≢ i
round-ne size i n hi hn = elim (dec_lt (i + suc n) size) [
  | yes p ↦ omega (arith, mod-eq_of_lt p)
  | no p ↦ omega (
    arith,
    mod-eq-sub-mod {n = i + suc n} {m = size} (omega arith),
    mod-eq_of_lt {n = i + suc n - size} {m = size} (omega arith),
  )
]

pub mod-in : (size i : ℕ) → 0 < size → i % size < size
mod-in size i h = omega arith

slots-nil : {T : Type 0} (store : ℕ → T) (size i n : ℕ) → slots store size i n ≡ [] → n ≡ 0
slots-nil store size i zero e = refl
slots-nil store size i (suc n) e = cc

suc-sub-one : (n : ℕ) → suc n - 1 ≡ n
suc-sub-one n = omega arith

module _ {T : Type 0} where
  -- A write behind a run of slots that do not fill the ring leaves the run as it is.
  pub slots-update :
      (store : ℕ → T) (size : ℕ) (x : T) (n i k : ℕ)
      → i < size
      → n < size
      → k ≡ (i + n) % size
      → slots (update store k x) size i n ≡ slots store size i n
  slots-update store size x zero i k hi hn e = refl
  slots-update store size x (suc n) i k hi hn e = ap₂ ◌∷◌ (ground (arith, round-ne size i n)) (
      slots-update store size x n ((i + 1) % size) k (omega arith) (omega arith)
        (e ∙ sym (next-mod size i n)))

  -- A run of slots that shows a message starts with it.
  pub slots-cons :
      (store : ℕ → T) (size i n : ℕ) (x : T) (rest : List T)
      → slots store size i n ≡ x ∷ rest
      → (0 < n) × (store i ≡ x) × (slots store size ((i + 1) % size) (n - 1) ≡ rest)
  slots-cons store size i zero x rest e = cc
  slots-cons store size i (suc n) x rest e =
      (omega arith, ground arith, rw (suc-sub-one n) (ground arith))

  -- One more slot is one more message at the end.
  pub slots-suc :
      (store : ℕ → T) (size n i : ℕ)
      → i < size
      → slots store size i (suc n) ≡ slots store size i n ++ store ((i + n) % size) ∷ []
  slots-suc store size zero i hi = rw (add-zero, mod-eq_of_lt hi)
  slots-suc store size (suc n) i hi =
      ap (λ l. store i ∷ l)
        (slots-suc store size n ((i + 1) % size) (omega arith) ∙ rw (next-mod size i n))

  pub lf_queue-IsValid :
      (default : T) (size : ℕ)
      → 0 < size
      → IsValid (lf_queue default size) × (unread (lf_queue default size) ≡ [])
  unfolding lf_queue
  lf_queue-IsValid default size h =
      (record { read_in = h; fits = omega arith; write_at = omega arith }, refl)

  -- While there is room, writing a message appends it to what is unread, and the queue stays valid.
  pub push-append :
      (q : LfQueue T) (x : T)
      → IsValid q
      → q.num_elements < q.size
      → IsValid (push q x) × (unread (push q x) ≡ unread q ++ x ∷ [])
  unfolding push
  push-append q x v room = (
    record {
      read_in = v.read_in;
      fits = omega arith;
      write_at = rw (v.write_at, mod-add-mod) (ap (λ k. k % q.size) (omega arith));
    },
    grown,
  )
    where
      at_end : q.next_write_index < q.size
      at_end = omega (arith, v.write_at, mod-in q.size (q.next_read_index + q.num_elements))

      kept :
          slots (update q.store q.next_write_index x) q.size q.next_read_index q.num_elements
          ≡ unread q
      kept =
          slots-update q.store q.size x q.num_elements q.next_read_index q.next_write_index
            v.read_in room v.write_at

      grown :
          slots (update q.store q.next_write_index x) q.size q.next_read_index (q.num_elements + 1)
          ≡ unread q ++ x ∷ []
      grown = rw (
        add-one,
        slots-suc (update q.store q.next_write_index x) q.size q.num_elements q.next_read_index
            v.read_in,
        kept,
        ← v.write_at,
        ==_refl,
      )

  -- In a valid queue that is not empty, `getNextToRead` shows the oldest unread message, and `updateReadIndex` drops that message and no other and leaves the queue valid.
  pub read-cons :
      (q : LfQueue T)
      → IsValid q
      → (x : T) (rest : List T) → unread q ≡ x ∷ rest
      → (get_next_to_read q ≡ some x)
        × ((q' : LfQueue T) × (update_read_index q ≡ ok q') × IsValid q' × (unread q' ≡ rest))
  unfolding get_next_to_read update_read_index
  read-cons q v x rest e =
      let (more, shown, left) =
        slots-cons q.store q.size q.next_read_index q.num_elements x rest e in
      (
        ground arith,
        (
          record q {
            next_read_index = (q.next_read_index + 1) % q.size;
            num_elements = q.num_elements - 1;
          },
          ground arith,
          record {
            read_in = omega arith;
            fits = omega arith;
            write_at = rw mod-add-mod (v.write_at ∙ ap (λ k. k % q.size) (omega arith));
          },
          left,
        ),
      )

  -- On an empty queue `getNextToRead` returns null and `updateReadIndex` stops the process.
  pub read-nil :
      (q : LfQueue T)
      → unread q ≡ []
      → (get_next_to_read q ≡ none) × (update_read_index q ≡ failed assertion)
  unfolding get_next_to_read update_read_index
  read-nil q e =
      let empty = slots-nil q.store q.size q.next_read_index q.num_elements e in ground arith

  -- After a write to a valid queue that is full, the next message to read is the one just written: it has taken the place of the oldest unread message.
  pub push-full :
      (q : LfQueue T) (x : T)
      → IsValid q
      → q.num_elements ≡ q.size
      → get_next_to_read (push q x) ≡ some x
  unfolding push get_next_to_read
  push-full q x v full = ground (
    arith,
    mod-eq-sub-mod {n = q.next_read_index + q.size} {m = q.size},
    mod-eq_of_lt {n = q.next_read_index} {m = q.size},
  )

module _ {T : Type 0} where
  -- A slot that has been read keeps its message until a writer fills it again.
  pub store-update_read_index :
      (q q' : LfQueue T) → update_read_index q ≡ ok q' → q'.store ≡ q.store
  unfolding update_read_index
  store-update_read_index q q' e = ground arith

  pub get_next_to_read-store :
      (q : LfQueue T) (x : T) → get_next_to_read q ≡ some x → q.store q.next_read_index ≡ x
  unfolding get_next_to_read
  get_next_to_read-store q x e = ground arith
