-- ===== src/Exchange/FifoSequencer.antt =====
-- exchange/order_server/fifo_sequencer.h: requests are collected with their receive times, then
-- sorted by time and written to the queue of the matching engine. The first `pending_size_` elements
-- of the array are a list. `std::sort` promises an ordered permutation and no order between equal
-- times: it is an argument, with that promise.
pub mod Laws
use mathlib.Core.List.{Perm}
use trading_ecosystem.Prelude.{
  ℕ, zero, suc, ◌+◌, ◌-◌, ◌*◌, ◌/◌, ◌%◌, ◌^◌, ◌≤◌, ◌<◌, min, ◌≡◌, refl, sym, ap, ◌∙◌, ◌≢◌, ◌↔◌, ◌⊎◌,
  inl, inr, Bool, true, false, not, ◌&&◌, ◌||◌, Option, none, some, List, [], ◌∷◌, ◌++◌, map, arith,
  ltb, leb, ◌==◌, if◌then◌else◌, ==_iff, ==_refl, Bool-cases, Option-cases, length, length-append,
  update, All, All-append, Fault, assertion, null_pointer, out_of_range, out_of_fuel, Outcome, ok,
  failed, ◌>>=◌, ◌>>◌, assert, in_range, deref, >>=-eq-ok,
}
use trading_ecosystem.Common.LfQueue.{LfQueue, push}
use trading_ecosystem.Exchange.Messages.{MeClientRequest}

abbrev pub me_max_pending_requests : ℕ
me_max_pending_requests = 1024

pub record RecvTimeClientRequest : Type 0 where
  pub recv_time : ℕ
  pub request : MeClientRequest

-- No request stands before one that was received earlier.
abbrev pub IsOrdered : List RecvTimeClientRequest → Type 0
IsOrdered [] = Unit {0}
IsOrdered (r ∷ rs) = All (λ s. r.recv_time ≤ s.recv_time) rs × IsOrdered rs

-- `std::sort` over `operator<` on receive times
pub record Sorting : Type 0 where
  pub sort : List RecvTimeClientRequest → List RecvTimeClientRequest
  pub sort-perm : (rs : List RecvTimeClientRequest) → Perm (sort rs) rs
  pub sort-IsOrdered : (rs : List RecvTimeClientRequest) → IsOrdered (sort rs)

pub record FifoSequencer : Type 0 where
  pub pending : List RecvTimeClientRequest
  pub incoming_requests : LfQueue MeClientRequest

-- `addClientRequest`
unfoldable pub add_client_request : ℕ → MeClientRequest → FifoSequencer → Outcome FifoSequencer
add_client_request rx_time request f =
    if leb me_max_pending_requests (length f.pending)
    then failed assertion
    else (let r : RecvTimeClientRequest = record { recv_time = rx_time; request = request } in
        ok (record f { pending = f.pending ++ r ∷ [] }))

-- the loop of `sequenceAndPublish`
unfoldable pub publish :
    List RecvTimeClientRequest → LfQueue MeClientRequest → LfQueue MeClientRequest
publish [] q = q
publish (r ∷ rs) q = publish rs (push q r.request)

-- `sequenceAndPublish`
unfoldable pub sequence_and_publish : Sorting → FifoSequencer → FifoSequencer
unfolding publish
sequence_and_publish std f = if length f.pending == 0 then f else record {
  pending = [];
  incoming_requests = publish (std.sort f.pending) f.incoming_requests;
}
