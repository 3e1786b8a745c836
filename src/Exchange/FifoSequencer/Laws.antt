-- ===== src/Exchange/FifoSequencer/Laws.antt =====
-- What the sequencer hands to the matching engine.
use mathlib.Core.List.{Perm, append_assoc, append-nil}
use mathlib.Core.List.Perm
use trading_ecosystem.Prelude.{
  ℕ, ◌+◌, ◌≤◌, ◌<◌, ◌≡◌, refl, ◌∙◌, inl, inr, List, [], ◌∷◌, ◌++◌, map, arith, ◌==◌, Bool-cases,
  length, length-Perm, nil_of_length, assertion, ok, failed,
}
use trading_ecosystem.Common.LfQueue.{LfQueue, push}
use trading_ecosystem.Common.LfQueue.Fifo.{IsValid, unread, push-append}
use trading_ecosystem.Exchange.Messages.{MeClientRequest}
use trading_ecosystem.Exchange.FifoSequencer.{
  RecvTimeClientRequest, IsOrdered, Sorting, FifoSequencer, me_max_pending_requests,
  add_client_request, publish, sequence_and_publish,
}

abbrev pub requests : List RecvTimeClientRequest → List MeClientRequest
requests rs = map (λ r. r.request) rs

num-push :
    (q : LfQueue MeClientRequest) (x : MeClientRequest)
    → ((push q x).num_elements ≡ q.num_elements + 1) × ((push q x).size ≡ q.size)
unfolding push
num-push q x = (refl, refl)

publish-append :
    (rs : List RecvTimeClientRequest) (q : LfQueue MeClientRequest)
    → IsValid q
    → q.num_elements + length rs ≤ q.size
    → IsValid (publish rs q) × (unread (publish rs q) ≡ unread q ++ requests rs)
unfolding publish
publish-append [] q v room = (v, rw append-nil)
publish-append (r ∷ rs) q v room =
    let (v', e) = push-append q r.request v (omega arith) in
    let (v'', e') =
      publish-append rs (push q r.request) v'
        (omega (arith, (num-push q r.request).0, (num-push q r.request).1)) in
    (v'', e' ∙ rw (e, append_assoc) refl)

-- With room in the queue for what is pending, `sequenceAndPublish` appends to the unread requests a permutation of the pending ones that is ordered by receive time, and leaves nothing pending.
pub sequence_and_publish-IsOrdered :
    (std : Sorting) (f : FifoSequencer)
    → IsValid f.incoming_requests
    → f.incoming_requests.num_elements + length f.pending ≤ f.incoming_requests.size
    → (rs : List RecvTimeClientRequest) × Perm rs f.pending
      × IsOrdered rs
      × IsValid (sequence_and_publish std f).incoming_requests
      × (unread (sequence_and_publish std f).incoming_requests
          ≡ unread f.incoming_requests ++ requests rs)
      × ((sequence_and_publish std f).pending ≡ [])
unfolding sequence_and_publish
sequence_and_publish-IsOrdered std f v room = elim (Bool-cases (length f.pending == 0)) [
  | inl none_pending ↦
      let empty = nil_of_length f.pending (ground arith) in
      (
        [],
        rw empty (Perm.refl []),
        tt,
        rw none_pending v,
        rw none_pending (rw append-nil),
        rw none_pending empty,
      )
  | inr some_pending ↦
      let sorted = std.sort f.pending in
      let (v', e) =
        publish-append sorted f.incoming_requests v
          (omega (arith, length-Perm (std.sort-perm f.pending))) in
      (
        sorted,
        std.sort-perm f.pending,
        std.sort-IsOrdered f.pending,
        rw some_pending v',
        rw some_pending e,
        rw some_pending refl,
      )
]

-- With the array of pending requests full, a further request stops the exchange.
pub add_client_request-full :
    (rx_time : ℕ) (r : MeClientRequest) (f : FifoSequencer)
    → me_max_pending_requests ≤ length f.pending
    → add_client_request rx_time r f ≡ failed assertion
unfolding add_client_request
add_client_request-full rx_time r f full = ground arith

-- With room in the array of pending requests, a request is put behind the others with its receive time.
pub add_client_request-append :
    (rx_time : ℕ) (r : MeClientRequest) (f : FifoSequencer)
    → length f.pending < me_max_pending_requests
    → add_client_request rx_time r f
      ≡ ok (record f { pending = f.pending ++ (record { recv_time = rx_time; request = r }) ∷ [] })
unfolding add_client_request
add_client_request-append rx_time r f room = ground arith
