-- ===== src/Tests/Servers.antt =====
-- The order server, its sequencer, the matching engine's queues and the order gateway at small inputs.
use mathlib.Core.List.Perm as Perms
use mathlib.Core.List.{Perm, Sublistᴰ}
use trading_ecosystem.Prelude.{
  inl, ℕ, ◌+◌, ◌≤◌, ◌≡◌, refl, inl, inr, some, List, [], ◌∷◌, ◌++◌, arith, leb, ◌==◌, if◌then◌else◌,
  Bool-cases, All, ok,
}
use trading_ecosystem.Prelude.Int.{pos}
use trading_ecosystem.Common.Types.{buy, sell}
use trading_ecosystem.Common.LfQueue.{LfQueue}
use trading_ecosystem.Common.LfQueue.Fifo.{unread, IsValid}
use trading_ecosystem.Exchange.Messages.{
  ClientRequestType, ClientResponseType, MeClientRequest, MeClientResponse, OmClientRequest,
}
use trading_ecosystem.Exchange.FifoSequencer.{
  RecvTimeClientRequest, IsOrdered, Sorting, FifoSequencer, sequence_and_publish,
}
use trading_ecosystem.Exchange.FifoSequencer.Laws.{requests, sequence_and_publish-IsOrdered}
use trading_ecosystem.Exchange.OrderServer.{
  OrderServer, Sent, order_server, on_request, recv_callback, send_loop,
}
use trading_ecosystem.Exchange.OrderServer.Admission.{recv_callback-IsInOrder}
use trading_ecosystem.Exchange.OrderServer.Receive.{
  pending, me_requests, Numbered, recv_callback-Numbered,
}
use trading_ecosystem.Exchange.OrderServer.Send.{
  IsConnected, IsAddressed, NumberedTo, responses, send_loop-NumberedTo,
}
use trading_ecosystem.Trading.OrderGateway as Gateway
use trading_ecosystem.Trading.OrderGateway.{OrderGateway, order_gateway}
use trading_ecosystem.Trading.OrderGateway.EndToEnd.{carried, IsOwn, send_loop-recv_callback}

abbrev request : ℕ → ℕ → MeClientRequest
request client_id order_id = record {
  kind = ClientRequestType.new;
  client_id = client_id;
  ticker_id = 0;
  order_id = order_id;
  side = buy;
  price = pos 100;
  qty = 5;
}

abbrev request_queue : LfQueue MeClientRequest
request_queue = record {
  size = 4;
  store = λ _. request 0 0;
  next_write_index = 0;
  next_read_index = 0;
  num_elements = 0;
}

-- Insertion by receive time.
insert : RecvTimeClientRequest → List RecvTimeClientRequest → List RecvTimeClientRequest
insert r [] = r ∷ []
insert r (q ∷ qs) = if leb r.recv_time q.recv_time then r ∷ q ∷ qs else q ∷ insert r qs

sort : List RecvTimeClientRequest → List RecvTimeClientRequest
sort [] = []
sort (r ∷ rs) = insert r (sort rs)

abbrev message : ℕ → ℕ → OmClientRequest
message n order_id = record { seq_num = n; me_client_request = request 3 order_id }

abbrev server : OrderServer
server = order_server request_queue

abbrev messages : List OmClientRequest
messages = message 1 10 ∷ message 1 11 ∷ message 2 12 ∷ []

recv_callback-Numbered_example :
    (s' : OrderServer) × (recv_callback 5 77 messages server ≡ ok s')
    × ((passed : List OmClientRequest) × Sublistᴰ passed messages
        × (pending s' ≡ pending server ++ me_requests passed)
        × ((c : ℕ) → Numbered c (server.cid_next_exp_seq_num c) passed (s'.cid_next_exp_seq_num c)))
unfolding order_server
recv_callback-Numbered_example =
    recv_callback-Numbered 5 77 messages server (omega arith, (omega arith, (omega arith, tt)))
      (ground arith)

handled : (s' : OrderServer) × (on_request 5 77 (message 1 10) server ≡ ok s')
unfolding on_request order_server
handled = (_, refl)

abbrev response_to : ℕ → ℕ → MeClientResponse
response_to client_id order_id = record {
  kind = ClientResponseType.accepted;
  client_id = client_id;
  ticker_id = 0;
  client_order_id = order_id;
  market_order_id = 1;
  side = sell;
  price = pos 100;
  exec_qty = 0;
  leaves_qty = 5;
}

-- Responses for clients 3, 4 and 3 again.
abbrev response_queue : LfQueue MeClientResponse
response_queue = record {
  size = 4;
  store = λ i. if i == 1 then response_to 4 i else response_to 3 i;
  next_write_index = 3;
  next_read_index = 0;
  num_elements = 3;
}

abbrev connected : OrderServer
connected = record {
  cid_next_outgoing_seq_num = λ _. 8;
  cid_next_exp_seq_num = λ _. 1;
  cid_tcp_socket = λ c. some (c + 20);
  fifo_sequencer = record { pending = []; incoming_requests = request_queue };
  sent = [];
}

response_queue-IsValid : IsValid response_queue
response_queue-IsValid = record { read_in = omega arith; fits = omega arith; write_at = refl }

connected-All : All (IsConnected connected) (unread response_queue)
connected-All =
    ((omega arith, (23, refl)), ((omega arith, (24, refl)), ((omega arith, (23, refl)), tt)))

send_loop-NumberedTo_example :
    (q' : LfQueue MeClientResponse) × (s' : OrderServer) × (out : List Sent) × (send_loop 4
        response_queue connected
      ≡ ok (q', s'))
    × (unread q' ≡ [])
    × (s'.sent ≡ connected.sent ++ out)
    × (responses out ≡ unread response_queue)
    × All (IsAddressed connected) out
    × ((c : ℕ)
        → NumberedTo c (connected.cid_next_outgoing_seq_num c) out (s'.cid_next_outgoing_seq_num c))
send_loop-NumberedTo_example =
    send_loop-NumberedTo response_queue connected response_queue-IsValid connected-All

-- The ring of the trade engine has one response that is not yet read.
abbrev engine_queue : LfQueue MeClientResponse
engine_queue = record {
  size = 4;
  store = λ i. response_to 3 9;
  next_write_index = 1;
  next_read_index = 0;
  num_elements = 1;
}

abbrev gateway : OrderGateway
gateway = record (order_gateway 3 engine_queue) { next_exp_seq_num = 8 }

connected-IsOwn : IsOwn connected 3 23
connected-IsOwn = record { own = refl; only = λ c e. ground arith }

send_loop-recv_callback_example :
    (q' : LfQueue MeClientResponse) × (s' : OrderServer) × (out : List Sent) × (g' : OrderGateway)
    × (send_loop 4 response_queue connected ≡ ok (q', s'))
    × (s'.sent ≡ connected.sent ++ out)
    × (Gateway.recv_callback (carried 23 out) gateway ≡ g')
    × (g'.next_exp_seq_num ≡ s'.cid_next_outgoing_seq_num 3)
    × IsValid g'.incoming_responses
    × (unread g'.incoming_responses ≡ response_to 3 9 ∷ response_to 3 0 ∷ response_to 3 2 ∷ [])
send_loop-recv_callback_example =
    send_loop-recv_callback response_queue connected gateway 23 response_queue-IsValid connected-All
      connected-IsOwn refl (record { read_in = omega arith; fits = omega arith; write_at = refl })
      (omega arith)

abbrev sent_two : List Sent
sent_two =
    record { socket = 23; seq_num = 8; me_client_response = response_to 3 0 }
    ∷ record { socket = 24; seq_num = 8; me_client_response = response_to 4 1 }
    ∷ record { socket = 23; seq_num = 9; me_client_response = response_to 3 2 }
    ∷ []

insert-Perm :
    (r : RecvTimeClientRequest) (qs : List RecvTimeClientRequest) → Perm (insert r qs) (r ∷ qs)
unfolding insert
insert-Perm r [] = Perms.refl (r ∷ [])
insert-Perm r (q ∷ qs) = elim (Bool-cases (leb r.recv_time q.recv_time)) [
  | inl e ↦ rw e (Perms.refl (r ∷ q ∷ qs))
  | inr e ↦ rw e (Perms.trans (Perms.cons q (insert-Perm r qs)) (Perms.swap r q qs))
]

sort-Perm : (rs : List RecvTimeClientRequest) → Perm (sort rs) rs
unfolding sort
sort-Perm [] = Perms.refl []
sort-Perm (r ∷ rs) = Perms.trans (insert-Perm r (sort rs)) (Perms.cons r (sort-Perm rs))

All-later :
    (m n : ℕ) (qs : List RecvTimeClientRequest)
    → m ≤ n
    → All (λ q. n ≤ q.recv_time) qs
    → All (λ q. m ≤ q.recv_time) qs
All-later m n [] l h = tt
All-later m n (q ∷ qs) l h = (omega (arith, h.0), All-later m n qs l h.1)

All-insert :
    (n : ℕ) (r : RecvTimeClientRequest) (qs : List RecvTimeClientRequest)
    → n ≤ r.recv_time
    → All (λ q. n ≤ q.recv_time) qs
    → All (λ q. n ≤ q.recv_time) (insert r qs)
unfolding insert
All-insert n r [] l h = (l, tt)
All-insert n r (q ∷ qs) l h = elim (Bool-cases (leb r.recv_time q.recv_time)) [
  | inl e ↦ rw e (l, h)
  | inr e ↦ rw e (h.0, All-insert n r qs l h.1)
]

insert-IsOrdered :
    (r : RecvTimeClientRequest) (qs : List RecvTimeClientRequest)
    → IsOrdered qs
    → IsOrdered (insert r qs)
unfolding insert
insert-IsOrdered r [] h = (tt, tt)
insert-IsOrdered r (q ∷ qs) h = elim (Bool-cases (leb r.recv_time q.recv_time)) [
  | inl e ↦ rw e ((ground arith, All-later r.recv_time q.recv_time qs (ground arith) h.0), h)
  | inr e ↦ rw e (All-insert q.recv_time r qs (ground arith) h.0, insert-IsOrdered r qs h.1)
]

sort-IsOrdered : (rs : List RecvTimeClientRequest) → IsOrdered (sort rs)
unfolding sort
sort-IsOrdered [] = tt
sort-IsOrdered (r ∷ rs) = insert-IsOrdered r (sort rs) (sort-IsOrdered rs)

abbrev insertion_sort : Sorting
insertion_sort = record { sort = sort; sort-perm = sort-Perm; sort-IsOrdered = sort-IsOrdered }

abbrev sequencer : FifoSequencer
sequencer = record {
  pending =
      record { recv_time = 9; request = request 1 1 }
      ∷ record { recv_time = 4; request = request 2 1 }
      ∷ [];
  incoming_requests = request_queue;
}

sequence_and_publish-IsOrdered_example :
    (rs : List RecvTimeClientRequest) × Perm rs sequencer.pending
    × IsOrdered rs
    × IsValid (sequence_and_publish insertion_sort sequencer).incoming_requests
    × (unread (sequence_and_publish insertion_sort sequencer).incoming_requests ≡ requests rs)
    × ((sequence_and_publish insertion_sort sequencer).pending ≡ [])
sequence_and_publish-IsOrdered_example =
    sequence_and_publish-IsOrdered insertion_sort sequencer
      (record { read_in = omega arith; fits = omega arith; write_at = refl }) (ground arith)

abbrev in_order : List OmClientRequest
in_order = message 1 10 ∷ message 2 11 ∷ []

recv_callback-IsInOrder_example :
    (s' : OrderServer) × (recv_callback 5 77 in_order server ≡ ok s')
    × (pending s' ≡ pending server ++ request 3 10 ∷ request 3 11 ∷ [])
    × (s'.cid_next_exp_seq_num 3 ≡ server.cid_next_exp_seq_num 3 + 2)
unfolding order_server
recv_callback-IsInOrder_example =
    recv_callback-IsInOrder 5 77 3 in_order server (omega arith) (inl refl)
      (refl, refl, (refl, refl, tt)) (ground arith)
