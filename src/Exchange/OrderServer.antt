-- ===== src/Exchange/OrderServer.antt =====
-- exchange/order_server/order_server.h: requests from the clients' connections, checked for their
-- connection and sequence number, go to the sequencer; responses go out with sequence numbers.
-- A socket is a number, and what is sent on one is collected in `sent`. The subscript of an
-- `std::array` by a client id is not checked in the source; a read or write past the end, which has no
-- defined meaning, is the fault `out_of_range` here.
pub mod Receive
pub mod Admission
pub mod Send
use trading_ecosystem.Prelude.{
  ℕ, zero, suc, ◌+◌, ◌-◌, ◌*◌, ◌/◌, ◌%◌, ◌^◌, ◌≤◌, ◌<◌, min, ◌≡◌, refl, sym, ap, ◌∙◌, ◌≢◌, ◌↔◌, ◌⊎◌,
  inl, inr, Bool, true, false, not, ◌&&◌, ◌||◌, Option, none, some, List, [], ◌∷◌, ◌++◌, map, arith,
  ltb, leb, ◌==◌, if◌then◌else◌, ==_iff, ==_refl, Bool-cases, Option-cases, length, length-append,
  length-Perm, nil_of_length, update, All, All-append, Fault, assertion, null_pointer, out_of_range,
  out_of_fuel, Outcome, ok, failed, ◌>>=◌, ◌>>◌, assert, in_range, deref, >>=-eq-ok,
}
use trading_ecosystem.Common.Types.{me_max_num_clients}
use trading_ecosystem.Common.LfQueue.{LfQueue, get_next_to_read, update_read_index}
use trading_ecosystem.Exchange.Messages.{MeClientRequest, OmClientRequest, MeClientResponse}
use trading_ecosystem.Exchange.FifoSequencer.{
  FifoSequencer, Sorting, add_client_request, sequence_and_publish,
}

-- What goes out on a connection for one response: the sequence number, then the response.
pub record Sent : Type 0 where
  pub socket : ℕ
  pub seq_num : ℕ
  pub me_client_response : MeClientResponse

pub record OrderServer : Type 0 where
  pub cid_next_outgoing_seq_num : ℕ → ℕ
  pub cid_next_exp_seq_num : ℕ → ℕ
  pub cid_tcp_socket : ℕ → Option ℕ
  pub fifo_sequencer : FifoSequencer
  pub sent : List Sent

-- The constructor's settings.
unfoldable pub order_server : LfQueue MeClientRequest → OrderServer
order_server client_requests = record {
  cid_next_outgoing_seq_num = λ _. 1;
  cid_next_exp_seq_num = λ _. 1;
  cid_tcp_socket = λ _. none;
  fifo_sequencer = record { pending = []; incoming_requests = client_requests };
  sent = [];
}

-- The first message of a client fixes its connection.
abbrev pub claim_socket : ℕ → ℕ → OrderServer → OrderServer
claim_socket client_id socket s = elim (s.cid_tcp_socket client_id) [
  | none ↦ record s { cid_tcp_socket = update s.cid_tcp_socket client_id (some socket) }
  | some _ ↦ s
]

abbrev pub is_socket : Option ℕ → ℕ → Bool
is_socket none socket = false
is_socket (some s) socket = s == socket

-- The body of the loop of `recvCallback`. A message on another connection and one out of sequence are
-- logged and dropped.
unfoldable pub on_request : ℕ → ℕ → OmClientRequest → OrderServer → Outcome OrderServer
unfolding add_client_request
on_request socket rx_time request s0 = do
  let client_id = request.me_client_request.client_id
  in_range (ltb client_id me_max_num_clients)
  let s = claim_socket client_id socket s0
  if is_socket (s.cid_tcp_socket client_id) socket
        && request.seq_num == s.cid_next_exp_seq_num client_id
      then (do
        f ← add_client_request rx_time request.me_client_request s.fifo_sequencer
        ok (record s {
          cid_next_exp_seq_num =
              update s.cid_next_exp_seq_num client_id (s.cid_next_exp_seq_num client_id + 1);
          fifo_sequencer = f;
        }))
      else ok s

-- `recvCallback`, with the messages that stand in the receive buffer
unfoldable pub recv_callback : ℕ → ℕ → List OmClientRequest → OrderServer → Outcome OrderServer
recv_callback socket rx_time [] s = ok s
recv_callback socket rx_time (r ∷ rs) s =
    on_request socket rx_time r s >>= recv_callback socket rx_time rs

-- `recvFinishedCallback`
unfoldable pub recv_finished_callback : Sorting → OrderServer → OrderServer
unfolding sequence_and_publish
recv_finished_callback std s = record s {
  fifo_sequencer = sequence_and_publish std s.fifo_sequencer;
}

-- The body of the sending loop of `run`, for the response at the head of the queue.
unfoldable pub send_response : MeClientResponse → OrderServer → Outcome OrderServer
send_response r s = do
  in_range (ltb r.client_id me_max_num_clients)
  elim (s.cid_tcp_socket r.client_id) [
    | none ↦ failed assertion
    | some socket ↦
        let seq_num = s.cid_next_outgoing_seq_num r.client_id in
        let out : Sent = record { socket = socket; seq_num = seq_num; me_client_response = r } in
        ok (record s {
          cid_next_outgoing_seq_num = update s.cid_next_outgoing_seq_num r.client_id (seq_num + 1);
          sent = s.sent ++ out ∷ [];
        })
  ]

-- The sending loop of `run`: it empties the queue of responses.
unfoldable pub send_loop :
    ℕ → LfQueue MeClientResponse → OrderServer → Outcome (LfQueue MeClientResponse × OrderServer)
send_loop zero q s = failed out_of_fuel
send_loop (suc fuel) q s = elim (get_next_to_read q) [
  | none ↦ ok (q, s)
  | some r ↦ send_response r s >>= λ s. update_read_index q >>= λ q. send_loop fuel q s
]
