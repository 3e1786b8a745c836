-- ===== src/Trading/OrderGateway/EndToEnd.antt =====
-- trading/order_gw/order_gateway.cpp against exchange/order_server/order_server.h: responses on their
-- way from the order server through the gateway.
use trading_ecosystem.Prelude.{
  ℕ, ◌+◌, ◌≤◌, ◌≡◌, refl, sym, ap, ◌∙◌, ◌≢◌, ◌⊎◌, inl, inr, some, List, [], ◌∷◌, ◌++◌, map, arith,
  ◌==◌, if◌then◌else◌, ==_iff, Bool-cases, length, All, ok,
}
use trading_ecosystem.Exchange.Messages.{MeClientResponse}
use trading_ecosystem.Exchange.OrderServer.{OrderServer, Sent, send_loop}
use trading_ecosystem.Exchange.OrderServer.Send.{
  NumberedTo, IsConnected, IsAddressed, send_loop-NumberedTo,
}
use trading_ecosystem.Common.LfQueue.{LfQueue, push}
use trading_ecosystem.Common.LfQueue.Fifo.{IsValid, unread}
use trading_ecosystem.Common.LfQueue.Writes.{push_list, push_list-unread}
use trading_ecosystem.Trading.OrderGateway.{
  OmClientResponse, OrderGateway, on_response, recv_callback,
}

-- What a socket carries of what the exchange sends, if the connection loses nothing.
abbrev pub carried : ℕ → List Sent → List OmClientResponse
carried socket [] = []
carried socket (o ∷ os) =
    let rest = carried socket os in
    if o.socket == socket
    then (record { seq_num = o.seq_num; me_client_response = o.me_client_response }) ∷ rest
    else rest

-- The responses for client `c`.
abbrev pub responses_for : ℕ → List MeClientResponse → List MeClientResponse
responses_for c [] = []
responses_for c (r ∷ rs) = if r.client_id == c then r ∷ responses_for c rs else responses_for c rs

length-responses_for :
    (c : ℕ) (rs : List MeClientResponse) → length (responses_for c rs) ≤ length rs
length-responses_for c [] = omega arith
length-responses_for c (r ∷ rs) = ground (arith, length-responses_for c rs)

on_response_expected :
    (r : OmClientResponse) (g : OrderGateway)
    → r.me_client_response.client_id ≡ g.client_id
    → r.seq_num ≡ g.next_exp_seq_num
    → on_response r g ≡ record g {
      next_exp_seq_num = g.next_exp_seq_num + 1;
      incoming_responses = push g.incoming_responses r.me_client_response;
    }
unfolding on_response
on_response_expected r g e e' = ground arith

-- The socket is the connection of client `c` and of no other.
pub record IsOwn (s : OrderServer) (c socket : ℕ) : Type 0 where
  pub own : s.cid_tcp_socket c ≡ some socket
  pub only : (c' : ℕ) → s.cid_tcp_socket c' ≡ some socket → c' ≡ c

-- Then what goes to the client is what goes to the socket.
IsOwn-== :
    (s : OrderServer) (c socket : ℕ) (o : Sent)
    → IsOwn s c socket
    → IsAddressed s o
    → (o.socket == socket) ≡ (o.me_client_response.client_id == c)
IsOwn-== s c socket o h addressed = elim (Bool-cases (o.me_client_response.client_id == c)) [
  | inl mine ↦
      let to_c : o.me_client_response.client_id ≡ c = (==_iff _ _).0 mine in
      let same : some socket ≡ some o.socket =
        sym h.own ∙ ap s.cid_tcp_socket (sym to_c) ∙ addressed in
      let hit : o.socket ≡ socket = cc in (==_iff o.socket socket).1 hit ∙ sym mine
  | inr other ↦ elim (Bool-cases (o.socket == socket)) [
    | inl hit ↦
        let at : o.socket ≡ socket = (==_iff _ _).0 hit in
        let to_c = h.only o.me_client_response.client_id (addressed ∙ ap (λ n. some n) at) in
        absurd (ground (arith, to_c))
    | inr miss ↦ miss ∙ sym other
  ]
]

-- The messages that a gateway finds on its own socket, numbered from the number that it expects, all reach the ring of the trade engine.
recv_callback-carried :
    (s : OrderServer) (socket : ℕ) (g : OrderGateway) (out : List Sent) (m : ℕ)
    → IsOwn s g.client_id socket
    → All (IsAddressed s) out
    → NumberedTo g.client_id g.next_exp_seq_num out m
    → recv_callback (carried socket out) g ≡ record g {
      next_exp_seq_num = m;
      incoming_responses =
          push_list
            (responses_for g.client_id (map (λ o. o.me_client_response) out))
            g.incoming_responses;
    }
unfolding recv_callback push_list
recv_callback-carried s socket g [] m own addressed e = ground arith
recv_callback-carried s socket g (o ∷ out) m own addressed h =
    let same = IsOwn-== s g.client_id socket o own addressed.0 in
    elim (Bool-cases (o.me_client_response.client_id == g.client_id)) [
      | inl mine ↦
          let (first, rest) = rw mine at h in
          let g' : OrderGateway = record g {
            next_exp_seq_num = g.next_exp_seq_num + 1;
            incoming_responses = push g.incoming_responses o.me_client_response;
          } in
          rw (same, mine)
            (ap (recv_callback (carried socket out)) (
                on_response_expected
                  (record { seq_num = o.seq_num; me_client_response = o.me_client_response }) g
                  ((==_iff _ _).0 mine) first)
              ∙ recv_callback-carried s socket g' out m own addressed.1 rest)
      | inr other ↦
          rw (same, other) (recv_callback-carried s socket g out m own addressed.1 (rw other at h))
    ]

-- A response with another number than the expected one, or for another client, changes nothing.
pub on_response_unexpected :
    (r : OmClientResponse) (g : OrderGateway)
    → (r.me_client_response.client_id ≢ g.client_id) ⊎ (r.seq_num ≢ g.next_exp_seq_num)
    → on_response r g ≡ g
unfolding on_response
on_response_unexpected r g h = ground arith

-- From the matching engine's queue to the trade engine's: when the order server sends all unread responses, for connected clients, and a gateway with a socket of its own and the number that the server uses next reads everything that was sent to that socket, with room for it in the ring of its trade engine, then the ring gets the unread responses of the gateway's client behind what it held, each once and in order, and the gateway expects the number that the server uses next.
pub send_loop-recv_callback :
    (q : LfQueue MeClientResponse) (s : OrderServer) (g : OrderGateway) (socket : ℕ)
    → IsValid q
    → All (IsConnected s) (unread q)
    → IsOwn s g.client_id socket
    → g.next_exp_seq_num ≡ s.cid_next_outgoing_seq_num g.client_id
    → IsValid g.incoming_responses
    → g.incoming_responses.num_elements + length (unread q) ≤ g.incoming_responses.size
    → (q' : LfQueue MeClientResponse) × (s' : OrderServer) × (out : List Sent) × (g' : OrderGateway)
      × (send_loop (length (unread q) + 1) q s ≡ ok (q', s'))
      × (s'.sent ≡ s.sent ++ out)
      × (recv_callback (carried socket out) g ≡ g')
      × (g'.next_exp_seq_num ≡ s'.cid_next_outgoing_seq_num g.client_id)
      × IsValid g'.incoming_responses
      × (unread g'.incoming_responses
          ≡ unread g.incoming_responses ++ responses_for g.client_id (unread q))
send_loop-recv_callback q s g socket v connected own agreed w room =
    let (q', s', out, ran, emptied, sent, all, addressed, numbered) =
      send_loop-NumberedTo q s v connected in
    let rs = responses_for g.client_id (map (λ o. o.me_client_response) out) in
    let mine : rs ≡ responses_for g.client_id (unread q) = ap (responses_for g.client_id) all in
    let fits : length rs ≤ length (unread q) =
      omega (arith, length-responses_for g.client_id (unread q), ap length mine) in
    let (w', e, n, z) = push_list-unread rs g.incoming_responses w (omega (arith, fits)) in
    (
      q',
      s',
      out,
      record g {
        next_exp_seq_num = s'.cid_next_outgoing_seq_num g.client_id;
        incoming_responses = push_list rs g.incoming_responses;
      },
      ran,
      sent,
      recv_callback-carried s socket g out (s'.cid_next_outgoing_seq_num g.client_id) own addressed
          (rw agreed (numbered g.client_id)),
      refl,
      w',
      e ∙ ap (λ l. unread g.incoming_responses ++ l) mine,
    )
