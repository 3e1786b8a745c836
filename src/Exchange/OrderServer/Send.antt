-- ===== src/Exchange/OrderServer/Send.antt =====
-- How the order server sends responses to the clients.
use mathlib.Core.List.{append_assoc, append-nil}
use trading_ecosystem.Prelude.{
  ℕ, zero, suc, ◌+◌, ◌<◌, ◌≡◌, refl, ap, ◌∙◌, inl, inr, none, some, List, [], ◌∷◌, ◌++◌, map, arith,
  ◌==◌, if◌then◌else◌, ==_iff, Bool-cases, length, update, All, assertion, Outcome, ok, failed,
}
use trading_ecosystem.Common.Types.{me_max_num_clients}
use trading_ecosystem.Common.LfQueue.{LfQueue, get_next_to_read, update_read_index}
use trading_ecosystem.Common.LfQueue.Fifo.{IsValid, unread, read-cons, read-nil}
use trading_ecosystem.Exchange.Messages.{MeClientResponse}
use trading_ecosystem.Exchange.OrderServer.{OrderServer, Sent, send_response, send_loop}

-- The client is in range and has a connection.
abbrev pub IsConnected : OrderServer → MeClientResponse → Type 0
IsConnected s r =
    (r.client_id < me_max_num_clients)
    × ((socket : ℕ) × (s.cid_tcp_socket r.client_id ≡ some socket))

-- From the number `n` on to below `m`, what is sent to client `c` is numbered one by one.
abbrev pub NumberedTo : ℕ → ℕ → List Sent → ℕ → Type 0
NumberedTo c n [] m = n ≡ m
NumberedTo c n (o ∷ os) m =
    if o.me_client_response.client_id == c
    then (o.seq_num ≡ n) × NumberedTo c (n + 1) os m
    else NumberedTo c n os m

abbrev pub IsAddressed : OrderServer → Sent → Type 0
IsAddressed s o = s.cid_tcp_socket o.me_client_response.client_id ≡ some o.socket

abbrev pub responses : List Sent → List MeClientResponse
responses os = map (λ o. o.me_client_response) os

NumberedTo-cons :
    (c : ℕ) (next : ℕ → ℕ) (o : Sent) (os : List Sent) (m : ℕ)
    → o.seq_num ≡ next o.me_client_response.client_id
    → NumberedTo c (update next o.me_client_response.client_id (o.seq_num + 1) c) os m
    → NumberedTo c (next c) (o ∷ os) m
NumberedTo-cons c next o os m same h = elim (Bool-cases (o.me_client_response.client_id == c)) [
  | inl mine ↦
      let at_c : o.seq_num ≡ next c = same ∙ ap next ((==_iff _ _).0 mine) in
      rw mine (at_c, rw (← at_c) (rw mine at h))
  | inr other ↦ rw other (rw other at h)
]

abbrev message : OrderServer → MeClientResponse → ℕ → Sent
message s r socket = record {
  socket = socket;
  seq_num = s.cid_next_outgoing_seq_num r.client_id;
  me_client_response = r;
}

abbrev after : OrderServer → MeClientResponse → ℕ → OrderServer
after s r socket = record s {
  cid_next_outgoing_seq_num =
      update s.cid_next_outgoing_seq_num r.client_id (s.cid_next_outgoing_seq_num r.client_id + 1);
  sent = s.sent ++ message s r socket ∷ [];
}

send_response-after :
    (s : OrderServer) (r : MeClientResponse) (socket : ℕ)
    → r.client_id < me_max_num_clients
    → s.cid_tcp_socket r.client_id ≡ some socket
    → send_response r s ≡ ok (after s r socket)
unfolding send_response
send_response-after s r socket in_bounds e = ground arith

-- A response for a client with no connection stops the exchange.
pub send_response-unknown :
    (s : OrderServer) (r : MeClientResponse)
    → r.client_id < me_max_num_clients
    → s.cid_tcp_socket r.client_id ≡ none
    → send_response r s ≡ failed assertion
unfolding send_response
send_response-unknown s r in_bounds e = ground arith

-- What the sending loop does with the responses `rs`.
record SentAll (s : OrderServer) (rs : List MeClientResponse)
    (result : Outcome (LfQueue MeClientResponse × OrderServer)) : Type 0 where
  q' : LfQueue MeClientResponse
  s' : OrderServer
  out : List Sent
  returns : result ≡ ok (q', s')
  emptied : unread q' ≡ []
  sent : s'.sent ≡ s.sent ++ out
  all : responses out ≡ rs
  addressed : All (IsAddressed s) out
  numbered :
      (c : ℕ) → NumberedTo c (s.cid_next_outgoing_seq_num c) out (s'.cid_next_outgoing_seq_num c)

send_loop_empty :
    (fuel : ℕ) (q : LfQueue MeClientResponse) (s : OrderServer)
    → get_next_to_read q ≡ none
    → send_loop (suc fuel) q s ≡ ok (q, s)
unfolding send_loop
send_loop_empty fuel q s e = ground arith

send_loop_more :
    (fuel : ℕ) (q q' : LfQueue MeClientResponse) (s s' : OrderServer) (r : MeClientResponse)
    → get_next_to_read q ≡ some r
    → send_response r s ≡ ok s'
    → update_read_index q ≡ ok q'
    → send_loop (suc fuel) q s ≡ send_loop fuel q' s'
unfolding send_loop
send_loop_more fuel q q' s s' r shown answered read = ground arith

send_loop-SentAll :
    (rs : List MeClientResponse) (fuel : ℕ) (q : LfQueue MeClientResponse) (s : OrderServer)
    → IsValid q
    → unread q ≡ rs
    → length rs < fuel
    → All (IsConnected s) rs
    → SentAll s rs (send_loop fuel q s)
send_loop-SentAll rs zero q s v e enough c = absurd (omega arith)
send_loop-SentAll [] (suc fuel) q s v e enough c =
    let (shown, _) = read-nil q e in
    record {
      q' = q;
      s' = s;
      out = [];
      returns = send_loop_empty fuel q s shown;
      emptied = e;
      sent = rw append-nil refl;
      all = refl;
      addressed = tt;
      numbered = λ c. refl;
    }
send_loop-SentAll (r ∷ rs) (suc fuel) q s v e enough (connected, rest) =
    let (in_bounds, (socket, found)) = connected in
    let (shown, (q', read, v', e')) = read-cons q v r rs e in
    let ih = send_loop-SentAll rs fuel q' (after s r socket) v' e' (omega arith) rest in
    record {
      q' = ih.q';
      s' = ih.s';
      out = message s r socket ∷ ih.out;
      returns =
          send_loop_more fuel q q' s (after s r socket) r shown
            (send_response-after s r socket in_bounds found) read
          ∙ ih.returns;
      emptied = ih.emptied;
      sent = ih.sent ∙ append_assoc s.sent (message s r socket ∷ []) ih.out;
      all = ap (λ l. r ∷ l) ih.all;
      addressed = (found, ih.addressed);
      numbered = λ c.
          NumberedTo-cons c s.cid_next_outgoing_seq_num (message s r socket) ih.out
            (ih.s'.cid_next_outgoing_seq_num c) refl (ih.numbered c);
    }

-- With one round more than there are responses, all of them for connected clients, the sending loop empties the queue: it sends every response once, in order, on the connection of its client, and numbers those of each client without a gap.
pub send_loop-NumberedTo :
    (q : LfQueue MeClientResponse) (s : OrderServer)
    → IsValid q
    → All (IsConnected s) (unread q)
    → (q' : LfQueue MeClientResponse) × (s' : OrderServer) × (out : List Sent) × (send_loop
          (length (unread q) + 1)
          q
          s
        ≡ ok (q', s'))
      × (unread q' ≡ [])
      × (s'.sent ≡ s.sent ++ out)
      × (responses out ≡ unread q)
      × All (IsAddressed s) out
      × ((c : ℕ)
          → NumberedTo c (s.cid_next_outgoing_seq_num c) out (s'.cid_next_outgoing_seq_num c))
send_loop-NumberedTo q s v connected =
    let a =
      send_loop-SentAll (unread q) (length (unread q) + 1) q s v refl (omega arith) connected in
    (a.q', a.s', a.out, a.returns, a.emptied, a.sent, a.all, a.addressed, a.numbered)
