-- ===== src/Common/TcpServer.antt =====
-- common/tcp_server.h and common/tcp_server.cpp: the sockets of a server. A socket is a number, and
-- the listener is one of them. What the operating system reports and accepts is an argument; the
-- registration of a socket with it has no state here.
pub mod Laws
use trading_ecosystem.Prelude.{
  ℕ, zero, suc, ◌+◌, ◌-◌, ◌*◌, ◌/◌, ◌%◌, ◌^◌, ◌≤◌, ◌<◌, min, ◌≡◌, refl, sym, ap, ◌∙◌, ◌≢◌, ◌↔◌, ◌⊎◌,
  inl, inr, Bool, true, false, not, ◌&&◌, ◌||◌, Option, none, some, List, [], ◌∷◌, ◌++◌, map, arith,
  ltb, leb, ◌==◌, if◌then◌else◌, ==_iff, ==_refl, Bool-cases, Option-cases, length, length-append,
  length-Perm, nil_of_length, update, All, All-append, Fault, assertion, null_pointer, out_of_range,
  out_of_fuel, Outcome, ok, failed, ◌>>=◌, ◌>>◌, assert, in_range, deref, >>=-eq-ok, >>=-cong,
  >>=-assoc, >>=-≢, deref-fuel, count_below, count_below-le, count_below-same, count_below-cleared,
}
use trading_ecosystem.Common.TcpSocket.{TcpSocket, Polled, send_and_recv}

-- One of the events that `epoll_wait` reports
pub record PollEvent : Type 0 where
  pub socket : ℕ
  pub is_in : Bool
  pub is_out : Bool
  pub is_error : Bool

-- A connection that `accept` returns, with what `setNonBlocking(fd) && disableNagle(fd)` and
-- `addToEpollList` say about it.
pub record Connection : Type 0 where
  pub is_configured : Bool
  pub is_registered : Bool

pub record TcpServer : Type 0 where
  pub listener_socket : ℕ
  pub receive_sockets : List ℕ
  pub send_sockets : List ℕ
  pub sockets : ℕ → TcpSocket
  -- The number that the next `new TCPSocket` has
  pub next_socket : ℕ

-- `std::find` against the end, and `push_back` if the socket is not there
abbrev pub is_listed : ℕ → List ℕ → Bool
is_listed s [] = false
is_listed s (t ∷ ts) = (s == t) || is_listed s ts

unfoldable pub add_socket : ℕ → List ℕ → List ℕ
add_socket s ts = if is_listed s ts then ts else ts ++ s ∷ []

-- The body of the loop over the events; the result says whether there are connections to accept.
unfoldable pub on_event : PollEvent → Bool × TcpServer → Bool × TcpServer
on_event e r =
    let receive =
      if e.is_in then add_socket e.socket r.1.receive_sockets else r.1.receive_sockets in
    if e.is_in && (e.socket == r.1.listener_socket) then (true, r.1) else (
      r.0,
      record (r.1) {
        receive_sockets = if e.is_error then add_socket e.socket receive else receive;
        send_sockets = if e.is_out then add_socket e.socket r.1.send_sockets else r.1.send_sockets;
      },
    )

unfoldable pub on_events : List PollEvent → Bool × TcpServer → Bool × TcpServer
on_events [] r = r
on_events (e ∷ es) r = on_events es (on_event e r)

-- A new socket has empty buffers.
unfoldable pub accept_connection : Connection → TcpServer → Outcome TcpServer
accept_connection c s = do
  assert c.is_configured
  assert c.is_registered
  ok (record s {
    receive_sockets = add_socket s.next_socket s.receive_sockets;
    sockets = update s.sockets s.next_socket (record { outbound_data = []; inbound_data = [] });
    next_socket = s.next_socket + 1;
  })

-- The loop that accepts connections until there are no more
unfoldable pub accept_connections : List Connection → TcpServer → Outcome TcpServer
accept_connections [] s = ok s
accept_connections (c ∷ cs) s = accept_connection c s >>= accept_connections cs

unfoldable pub poll : List PollEvent → List Connection → TcpServer → Outcome TcpServer
poll events connections s =
    let r = on_events events (false, s) in
    if r.0 then accept_connections connections r.1 else ok r.1

module _ {S : Type 0} (recv_callback : ℕ → List ℕ → S → List ℕ × S)
    (recv_finished_callback : S → S) where
  -- `sendAndRecv` of each socket of a list in turn, with what is read from it and how much of its data
  -- is sent; the result says whether anything was read.
  unfoldable pub poll_sockets :
      (ℕ → List ℕ) → (ℕ → ℕ) → List ℕ → (ℕ → TcpSocket) → S → Bool × (ℕ → TcpSocket) × S
  poll_sockets received accepted [] sockets state = (false, sockets, state)
  poll_sockets received accepted (s ∷ ss) sockets state =
      let r = send_and_recv (recv_callback s) (received s) (accepted s) (sockets s) state in
      let rest = poll_sockets received accepted ss (update sockets s r.socket) r.state in
      (r.is_read || rest.0, rest.1, rest.2)

  -- `TCPServer::sendAndRecv`; what is read from the sockets for sending is separate, as these are polled later.
  unfoldable pub server_send_and_recv :
      (ℕ → List ℕ) → (ℕ → ℕ) → (ℕ → List ℕ) → (ℕ → ℕ) → TcpServer → S → TcpServer × S
  server_send_and_recv received accepted received_later accepted_later s state =
      let r = poll_sockets received accepted s.receive_sockets s.sockets state in
      let finished = if r.0 then recv_finished_callback r.2 else r.2 in
      let sent = poll_sockets received_later accepted_later s.send_sockets r.1 finished in
      (record s { sockets = sent.1 }, sent.2)
