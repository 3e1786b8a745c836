-- ===== src/Common/TcpSocket.antt =====
-- common/tcp_socket.h and common/tcp_socket.cpp: a send and a receive buffer, of which the valid
-- prefixes are lists here. What the operating system reads and how much of the send buffer it takes
-- are arguments. The loop that takes fixed-size messages out of the receive buffer is that of the
-- `recvCallback` of exchange/order_server/order_server.h, trading/order_gw/order_gateway.cpp and
-- trading/market_data/market_data_consumer.cpp.
pub mod Frames
use trading_ecosystem.Prelude.{
  ℕ, zero, suc, ◌+◌, ◌-◌, ◌*◌, ◌/◌, ◌%◌, ◌^◌, ◌≤◌, ◌<◌, min, ◌≡◌, refl, sym, ap, ◌∙◌, ◌≢◌, ◌↔◌, ◌⊎◌,
  inl, inr, Bool, true, false, not, ◌&&◌, ◌||◌, Option, none, some, List, [], ◌∷◌, ◌++◌, map, arith,
  ltb, leb, ◌==◌, if◌then◌else◌, ==_iff, ==_refl, Bool-cases, Option-cases, length, length-append,
  length-Perm, nil_of_length, update, All, All-append, Fault, assertion, null_pointer, out_of_range,
  out_of_fuel, Outcome, ok, failed, ◌>>=◌, ◌>>◌, assert, in_range, deref, >>=-eq-ok, >>=-cong,
  >>=-assoc, >>=-≢, deref-fuel, count_below, count_below-le, count_below-same, count_below-cleared,
}

abbrev pub tcp_buffer_size : ℕ
tcp_buffer_size = 64 * 1024 * 1024

pub record TcpSocket : Type 0 where
  pub outbound_data : List ℕ
  pub inbound_data : List ℕ

-- `send`: a `memcpy` behind the valid part; past the end of the buffer it has no defined meaning.
unfoldable pub send : List ℕ → TcpSocket → Outcome TcpSocket
send bytes s = do
  in_range (leb (length s.outbound_data + length bytes) tcp_buffer_size)
  ok (record s { outbound_data = s.outbound_data ++ bytes })

module _ {A : Type 0} where
  abbrev pub take : ℕ → List A → List A
  take zero xs = []
  take (suc n) [] = []
  take (suc n) (x ∷ xs) = x ∷ take n xs

  abbrev pub drop : ℕ → List A → List A
  drop zero xs = xs
  drop (suc n) [] = []
  drop (suc n) (x ∷ xs) = drop n xs

  -- `for (; i + k <= valid; i += k)`: the messages of `k` bytes, and what is left behind them.
  unfoldable pub frames_loop : ℕ → ℕ → List A → List (List A) × List A
  frames_loop zero k buffer = ([], buffer)
  frames_loop (suc fuel) k buffer =
      let rest = frames_loop fuel k (drop k buffer) in
      if leb k (length buffer) then (take k buffer ∷ rest.0, rest.1) else ([], buffer)

  -- A round takes a byte at least, so there are no more rounds than bytes.
  unfoldable pub frames : ℕ → List A → List (List A) × List A
  unfolding frames_loop
  frames k buffer = frames_loop (suc (length buffer)) k buffer

-- What `sendAndRecv` leaves: the socket, what has gone out, the state of the callback's owner, and
-- whether anything was read.
pub record Polled (S : Type 0) : Type 0 where
  pub socket : TcpSocket
  pub wire : List ℕ
  pub state : S
  pub is_read : Bool

module _ {S : Type 0} (recv_callback : List ℕ → S → List ℕ × S) where
  -- `sendAndRecv`: `received` is what `recvmsg` reads, `accepted` the number of bytes that `send`
  -- takes. The callback is called if anything was read, and leaves in the buffer what it does not take.
  unfoldable pub send_and_recv : List ℕ → ℕ → TcpSocket → S → Polled S
  send_and_recv received accepted s state =
      let is_read = not (length received == 0) in
      let r =
        if is_read
        then recv_callback (s.inbound_data ++ received) state
        else (s.inbound_data, state) in
      record {
        socket = record { outbound_data = []; inbound_data = r.0 };
        wire = take accepted s.outbound_data;
        state = r.1;
        is_read = is_read;
      }
