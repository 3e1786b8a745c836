-- ===== src/Exchange/OrderServer/Admission.antt =====
-- `recvCallback` of exchange/order_server/order_server.h for a client that numbers its requests.
use mathlib.Core.List.{append_assoc, append-nil}
use trading_ecosystem.Prelude.{
  ℕ, ◌+◌, ◌≤◌, ◌<◌, ◌≡◌, refl, sym, ap, ◌∙◌, ◌⊎◌, inl, inr, true, none, some, List, [], ◌∷◌, ◌++◌,
  arith, length, ok,
}
use trading_ecosystem.Common.Types.{me_max_num_clients}
use trading_ecosystem.Exchange.Messages.{OmClientRequest}
use trading_ecosystem.Exchange.FifoSequencer.{me_max_pending_requests}
use trading_ecosystem.Exchange.OrderServer.{OrderServer, recv_callback}
use trading_ecosystem.Exchange.OrderServer.Receive.{
  is_expected, pending, after, on_request-after, after-expected, me_requests,
}

-- The connection is the client's, or the client has none yet.
abbrev pub MayClaim : ℕ → ℕ → OrderServer → Type 0
MayClaim socket c s = (s.cid_tcp_socket c ≡ none) ⊎ (s.cid_tcp_socket c ≡ some socket)

-- Messages of one client, numbered one by one from `n` on.
abbrev pub IsInOrder : ℕ → ℕ → List OmClientRequest → Type 0
IsInOrder c n [] = Unit {0}
IsInOrder c n (r ∷ rs) =
    (r.me_client_request.client_id ≡ c) × (r.seq_num ≡ n) × IsInOrder c (n + 1) rs

module _ (socket rx_time c : ℕ) where
  claimed-expected :
      (r : OmClientRequest) (s : OrderServer)
      → r.me_client_request.client_id ≡ c
      → MayClaim socket c s
      → r.seq_num ≡ s.cid_next_exp_seq_num c
      → is_expected socket r s ≡ true
  claimed-expected r s mine (inl e) same = ground arith
  claimed-expected r s mine (inr e) same = ground arith

  after-MayClaim :
      (r : OmClientRequest) (s : OrderServer)
      → r.me_client_request.client_id ≡ c
      → MayClaim socket c s
      → MayClaim socket c (after socket rx_time r s)
  after-MayClaim r s mine (inl e) = inr (ground arith)
  after-MayClaim r s mine (inr e) = inr (ground arith)

  -- Requests of one client in range, numbered one by one from the number that is expected of it, on its connection or on the first one that it uses, are all queued in their order if there is room for them, and the number expected next follows the last of them.
  pub recv_callback-IsInOrder :
      (rs : List OmClientRequest) (s : OrderServer)
      → c < me_max_num_clients
      → MayClaim socket c s
      → IsInOrder c (s.cid_next_exp_seq_num c) rs
      → length s.fifo_sequencer.pending + length rs ≤ me_max_pending_requests
      → (s' : OrderServer) × (recv_callback socket rx_time rs s ≡ ok s')
        × (pending s' ≡ pending s ++ me_requests rs)
        × (s'.cid_next_exp_seq_num c ≡ s.cid_next_exp_seq_num c + length rs)
  unfolding recv_callback
  recv_callback-IsInOrder [] s in_bounds socket_ok ordered room =
      (s, refl, sym (append-nil (pending s)), omega arith)
  recv_callback-IsInOrder (r ∷ rs) s in_bounds socket_ok (mine, same, ordered) room =
      let expected = claimed-expected r s mine socket_ok same in
      let (queued, more, exp, _) = after-expected socket rx_time r s expected in
      let next : (after socket rx_time r s).cid_next_exp_seq_num c ≡ s.cid_next_exp_seq_num c + 1 =
        ground arith in
      let (s', e, grown, last) =
        recv_callback-IsInOrder rs (after socket rx_time r s) in_bounds
          (after-MayClaim r s mine socket_ok) (rw next ordered) (omega arith) in
      let handled = on_request-after socket rx_time r s (omega arith) (omega arith) in
      (
        s',
        rw handled e,
        grown
            ∙ ap (λ l. l ++ me_requests rs) queued
            ∙ append_assoc (pending s) (r.me_client_request ∷ []) (me_requests rs),
        omega arith,
      )
