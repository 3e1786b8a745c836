-- ===== src/Exchange/OrderServer/Receive.antt =====
-- Which requests the order server lets through.
use mathlib.Core.List.{append_assoc, append-nil, map-append, Sublistᴰ}
use trading_ecosystem.Prelude.{
  ℕ, ◌+◌, ◌≤◌, ◌<◌, ◌≡◌, refl, ap, ◌∙◌, inl, inr, Bool, true, false, ◌&&◌, Option, List, [], ◌∷◌,
  ◌++◌, map, arith, ◌==◌, if◌then◌else◌, ==_iff, Bool-cases, length, length-append, update, All, ok,
}
use trading_ecosystem.Common.Types.{me_max_num_clients}
use trading_ecosystem.Exchange.Messages.{MeClientRequest, OmClientRequest}
use trading_ecosystem.Exchange.FifoSequencer.{RecvTimeClientRequest, me_max_pending_requests}
use trading_ecosystem.Exchange.FifoSequencer.Laws.{requests}
use trading_ecosystem.Exchange.OrderServer.{
  OrderServer, claim_socket, is_socket, on_request, recv_callback,
}

-- The requests that the sequencer holds.
abbrev pub pending : OrderServer → List MeClientRequest
pending s = requests s.fifo_sequencer.pending

-- The request is on the connection of its client, or its client has none yet, and it has the number that is expected.
abbrev pub is_expected : ℕ → OmClientRequest → OrderServer → Bool
is_expected socket r s =
    let c = r.me_client_request.client_id in
    is_socket ((claim_socket c socket s).cid_tcp_socket c) socket
    && r.seq_num == s.cid_next_exp_seq_num c

pub received : ℕ → OmClientRequest → RecvTimeClientRequest
received rx_time r = record { recv_time = rx_time; request = r.me_client_request }

-- The server after a message that it can handle.
abbrev pub after : ℕ → ℕ → OmClientRequest → OrderServer → OrderServer
after socket rx_time r s =
    let c = r.me_client_request.client_id in
    let claimed = claim_socket c socket s in
    if is_expected socket r s
    then record claimed {
      cid_next_exp_seq_num = update s.cid_next_exp_seq_num c (s.cid_next_exp_seq_num c + 1);
      fifo_sequencer = record (s.fifo_sequencer) {
        pending = s.fifo_sequencer.pending ++ (received rx_time r) ∷ [];
      };
    }
    else claimed

pub on_request-after :
    (socket rx_time : ℕ) (r : OmClientRequest) (s : OrderServer)
    → r.me_client_request.client_id < me_max_num_clients
    → length s.fifo_sequencer.pending < me_max_pending_requests
    → on_request socket rx_time r s ≡ ok (after socket rx_time r s)
unfolding on_request received
on_request-after socket rx_time r s in_bounds room = ground arith

module _ (socket rx_time : ℕ) (r : OmClientRequest) (s : OrderServer) where
  pub after-expected :
      is_expected socket r s ≡ true
      → (pending (after socket rx_time r s) ≡ pending s ++ r.me_client_request ∷ [])
        × (length (after socket rx_time r s).fifo_sequencer.pending
            ≡ length s.fifo_sequencer.pending + 1)
        × ((after socket rx_time r s).cid_next_exp_seq_num
            ≡ update s.cid_next_exp_seq_num r.me_client_request.client_id (r.seq_num + 1))
        × (r.seq_num ≡ s.cid_next_exp_seq_num r.me_client_request.client_id)
  unfolding received
  after-expected e =
      let same : r.seq_num ≡ s.cid_next_exp_seq_num r.me_client_request.client_id = ground arith in
      (rw e (map-append _ _ _), rw e (length-append _ _), rw (e, same) refl, same)

  after-dropped :
      is_expected socket r s ≡ false
      → ((after socket rx_time r s).fifo_sequencer ≡ s.fifo_sequencer)
        × ((after socket rx_time r s).cid_next_exp_seq_num ≡ s.cid_next_exp_seq_num)
  after-dropped e =
      rw (e, claim_socket) (by_socket (s.cid_tcp_socket r.me_client_request.client_id))
    where
      by_socket :
          (o : Option ℕ)
          → ((claim_socket r.me_client_request.client_id socket s).fifo_sequencer
              ≡ s.fifo_sequencer)
            × ((claim_socket r.me_client_request.client_id socket s).cid_next_exp_seq_num
                ≡ s.cid_next_exp_seq_num)
      by_socket o = ground arith

-- A request sent twice is queued at most once: when it has been handled, the same message changes nothing.
pub on_request-on_request :
    (socket rx_time : ℕ) (r : OmClientRequest) (s s' : OrderServer)
    → on_request socket rx_time r s ≡ ok s'
    → on_request socket rx_time r s' ≡ ok s'
unfolding on_request
on_request-on_request socket rx_time r s s' e = ground arith

-- From the number `n` on to below `m`, the messages of client `c` are numbered one by one.
abbrev pub Numbered : ℕ → ℕ → List OmClientRequest → ℕ → Type 0
Numbered c n [] m = n ≡ m
Numbered c n (r ∷ rs) m =
    if r.me_client_request.client_id == c
    then (r.seq_num ≡ n) × Numbered c (n + 1) rs m
    else Numbered c n rs m

abbrev pub me_requests : List OmClientRequest → List MeClientRequest
me_requests rs = map (λ r. r.me_client_request) rs

Numbered-cons :
    (c : ℕ) (next : ℕ → ℕ) (r : OmClientRequest) (rs : List OmClientRequest) (m : ℕ)
    → r.seq_num ≡ next r.me_client_request.client_id
    → Numbered c (update next r.me_client_request.client_id (r.seq_num + 1) c) rs m
    → Numbered c (next c) (r ∷ rs) m
Numbered-cons c next r rs m same h = elim (Bool-cases (r.me_client_request.client_id == c)) [
  | inl mine ↦
      let at_c : r.seq_num ≡ next c = same ∙ ap next ((==_iff _ _).0 mine) in
      rw mine (at_c, rw (← at_c) (rw mine at h))
  | inr other ↦ rw other (rw other at h)
]

-- For messages of clients in range, and room for them, `recvCallback` succeeds. It lets through some of the messages, in their order, and queues them behind what was pending; those of each client are numbered without a gap from the number that was expected to the one that is now expected.
pub recv_callback-Numbered :
    (socket rx_time : ℕ) (rs : List OmClientRequest) (s : OrderServer)
    → All (λ r. r.me_client_request.client_id < me_max_num_clients) rs
    → length s.fifo_sequencer.pending + length rs ≤ me_max_pending_requests
    → (s' : OrderServer) × (recv_callback socket rx_time rs s ≡ ok s')
      × ((passed : List OmClientRequest) × Sublistᴰ passed rs
          × (pending s' ≡ pending s ++ me_requests passed)
          × ((c : ℕ) → Numbered c (s.cid_next_exp_seq_num c) passed (s'.cid_next_exp_seq_num c)))
unfolding recv_callback
recv_callback-Numbered socket rx_time [] s in_bounds room =
    (s, refl, ([], Sublistᴰ.slnil, rw append-nil, λ c. refl))
recv_callback-Numbered socket rx_time (r ∷ rs) s in_bounds room =
    elim (Bool-cases (is_expected socket r s)) [
      | inl expected ↦
          let (queued, more, exp, same) = after-expected socket rx_time r s expected in
          let (s', e, (passed, sub, grown, numbered)) =
            recv_callback-Numbered socket rx_time rs (after socket rx_time r s) in_bounds.1
              (omega arith) in
          (
            s',
            rw handled e,
            (
              r ∷ passed,
              Sublistᴰ.cons-cons refl sub,
              grown ∙ rw (queued, append_assoc) refl,
              λ c.
                  Numbered-cons c s.cid_next_exp_seq_num r passed (s'.cid_next_exp_seq_num c) same
                    (rw exp at (numbered c)),
            ),
          )
      | inr dropped ↦
          let (same, exp) = after-dropped socket rx_time r s dropped in
          let (s', e, (passed, sub, grown, numbered)) =
            recv_callback-Numbered socket rx_time rs (after socket rx_time r s) in_bounds.1
              (rw same (omega arith)) in
          (
            s',
            rw handled e,
            (passed, Sublistᴰ.cons sub, rw same at grown, λ c. rw exp at (numbered c)),
          )
    ]
  where
    handled : on_request socket rx_time r s ≡ ok (after socket rx_time r s)
    handled = on_request-after socket rx_time r s in_bounds.0 (omega arith)
