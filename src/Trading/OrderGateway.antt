-- ===== src/Trading/OrderGateway.antt =====
-- trading/order_gw/order_gateway.cpp: responses of the exchange, checked for their client and sequence
-- number, go to the trade engine; requests go out with sequence numbers. What is sent to
-- the exchange is collected in `sent`.
pub mod EndToEnd
use trading_ecosystem.Prelude.{
  ℕ, zero, suc, ◌+◌, ◌-◌, ◌*◌, ◌/◌, ◌%◌, ◌^◌, ◌≤◌, ◌<◌, min, ◌≡◌, refl, sym, ap, ◌∙◌, ◌≢◌, ◌↔◌, ◌⊎◌,
  inl, inr, Bool, true, false, not, ◌&&◌, ◌||◌, Option, none, some, List, [], ◌∷◌, ◌++◌, map, arith,
  ltb, leb, ◌==◌, if◌then◌else◌, ==_iff, ==_refl, Bool-cases, Option-cases, length, length-append,
  length-Perm, nil_of_length, update, All, All-append, Fault, assertion, null_pointer, out_of_range,
  out_of_fuel, Outcome, ok, failed, ◌>>=◌, ◌>>◌, assert, in_range, deref, >>=-eq-ok,
}
use trading_ecosystem.Common.LfQueue.{LfQueue, push}
use trading_ecosystem.Exchange.Messages.{MeClientRequest, OmClientRequest, MeClientResponse}

-- `OMClientResponse`
pub record OmClientResponse : Type 0 where
  pub seq_num : ℕ
  pub me_client_response : MeClientResponse

pub record OrderGateway : Type 0 where
  pub client_id : ℕ
  pub next_outgoing_seq_num : ℕ
  pub next_exp_seq_num : ℕ
  pub incoming_responses : LfQueue MeClientResponse
  pub sent : List OmClientRequest

abbrev pub order_gateway : ℕ → LfQueue MeClientResponse → OrderGateway
order_gateway client_id incoming_responses = record {
  client_id = client_id;
  next_outgoing_seq_num = 1;
  next_exp_seq_num = 1;
  incoming_responses = incoming_responses;
  sent = [];
}

-- The body of the sending loop of `run`
unfoldable pub send_request : MeClientRequest → OrderGateway → OrderGateway
send_request r g = record g {
  next_outgoing_seq_num = g.next_outgoing_seq_num + 1;
  sent = g.sent ++ (record { seq_num = g.next_outgoing_seq_num; me_client_request = r }) ∷ [];
}

-- The body of the loop of `recvCallback`
unfoldable pub on_response : OmClientResponse → OrderGateway → OrderGateway
unfolding push
on_response r g =
    if not (r.me_client_response.client_id == g.client_id)
    then g
    else if not (r.seq_num == g.next_exp_seq_num)
    then g
    else record g {
      next_exp_seq_num = g.next_exp_seq_num + 1;
      incoming_responses = push g.incoming_responses r.me_client_response;
    }

-- `recvCallback`, with the messages that stand in the receive buffer
unfoldable pub recv_callback : List OmClientResponse → OrderGateway → OrderGateway
recv_callback [] g = g
recv_callback (r ∷ rs) g = recv_callback rs (on_response r g)
