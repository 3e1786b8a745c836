-- ===== src/Exchange/MatchingEngine/Delivery.antt =====
-- The messages of a book reach the two outgoing queues.
use mathlib.Core.List.{append_assoc, append-nil}
use trading_ecosystem.Prelude.{suc, ◌+◌, ◌≤◌, ◌≡◌, refl, ◌∙◌, List, [], ◌∷◌, ◌++◌, arith, length}
use trading_ecosystem.Common.LfQueue.{LfQueue, push}
use trading_ecosystem.Common.LfQueue.Fifo.{IsValid, unread, push-append}
use trading_ecosystem.Exchange.Messages.{
  MeClientResponse, MeMarketUpdate, Event, response, update as market_update,
}
use trading_ecosystem.Exchange.MatchingEngine.{
  MatchingEngine, send_client_response, send_market_update, deliver,
}

abbrev pub responses : List Event → List MeClientResponse
responses [] = []
responses (response r ∷ events) = r ∷ responses events
responses (market_update u ∷ events) = responses events

abbrev pub updates : List Event → List MeMarketUpdate
updates [] = []
updates (response r ∷ events) = updates events
updates (market_update u ∷ events) = u ∷ updates events

-- Both queues are valid and have room for the messages of these events.
pub record HasRoom (events : List Event) (e : MatchingEngine) : Type 0 where
  pub responses_valid : IsValid e.outgoing_ogw_responses
  pub updates_valid : IsValid e.outgoing_md_updates
  pub responses_fit :
      e.outgoing_ogw_responses.num_elements + length (responses events)
      ≤ e.outgoing_ogw_responses.size
  pub updates_fit :
      e.outgoing_md_updates.num_elements + length (updates events) ≤ e.outgoing_md_updates.size

num-push :
    {T : Type 0} (q : LfQueue T) (x : T)
    → ((push q x).num_elements ≡ q.num_elements + 1) × ((push q x).size ≡ q.size)
unfolding push
num-push q x = (refl, refl)

-- With room in both queues, the responses and the market updates of the events are appended to what is unread in their queue, each kind in its order, and nothing else changes.
pub deliver-append :
    (events : List Event) (e : MatchingEngine)
    → HasRoom events e
    → (unread (deliver events e).outgoing_ogw_responses
        ≡ unread e.outgoing_ogw_responses ++ responses events)
      × (unread (deliver events e).outgoing_md_updates
          ≡ unread e.outgoing_md_updates ++ updates events)
      × ((deliver events e).ticker_order_book ≡ e.ticker_order_book)
      × IsValid (deliver events e).outgoing_ogw_responses
      × IsValid (deliver events e).outgoing_md_updates
unfolding deliver send_client_response send_market_update
deliver-append [] e h =
    (rw append-nil refl, rw append-nil refl, refl, h.responses_valid, h.updates_valid)
deliver-append (response r ∷ events) e h =
    let (n, size) = num-push e.outgoing_ogw_responses r in
    let fits : e.outgoing_ogw_responses.num_elements + suc (length (responses events))
        ≤ e.outgoing_ogw_responses.size =
      h.responses_fit in
    let (v, grown) = push-append e.outgoing_ogw_responses r h.responses_valid (omega arith) in
    let (rs, us, books, v', v'') = deliver-append events (send_client_response r e) (record {
      responses_valid = v;
      updates_valid = h.updates_valid;
      responses_fit = omega arith;
      updates_fit = h.updates_fit;
    }) in
    (rs ∙ rw (grown, append_assoc) refl, us, books, v', v'')
deliver-append (market_update u ∷ events) e h =
    let (n, size) = num-push e.outgoing_md_updates u in
    let fits : e.outgoing_md_updates.num_elements + suc (length (updates events))
        ≤ e.outgoing_md_updates.size =
      h.updates_fit in
    let (v, grown) = push-append e.outgoing_md_updates u h.updates_valid (omega arith) in
    let (rs, us, books, v', v'') = deliver-append events (send_market_update u e) (record {
      responses_valid = h.responses_valid;
      updates_valid = v;
      responses_fit = h.responses_fit;
      updates_fit = omega arith;
    }) in
    (rs, us ∙ rw (grown, append_assoc) refl, books, v', v'')
