-- ===== src/Exchange/MatchingEngine.antt =====
-- exchange/matcher/matching_engine.h: requests go to the order book of their instrument, and what the
-- book sends goes to the queues of the order server and of the market data publisher. The books only
-- write to the queues, so a book's messages are delivered, in their order, when its call returns. The
-- subscript of the array of books is not checked in the source: see `out_of_range`.
pub mod Delivery
use trading_ecosystem.Prelude.{
  ℕ, zero, suc, ◌+◌, ◌-◌, ◌*◌, ◌/◌, ◌%◌, ◌^◌, ◌≤◌, ◌<◌, min, ◌≡◌, refl, sym, ap, ◌∙◌, ◌≢◌, ◌↔◌, ◌⊎◌,
  inl, inr, Bool, true, false, not, ◌&&◌, ◌||◌, Option, none, some, List, [], ◌∷◌, ◌++◌, map, arith,
  ltb, leb, ◌==◌, if◌then◌else◌, ==_iff, ==_refl, Bool-cases, Option-cases, length, length-append,
  length-Perm, nil_of_length, update, All, All-append, Fault, assertion, null_pointer, out_of_range,
  out_of_fuel, Outcome, ok, failed, ◌>>=◌, ◌>>◌, assert, in_range, deref, >>=-eq-ok,
}
use trading_ecosystem.Common.Types.{me_max_tickers}
use trading_ecosystem.Common.LfQueue.{LfQueue, push, get_next_to_read, update_read_index}
use trading_ecosystem.Exchange.Messages
use trading_ecosystem.Exchange.Messages.{
  MeClientRequest, MeClientResponse, MeMarketUpdate, Event, response, update as market_update,
}
use trading_ecosystem.Exchange.OrderBook.State.{Book}
use trading_ecosystem.Exchange.OrderBook.Matching.{add_new, cancel_order}

pub record MatchingEngine : Type 0 where
  pub ticker_order_book : ℕ → Book
  pub outgoing_ogw_responses : LfQueue MeClientResponse
  pub outgoing_md_updates : LfQueue MeMarketUpdate

-- `sendClientResponse`
unfoldable pub send_client_response : MeClientResponse → MatchingEngine → MatchingEngine
send_client_response r e = record e { outgoing_ogw_responses = push e.outgoing_ogw_responses r }

-- `sendMarketUpdate`
unfoldable pub send_market_update : MeMarketUpdate → MatchingEngine → MatchingEngine
send_market_update u e = record e { outgoing_md_updates = push e.outgoing_md_updates u }

unfoldable pub deliver : List Event → MatchingEngine → MatchingEngine
deliver [] e = e
deliver (response r ∷ events) e = deliver events (send_client_response r e)
deliver (market_update u ∷ events) e = deliver events (send_market_update u e)

-- The calls of a book's methods, by the kind of the request.
unfoldable pub handle_request : MeClientRequest → Book → Outcome Book
handle_request r book = elim r.kind [
  | Messages.ClientRequestType.new ↦
      add_new r.client_id r.order_id r.ticker_id r.side r.price r.qty book
  | Messages.ClientRequestType.cancel ↦ cancel_order r.client_id r.order_id r.ticker_id book
  | Messages.ClientRequestType.invalid ↦ failed assertion
]

-- `processClientRequest`
unfoldable pub process_client_request : MeClientRequest → MatchingEngine → Outcome MatchingEngine
unfolding handle_request deliver
process_client_request r e = do
  in_range (ltb r.ticker_id me_max_tickers)
  book ← handle_request r (record (e.ticker_order_book r.ticker_id) { events = [] })
  let quiet = record book { events = [] }
  ok (
      deliver book.events
        (record e { ticker_order_book = update e.ticker_order_book r.ticker_id quiet }))

-- One round of the loop of `run`
unfoldable pub run_round :
    LfQueue MeClientRequest → MatchingEngine → Outcome (LfQueue MeClientRequest × MatchingEngine)
unfolding process_client_request
run_round requests e = elim (get_next_to_read requests) [
  | none ↦ ok (requests, e)
  | some r ↦ do
    e ← process_client_request r e
    requests ← update_read_index requests
    ok (requests, e)
]
