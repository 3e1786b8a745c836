-- ===== src/Tests/Feeds.antt =====
-- Market data at small inputs: the matching engine's queues, the publisher, the snapshot synthesizer
-- and the consumer.
use trading_ecosystem.Prelude.{
  ℕ, ◌≡◌, refl, true, false, not, ◌&&◌, none, some, List, [], ◌∷◌, arith, ◌==◌, if◌then◌else◌, ok,
}
use trading_ecosystem.Prelude.Int.{pos}
use trading_ecosystem.Common.Types.{sell, me_max_tickers}
use trading_ecosystem.Common.LfQueue.{LfQueue}
use trading_ecosystem.Common.LfQueue.Writes.{push_list}
use trading_ecosystem.Common.LfQueue.Fifo as Fifo
use trading_ecosystem.Common.LfQueue.Fifo.{unread}
use trading_ecosystem.Exchange.Messages.{
  ClientResponseType, MeClientResponse, MeMarketUpdate, Event, response, update as market_update,
  add,
}
use trading_ecosystem.Exchange.OrderBook.State.{order_book}
use trading_ecosystem.Exchange.MatchingEngine.{MatchingEngine, deliver}
use trading_ecosystem.Exchange.MatchingEngine.Delivery.{HasRoom, deliver-append}
use trading_ecosystem.Exchange.MarketDataPublisher.{
  MarketDataPublisher, number_from, publish_loop, numbered,
}
use trading_ecosystem.Exchange.MarketDataPublisher.Laws.{Published, publish_loop-number_from}
use trading_ecosystem.Exchange.SnapshotSynthesizer.{
  SnapshotSynthesizer, snapshot_synthesizer, add_to_snapshot, publish_snapshot, order_view,
}
use trading_ecosystem.Exchange.SnapshotSynthesizer.Updates as Updates
use trading_ecosystem.Exchange.SnapshotSynthesizer.Updates.{apply_update, Fits, adds}
use trading_ecosystem.Exchange.SnapshotSynthesizer.Refinement.{add_to_snapshot-apply_update}
use trading_ecosystem.Trading.MarketDataConsumer.{
  MarketDataConsumer, market_data_consumer, recv_callback,
}
use trading_ecosystem.Trading.MarketDataConsumer.Live.{recv_callback-number_from}
use trading_ecosystem.Trading.MarketDataConsumer.Recovery.{keyed, recovered}
use trading_ecosystem.Trading.MarketDataConsumer.Body.{SnapshotBody}
use trading_ecosystem.Trading.MarketDataConsumer.Snapshot.{
  KeepsEvents, recv_callback-publish_snapshot,
}

abbrev added : ℕ → MeMarketUpdate
added order_id = record {
  kind = add;
  order_id = order_id;
  ticker_id = 0;
  side = sell;
  price = pos 101;
  qty = 7;
  priority = 1;
}

abbrev accepted_to : ℕ → MeClientResponse
accepted_to client_id = record {
  kind = ClientResponseType.accepted;
  client_id = client_id;
  ticker_id = 0;
  client_order_id = 5;
  market_order_id = 1;
  side = sell;
  price = pos 101;
  exec_qty = 0;
  leaves_qty = 7;
}

abbrev update_queue : LfQueue MeMarketUpdate
update_queue = record {
  size = 4;
  store = λ i. added i;
  next_write_index = 2;
  next_read_index = 0;
  num_elements = 2;
}

update_queue-IsValid : Fifo.IsValid update_queue
update_queue-IsValid = record { read_in = omega arith; fits = omega arith; write_at = refl }

abbrev engine : MatchingEngine
engine = record {
  ticker_order_book = λ t. order_book t (λ _ _. none) (λ _. none);
  outgoing_ogw_responses = record {
    size = 2;
    store = λ i. accepted_to i;
    next_write_index = 1;
    next_read_index = 1;
    num_elements = 0;
  };
  outgoing_md_updates = update_queue;
}

abbrev two_events : List Event
two_events = response (accepted_to 9) ∷ market_update (added 20) ∷ []

two_events-HasRoom : HasRoom two_events engine
two_events-HasRoom = record {
  responses_valid = record { read_in = omega arith; fits = omega arith; write_at = refl };
  updates_valid = update_queue-IsValid;
  responses_fit = omega arith;
  updates_fit = omega arith;
}

deliver-append_example :
    (unread (deliver two_events engine).outgoing_ogw_responses ≡ accepted_to 9 ∷ [])
    × (unread (deliver two_events engine).outgoing_md_updates ≡ added 0 ∷ added 1 ∷ added 20 ∷ [])
    × ((deliver two_events engine).ticker_order_book ≡ engine.ticker_order_book)
    × Fifo.IsValid (deliver two_events engine).outgoing_ogw_responses
    × Fifo.IsValid (deliver two_events engine).outgoing_md_updates
deliver-append_example = deliver-append two_events engine two_events-HasRoom

abbrev publisher : MarketDataPublisher
publisher = record {
  next_inc_seq_num = 1;
  incremental = [];
  snapshot_md_updates = record {
    size = 8;
    store = λ i. numbered 0 (added i);
    next_write_index = 7;
    next_read_index = 7;
    num_elements = 0;
  };
}

-- The matching engine writes two updates during the first round.
abbrev rounds : List (List MeMarketUpdate)
rounds = (added 30 ∷ added 31 ∷ []) ∷ [] ∷ [] ∷ [] ∷ [] ∷ []

publish_loop-number_from_example :
    Published (unread update_queue) rounds publisher (publish_loop rounds update_queue publisher)
publish_loop-number_from_example =
    publish_loop-number_from rounds update_queue publisher update_queue-IsValid
      (record { read_in = omega arith; fits = omega arith; write_at = refl }) (omega arith)
      (omega arith) (omega arith)

snapshot_synthesizer-IsValid : Updates.IsValid snapshot_synthesizer
unfolding snapshot_synthesizer
snapshot_synthesizer-IsValid = record {
  pool = record { cursor_in = omega arith; cursor_free = refl };
  used = λ t o p e. absurd (ground arith);
  apart = λ t o t' o' p e e'. absurd (ground arith);
  labelled = λ t o p e. absurd (ground arith);
}

add_to_snapshot-apply_update_example :
    (s' : SnapshotSynthesizer) × (add_to_snapshot (numbered 1 (added 7)) snapshot_synthesizer
      ≡ ok s')
    × Updates.IsValid s'
    × ((t o : ℕ) → order_view s' t o ≡ apply_update (added 7) (order_view snapshot_synthesizer) t o)
    × (s'.last_inc_seq_num ≡ 1)
unfolding snapshot_synthesizer
add_to_snapshot-apply_update_example =
    add_to_snapshot-apply_update (numbered 1 (added 7)) snapshot_synthesizer
      snapshot_synthesizer-IsValid (omega arith) (omega arith)
      (adds 5 refl refl (omega arith) (omega arith) refl) refl

abbrev consumer : MarketDataConsumer
consumer = market_data_consumer update_queue

recv_callback-number_from_example :
    recv_callback false (numbered 1 (added 7) ∷ numbered 2 (added 8) ∷ []) consumer
    ≡ record consumer {
      next_exp_inc_seq_num = 3;
      incoming_md_updates = push_list (added 7 ∷ added 8 ∷ []) update_queue;
    }
unfolding number_from
recv_callback-number_from_example = recv_callback-number_from (added 7 ∷ added 8 ∷ []) consumer refl

-- One live order; the last update in the snapshot is number 4.
abbrev synthesizer_one : SnapshotSynthesizer
synthesizer_one = record {
  ticker_orders = λ t o. if t == 0 && o == 7 then some 0 else none;
  last_inc_seq_num = 4;
  order_pool = record {
    size = 3;
    store = λ i. record { object = added 7; is_free = not (i == 0) };
    next_free_index = 1;
  };
}

synthesizer_one-KeepsEvents : KeepsEvents synthesizer_one
synthesizer_one-KeepsEvents t o u e = ground arith

-- The consumer has lost update 3 and has queued updates 4 to 6.
abbrev consumer_behind : MarketDataConsumer
consumer_behind = record {
  next_exp_inc_seq_num = 3;
  in_recovery = true;
  snapshot_queued_msgs = [];
  incremental_queued_msgs = keyed 4 (added 7 ∷ added 8 ∷ added 9 ∷ []);
  incoming_md_updates = update_queue;
}

recv_callback-publish_snapshot_example :
    (body : List MeMarketUpdate) × SnapshotBody (order_view synthesizer_one) me_max_tickers 0 body
    × (recv_callback true (publish_snapshot synthesizer_one) consumer_behind
        ≡ recovered 4 4 (added 7 ∷ added 8 ∷ added 9 ∷ []) body consumer_behind)
recv_callback-publish_snapshot_example =
    recv_callback-publish_snapshot synthesizer_one consumer_behind 4
      (added 7 ∷ added 8 ∷ added 9 ∷ []) synthesizer_one-KeepsEvents refl refl refl (omega arith)
      (omega arith)
