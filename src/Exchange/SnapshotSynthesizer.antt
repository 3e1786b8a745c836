-- ===== src/Exchange/SnapshotSynthesizer.antt =====
-- exchange/market_data/snapshot_synthesizer.cpp: every live order of every instrument, kept from the
-- incremental updates, and the snapshot that is published from it. A pointer is a block of the pool.
pub mod Updates
pub mod Refinement
use trading_ecosystem.Prelude.{
  ℕ, zero, suc, ◌+◌, ◌-◌, ◌*◌, ◌/◌, ◌%◌, ◌^◌, ◌≤◌, ◌<◌, min, ◌≡◌, refl, sym, ap, ◌∙◌, ◌≢◌, ◌↔◌, ◌⊎◌,
  inl, inr, Bool, true, false, not, ◌&&◌, ◌||◌, Option, none, some, List, [], ◌∷◌, ◌++◌, map, arith,
  ltb, leb, ◌==◌, if◌then◌else◌, ==_iff, ==_refl, Bool-cases, Option-cases, length, length-append,
  length-Perm, nil_of_length, update, All, All-append, Fault, assertion, null_pointer, out_of_range,
  out_of_fuel, Outcome, ok, failed, ◌>>=◌, ◌>>◌, assert, in_range, deref, >>=-eq-ok,
}
use trading_ecosystem.Prelude.Int.{pos}
use trading_ecosystem.Common.Types
use trading_ecosystem.Common.Types.{
  Side, me_max_tickers, me_max_order_ids, order_id_invalid, qty_invalid, price_invalid,
  priority_invalid,
}
use trading_ecosystem.Common.MemPool.{
  MemPool, mem_pool, allocate, deallocate, object_at, set_object,
}
use trading_ecosystem.Common.LfQueue.{LfQueue, get_next_to_read, update_read_index}
use trading_ecosystem.Exchange.Messages
use trading_ecosystem.Exchange.Messages.{MarketUpdateType, MeMarketUpdate, MdpMarketUpdate}
use trading_ecosystem.Exchange.MarketDataPublisher.{number_from}

pub record SnapshotSynthesizer : Type 0 where
  pub ticker_orders : ℕ → ℕ → Option ℕ
  pub last_inc_seq_num : ℕ
  pub order_pool : MemPool MeMarketUpdate

-- `MEMarketUpdate()`
abbrev pub default_update : MeMarketUpdate
default_update = record {
  kind = MarketUpdateType.invalid;
  order_id = order_id_invalid;
  ticker_id = qty_invalid;
  side = Types.Side.invalid;
  price = price_invalid;
  qty = qty_invalid;
  priority = priority_invalid;
}

-- The constructor's settings.
unfoldable pub snapshot_synthesizer : SnapshotSynthesizer
unfolding mem_pool
snapshot_synthesizer = record {
  ticker_orders = λ _ _. none;
  last_inc_seq_num = 0;
  order_pool = mem_pool default_update me_max_order_ids;
}

abbrev pub side_eq : Side → Side → Bool
side_eq Types.Side.invalid Types.Side.invalid = true
side_eq Types.Side.buy Types.Side.buy = true
side_eq Types.Side.sell Types.Side.sell = true
side_eq Types.Side.max Types.Side.max = true
side_eq _ _ = false

-- `orders->at(order_id)`
abbrev pub order_at : ℕ → ℕ → SnapshotSynthesizer → Outcome (Option ℕ)
order_at ticker_id order_id s =
    in_range (ltb order_id me_max_order_ids) >> ok (s.ticker_orders ticker_id order_id)

abbrev pub set_order_at : ℕ → ℕ → Option ℕ → SnapshotSynthesizer → SnapshotSynthesizer
set_order_at ticker_id order_id p s = record s {
  ticker_orders = update s.ticker_orders ticker_id (update (s.ticker_orders ticker_id) order_id p);
}

unfoldable pub add_order : MeMarketUpdate → SnapshotSynthesizer → Outcome SnapshotSynthesizer
add_order u s = do
  found ← order_at u.ticker_id u.order_id s
  assert (elim found [ none ↦ true | some _ ↦ false ])
  (p, pool) ← allocate s.order_pool u
  ok (set_order_at u.ticker_id u.order_id (some p) (record s { order_pool = pool }))

-- The checks that `MODIFY` and `CANCEL` share; the result is the order.
unfoldable pub find_order : MeMarketUpdate → SnapshotSynthesizer → Outcome ℕ
find_order u s = do
  found ← order_at u.ticker_id u.order_id s
  elim found [
    | none ↦ failed assertion
    | some p ↦ do
      assert ((object_at s.order_pool p).order_id == u.order_id)
      assert (side_eq (object_at s.order_pool p).side u.side)
      ok p
  ]

unfoldable pub modify_order : MeMarketUpdate → SnapshotSynthesizer → Outcome SnapshotSynthesizer
unfolding find_order
modify_order u s = do
  p ← find_order u s
  let changed = record (object_at s.order_pool p) { qty = u.qty; price = u.price }
  ok (record s { order_pool = set_object s.order_pool p changed })

unfoldable pub cancel_order : MeMarketUpdate → SnapshotSynthesizer → Outcome SnapshotSynthesizer
unfolding find_order
cancel_order u s = do
  p ← find_order u s
  pool ← deallocate s.order_pool p
  ok (set_order_at u.ticker_id u.order_id none (record s { order_pool = pool }))

-- The `switch` of `addToSnapshot`
unfoldable pub change_orders : MeMarketUpdate → SnapshotSynthesizer → Outcome SnapshotSynthesizer
change_orders u s = elim u.kind [
  | MarketUpdateType.add ↦ add_order u s
  | MarketUpdateType.modify ↦ modify_order u s
  | MarketUpdateType.cancel ↦ cancel_order u s
  | _ ↦ ok s
]

-- `addToSnapshot`
unfoldable pub add_to_snapshot : MdpMarketUpdate → SnapshotSynthesizer → Outcome SnapshotSynthesizer
add_to_snapshot m s = do
  in_range (ltb m.me_market_update.ticker_id me_max_tickers)
  s ← change_orders m.me_market_update s
  assert (m.seq_num == s.last_inc_seq_num + 1)
  ok (record s { last_inc_seq_num = m.seq_num })

-- The live orders of one instrument from index `i` on, of `k` indices.
unfoldable pub orders_from : ℕ → ℕ → (ℕ → Option MeMarketUpdate) → List MeMarketUpdate
orders_from zero i view = []
orders_from (suc k) i view =
    let rest = orders_from k (i + 1) view in elim (view i) [ none ↦ rest | some u ↦ u ∷ rest ]

-- The order behind a pointer of `ticker_orders_`
abbrev pub order_view : SnapshotSynthesizer → ℕ → ℕ → Option MeMarketUpdate
order_view s ticker_id order_id = elim (s.ticker_orders ticker_id order_id) [
  | none ↦ none
  | some p ↦ some (object_at s.order_pool p)
]

abbrev pub clear_message : ℕ → MeMarketUpdate
clear_message ticker_id = record default_update {
  kind = MarketUpdateType.clear;
  ticker_id = ticker_id;
}

-- A clear message and the orders of each instrument, for `k` instruments from `ticker_id` on.
unfoldable pub tickers_from : ℕ → ℕ → (ℕ → ℕ → Option MeMarketUpdate) → List MeMarketUpdate
tickers_from zero ticker_id view = []
tickers_from (suc k) ticker_id view =
    clear_message ticker_id ∷ orders_from me_max_order_ids 0 (view ticker_id)
    ++ tickers_from k (ticker_id + 1) view

abbrev pub start_message : ℕ → MeMarketUpdate
start_message n = record default_update { kind = MarketUpdateType.snapshot_start; order_id = n }

abbrev pub end_message : ℕ → MeMarketUpdate
end_message n = record default_update { kind = MarketUpdateType.snapshot_end; order_id = n }

-- `publishSnapshot`: what it sends on the snapshot socket, numbered by `snapshot_size++`
unfoldable pub publish_snapshot : SnapshotSynthesizer → List MdpMarketUpdate
publish_snapshot s = number_from 0 (
    start_message s.last_inc_seq_num ∷ tickers_from me_max_tickers 0 (order_view s)
    ++ end_message s.last_inc_seq_num ∷ [])

-- The inner loop of `run`: it empties the queue of the publisher.
unfoldable pub update_loop :
    ℕ
    → LfQueue MdpMarketUpdate
    → SnapshotSynthesizer
    → Outcome (LfQueue MdpMarketUpdate × SnapshotSynthesizer)
update_loop zero q s = failed out_of_fuel
update_loop (suc fuel) q s = elim (get_next_to_read q) [
  | none ↦ ok (q, s)
  | some m ↦ add_to_snapshot m s >>= λ s. update_read_index q >>= λ q. update_loop fuel q s
]
