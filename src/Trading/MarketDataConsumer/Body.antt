-- ===== src/Trading/MarketDataConsumer/Body.antt =====
-- What the snapshot of exchange/market_data/snapshot_synthesizer.cpp should say between its first and
-- its last message.
use trading_ecosystem.Prelude.{
  ℕ, zero, suc, ◌+◌, ◌<◌, ◌≡◌, refl, Option, none, some, List, [], ◌∷◌, ◌++◌, arith,
}
use trading_ecosystem.Common.Types.{me_max_order_ids}
use trading_ecosystem.Exchange.Messages.{MarketUpdateType, MeMarketUpdate}
use trading_ecosystem.Exchange.SnapshotSynthesizer.{tickers_from, orders_from, clear_message}

-- The live orders from the identifier `i` to below `hi`, in the order of their identifiers
pub data LiveOrders (view : ℕ → Option MeMarketUpdate) (hi : ℕ)
    : ℕ → List MeMarketUpdate → Type 0 where
  finished : LiveOrders view hi hi []
  skips :
      (i : ℕ) (us : List MeMarketUpdate)
      → i < hi
      → view i ≡ none
      → LiveOrders view hi (i + 1) us
      → LiveOrders view hi i us
  lists :
      (i : ℕ) (u : MeMarketUpdate) (us : List MeMarketUpdate)
      → i < hi
      → view i ≡ some u
      → LiveOrders view hi (i + 1) us
      → LiveOrders view hi i (u ∷ us)

-- For each instrument from `t` to below `hi`, a clear message and then its live orders
pub data SnapshotBody (view : ℕ → ℕ → Option MeMarketUpdate) (hi : ℕ)
    : ℕ → List MeMarketUpdate → Type 0 where
  complete : SnapshotBody view hi hi []
  instrument :
      (t : ℕ) (first : MeMarketUpdate) (orders rest : List MeMarketUpdate)
      → t < hi
      → first.kind ≡ MarketUpdateType.clear
      → first.ticker_id ≡ t
      → LiveOrders (view t) me_max_order_ids 0 orders
      → SnapshotBody view hi (t + 1) rest
      → SnapshotBody view hi t (first ∷ (orders ++ rest))

pub orders_from-LiveOrders :
    (k i hi : ℕ) (view : ℕ → Option MeMarketUpdate)
    → hi ≡ i + k
    → LiveOrders view hi i (orders_from k i view)
unfolding orders_from
orders_from-LiveOrders zero i hi view e = let same : hi ≡ i = omega arith in rw same finished
orders_from-LiveOrders (suc k) i hi view e =
    by_order (view i) refl (orders_from-LiveOrders k (i + 1) hi view (omega arith))
  where
    by_order :
        (o : Option MeMarketUpdate)
        → view i ≡ o
        → LiveOrders view hi (i + 1) (orders_from k (i + 1) view)
        → LiveOrders view hi i (orders_from (suc k) i view)
    by_order none empty rest = rw (empty, orders_from) (skips i _ (omega arith) empty rest)
    by_order (some u) kept rest = rw (kept, orders_from) (lists i u _ (omega arith) kept rest)

pub tickers_from-SnapshotBody :
    (k t hi : ℕ) (view : ℕ → ℕ → Option MeMarketUpdate)
    → hi ≡ t + k
    → SnapshotBody view hi t (tickers_from k t view)
unfolding tickers_from
tickers_from-SnapshotBody zero t hi view e = let same : hi ≡ t = omega arith in rw same complete
tickers_from-SnapshotBody (suc k) t hi view e =
    instrument t (clear_message t) (orders_from me_max_order_ids 0 (view t))
      (tickers_from k (t + 1) view) (omega arith) refl refl
      (orders_from-LiveOrders me_max_order_ids 0 me_max_order_ids (view t) (omega arith))
      (tickers_from-SnapshotBody k (t + 1) hi view (omega arith))
