-- ===== src/Exchange/SnapshotSynthesizer/Updates.antt =====
-- The abstract view of exchange/market_data/snapshot_synthesizer.cpp: a map from instruments and
-- order identifiers to orders.
use mathlib.Core.Option
use trading_ecosystem.Prelude.{
  ℕ, ◌<◌, ◌≡◌, ◌≢◌, inl, inr, true, false, Option, none, some, arith, Option-cases, update, Outcome,
  ok,
}
use trading_ecosystem.Common.MemPool.{MemPool, block, free_at, object_at}
use trading_ecosystem.Common.MemPool.Laws as Pool
use trading_ecosystem.Common.MemPool.Laws.{Allocated, allocate-Allocated, deallocate-ok}
use trading_ecosystem.Exchange.Messages.{MeMarketUpdate, add, modify, cancel}
use trading_ecosystem.Exchange.SnapshotSynthesizer.{SnapshotSynthesizer, side_eq, order_view}

abbrev pub Orders : Type 0
Orders = ℕ → ℕ → Option MeMarketUpdate

-- One entry of the map is given a value.
abbrev pub set_entry : Orders → ℕ → ℕ → Option MeMarketUpdate → Orders
set_entry orders t o v = update orders t (update (orders t) o v)

abbrev pub change : MeMarketUpdate → MeMarketUpdate → MeMarketUpdate
change u old = record old { qty = u.qty; price = u.price }

-- The specification: what an update does to the map of live orders.
unfoldable pub apply_update : MeMarketUpdate → Orders → Orders
apply_update u orders = elim u.kind [
  | add ↦ set_entry orders u.ticker_id u.order_id (some u)
  | modify ↦
      set_entry orders u.ticker_id u.order_id
        (Option.map (change u) (orders u.ticker_id u.order_id))
  | cancel ↦ set_entry orders u.ticker_id u.order_id none
  | _ ↦ orders
]

-- Every pointer is to a used block of its own, which holds the order of that identifier.
pub record IsValid (s : SnapshotSynthesizer) : Type 0 where
  pub pool : Pool.IsValid s.order_pool
  pub used :
      (t o p : ℕ)
      → s.ticker_orders t o ≡ some p
      → (p < s.order_pool.size) × (free_at s.order_pool p ≡ false)
  pub apart :
      (t o t' o' p : ℕ)
      → s.ticker_orders t o ≡ some p
      → s.ticker_orders t' o' ≡ some p
      → (t ≡ t') × (o ≡ o')
  pub labelled :
      (t o p : ℕ) → s.ticker_orders t o ≡ some p → (object_at s.order_pool p).order_id ≡ o

-- What the incremental stream promises of an update: a new order is not yet known, and fits in the pool; a changed or cancelled order is known, with that side.
pub data Fits (u : MeMarketUpdate) (s : SnapshotSynthesizer) : Type 0 where
  adds :
      (j : ℕ)
      → u.kind ≡ add
      → s.ticker_orders u.ticker_id u.order_id ≡ none
      → j < s.order_pool.size
      → j ≢ s.order_pool.next_free_index
      → free_at s.order_pool j ≡ true
      → Fits u s
  modifies :
      (p : ℕ)
      → u.kind ≡ modify
      → s.ticker_orders u.ticker_id u.order_id ≡ some p
      → side_eq (object_at s.order_pool p).side u.side ≡ true
      → Fits u s
  cancels :
      (p : ℕ)
      → u.kind ≡ cancel
      → s.ticker_orders u.ticker_id u.order_id ≡ some p
      → side_eq (object_at s.order_pool p).side u.side ≡ true
      → Fits u s

abbrev Refines : MeMarketUpdate → SnapshotSynthesizer → Outcome SnapshotSynthesizer → Type 0
Refines u s result =
    (s' : SnapshotSynthesizer) × (result ≡ ok s')
    × IsValid s'
    × ((t o : ℕ) → order_view s' t o ≡ apply_update u (order_view s) t o)
    × (s'.last_inc_seq_num ≡ s.last_inc_seq_num)

module _ (u : MeMarketUpdate) (s : SnapshotSynthesizer) (v : IsValid s) where
  -- The state with another pool, and another pointer at the place of the update.
  abbrev pub with_order : Option ℕ → MemPool MeMarketUpdate → SnapshotSynthesizer
  with_order q pool = record s {
    order_pool = pool;
    ticker_orders =
        update s.ticker_orders u.ticker_id (update (s.ticker_orders u.ticker_id) u.order_id q);
  }

  module _ (p : ℕ) (pool : MemPool MeMarketUpdate) (valid : Pool.IsValid pool)
      (size : pool.size ≡ s.order_pool.size) where
    module _ (at : (q : ℕ) → pool.store q ≡ update s.order_pool.store p (block u false) q)
        (p_in : p < s.order_pool.size) (was_free : free_at s.order_pool p ≡ true) where
      added-used :
          (t o q : ℕ)
          → (with_order (some p) pool).ticker_orders t o ≡ some q
          → (q < pool.size) × (free_at pool q ≡ false)
      added-used t o q e = ground (arith, v.used t o q, at q)

      added-apart :
          (t o t' o' q : ℕ)
          → (with_order (some p) pool).ticker_orders t o ≡ some q
          → (with_order (some p) pool).ticker_orders t' o' ≡ some q
          → (t ≡ t') × (o ≡ o')
      added-apart t o t' o' q e e' =
          ground (arith, v.used t o q, v.used t' o' q, v.apart t o t' o' q)

      added-labelled :
          (t o q : ℕ)
          → (with_order (some p) pool).ticker_orders t o ≡ some q
          → (object_at pool q).order_id ≡ o
      added-labelled t o q e = ground (arith, v.used t o q, v.labelled t o q, at q)

      pub added-IsValid : IsValid (with_order (some p) pool)
      added-IsValid = record {
        pool = valid;
        used = added-used;
        apart = added-apart;
        labelled = added-labelled;
      }

      pub added-view :
          (t o : ℕ)
          → order_view (with_order (some p) pool) t o
            ≡ set_entry (order_view s) u.ticker_id u.order_id (some u) t o
      added-view t o = elim (Option-cases (s.ticker_orders t o)) [
        | inl unknown ↦ ground (arith, at p)
        | inr (q, known) ↦ ground (arith, at p, at q, v.used t o q)
      ]

    module _
        (at : (q : ℕ)
          → pool.store q ≡ update s.order_pool.store p (block (object_at s.order_pool p) true) q)
        (known : s.ticker_orders u.ticker_id u.order_id ≡ some p) where
      removed-used :
          (t o q : ℕ)
          → (with_order none pool).ticker_orders t o ≡ some q
          → (q < pool.size) × (free_at pool q ≡ false)
      removed-used t o q e =
          ground (arith, v.used t o q, at q, v.apart t o u.ticker_id u.order_id p)

      removed-apart :
          (t o t' o' q : ℕ)
          → (with_order none pool).ticker_orders t o ≡ some q
          → (with_order none pool).ticker_orders t' o' ≡ some q
          → (t ≡ t') × (o ≡ o')
      removed-apart t o t' o' q e e' = ground (arith, v.apart t o t' o' q)

      removed-labelled :
          (t o q : ℕ)
          → (with_order none pool).ticker_orders t o ≡ some q
          → (object_at pool q).order_id ≡ o
      removed-labelled t o q e = ground (arith, v.labelled t o q, at q)

      pub removed-IsValid : IsValid (with_order none pool)
      removed-IsValid = record {
        pool = valid;
        used = removed-used;
        apart = removed-apart;
        labelled = removed-labelled;
      }

      pub removed-view :
          (t o : ℕ)
          → order_view (with_order none pool) t o
            ≡ set_entry (order_view s) u.ticker_id u.order_id none t o
      removed-view t o = elim (Option-cases (s.ticker_orders t o)) [
        | inl unknown ↦ ground arith
        | inr (q, e) ↦ ground (arith, at q)
      ]

    module _
        (at : (q : ℕ)
          → pool.store q
            ≡ update s.order_pool.store p (block (change u (object_at s.order_pool p)) false) q)
        (known : s.ticker_orders u.ticker_id u.order_id ≡ some p) where
      abbrev changed : SnapshotSynthesizer
      changed = record s { order_pool = pool }

      pub changed-IsValid : IsValid changed
      changed-IsValid = record {
        pool = valid;
        used = λ t o q e. ground (arith, v.used t o q e, at q);
        apart = v.apart;
        labelled = λ t o q e. ground (arith, v.labelled t o q e, at q);
      }

      pub changed-view :
          (t o : ℕ)
          → order_view changed t o
            ≡ set_entry
                (order_view s)
                u.ticker_id
                u.order_id
                (Option.map (change u) (order_view s u.ticker_id u.order_id))
                t
                o
      changed-view t o = elim (Option-cases (s.ticker_orders t o)) [
        | inl unknown ↦ ground (arith, at p)
        | inr (q, e) ↦ ground (arith, at q, at p, v.apart t o u.ticker_id u.order_id p)
      ]
