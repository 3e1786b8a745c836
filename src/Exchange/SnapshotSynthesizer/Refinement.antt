-- ===== src/Exchange/SnapshotSynthesizer/Refinement.antt =====
-- `addToSnapshot` of exchange/market_data/snapshot_synthesizer.cpp against the map of live orders.
use mathlib.Core.Option
use trading_ecosystem.Prelude.{
  ℕ, ◌+◌, ◌<◌, ◌≡◌, refl, sym, ap, ◌∙◌, ◌≢◌, true, false, none, some, arith, update, Outcome, ok,
}
use trading_ecosystem.Common.Types.{me_max_order_ids, me_max_tickers}
use trading_ecosystem.Common.MemPool.{MemPool, block, free_at, object_at, set_object}
use trading_ecosystem.Common.MemPool.Laws as Pool
use trading_ecosystem.Common.MemPool.Laws.{allocate-Allocated, deallocate-ok}
use trading_ecosystem.Exchange.Messages.{MeMarketUpdate, MdpMarketUpdate, add, modify, cancel}
use trading_ecosystem.Exchange.SnapshotSynthesizer.{
  SnapshotSynthesizer, side_eq, order_view, add_order, find_order, modify_order, cancel_order,
  change_orders, add_to_snapshot,
}
use trading_ecosystem.Exchange.SnapshotSynthesizer.Updates.{
  Orders, apply_update, change, IsValid, Fits, adds, modifies, cancels, set_entry, with_order,
  added-IsValid, added-view, removed-IsValid, removed-view, changed-IsValid, changed-view,
}

abbrev Refines : MeMarketUpdate → SnapshotSynthesizer → Outcome SnapshotSynthesizer → Type 0
Refines u s result =
    (s' : SnapshotSynthesizer) × (result ≡ ok s')
    × IsValid s'
    × ((t o : ℕ) → order_view s' t o ≡ apply_update u (order_view s) t o)
    × (s'.last_inc_seq_num ≡ s.last_inc_seq_num)

apply_point : {A : Type 0} {f g : ℕ → A} → f ≡ g → (q : ℕ) → f q ≡ g q
apply_point e q = ap (λ h. h q) e

module _ (u : MeMarketUpdate) (orders : Orders) (t o : ℕ) where
  apply_add :
      u.kind ≡ add
      → apply_update u orders t o ≡ set_entry orders u.ticker_id u.order_id (some u) t o
  unfolding apply_update
  apply_add e = ground arith

  apply_cancel :
      u.kind ≡ cancel → apply_update u orders t o ≡ set_entry orders u.ticker_id u.order_id none t o
  unfolding apply_update
  apply_cancel e = ground arith

  apply_modify :
      u.kind ≡ modify
      → apply_update u orders t o
        ≡ set_entry orders u.ticker_id u.order_id
            (Option.map (change u) (orders u.ticker_id u.order_id))
            t
            o
  unfolding apply_update
  apply_modify e = ground arith

module _ (u : MeMarketUpdate) (s : SnapshotSynthesizer) (v : IsValid s)
    (small : u.order_id < me_max_order_ids) where
  find_order-ok :
      (p : ℕ)
      → s.ticker_orders u.ticker_id u.order_id ≡ some p
      → side_eq (object_at s.order_pool p).side u.side ≡ true
      → find_order u s ≡ ok p
  unfolding find_order
  find_order-ok p e side = ground (arith, v.labelled u.ticker_id u.order_id p)

  add_order-Refines :
      (j : ℕ)
      → u.kind ≡ add
      → s.ticker_orders u.ticker_id u.order_id ≡ none
      → j < s.order_pool.size
      → j ≢ s.order_pool.next_free_index
      → free_at s.order_pool j ≡ true
      → Refines u s (add_order u s)
  unfolding add_order
  add_order-Refines j is_add new hj ne free =
      let ((p, pool), e, a) = allocate-Allocated s.order_pool u j v.pool hj ne free in
      let at = apply_point a.store in
      (
        with_order u s v (some p) pool,
        ground arith,
        added-IsValid u s v p pool a.valid a.size at a.elem_in a.was_free,
        λ t o.
            added-view u s v p pool a.valid a.size at a.elem_in a.was_free t o
            ∙ sym (apply_add u (order_view s) t o is_add),
        refl,
      )

  cancel_order-Refines :
      (p : ℕ)
      → u.kind ≡ cancel
      → s.ticker_orders u.ticker_id u.order_id ≡ some p
      → side_eq (object_at s.order_pool p).side u.side ≡ true
      → Refines u s (cancel_order u s)
  unfolding cancel_order
  cancel_order-Refines p is_cancel known side =
      let (p_in, used) = v.used u.ticker_id u.order_id p known in
      let (pool, e, valid, size, store) = deallocate-ok s.order_pool p v.pool p_in used in
      let at = apply_point store in
      (
        with_order u s v none pool,
        ground (arith, find_order-ok p known side),
        removed-IsValid u s v p pool valid size at known,
        λ t o.
            removed-view u s v p pool valid size at known t o
            ∙ sym (apply_cancel u (order_view s) t o is_cancel),
        refl,
      )

  modify_order-Refines :
      (p : ℕ)
      → u.kind ≡ modify
      → s.ticker_orders u.ticker_id u.order_id ≡ some p
      → side_eq (object_at s.order_pool p).side u.side ≡ true
      → Refines u s (modify_order u s)
  unfolding modify_order set_object
  modify_order-Refines p is_modify known side =
      let (p_in, used) = v.used u.ticker_id u.order_id p known in
      let at : (q : ℕ)
          → pool.store q
            ≡ update s.order_pool.store p (block (change u (object_at s.order_pool p)) false) q =
        λ q. ground arith in
      let valid : Pool.IsValid pool = record {
        cursor_in = v.pool.cursor_in;
        cursor_free = ground (arith, v.pool.cursor_free);
      } in
      (
        record s { order_pool = pool },
        ground (arith, find_order-ok p known side),
        changed-IsValid u s v p pool valid refl at known,
        λ t o.
            changed-view u s v p pool valid refl at known t o
            ∙ sym (apply_modify u (order_view s) t o is_modify),
        refl,
      )
    where
      pool : MemPool MeMarketUpdate
      pool = set_object s.order_pool p (change u (object_at s.order_pool p))

change_orders-Refines :
    (u : MeMarketUpdate) (s : SnapshotSynthesizer)
    → IsValid s
    → u.order_id < me_max_order_ids
    → Fits u s
    → Refines u s (change_orders u s)
unfolding change_orders
change_orders-Refines u s v small (adds j k new hj ne free) =
    let (s', e, v', view, last) = add_order-Refines u s v small j k new hj ne free in
    (s', ground arith, v', view, last)
change_orders-Refines u s v small (modifies p k known side) =
    let (s', e, v', view, last) = modify_order-Refines u s v small p k known side in
    (s', ground arith, v', view, last)
change_orders-Refines u s v small (cancels p k known side) =
    let (s', e, v', view, last) = cancel_order-Refines u s v small p k known side in
    (s', ground arith, v', view, last)

-- An update that fits, with the next sequence number, for an instrument and an order identifier in range, is processed: the live orders afterwards are those that the specification `apply_update` gives, the state stays valid, and the sequence number is remembered.
pub add_to_snapshot-apply_update :
    (m : MdpMarketUpdate) (s : SnapshotSynthesizer)
    → IsValid s
    → m.me_market_update.ticker_id < me_max_tickers
    → m.me_market_update.order_id < me_max_order_ids
    → Fits m.me_market_update s
    → m.seq_num ≡ s.last_inc_seq_num + 1
    → (s' : SnapshotSynthesizer) × (add_to_snapshot m s ≡ ok s')
      × IsValid s'
      × ((t o : ℕ) → order_view s' t o ≡ apply_update m.me_market_update (order_view s) t o)
      × (s'.last_inc_seq_num ≡ m.seq_num)
unfolding add_to_snapshot
add_to_snapshot-apply_update m s v ticker small fits next =
    let (s', e, v', view, last) = change_orders-Refines m.me_market_update s v small fits in
    (
      record s' { last_inc_seq_num = m.seq_num },
      ground arith,
      record { pool = v'.pool; used = v'.used; apart = v'.apart; labelled = v'.labelled },
      view,
      refl,
    )
