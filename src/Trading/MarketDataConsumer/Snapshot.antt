-- ===== src/Trading/MarketDataConsumer/Snapshot.antt =====
-- The consumer reads a whole snapshot of the exchange's snapshot synthesizer.
use mathlib.Core.List.{append_assoc, append-nil}
use trading_ecosystem.Prelude.{
  ℕ, zero, suc, ◌+◌, ◌≤◌, ◌≡◌, refl, sym, ap, ◌∙◌, true, false, Option, none, some, List, [], ◌∷◌,
  ◌++◌, arith, length, length-append, All, All-append,
}
use trading_ecosystem.Common.Types.{me_max_tickers, me_max_order_ids}
use trading_ecosystem.Exchange.Messages.{MeMarketUpdate, MdpMarketUpdate}
use trading_ecosystem.Exchange.MarketDataPublisher.{number_from, numbered}
use trading_ecosystem.Exchange.SnapshotSynthesizer.{
  SnapshotSynthesizer, publish_snapshot, tickers_from, orders_from, order_view, start_message,
  end_message, clear_message,
}
use trading_ecosystem.Trading.MarketDataConsumer.{
  MarketDataConsumer, is_event, is_snapshot_start, is_snapshot_end, check_snapshot_sync, on_message,
  on_messages, recv_callback,
}
use trading_ecosystem.Trading.MarketDataConsumer.Body.{SnapshotBody, tickers_from-SnapshotBody}
use trading_ecosystem.Trading.MarketDataConsumer.Recovery.{
  keyed, events_of, keep_event-events_of, recovered, check_first, check_partial, check_complete,
  insert-keyed, has_key-keyed,
}

on_message_queued :
    (c : MarketDataConsumer) (m : MdpMarketUpdate) (us : List MeMarketUpdate)
    → c.in_recovery ≡ true
    → c.snapshot_queued_msgs ≡ keyed 0 us
    → m.seq_num ≡ length us
    → on_message true m c
      ≡ check_snapshot_sync
          (record c { snapshot_queued_msgs = keyed 0 (us ++ m.me_market_update ∷ []) })
unfolding on_message
on_message_queued c m us recovery queued next =
    ground (arith, has_key-keyed m.seq_num 0 us, insert-keyed m.seq_num 0 m.me_market_update us)

on_messages-recovered :
    (c : MarketDataConsumer) (first last : MeMarketUpdate) (rest pre : List MeMarketUpdate)
    (k a : ℕ) (us : List MeMarketUpdate)
    → is_snapshot_start first.kind ≡ true
    → is_snapshot_end last.kind ≡ true
    → All (λ u. is_snapshot_end u.kind ≡ false) rest
    → c.in_recovery ≡ true
    → c.snapshot_queued_msgs ≡ keyed 0 (first ∷ pre)
    → k ≡ suc (length pre)
    → c.incremental_queued_msgs ≡ keyed a us
    → a ≤ last.order_id + 1
    → last.order_id + 1 ≤ a + length us
    → on_messages true (number_from k (rest ++ last ∷ [])) c
      ≡ recovered last.order_id a us (events_of (first ∷ pre ++ rest ++ last ∷ [])) c
unfolding on_messages number_from
on_messages-recovered c first last [] pre k a us start end no_end recovery queued next incs lo hi =
    on_message_queued c (numbered k last) (first ∷ pre) recovery queued next
    ∙ check_complete (record c { snapshot_queued_msgs = keyed 0 (first ∷ pre ++ last ∷ []) }) first
        last pre a us start end refl incs lo hi
    ∙ ap (λ l. recovered last.order_id a us (events_of (first ∷ (l ++ last ∷ []))) c)
        (sym (append-nil pre))
on_messages-recovered c first last (u ∷ rest) pre k a us start end no_end recovery queued next incs
      lo hi =
    let c' : MarketDataConsumer = record c {
      snapshot_queued_msgs = keyed 0 (first ∷ pre ++ u ∷ []);
    } in
    ap (on_messages true (number_from (k + 1) (rest ++ last ∷ []))) (
      on_message_queued c (numbered k u) (first ∷ pre) recovery queued next
      ∙ check_partial c' first u pre start no_end.0 refl)
    ∙ on_messages-recovered c' first last rest (pre ++ u ∷ []) (k + 1) a us start end no_end.1
        recovery refl (omega (arith, length-append pre (u ∷ []))) incs lo hi
    ∙ ap (λ l. recovered last.order_id a us (events_of (first ∷ l ++ last ∷ [])) c)
        (append_assoc pre (u ∷ []) rest)

in_recovery_reads :
    (ms : List MdpMarketUpdate) (c : MarketDataConsumer)
    → c.in_recovery ≡ true
    → recv_callback true ms c ≡ on_messages true ms c
unfolding recv_callback
in_recovery_reads ms c recovery = ground arith

-- In a recovery with no snapshot message yet, a complete snapshot that is read message by message ends the recovery: its updates are passed on, then the queued updates behind its last one.
recv_callback-recovered :
    (c : MarketDataConsumer) (first last : MeMarketUpdate) (body : List MeMarketUpdate) (a : ℕ)
    (us : List MeMarketUpdate)
    → is_snapshot_start first.kind ≡ true
    → is_snapshot_end first.kind ≡ false
    → is_snapshot_end last.kind ≡ true
    → All (λ u. is_snapshot_end u.kind ≡ false) body
    → c.in_recovery ≡ true
    → c.snapshot_queued_msgs ≡ []
    → c.incremental_queued_msgs ≡ keyed a us
    → a ≤ last.order_id + 1
    → last.order_id + 1 ≤ a + length us
    → recv_callback true (number_from 0 (first ∷ body ++ last ∷ [])) c
      ≡ recovered last.order_id a us (events_of (first ∷ body ++ last ∷ [])) c
unfolding on_messages number_from
recv_callback-recovered c first last body a us start no_end end no_ends recovery queued incs lo hi =
    let c' : MarketDataConsumer = record c { snapshot_queued_msgs = keyed 0 (first ∷ []) } in
    in_recovery_reads (number_from 0 (first ∷ body ++ last ∷ [])) c recovery
    ∙ ap (on_messages true (number_from 1 (body ++ last ∷ []))) (
        on_message_queued c (numbered 0 first) [] recovery queued refl
        ∙ check_first c' first start no_end refl)
    ∙ on_messages-recovered c' first last body [] 1 a us start end no_ends recovery refl refl incs
        lo hi

module _ (P : MeMarketUpdate → Type 0) where
  All-orders_from :
      (k i : ℕ) (view : ℕ → Option MeMarketUpdate)
      → ((o : ℕ) (u : MeMarketUpdate) → view o ≡ some u → P u)
      → All P (orders_from k i view)
  unfolding orders_from
  All-orders_from zero i view h = tt
  All-orders_from (suc k) i view h = by_order (view i) refl (All-orders_from k (i + 1) view h)
    where
      by_order :
          (o : Option MeMarketUpdate)
          → view i ≡ o
          → All P (orders_from k (i + 1) view)
          → All P (orders_from (suc k) i view)
      by_order none e rest = rw (e, orders_from) rest
      by_order (some u) e rest = rw (e, orders_from) (h i u e, rest)

  All-tickers_from :
      (k t : ℕ) (view : ℕ → ℕ → Option MeMarketUpdate)
      → ((t o : ℕ) (u : MeMarketUpdate) → view t o ≡ some u → P u)
      → ((t : ℕ) → P (clear_message t))
      → All P (tickers_from k t view)
  unfolding tickers_from
  All-tickers_from zero t view h clear = tt
  All-tickers_from (suc k) t view h clear = (
    clear t,
    All-append P (orders_from me_max_order_ids 0 (view t)) (tickers_from k (t + 1) view)
        (All-orders_from me_max_order_ids 0 (view t) (h t))
        (All-tickers_from k (t + 1) view h clear),
  )

events_of-All :
    (us : List MeMarketUpdate) (last : MeMarketUpdate)
    → All (λ u. is_event u ≡ true) us
    → is_event last ≡ false
    → events_of (us ++ last ∷ []) ≡ us
events_of-All [] last h e = ground (arith, keep_event-events_of last [])
events_of-All (u ∷ us) last h e =
    ground (arith, keep_event-events_of u (us ++ last ∷ []), events_of-All us last h.1 e)

-- Every order that the synthesizer keeps was added by an update that is no message of a snapshot.
abbrev pub KeepsEvents : SnapshotSynthesizer → Type 0
KeepsEvents s = (t o : ℕ) (u : MeMarketUpdate) → order_view s t o ≡ some u → is_event u ≡ true

-- A consumer in a recovery, with no snapshot message yet, that has queued the incremental updates `us` from number `a` on without a gap, reaching from the end of the snapshot on, reads the snapshot of the exchange and has recovered: it writes to the queue of the trade engine, for each instrument, a clear message and all its live orders, by their identifiers, then the queued updates behind the snapshot, and expects the next one.
pub recv_callback-publish_snapshot :
    (s : SnapshotSynthesizer) (c : MarketDataConsumer) (a : ℕ) (us : List MeMarketUpdate)
    → KeepsEvents s
    → c.in_recovery ≡ true
    → c.snapshot_queued_msgs ≡ []
    → c.incremental_queued_msgs ≡ keyed a us
    → a ≤ s.last_inc_seq_num + 1
    → s.last_inc_seq_num + 1 ≤ a + length us
    → (body : List MeMarketUpdate) × SnapshotBody (order_view s) me_max_tickers 0 body
      × (recv_callback true (publish_snapshot s) c ≡ recovered s.last_inc_seq_num a us body c)
unfolding publish_snapshot
recv_callback-publish_snapshot s c a us keeps recovery queued incs lo hi = (
  body,
  tickers_from-SnapshotBody me_max_tickers 0 me_max_tickers (order_view s) (omega arith),
  recv_callback-recovered c (start_message n) (end_message n) body a us refl refl refl
        (All-tickers_from (λ u. is_snapshot_end u.kind ≡ false) me_max_tickers 0 (order_view s)
          (λ t o u e. no_end u (keeps t o u e)) (λ t. refl))
        recovery queued incs lo hi
      ∙ ap (λ events. recovered n a us events c)
          (events_of-All body (end_message n)
            (All-tickers_from (λ u. is_event u ≡ true) me_max_tickers 0 (order_view s) keeps
              (λ t. refl))
            refl),
)
  where
    n : ℕ
    n = s.last_inc_seq_num

    body : List MeMarketUpdate
    body = tickers_from me_max_tickers 0 (order_view s)

    no_end : (u : MeMarketUpdate) → is_event u ≡ true → is_snapshot_end u.kind ≡ false
    no_end u e = ground arith
