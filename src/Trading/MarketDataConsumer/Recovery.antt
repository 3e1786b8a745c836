-- ===== src/Trading/MarketDataConsumer/Recovery.antt =====
-- A recovery of the consumer, from the messages of a complete snapshot.
use trading_ecosystem.Prelude.{
  ℕ, zero, suc, ◌+◌, ◌-◌, ◌≤◌, ◌≡◌, refl, inl, inr, true, false, some, List, [], ◌∷◌, ◌++◌, arith,
  ltb, ◌==◌, if◌then◌else◌, Bool-cases, length,
}
use trading_ecosystem.Common.LfQueue.Writes.{push_list}
use trading_ecosystem.Exchange.Messages.{MeMarketUpdate, snapshot_start, snapshot_end}
use trading_ecosystem.Trading.MarketDataConsumer.{
  MarketDataConsumer, QueuedMarketUpdates, insert, has_key, keep_event, is_snapshot_start,
  is_snapshot_end, snapshot_events, incremental_events, last_message, check_incrementals,
  check_snapshot_sync,
}

-- Updates under the keys from `n` on.
abbrev pub keyed : ℕ → List MeMarketUpdate → QueuedMarketUpdates
keyed n [] = []
keyed n (u ∷ us) = (n, u) ∷ keyed (n + 1) us

-- The updates that are to be passed on: all but the two that enclose a snapshot.
abbrev pub events_of : List MeMarketUpdate → List MeMarketUpdate
events_of [] = []
events_of (u ∷ us) =
    let rest = events_of us in
    elim u.kind [ snapshot_start ↦ rest | snapshot_end ↦ rest | _ ↦ u ∷ rest ]

pub keep_event-events_of :
    (u : MeMarketUpdate) (us : List MeMarketUpdate)
    → keep_event u (events_of us) ≡ events_of (u ∷ us)
keep_event-events_of u us = ground arith

abbrev pub drop : ℕ → List MeMarketUpdate → List MeMarketUpdate
drop zero us = us
drop (suc n) [] = []
drop (suc n) (u ∷ us) = drop n us

snapshot_events-keyed :
    (n : ℕ) (us : List MeMarketUpdate) → snapshot_events n (keyed n us) ≡ some (events_of us)
unfolding snapshot_events
snapshot_events-keyed n [] = refl
snapshot_events-keyed n (u ∷ us) =
    ground (arith, snapshot_events-keyed (n + 1) us, keep_event-events_of u us)

drop-nil : (n : ℕ) → drop n [] ≡ []
drop-nil zero = refl
drop-nil (suc n) = refl

drop-cons :
    (n : ℕ) (u : MeMarketUpdate) (us : List MeMarketUpdate)
    → drop n (u ∷ us) ≡ (if n == 0 then u ∷ us else drop (n - 1) us)
drop-cons zero u us = refl
drop-cons (suc n) u us = ground arith

-- Of a run of messages that reaches back to the expected number or further, those from that number on are passed on.
incremental_events-keyed :
    (next a : ℕ) (us : List MeMarketUpdate)
    → a ≤ next
    → next ≤ a + length us
    → incremental_events next (keyed a us) ≡ (some (events_of (drop (next - a) us)), a + length us)
unfolding incremental_events
incremental_events-keyed next a [] lo hi = ground (arith, drop-nil (next - a))
incremental_events-keyed next a (u ∷ us) lo hi = elim (Bool-cases (ltb a next)) [
  | inl old ↦ ground (arith, incremental_events-keyed next (a + 1) us, drop-cons (next - a) u us)
  | inr due ↦ ground (
    arith,
    incremental_events-keyed (next + 1) (a + 1) us,
    drop-cons (next - a) u us,
    keep_event-events_of u us,
  )
]

pub insert-keyed :
    (key n : ℕ) (u : MeMarketUpdate) (us : List MeMarketUpdate)
    → key ≡ n + length us
    → insert key u (keyed n us) ≡ keyed n (us ++ u ∷ [])
unfolding insert
insert-keyed key n u [] e = ground arith
insert-keyed key n u (v ∷ us) e = ground (arith, insert-keyed key (n + 1) u us)

pub has_key-keyed :
    (key n : ℕ) (us : List MeMarketUpdate) → n + length us ≤ key → has_key key (keyed n us) ≡ false
unfolding has_key
has_key-keyed key n [] h = refl
has_key-keyed key n (v ∷ us) h = ground (arith, has_key-keyed key (n + 1) us)

last_message-keyed :
    (first u : MeMarketUpdate) (n : ℕ) (us : List MeMarketUpdate)
    → last_message first (keyed n (us ++ u ∷ [])) ≡ u
last_message-keyed first u n [] = refl
last_message-keyed first u n (v ∷ us) = last_message-keyed v u (n + 1) us

-- What the consumer has after a recovery with a snapshot up to update `n` and the queued updates `us` from number `a` on.
abbrev pub recovered :
    ℕ → ℕ → List MeMarketUpdate → List MeMarketUpdate → MarketDataConsumer → MarketDataConsumer
recovered n a us body c = record {
  next_exp_inc_seq_num = a + length us;
  in_recovery = false;
  snapshot_queued_msgs = [];
  incremental_queued_msgs = [];
  incoming_md_updates = push_list (body ++ events_of (drop (n + 1 - a) us)) c.incoming_md_updates;
}

-- While only the first messages of a snapshot are there, nothing happens.
pub check_partial :
    (c : MarketDataConsumer) (first u : MeMarketUpdate) (us : List MeMarketUpdate)
    → is_snapshot_start first.kind ≡ true
    → is_snapshot_end u.kind ≡ false
    → c.snapshot_queued_msgs ≡ keyed 0 (first ∷ us ++ u ∷ [])
    → check_snapshot_sync c ≡ c
unfolding check_snapshot_sync
check_partial c first u us start no_end e =
    ground (arith, snapshot_events-keyed 0 (first ∷ us ++ u ∷ []), last_message-keyed first u 1 us)

pub check_first :
    (c : MarketDataConsumer) (first : MeMarketUpdate)
    → is_snapshot_start first.kind ≡ true
    → is_snapshot_end first.kind ≡ false
    → c.snapshot_queued_msgs ≡ keyed 0 (first ∷ [])
    → check_snapshot_sync c ≡ c
unfolding check_snapshot_sync
check_first c first start no_end e = ground (arith, snapshot_events-keyed 0 (first ∷ []))

pub check_complete :
    (c : MarketDataConsumer) (first last : MeMarketUpdate) (body : List MeMarketUpdate) (a : ℕ)
    (us : List MeMarketUpdate)
    → is_snapshot_start first.kind ≡ true
    → is_snapshot_end last.kind ≡ true
    → c.snapshot_queued_msgs ≡ keyed 0 (first ∷ body ++ last ∷ [])
    → c.incremental_queued_msgs ≡ keyed a us
    → a ≤ last.order_id + 1
    → last.order_id + 1 ≤ a + length us
    → check_snapshot_sync c ≡ recovered last.order_id a us (events_of (first ∷ body ++ last ∷ [])) c
unfolding check_snapshot_sync check_incrementals
check_complete c first last body a us start end e e' lo hi = ground (
  arith,
  snapshot_events-keyed 0 (first ∷ body ++ last ∷ []),
  last_message-keyed first last 1 body,
  incremental_events-keyed (last.order_id + 1) a us,
)
