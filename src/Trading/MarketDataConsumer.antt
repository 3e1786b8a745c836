-- ===== src/Trading/MarketDataConsumer.antt =====
-- trading/market_data/market_data_consumer.cpp: incremental updates go to the trade engine while their
-- sequence numbers have no gap; a gap starts a recovery, which waits for a complete snapshot and the
-- incremental updates behind it. The two `std::map`s are lists in the order of their keys.
pub mod Body
pub mod Live
pub mod Recovery
pub mod Snapshot
use trading_ecosystem.Prelude.{
  ℕ, zero, suc, ◌+◌, ◌-◌, ◌*◌, ◌/◌, ◌%◌, ◌^◌, ◌≤◌, ◌<◌, min, ◌≡◌, refl, sym, ap, ◌∙◌, ◌≢◌, ◌↔◌, ◌⊎◌,
  inl, inr, Bool, true, false, not, ◌&&◌, ◌||◌, Option, none, some, List, [], ◌∷◌, ◌++◌, map, arith,
  ltb, leb, ◌==◌, if◌then◌else◌, ==_iff, ==_refl, Bool-cases, Option-cases, length, length-append,
  length-Perm, nil_of_length, update, All, All-append, Fault, assertion, null_pointer, out_of_range,
  out_of_fuel, Outcome, ok, failed, ◌>>=◌, ◌>>◌, assert, in_range, deref, >>=-eq-ok,
}
use trading_ecosystem.Common.LfQueue.{LfQueue, push}
use trading_ecosystem.Common.LfQueue.Writes.{push_list}
use trading_ecosystem.Exchange.Messages.{
  MarketUpdateType, MeMarketUpdate, MdpMarketUpdate, snapshot_start, snapshot_end,
}

abbrev pub QueuedMarketUpdates : Type 0
QueuedMarketUpdates = List (ℕ × MeMarketUpdate)

-- `map[key] = u`
unfoldable pub insert : ℕ → MeMarketUpdate → QueuedMarketUpdates → QueuedMarketUpdates
insert key u [] = (key, u) ∷ []
insert key u ((k, v) ∷ m) =
    if ltb key k
    then (key, u) ∷ (k, v) ∷ m
    else if key == k
    then (key, u) ∷ m
    else (k, v) ∷ insert key u m

-- `map.find(key) != map.end()`
unfoldable pub has_key : ℕ → QueuedMarketUpdates → Bool
has_key key [] = false
has_key key ((k, v) ∷ m) = key == k || has_key key m

pub record MarketDataConsumer : Type 0 where
  pub next_exp_inc_seq_num : ℕ
  pub in_recovery : Bool
  pub snapshot_queued_msgs : QueuedMarketUpdates
  pub incremental_queued_msgs : QueuedMarketUpdates
  pub incoming_md_updates : LfQueue MeMarketUpdate

abbrev pub market_data_consumer : LfQueue MeMarketUpdate → MarketDataConsumer
market_data_consumer incoming_md_updates = record {
  next_exp_inc_seq_num = 1;
  in_recovery = false;
  snapshot_queued_msgs = [];
  incremental_queued_msgs = [];
  incoming_md_updates = incoming_md_updates;
}

-- `startSnapshotSync`, less the subscription to the snapshot stream
unfoldable pub start_snapshot_sync : MarketDataConsumer → MarketDataConsumer
start_snapshot_sync c = record c { snapshot_queued_msgs = []; incremental_queued_msgs = [] }

abbrev pub is_snapshot_start : MarketUpdateType → Bool
is_snapshot_start snapshot_start = true
is_snapshot_start _ = false

abbrev pub is_snapshot_end : MarketUpdateType → Bool
is_snapshot_end snapshot_end = true
is_snapshot_end _ = false

-- The message is passed on, as it is not one of the two that enclose a snapshot.
abbrev pub is_event : MeMarketUpdate → Bool
is_event u = not (is_snapshot_start u.kind) && not (is_snapshot_end u.kind)

abbrev pub keep_event : MeMarketUpdate → List MeMarketUpdate → List MeMarketUpdate
keep_event u events = if is_event u then u ∷ events else events

-- The loop over the snapshot messages: their events, or `none` at a gap.
unfoldable pub snapshot_events : ℕ → QueuedMarketUpdates → Option (List MeMarketUpdate)
snapshot_events next [] = some []
snapshot_events next ((k, u) ∷ m) = elim (k == next) [
  | false ↦ none
  | true ↦ elim (snapshot_events (next + 1) m) [
    | none ↦ none
    | some events ↦ some (keep_event u events)
  ]
]

-- The loop over the incremental messages: their events, or `none` at a gap, and the next number that is expected where it stops.
unfoldable pub incremental_events : ℕ → QueuedMarketUpdates → Option (List MeMarketUpdate) × ℕ
incremental_events next [] = (some [], next)
incremental_events next ((k, u) ∷ m) = elim (ltb k next) [
  | true ↦ incremental_events next m
  | false ↦ elim (k == next) [
    | false ↦ (none, next)
    | true ↦
        let rest = incremental_events (next + 1) m in
        (elim rest.0 [ none ↦ none | some events ↦ some (keep_event u events) ], rest.1)
  ]
]

-- `rbegin()->second`, of a map that is not empty
abbrev pub last_message : MeMarketUpdate → QueuedMarketUpdates → MeMarketUpdate
last_message u [] = u
last_message u ((k, v) ∷ m) = last_message v m

abbrev pub clear_snapshot : MarketDataConsumer → MarketDataConsumer
clear_snapshot c = record c { snapshot_queued_msgs = [] }

-- The end of `checkSnapshotSync`, from the complete snapshot on.
unfoldable pub check_incrementals :
    MeMarketUpdate → List MeMarketUpdate → MarketDataConsumer → MarketDataConsumer
unfolding incremental_events push_list
check_incrementals last events c =
    let scan = incremental_events (last.order_id + 1) c.incremental_queued_msgs in
    elim scan.0 [
      | none ↦ clear_snapshot (record c { next_exp_inc_seq_num = scan.1 })
      | some more ↦ record {
        next_exp_inc_seq_num = scan.1;
        in_recovery = false;
        snapshot_queued_msgs = [];
        incremental_queued_msgs = [];
        incoming_md_updates = push_list (events ++ more) c.incoming_md_updates;
      }
    ]

-- `checkSnapshotSync`
unfoldable pub check_snapshot_sync : MarketDataConsumer → MarketDataConsumer
unfolding snapshot_events check_incrementals
check_snapshot_sync c = elim c.snapshot_queued_msgs [
  | [] ↦ c
  | (k, first) ∷ m ↦
      if is_snapshot_start first.kind
      then elim (snapshot_events 0 c.snapshot_queued_msgs) [
        | none ↦ clear_snapshot c
        | some events ↦
            let last = last_message first m in
            if is_snapshot_end last.kind then check_incrementals last events c else c
      ]
      else clear_snapshot c
]

-- `queueMessage`
unfoldable pub queue_message : Bool → MdpMarketUpdate → MarketDataConsumer → MarketDataConsumer
unfolding insert has_key check_snapshot_sync
queue_message is_snapshot request c =
    let queued =
      (if is_snapshot
        then (let old =
              if has_key request.seq_num c.snapshot_queued_msgs
              then []
              else c.snapshot_queued_msgs in
            record c { snapshot_queued_msgs = insert request.seq_num request.me_market_update old })
        else record c {
          incremental_queued_msgs =
              insert request.seq_num request.me_market_update c.incremental_queued_msgs;
        }) in
    check_snapshot_sync queued

-- The body of the loop of `recvCallback`
unfoldable pub on_message : Bool → MdpMarketUpdate → MarketDataConsumer → MarketDataConsumer
unfolding start_snapshot_sync queue_message push
on_message is_snapshot request c0 =
    let in_recovery = c0.in_recovery || not (request.seq_num == c0.next_exp_inc_seq_num) in
    let c = record c0 { in_recovery = in_recovery } in
    if in_recovery
    then queue_message is_snapshot request (if c0.in_recovery then c else start_snapshot_sync c)
    else if is_snapshot
    then c
    else record c {
      next_exp_inc_seq_num = c.next_exp_inc_seq_num + 1;
      incoming_md_updates = push c.incoming_md_updates request.me_market_update;
    }

unfoldable pub on_messages : Bool → List MdpMarketUpdate → MarketDataConsumer → MarketDataConsumer
on_messages is_snapshot [] c = c
on_messages is_snapshot (m ∷ ms) c = on_messages is_snapshot ms (on_message is_snapshot m c)

-- `recvCallback`, with the messages that stand in the socket's receive buffer. Snapshot messages are
-- discarded if no recovery is running when it is called.
unfoldable pub recv_callback : Bool → List MdpMarketUpdate → MarketDataConsumer → MarketDataConsumer
unfolding on_messages
recv_callback is_snapshot ms c =
    if is_snapshot && not c.in_recovery then c else on_messages is_snapshot ms c
