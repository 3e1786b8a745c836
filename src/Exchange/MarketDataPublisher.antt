-- ===== src/Exchange/MarketDataPublisher.antt =====
-- exchange/market_data/market_data_publisher.cpp: market updates get sequence numbers, go out on the
-- incremental stream and on to the snapshot synthesizer.
pub mod Laws
use trading_ecosystem.Prelude.{
  ℕ, zero, suc, ◌+◌, ◌-◌, ◌*◌, ◌/◌, ◌%◌, ◌^◌, ◌≤◌, ◌<◌, min, ◌≡◌, refl, sym, ap, ◌∙◌, ◌≢◌, ◌↔◌, ◌⊎◌,
  inl, inr, Bool, true, false, not, ◌&&◌, ◌||◌, Option, none, some, List, [], ◌∷◌, ◌++◌, map, arith,
  ltb, leb, ◌==◌, if◌then◌else◌, ==_iff, ==_refl, Bool-cases, Option-cases, length, length-append,
  length-Perm, nil_of_length, update, All, All-append, Fault, assertion, null_pointer, out_of_range,
  out_of_fuel, Outcome, ok, failed, ◌>>=◌, ◌>>◌, assert, in_range, deref, >>=-eq-ok,
}
use trading_ecosystem.Common.LfQueue.{LfQueue, lf_queue, push, get_next_to_read, update_read_index}
use trading_ecosystem.Common.LfQueue.Writes.{push_list}
use trading_ecosystem.Common.Types.{me_max_market_updates}
use trading_ecosystem.Exchange.Messages.{MeMarketUpdate, MdpMarketUpdate}

-- `incremental` is what is sent on the incremental socket.
pub record MarketDataPublisher : Type 0 where
  pub next_inc_seq_num : ℕ
  pub incremental : List MdpMarketUpdate
  pub snapshot_md_updates : LfQueue MdpMarketUpdate

-- `default` is `MDPMarketUpdate()`.
abbrev pub market_data_publisher : MdpMarketUpdate → MarketDataPublisher
market_data_publisher default = record {
  next_inc_seq_num = 1;
  incremental = [];
  snapshot_md_updates = lf_queue default me_max_market_updates;
}

abbrev pub numbered : ℕ → MeMarketUpdate → MdpMarketUpdate
numbered n u = record { seq_num = n; me_market_update = u }

-- The body of the loop of `run`. It reads the slot of the queue once more after `updateReadIndex`;
-- `writes` is what the thread of the matching engine writes to the queue in between.
unfoldable pub publish_update :
    MeMarketUpdate
    → List MeMarketUpdate
    → LfQueue MeMarketUpdate
    → MarketDataPublisher
    → Outcome (LfQueue MeMarketUpdate × MarketDataPublisher)
unfolding push push_list
publish_update u writes q p = do
  let slot = q.next_read_index
  let sent = p.incremental ++ numbered p.next_inc_seq_num u ∷ []
  q ← update_read_index q
  let q = push_list writes q
  let message = numbered p.next_inc_seq_num (q.store slot)
  ok (
      (
        q,
        record {
          next_inc_seq_num = p.next_inc_seq_num + 1;
          incremental = sent;
          snapshot_md_updates = push p.snapshot_md_updates message;
        },
      ))

-- The inner loop of `run`, until the queue of the matching engine is empty. The list has an entry for
-- each round that the loop may take: what the matching engine writes during the round.
unfoldable pub publish_loop :
    List (List MeMarketUpdate)
    → LfQueue MeMarketUpdate
    → MarketDataPublisher
    → Outcome (LfQueue MeMarketUpdate × MarketDataPublisher)
publish_loop [] q p = failed out_of_fuel
publish_loop (writes ∷ rounds) q p = elim (get_next_to_read q) [
  | none ↦ ok (q, p)
  | some u ↦ publish_update u writes q p >>= λ r. publish_loop rounds r.0 r.1
]

-- The messages with the numbers from `n` on.
unfoldable pub number_from : ℕ → List MeMarketUpdate → List MdpMarketUpdate
number_from n [] = []
number_from n (u ∷ us) = numbered n u ∷ number_from (n + 1) us
