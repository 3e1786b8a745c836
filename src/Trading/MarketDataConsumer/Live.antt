-- ===== src/Trading/MarketDataConsumer/Live.antt =====
-- The consumer while the incremental stream has no gap, and what starts a recovery.
use trading_ecosystem.Prelude.{
  ℕ, ◌+◌, ◌≡◌, refl, ap, ◌∙◌, ◌≢◌, true, false, List, [], ◌∷◌, arith, length,
}
use trading_ecosystem.Common.LfQueue.{push}
use trading_ecosystem.Common.LfQueue.Writes.{push_list}
use trading_ecosystem.Exchange.Messages.{MeMarketUpdate, MdpMarketUpdate}
use trading_ecosystem.Exchange.MarketDataPublisher.{number_from, numbered}
use trading_ecosystem.Trading.MarketDataConsumer.{
  MarketDataConsumer, on_message, on_messages, recv_callback,
}

on_message_expected :
    (m : MdpMarketUpdate) (c : MarketDataConsumer)
    → c.in_recovery ≡ false
    → m.seq_num ≡ c.next_exp_inc_seq_num
    → on_message false m c ≡ record c {
      next_exp_inc_seq_num = c.next_exp_inc_seq_num + 1;
      incoming_md_updates = push c.incoming_md_updates m.me_market_update;
    }
unfolding on_message
on_message_expected m c live e = ground arith

on_messages-number_from :
    (us : List MeMarketUpdate) (c : MarketDataConsumer) (n : ℕ)
    → c.in_recovery ≡ false
    → n ≡ c.next_exp_inc_seq_num
    → on_messages false (number_from n us) c ≡ record c {
      next_exp_inc_seq_num = c.next_exp_inc_seq_num + length us;
      incoming_md_updates = push_list us c.incoming_md_updates;
    }
unfolding number_from on_messages push_list
on_messages-number_from [] c n live e = ground arith
on_messages-number_from (u ∷ us) c n live e =
    ap (on_messages false (number_from (n + 1) us)) (on_message_expected (numbered n u) c live e)
    ∙ (on_messages-number_from us
          (record c {
            next_exp_inc_seq_num = c.next_exp_inc_seq_num + 1;
            incoming_md_updates = push c.incoming_md_updates u;
          })
          (n + 1) live (omega arith)
        ∙ ground arith)

-- Outside a recovery, updates that are numbered without a gap from the expected number on are all written to the queue of the trade engine, in order, and the consumer stays outside a recovery.
pub recv_callback-number_from :
    (us : List MeMarketUpdate) (c : MarketDataConsumer)
    → c.in_recovery ≡ false
    → recv_callback false (number_from c.next_exp_inc_seq_num us) c ≡ record c {
      next_exp_inc_seq_num = c.next_exp_inc_seq_num + length us;
      incoming_md_updates = push_list us c.incoming_md_updates;
    }
unfolding recv_callback
recv_callback-number_from us c live = on_messages-number_from us c c.next_exp_inc_seq_num live refl

-- Outside a recovery, an incremental update with another number than the expected one is not passed on: it starts a recovery in which it alone is queued.
pub on_message_gap :
    (m : MdpMarketUpdate) (c : MarketDataConsumer)
    → c.in_recovery ≡ false
    → m.seq_num ≢ c.next_exp_inc_seq_num
    → on_message false m c ≡ record c {
      in_recovery = true;
      snapshot_queued_msgs = [];
      incremental_queued_msgs = (m.seq_num, m.me_market_update) ∷ [];
    }
unfolding on_message
on_message_gap m c live e = ground arith
