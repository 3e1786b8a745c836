-- ===== src/Trading/TradeEngine/Responses.antt =====
-- The first loop of the trade engine's `run`: what it does with the responses of the exchange.
use trading_ecosystem.Prelude.{
  ℕ, zero, suc, ◌+◌, ◌%◌, ◌<◌, ◌≡◌, refl, sym, ap, ◌∙◌, ◌⊎◌, inl, inr, Bool, true, false, ◌&&◌,
  List, [], ◌∷◌, arith, ltb, ◌==◌, if◌then◌else◌, ==_iff, Bool-cases, length, update, All, ok,
  ◌>>=◌,
}
use trading_ecosystem.Common.Types.{me_max_tickers}
use trading_ecosystem.Common.AlgoType.{AlgoType}
use trading_ecosystem.Common.LfQueue.{LfQueue}
use trading_ecosystem.Common.LfQueue.Fifo.{IsValid, unread, slots}
use trading_ecosystem.Common.LfQueue.Drain.{drain, run_all, drain-run_all}
use trading_ecosystem.Exchange.Messages
use trading_ecosystem.Exchange.Messages.{MeClientRequest, MeClientResponse, ClientResponseType}
use trading_ecosystem.Trading.Doubles.{Doubles}
use trading_ecosystem.Trading.PositionKeeper.{PositionInfo, add_fill, keeper_add_fill}
use trading_ecosystem.Trading.PositionKeeper.Fills.{add_fills}
use trading_ecosystem.Trading.OrderManager.{OrderManager, set_order, order_of, update_order}
use trading_ecosystem.Trading.OrderManager
use trading_ecosystem.Trading.TradeEngine.{
  TradeEngine, keep_fill, send_client_requests, after_orders, algo_on_order_update, on_order_update,
}

abbrev is_filled : ClientResponseType → Bool
is_filled Messages.ClientResponseType.filled = true
is_filled _ = false

-- The fills of an instrument among the responses, in order
unfoldable pub fills_of : ℕ → List MeClientResponse → List MeClientResponse
fills_of i [] = []
fills_of i (r ∷ rs) =
    if is_filled r.kind && (r.ticker_id == i) then r ∷ fills_of i rs else fills_of i rs

-- The order manager after responses
module _ {Double : Type 0} (d : Doubles Double) where
  -- The positions with the fill of a response
  abbrev kept : MeClientResponse → (ℕ → PositionInfo Double) → ℕ → PositionInfo Double
  kept r positions =
      if is_filled r.kind
      then update positions r.ticker_id (add_fill d r (positions r.ticker_id))
      else positions

  keep_fill-ok :
      (r : MeClientResponse) (k : ClientResponseType) (positions : ℕ → PositionInfo Double)
      → r.kind ≡ k
      → ltb r.ticker_id me_max_tickers ≡ true
      → keep_fill d r positions ≡ ok (kept r positions)
  unfolding keep_fill keeper_add_fill
  keep_fill-ok r Messages.ClientResponseType.invalid positions e h = rw (keep_fill, e) refl
  keep_fill-ok r Messages.ClientResponseType.accepted positions e h = rw (keep_fill, e) refl
  keep_fill-ok r Messages.ClientResponseType.canceled positions e h = rw (keep_fill, e) refl
  keep_fill-ok r Messages.ClientResponseType.cancel_rejected positions e h = rw (keep_fill, e) refl
  keep_fill-ok r Messages.ClientResponseType.filled positions e h = rw (keep_fill, e, h) refl

  add_fills-cons :
      (i : ℕ) (r : MeClientResponse) (rs : List MeClientResponse)
      (positions : ℕ → PositionInfo Double)
      → add_fills d (fills_of i (r ∷ rs)) (positions i)
        ≡ add_fills d (fills_of i rs) (kept r positions i)
  unfolding fills_of add_fills
  add_fills-cons i r rs positions = elim (Bool-cases (is_filled r.kind)) [
    | inr other ↦ rw other refl
    | inl filled ↦ elim (Bool-cases (r.ticker_id == i)) [
      | inr elsewhere ↦ rw (filled, elsewhere) refl
      | inl same ↦
          rw (filled, same)
            (ap (λ j. add_fills d (fills_of i rs) (add_fill d r (positions j)))
              (sym ((==_iff r.ticker_id i).0 same)))
    ]
  ]

  -- A step of the engine that leaves positions and the outgoing queue as they are, and the order manager without requests
  record Quiet (e e' : TradeEngine Double) : Type 0 where
    positions : e'.positions ≡ e.positions
    outgoing : e'.outgoing_ogw_requests ≡ e.outgoing_ogw_requests
    requests : e'.order_manager.requests ≡ []

  manages :
      (r : MeClientResponse) (m : OrderManager)
      → ltb r.ticker_id me_max_tickers ≡ true
      → OrderManager.on_order_update r m
        ≡ ok (set_order r.ticker_id r.side (update_order r (order_of r.ticker_id r.side m)) m)
  unfolding OrderManager.on_order_update
  manages r m h = rw (OrderManager.on_order_update, h) refl

  send_client_requests-none :
      (requests : List MeClientRequest) (e : TradeEngine Double)
      → requests ≡ []
      → send_client_requests requests e ≡ e
  unfolding send_client_requests
  send_client_requests-none requests e none_sent = rw none_sent refl

  after_orders-Quiet :
      (m : OrderManager) (e : TradeEngine Double) → m.requests ≡ [] → Quiet e (after_orders m e)
  after_orders-Quiet m e none_sent =
      let same =
        send_client_requests-none m.requests
          (record e { order_manager = record m { requests = [] } }) none_sent in
      record { positions = rw same refl; outgoing = rw same refl; requests = rw same refl }

  managed-Quiet :
      (r : MeClientResponse) (e : TradeEngine Double)
      → ltb r.ticker_id me_max_tickers ≡ true
      → e.order_manager.requests ≡ []
      → (e' : TradeEngine Double) × ((OrderManager.on_order_update r e.order_manager >>= λ m.
            ok (after_orders m e))
          ≡ ok e')
        × Quiet e e'
  managed-Quiet r e h none_sent =
      let m =
        set_order r.ticker_id r.side (update_order r (order_of r.ticker_id r.side e.order_manager))
          e.order_manager in
      (after_orders m e, rw (manages r e.order_manager h) refl, after_orders-Quiet m e none_sent)

  -- The dispatch by the algorithm, which is either the order manager's part or nothing
  algo_on_order_update-cases :
      (t : AlgoType) (r : MeClientResponse) (e : TradeEngine Double)
      → e.algo_type ≡ t
      → (algo_on_order_update d r e ≡ ok e)
        ⊎ (algo_on_order_update d r e
            ≡ (OrderManager.on_order_update r e.order_manager >>= λ m. ok (after_orders m e)))
  unfolding algo_on_order_update
  algo_on_order_update-cases AlgoType.invalid r e a = inl (ground arith)
  algo_on_order_update-cases AlgoType.random r e a = inl (ground arith)
  algo_on_order_update-cases AlgoType.max r e a = inl (ground arith)
  algo_on_order_update-cases AlgoType.maker r e a = inr (ground arith)
  algo_on_order_update-cases AlgoType.taker r e a = inr (ground arith)

  algo_on_order_update-Quiet :
      (r : MeClientResponse) (e : TradeEngine Double)
      → ltb r.ticker_id me_max_tickers ≡ true
      → e.order_manager.requests ≡ []
      → (e' : TradeEngine Double) × (algo_on_order_update d r e ≡ ok e') × Quiet e e'
  algo_on_order_update-Quiet r e h none_sent =
      elim (algo_on_order_update-cases e.algo_type r e refl) [
        | inl idle ↦ (e, idle, record { positions = refl; outgoing = refl; requests = none_sent })
        | inr manage ↦
            let (e', ran, quiet) = managed-Quiet r e h none_sent in (e', manage ∙ ran, quiet)
      ]

  on_order_update-then :
      (r : MeClientResponse) (e e' : TradeEngine Double)
      → keep_fill d r e.positions ≡ ok (kept r e.positions)
      → algo_on_order_update d r (record e { positions = kept r e.positions }) ≡ ok e'
      → on_order_update d r e ≡ ok e'
  unfolding on_order_update
  on_order_update-then r e e' keeps manages = rw (on_order_update, keeps) manages

  -- What one response does
  record Handled (r : MeClientResponse) (e e' : TradeEngine Double) : Type 0 where
    ran : on_order_update d r e ≡ ok e'
    positions : e'.positions ≡ kept r e.positions
    outgoing : e'.outgoing_ogw_requests ≡ e.outgoing_ogw_requests
    requests : e'.order_manager.requests ≡ []

  on_order_update-Handled :
      (r : MeClientResponse) (e : TradeEngine Double)
      → r.ticker_id < me_max_tickers
      → e.order_manager.requests ≡ []
      → (e' : TradeEngine Double) × Handled r e e'
  on_order_update-Handled r e h none_sent =
      let known : ltb r.ticker_id me_max_tickers ≡ true = ground arith in
      let (e', managed, quiet) =
        algo_on_order_update-Quiet r (record e { positions = kept r e.positions }) known
          none_sent in
      (
        e',
        record {
          ran = on_order_update-then r e e' (keep_fill-ok r r.kind e.positions refl known) managed;
          positions = quiet.positions;
          outgoing = quiet.outgoing;
          requests = quiet.requests;
        },
      )

  -- The engine after responses: a position is what its own fills make of it, and no request has gone out.
  pub record IsUpdated (rs : List MeClientResponse) (e e' : TradeEngine Double) : Type 0 where
    pub positions : (i : ℕ) → e'.positions i ≡ add_fills d (fills_of i rs) (e.positions i)
    pub outgoing : e'.outgoing_ogw_requests ≡ e.outgoing_ogw_requests
    pub requests : e'.order_manager.requests ≡ []

  run_all-IsUpdated :
      (rs : List MeClientResponse) (e : TradeEngine Double)
      → All (λ r. r.ticker_id < me_max_tickers) rs
      → e.order_manager.requests ≡ []
      → (e' : TradeEngine Double) × (run_all (on_order_update d) rs e ≡ ok e') × IsUpdated rs e e'
  unfolding run_all fills_of add_fills
  run_all-IsUpdated [] e known none_sent =
      (e, refl, record { positions = λ i. refl; outgoing = refl; requests = none_sent })
  run_all-IsUpdated (r ∷ rs) e known none_sent =
      let (e1, one) = on_order_update-Handled r e known.0 none_sent in
      let (e', ran, all) = run_all-IsUpdated rs e1 known.1 one.requests in
      (
        e',
        ap (λ x. x >>= run_all (on_order_update d) rs) one.ran ∙ ran,
        record {
          positions = λ i.
              all.positions i
              ∙ ap (λ p. add_fills d (fills_of i rs) (p i)) one.positions
              ∙ sym (add_fills-cons i r rs e.positions);
          outgoing = all.outgoing ∙ one.outgoing;
          requests = all.requests;
        },
      )

  length-slots : {T : Type 0} (store : ℕ → T) (size i n : ℕ) → length (slots store size i n) ≡ n
  length-slots store size i zero = refl
  length-slots store size i (suc n) = omega (arith, length-slots store size ((i + 1) % size) n)

  -- For responses of known instruments, the loop over the queue of responses ends without a fault and leaves the queue empty. The position of every instrument is then what the fills of that instrument, in their order, make of it, whatever the other responses and the algorithm are; and no request has gone out.
  pub drain-IsUpdated :
      (q : LfQueue MeClientResponse) (e : TradeEngine Double)
      → IsValid q
      → All (λ r. r.ticker_id < me_max_tickers) (unread q)
      → e.order_manager.requests ≡ []
      → (q' : LfQueue MeClientResponse) × (e' : TradeEngine Double) × (drain
            (on_order_update d)
            (q.num_elements + 1)
            q
            e
          ≡ ok (q', e'))
        × (unread q' ≡ [])
        × IsUpdated (unread q) e e'
  drain-IsUpdated q e v known none_sent =
      let (q', _, emptied, ran) = drain-run_all (on_order_update d) q v in
      let (e', all, updated) = run_all-IsUpdated (unread q) e known none_sent in
      (
        q',
        e',
        ap (λ n. drain (on_order_update d) (n + 1) q e)
              (sym (length-slots q.store q.size q.next_read_index q.num_elements))
            ∙ ran e
            ∙ ap (λ x. x >>= λ s. ok (q', s)) all,
        emptied,
        updated,
      )
