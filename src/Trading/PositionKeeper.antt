-- ===== src/Trading/PositionKeeper.antt =====
-- trading/strategy/position_keeper.h: position, profit and volume of each instrument. Sums and
-- products of 32-bit numbers wrap, those of 64-bit prices too. The pointer to the best bid and offer, which only
-- `toString` reads, is the number of the instrument whose book it points into.
pub mod Fills
pub mod Steps
pub mod Averages
use trading_ecosystem.Prelude.{
  ℕ, ◌+◌, ◌-◌, ◌*◌, ◌%◌, ◌^◌, not, ◌&&◌, Option, none, some, ltb, if◌then◌else◌, update, Outcome,
  ok, ◌>>◌, in_range,
}
use trading_ecosystem.Prelude.Int.{ℤ, pos, negsuc, ◌+ℤ◌, ◌*ℤ◌, ltb_ℤ, leb_ℤ, eqb_ℤ, wrap_ℤ, abs}
use trading_ecosystem.Common.Types.{
  Side, buy, sell, opposite, side_to_index, side_to_value, me_max_tickers, price_invalid,
}
use trading_ecosystem.Exchange.Messages.{MeClientResponse}
use trading_ecosystem.Trading.Doubles.{Doubles}
use trading_ecosystem.Trading.RiskManager.{to_int32}
use trading_ecosystem.Trading.MarketOrderBook.State.{Bbo}

pub record PositionInfo (Double : Type 0) : Type 0 where
  pub position : ℤ
  pub real_pnl : Double
  pub unreal_pnl : Double
  pub total_pnl : Double
  pub open_vwap : ℕ → Double
  pub volume : ℕ
  pub bbo : Option ℕ

-- The conversion of an `int` to 32 unsigned bits
abbrev pub to_uint32 : ℤ → ℕ
to_uint32 (pos n) = n % 2 ^ 32
to_uint32 (negsuc n) = 2 ^ 32 - 1 - n % 2 ^ 32

-- `position_ += exec_qty_ * side_value`, which is unsigned until it is stored
abbrev pub moved_position : ℤ → ℕ → Side → ℤ
moved_position position qty side =
    to_int32 ((to_uint32 position + qty * to_uint32 (side_to_value side) % 2 ^ 32) % 2 ^ 32)

-- `std::min`
abbrev pub min_ℤ : ℤ → ℤ → ℤ
min_ℤ a b = if ltb_ℤ b a then b else a

module _ {Double : Type 0} (d : Doubles Double) where
  -- `PositionInfo()`. The source gives `open_vwap_` no value: what it holds is an argument.
  unfoldable pub position_info : (ℕ → Double) → PositionInfo Double
  position_info open_vwap = record {
    position = pos 0;
    real_pnl = d.of_int (pos 0);
    unreal_pnl = d.of_int (pos 0);
    total_pnl = d.of_int (pos 0);
    open_vwap = open_vwap;
    volume = 0;
    bbo = none;
  }

  abbrev pub set_vwap : Side → Double → PositionInfo Double → PositionInfo Double
  set_vwap side x p = record p { open_vwap = update p.open_vwap (side_to_index side) x }

  abbrev pub vwap : Side → PositionInfo Double → Double
  vwap side p = p.open_vwap (side_to_index side)

  -- The average price of the open position, on its side
  abbrev pub average : Side → PositionInfo Double → Double
  average side p = d.div (vwap side p) (d.of_int (pos (abs p.position)))

  -- The case of `addFill` that opens or increases a position
  unfoldable pub increase : MeClientResponse → PositionInfo Double → PositionInfo Double
  increase r p =
      set_vwap r.side
        (d.add (vwap r.side p) (d.of_int (wrap_ℤ (2 ^ 63) (r.price *ℤ pos r.exec_qty)))) p

  -- The case that decreases it: `old` is the position before the fill, `p` has the new one.
  unfoldable pub decrease : ℤ → MeClientResponse → PositionInfo Double → PositionInfo Double
  decrease old r p =
      let opp_side = opposite r.side in
      let opp_side_vwap = d.div (vwap opp_side p) (d.of_int (pos (abs old))) in
      let closed = d.of_int (min_ℤ (to_int32 r.exec_qty) (pos (abs old))) in
      let gain =
        d.mul (d.mul closed (d.sub opp_side_vwap (d.of_int r.price)))
          (d.of_int (side_to_value r.side)) in
      let reduced =
        record (set_vwap opp_side (d.mul opp_side_vwap (d.of_int (pos (abs p.position)))) p) {
          real_pnl = d.add p.real_pnl gain;
        } in
      if ltb_ℤ (wrap_ℤ (2 ^ 31) (p.position *ℤ old)) (pos 0)
      then set_vwap opp_side (d.of_int (pos 0))
          (set_vwap r.side (d.of_int (wrap_ℤ (2 ^ 63) (r.price *ℤ pos (abs p.position)))) reduced)
      else reduced

  -- The profit of the open position at a price
  unfoldable pub open_pnl : Double → PositionInfo Double → Double
  open_pnl price p =
      let size = d.of_int (pos (abs p.position)) in
      if ltb_ℤ (pos 0) p.position
      then d.mul (d.sub price (average buy p)) size
      else d.mul (d.sub (average sell p) price) size

  -- The unrealized profit after a fill at a price
  unfoldable pub settle : Double → PositionInfo Double → PositionInfo Double
  unfolding open_pnl
  settle price p =
      if eqb_ℤ p.position (pos 0)
      then record (set_vwap buy (d.of_int (pos 0)) (set_vwap sell (d.of_int (pos 0)) p)) {
        unreal_pnl = d.of_int (pos 0);
      }
      else record p { unreal_pnl = open_pnl price p }

  -- `PositionInfo::addFill`
  unfoldable pub add_fill : MeClientResponse → PositionInfo Double → PositionInfo Double
  unfolding increase decrease settle
  add_fill r p =
      let moved = record p {
        position = moved_position p.position r.exec_qty r.side;
        volume = (p.volume + r.exec_qty) % 2 ^ 32;
      } in
      let filled =
        if leb_ℤ (pos 0) (wrap_ℤ (2 ^ 31) (p.position *ℤ side_to_value r.side))
        then increase r moved
        else decrease p.position r moved in
      let settled = settle (d.of_int r.price) filled in
      record settled { total_pnl = d.add settled.unreal_pnl settled.real_pnl }

  -- `PositionInfo::updateBBO`
  unfoldable pub update_bbo : ℕ → Bbo → PositionInfo Double → PositionInfo Double
  unfolding open_pnl
  update_bbo book bbo p =
      let seen = record p { bbo = some book } in
      let unreal =
        open_pnl (d.mul (d.of_int (wrap_ℤ (2 ^ 63) (bbo.bid_price +ℤ bbo.ask_price))) d.half) p in
      if not (eqb_ℤ p.position (pos 0))
        && (not (eqb_ℤ bbo.bid_price price_invalid) && not (eqb_ℤ bbo.ask_price price_invalid))
      then record seen { unreal_pnl = unreal; total_pnl = d.add unreal p.real_pnl }
      else seen

  -- `PositionKeeper::addFill` and `updateBBO`, with the table `ticker_position_`
  unfoldable pub keeper_add_fill :
      MeClientResponse → (ℕ → PositionInfo Double) → Outcome (ℕ → PositionInfo Double)
  unfolding add_fill
  keeper_add_fill r positions = do
    in_range (ltb r.ticker_id me_max_tickers)
    ok (update positions r.ticker_id (add_fill r (positions r.ticker_id)))

  unfoldable pub keeper_update_bbo :
      ℕ → Bbo → (ℕ → PositionInfo Double) → Outcome (ℕ → PositionInfo Double)
  unfolding update_bbo
  keeper_update_bbo ticker_id bbo positions = do
    in_range (ltb ticker_id me_max_tickers)
    ok (update positions ticker_id (update_bbo ticker_id bbo (positions ticker_id)))
