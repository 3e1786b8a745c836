-- ===== src/Common/Types.antt =====
-- common/types.h: bounds, identifiers, sides and the configuration of a trading client.
-- Identifiers and quantities are natural numbers below the bound of their C++ type, prices are
-- integers; where the program lets one wrap round, the wrap is written out.
use trading_ecosystem.Prelude.{ℕ, ◌+◌, ◌-◌, ◌*◌, ◌%◌, ◌^◌, Bool, true, false}
use trading_ecosystem.Prelude.Int.{ℤ, pos, negsuc}

abbrev pub me_max_tickers : ℕ
me_max_tickers = 8

abbrev pub me_max_market_updates : ℕ
me_max_market_updates = 256 * 1024

abbrev pub me_max_num_clients : ℕ
me_max_num_clients = 256

abbrev pub me_max_order_ids : ℕ
me_max_order_ids = 1024 * 1024

abbrev pub me_max_price_levels : ℕ
me_max_price_levels = 256

abbrev pub order_id_invalid : ℕ
order_id_invalid = 2 ^ 64 - 1

abbrev pub priority_invalid : ℕ
priority_invalid = 2 ^ 64 - 1

-- `ClientId_INVALID`, `TickerId_INVALID` and `Qty_INVALID` have one type and one value.
abbrev pub qty_invalid : ℕ
qty_invalid = 2 ^ 32 - 1

abbrev pub price_invalid : ℤ
price_invalid = pos (2 ^ 63 - 1)

pub data Side : Type 0 where
  invalid buy sell max : Side

-- `sideToValue`
abbrev pub side_to_value : Side → ℤ
side_to_value invalid = pos 0
side_to_value buy = pos 1
side_to_value sell = negsuc 0
side_to_value max = pos 2

-- The conversion of a signed value to a 64-bit `size_t`.
abbrev pub to_size : ℤ → ℕ
to_size (pos n) = n % 2 ^ 64
to_size (negsuc n) = (2 ^ 64 - 1 - n % 2 ^ 64) % 2 ^ 64

-- `sideToIndex`: `static_cast<size_t>(side) + 1`, which wraps to 0 for `SELL`
abbrev pub side_to_index : Side → ℕ
side_to_index side = (to_size (side_to_value side) + 1) % 2 ^ 64

-- `priceToIndex` of both order books: `price % ME_MAX_PRICE_LEVELS`, in unsigned arithmetic
abbrev pub price_to_index : ℤ → ℕ
price_to_index price = to_size price % me_max_price_levels

abbrev pub is_buy : Side → Bool
is_buy buy = true
is_buy _ = false

abbrev pub is_sell : Side → Bool
is_sell sell = true
is_sell _ = false

abbrev pub opposite : Side → Side
opposite buy = sell
opposite _ = buy
