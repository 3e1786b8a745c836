-- ===== src/Trading/MarketOrderBook/Clear/Book.antt =====
-- The case `CLEAR` of `onMarketUpdate` in trading/strategy/market_order_book.cpp, on a whole book.
use trading_ecosystem.Prelude.{
  ℕ, ◌≡◌, refl, ap, ◌∙◌, true, Option, none, some, List, [], ◌∷◌, arith, All, ok,
}
use trading_ecosystem.Common.Types.{me_max_order_ids}
use trading_ecosystem.Common.MemPool.{MemPool, free_at}
use trading_ecosystem.Common.MemPool.Laws as Pool
use trading_ecosystem.Common.Rings.{Fresh, Distinct, Chain}
use trading_ecosystem.Trading.MarketOrderBook.State.{MarketOrderBook, MarketOrdersAtPrice, level}
use trading_ecosystem.Trading.MarketOrderBook.Updates.{free_side, clear_book, free_orders}
use trading_ecosystem.Trading.MarketOrderBook.Clear.Levels.{
  IsUsed, Freed, Freed-IsUsed, free_side-Freed,
}
use trading_ecosystem.Trading.MarketOrderBook.Clear.Orders.{Owns, Released, free_orders-Released}

abbrev pub next : MarketOrderBook → ℕ → Option ℕ
next b l = (level b l).next_entry

abbrev pub prev : MarketOrderBook → ℕ → Option ℕ
prev b l = (level b l).prev_entry

-- The pointer is to the first level of a ring, or there is none.
abbrev pub Leads : MarketOrderBook → Option ℕ → List ℕ → Type 0
Leads b best [] = best ≡ none
Leads b best (l ∷ ls) = (best ≡ some l) × Chain (next b) (prev b) l ls l

-- The levels of a side, from the best on: a ring of blocks in use.
pub record IsSide (b : MarketOrderBook) (best : Option ℕ) (ls : List ℕ) : Type 0 where
  pub ring : Leads b best ls
  pub distinct : Distinct ls
  pub used : All (IsUsed b.orders_at_price_pool) ls

-- A book whose sides are rings of levels without a common level, and whose map holds orders in use.
pub record IsBook (b : MarketOrderBook) (bids asks : List ℕ) : Type 0 where
  pub levels_valid : Pool.IsValid b.orders_at_price_pool
  pub orders_valid : Pool.IsValid b.order_pool
  pub bid_side : IsSide b b.bids_by_price bids
  pub ask_side : IsSide b b.asks_by_price asks
  pub apart : All (λ l. Fresh l bids) asks
  pub orders : Owns b.oid_to_order 0 b.order_pool

-- The book is empty, the blocks of its levels and orders are free, and nothing else has changed.
pub record IsCleared (b b' : MarketOrderBook) (bids asks : List ℕ) : Type 0 where
  pub no_bids : b'.bids_by_price ≡ none
  pub no_asks : b'.asks_by_price ≡ none
  pub no_orders : (o : ℕ) → b'.oid_to_order o ≡ none
  pub bids_freed : All (λ l. free_at b'.orders_at_price_pool l ≡ true) bids
  pub asks_freed : All (λ l. free_at b'.orders_at_price_pool l ≡ true) asks
  pub levels_kept :
      (l : ℕ)
      → Fresh l bids
      → Fresh l asks
      → b'.orders_at_price_pool.store l ≡ b.orders_at_price_pool.store l
  pub orders_freed : Released b.oid_to_order 0 me_max_order_ids b.order_pool b'.order_pool
  pub levels_valid : Pool.IsValid b'.orders_at_price_pool
  pub bbo_kept : b'.bbo ≡ b.bbo
  pub stale : b'.price_orders_at_price ≡ b.price_orders_at_price

Freed-nil : (pool : MemPool MarketOrdersAtPrice) → Pool.IsValid pool → Freed pool pool []
Freed-nil pool v = record {
  valid = v;
  size = refl;
  freed = tt;
  kept = λ p away. refl;
  objects = λ p. refl;
}

-- The best level of a side is the first of its list.
free_best-Freed :
    (b : MarketOrderBook) (best : Option ℕ) (ls : List ℕ)
    → Pool.IsValid b.orders_at_price_pool
    → IsSide b best ls
    → (pool' : MemPool MarketOrdersAtPrice) × (free_side best b
        ≡ ok (record b { orders_at_price_pool = pool' }))
      × Freed b.orders_at_price_pool pool' ls
unfolding free_side
free_best-Freed b best [] v s =
    (b.orders_at_price_pool, rw s.ring refl, Freed-nil b.orders_at_price_pool v)
free_best-Freed b best (l ∷ ls) v s =
    let (pool', run, f) = free_side-Freed b (prev b) l ls s.ring.1 s.distinct v s.used in
    (pool', rw s.ring.0 run, f)

-- Freeing levels leaves the links between the others.
Chain-same :
    (f g p q : ℕ → Option ℕ) (x : ℕ) (ls : List ℕ) (z : ℕ)
    → ((l : ℕ) → g l ≡ f l)
    → ((l : ℕ) → q l ≡ p l)
    → Chain f p x ls z
    → Chain g q x ls z
Chain-same f g p q x [] z same same' c = (same x ∙ c.0, same' z ∙ c.1)
Chain-same f g p q x (y ∷ ls) z same same' c =
    (same x ∙ c.0, (same' y ∙ c.1.0, Chain-same f g p q y ls z same same' c.1.1))

All-IsUsed :
    (pool pool' : MemPool MarketOrdersAtPrice) (ps ls : List ℕ)
    → Freed pool pool' ps
    → All (λ l. Fresh l ps) ls
    → All (IsUsed pool) ls
    → All (IsUsed pool') ls
All-IsUsed pool pool' ps [] f away used = tt
All-IsUsed pool pool' ps (l ∷ ls) f away used =
    (Freed-IsUsed pool pool' ps l f away.0 used.0, All-IsUsed pool pool' ps ls f away.1 used.1)

IsSide-Freed :
    (b b' : MarketOrderBook) (best : Option ℕ) (ps ls : List ℕ)
    → Freed b.orders_at_price_pool b'.orders_at_price_pool ps
    → All (λ l. Fresh l ps) ls
    → IsSide b best ls
    → IsSide b' best ls
IsSide-Freed b b' best ps [] f away s = record { ring = s.ring; distinct = s.distinct; used = tt }
IsSide-Freed b b' best ps (l ∷ ls) f away s = record {
  ring = (
    s.ring.0,
    Chain-same (next b) (next b') (prev b) (prev b') l ls l
        (λ x. ap (λ v. v.next_entry) (f.objects x)) (λ x. ap (λ v. v.prev_entry) (f.objects x))
        s.ring.1,
  );
  distinct = s.distinct;
  used = All-IsUsed b.orders_at_price_pool b'.orders_at_price_pool ps (l ∷ ls) f away s.used;
}

-- What one side freed stays free while the other is freed.
still_free :
    (pool pool' : MemPool MarketOrdersAtPrice) (ps ls : List ℕ)
    → Freed pool pool' ps
    → All (λ l. Fresh l ps) ls
    → All (λ l. free_at pool l ≡ true) ls
    → All (λ l. free_at pool' l ≡ true) ls
still_free pool pool' ps [] f away freed = tt
still_free pool pool' ps (l ∷ ls) f away freed =
    (ap (λ c. c.is_free) (f.kept l away.0) ∙ freed.0, still_free pool pool' ps ls f away.1 freed.1)

Fresh-flip : (x : ℕ) (ls ys : List ℕ) → All (λ l. Fresh l (x ∷ ys)) ls → Fresh x ls
Fresh-flip x [] ys h = tt
Fresh-flip x (l ∷ ls) ys h = (ground (arith, h.0.0), Fresh-flip x ls ys h.1)

All-tail : (x : ℕ) (ls ys : List ℕ) → All (λ l. Fresh l (x ∷ ys)) ls → All (λ l. Fresh l ys) ls
All-tail x [] ys h = tt
All-tail x (l ∷ ls) ys h = (h.0.1, All-tail x ls ys h.1)

apart_flip : (ls ys : List ℕ) → All (λ l. Fresh l ys) ls → All (λ y. Fresh y ls) ys
apart_flip ls [] h = tt
apart_flip ls (y ∷ ys) h = (Fresh-flip y ls ys h, apart_flip ls ys (All-tail y ls ys h))

clear_book-ok :
    (b b1 b2 : MarketOrderBook) {orders : _}
    → free_orders me_max_order_ids 0 b.oid_to_order b.order_pool ≡ ok orders
    → free_side b.bids_by_price (record b { order_pool = orders; oid_to_order = λ _. none }) ≡ ok b1
    → free_side b1.asks_by_price b1 ≡ ok b2
    → clear_book b ≡ ok (record b2 { bids_by_price = none; asks_by_price = none })
unfolding clear_book
clear_book-ok b b1 b2 e e1 e2 = rw (clear_book, e, e1, e2) refl

-- A CLEAR goes through on a book whose sides are rings of levels: it gives back each level and each order once and no other block, and leaves no order, no best level, and the best bid and offer as it was; but the map from prices to levels still points to the levels that were given back.
pub clear_book-IsCleared :
    (b : MarketOrderBook) (bids asks : List ℕ)
    → IsBook b bids asks
    → (b' : MarketOrderBook) × (clear_book b ≡ ok b') × IsCleared b b' bids asks
clear_book-IsCleared b bids asks h =
    let (orders, e, released) =
      free_orders-Released b.oid_to_order me_max_order_ids 0 me_max_order_ids b.order_pool
        (omega arith) h.orders_valid h.orders in
    let b0 : MarketOrderBook = record b { order_pool = orders; oid_to_order = λ _. none } in
    let bid_side : IsSide b0 b.bids_by_price bids = record {
      ring = h.bid_side.ring;
      distinct = h.bid_side.distinct;
      used = h.bid_side.used;
    } in
    let (pool1, e1, f1) = free_best-Freed b0 b.bids_by_price bids h.levels_valid bid_side in
    let b1 : MarketOrderBook = record b0 { orders_at_price_pool = pool1 } in
    let (pool2, e2, f2) =
      free_best-Freed b1 b.asks_by_price asks f1.valid
        (IsSide-Freed b b1 b.asks_by_price bids asks f1 h.apart h.ask_side) in
    let b2 : MarketOrderBook = record b1 { orders_at_price_pool = pool2 } in
    (
      record b2 { bids_by_price = none; asks_by_price = none },
      clear_book-ok b b1 b2 e e1 e2,
      record {
        no_bids = refl;
        no_asks = refl;
        no_orders = λ o. refl;
        bids_freed = still_free pool1 pool2 asks bids f2 (apart_flip asks bids h.apart) f1.freed;
        asks_freed = f2.freed;
        levels_kept = λ l not_bid not_ask. f2.kept l not_ask ∙ f1.kept l not_bid;
        orders_freed = released;
        levels_valid = f2.valid;
        bbo_kept = refl;
        stale = refl;
      },
    )
