-- ===== src/Trading/MarketOrderBook/Clear/Levels.antt =====
-- The price levels of a side, which the case `CLEAR` of trading/strategy/market_order_book.cpp gives back.
use trading_ecosystem.Prelude.{
  ℕ, zero, suc, ◌+◌, ◌<◌, ◌≡◌, refl, ap, ◌∙◌, true, false, not, Option, some, List, [], ◌∷◌, arith,
  ◌==◌, ==_refl, All, ok, count_below, count_below-le, count_below-cleared,
}
use trading_ecosystem.Common.MemPool.{MemPool, object_at, free_at, deallocate}
use trading_ecosystem.Common.MemPool.Laws.{IsValid, deallocate-ok}
use trading_ecosystem.Common.Rings.{Fresh, Distinct, Chain}
use trading_ecosystem.Trading.MarketOrderBook.State.{MarketOrderBook, MarketOrdersAtPrice, level}
use trading_ecosystem.Trading.MarketOrderBook.Updates.{free_levels, free_side}

module _ {T : Type 0} where
  -- The block is in use.
  abbrev pub IsUsed : MemPool T → ℕ → Type 0
  IsUsed pool p = (p < pool.size) × (free_at pool p ≡ false)

  abbrev pub used_count : MemPool T → ℕ
  used_count pool = count_below (λ i. not (free_at pool i)) pool.size

  -- The blocks of a list are free, and all other blocks are as they were.
  pub record Freed (pool pool' : MemPool T) (ps : List ℕ) : Type 0 where
    pub valid : IsValid pool'
    pub size : pool'.size ≡ pool.size
    pub freed : All (λ p. free_at pool' p ≡ true) ps
    pub kept : (p : ℕ) → Fresh p ps → pool'.store p ≡ pool.store p
    pub objects : (p : ℕ) → object_at pool' p ≡ object_at pool p

  pub Freed-IsUsed :
      (pool pool' : MemPool T) (ps : List ℕ) (p : ℕ)
      → Freed pool pool' ps
      → Fresh p ps
      → IsUsed pool p
      → IsUsed pool' p
  Freed-IsUsed pool pool' ps p f fresh used =
      (omega (arith, f.size, used.0), ap (λ c. c.is_free) (f.kept p fresh) ∙ used.1)

  -- One block
  pub deallocate-Freed :
      (pool : MemPool T) (p : ℕ)
      → IsValid pool
      → IsUsed pool p
      → (pool' : MemPool T) × (deallocate pool p ≡ ok pool')
        × Freed pool pool' (p ∷ [])
        × (used_count pool' + 1 ≡ used_count pool)
  deallocate-Freed pool p v used =
      let (pool', e, v', size, store) = deallocate-ok pool p v used.0 used.1 in
      (
        pool',
        e,
        record {
          valid = v';
          size = size;
          freed = (ground (arith, store), tt);
          kept = λ q fresh. ground (arith, store, fresh.0);
          objects = λ q. ground (arith, store);
        },
        ap (λ n. count_below (λ i. not (free_at pool' i)) n + 1) size
            ∙ count_below-cleared (λ i. not (free_at pool i)) (λ i. not (free_at pool' i)) p
                pool.size used.0 (ap not used.1) (λ i. ground (arith, store)),
      )

  Freed-cons :
      (pool pool1 pool' : MemPool T) (p first : ℕ) (ps : List ℕ)
      → (first == p) ≡ false
      → Fresh p ps
      → Freed pool pool1 (p ∷ [])
      → Freed pool1 pool' (first ∷ ps)
      → Freed pool pool' (first ∷ p ∷ ps)
  Freed-cons pool pool1 pool' p first ps other fresh one rest = record {
    valid = rest.valid;
    size = rest.size ∙ one.size;
    freed = (
      rest.freed.0,
      (
        ap (λ c. c.is_free) (rest.kept p (ground (arith, other), fresh)) ∙ one.freed.0,
        rest.freed.1,
      ),
    );
    kept = λ q away. rest.kept q (away.0, away.1.1) ∙ one.kept q (away.1.0, tt);
    objects = λ q. rest.objects q ∙ one.objects q;
  }

  All-IsUsed :
      (pool pool' : MemPool T) (p : ℕ) (ps : List ℕ)
      → Fresh p ps
      → Freed pool pool' (p ∷ [])
      → All (IsUsed pool) ps
      → All (IsUsed pool') ps
  All-IsUsed pool pool' p [] fresh f used = tt
  All-IsUsed pool pool' p (q ∷ ps) fresh f used = (
    Freed-IsUsed pool pool' (p ∷ []) q f (ground (arith, fresh.0), tt) used.0,
    All-IsUsed pool pool' p ps fresh.1 f used.1,
  )

module _ (b : MarketOrderBook) (prev : ℕ → Option ℕ) where
  abbrev next : ℕ → Option ℕ
  next l = (level b l).next_entry

  Chain-next : (l : ℕ) (ls : List ℕ) (z : ℕ) → Chain next prev l ls z → (n : ℕ) × (next l ≡ some n)
  Chain-next l [] z c = (z, c.0)
  Chain-next l (x ∷ ls) z c = (x, c.0)

  same_target : {x : Option ℕ} (m n : ℕ) → x ≡ some m → x ≡ some n → m ≡ n
  same_target m n e e' = cc

  free_levels_last :
      (fuel first : ℕ) (pool pool' : MemPool MarketOrdersAtPrice)
      → deallocate pool first ≡ ok pool'
      → free_levels (suc fuel) first first pool b ≡ ok pool'
  unfolding free_levels
  free_levels_last fuel first pool pool' e = rw (free_levels, ==_refl first) e

  free_levels_more :
      (fuel first l n : ℕ) (pool pool1 : MemPool MarketOrdersAtPrice)
      → (first == l) ≡ false
      → deallocate pool l ≡ ok pool1
      → next l ≡ some n
      → free_levels (suc fuel) first l pool b ≡ free_levels fuel first n pool1 b
  unfolding free_levels
  free_levels_more fuel first l n pool pool1 other e e' =
      let away : (l == first) ≡ false = ground (arith, other) in rw (free_levels, away, e, e') refl

  -- The loop behind the best level, which goes back last.
  free_levels-Freed :
      (fuel first l n : ℕ) (ls : List ℕ) (pool : MemPool MarketOrdersAtPrice)
      → next l ≡ some n
      → Chain next prev l ls first
      → Fresh first ls
      → Distinct ls
      → IsValid pool
      → IsUsed pool first
      → All (IsUsed pool) ls
      → used_count pool < fuel
      → (pool' : MemPool MarketOrdersAtPrice) × (free_levels fuel first n pool b ≡ ok pool')
        × Freed pool pool' (first ∷ ls)
  free_levels-Freed zero first l n ls pool at c fresh distinct v last used enough =
      absurd (omega arith)
  free_levels-Freed (suc fuel) first l n [] pool at c fresh distinct v last used enough =
      let (pool', e, f, count) = deallocate-Freed pool first v last in
      (pool', rw (same_target n first at c.0) (free_levels_last fuel first pool pool' e), f)
  free_levels-Freed (suc fuel) first l n (x ∷ ls) pool at c fresh distinct v last used enough =
      let (pool1, e, one, count) = deallocate-Freed pool x v used.0 in
      let (n', e') = Chain-next x ls first c.1.1 in
      let (pool', run, rest) =
        free_levels-Freed fuel first x n' ls pool1 e' c.1.1 fresh.1 distinct.1 one.valid
          (Freed-IsUsed pool pool1 (x ∷ []) first one (fresh.0, tt) last)
          (All-IsUsed pool pool1 x ls distinct.0 one used.1) (omega arith) in
      (
        pool',
        rw (same_target n x at c.0) (free_levels_more fuel first x n' pool pool1 fresh.0 e e')
            ∙ run,
        Freed-cons pool pool1 pool' x first ls fresh.0 distinct.0 one rest,
      )

  -- A side whose levels are a ring of blocks in use is given back, each level once and nothing else.
  pub free_side-Freed :
      (first : ℕ) (ls : List ℕ)
      → Chain next prev first ls first
      → Distinct (first ∷ ls)
      → IsValid b.orders_at_price_pool
      → All (IsUsed b.orders_at_price_pool) (first ∷ ls)
      → (pool' : MemPool MarketOrdersAtPrice) × (free_side (some first) b
          ≡ ok (record b { orders_at_price_pool = pool' }))
        × Freed b.orders_at_price_pool pool' (first ∷ ls)
  unfolding free_side
  free_side-Freed first ls c distinct v used =
      let pool = b.orders_at_price_pool in
      let (n, e) = Chain-next first ls first c in
      let (pool', run, f) =
        free_levels-Freed (pool.size + 1) first first n ls pool e c distinct.0 distinct.1 v used.0
          used.1 (omega (arith, count_below-le (λ i. not (free_at pool i)) pool.size)) in
      (pool', rw (free_side, e, run) refl, f)
