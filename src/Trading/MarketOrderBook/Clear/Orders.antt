-- ===== src/Trading/MarketOrderBook/Clear/Orders.antt =====
-- The orders that the case `CLEAR` of trading/strategy/market_order_book.cpp gives back.
use trading_ecosystem.Prelude.{
  ℕ, zero, suc, ◌+◌, ◌≤◌, ◌<◌, ◌≡◌, refl, sym, ap, ◌∙◌, ◌≢◌, inl, inr, true, false, Option, none,
  some, [], ◌∷◌, arith, ◌==◌, ==_iff, Bool-cases, Option-cases, ok,
}
use trading_ecosystem.Common.MemPool.{MemPool, free_at}
use trading_ecosystem.Common.MemPool.Laws.{IsValid}
use trading_ecosystem.Trading.MarketOrderBook.State.{MarketOrder}
use trading_ecosystem.Trading.MarketOrderBook.Updates.{free_orders}
use trading_ecosystem.Trading.MarketOrderBook.Clear.Levels.{
  IsUsed, Freed, Freed-IsUsed, deallocate-Freed,
}

module _ (orders : ℕ → Option ℕ) where
  -- The orders of the identifiers from `i` to below `j` are free blocks, and all other blocks are as they were.
  pub record Released (i j : ℕ) (pool pool' : MemPool MarketOrder) : Type 0 where
    pub valid : IsValid pool'
    pub freed : (o p : ℕ) → i ≤ o → o < j → orders o ≡ some p → free_at pool' p ≡ true
    pub kept :
        (p : ℕ) → ((o : ℕ) → i ≤ o → o < j → orders o ≢ some p) → pool'.store p ≡ pool.store p

  -- The map has blocks in use, no block for two identifiers.
  pub record Owns (i : ℕ) (pool : MemPool MarketOrder) : Type 0 where
    pub used : (o p : ℕ) → i ≤ o → orders o ≡ some p → IsUsed pool p
    pub apart : (o o' p : ℕ) → orders o ≡ some p → orders o' ≡ some p → o ≡ o'

  Released-skip :
      (i j : ℕ) (pool pool' : MemPool MarketOrder)
      → orders i ≡ none
      → Released (i + 1) j pool pool'
      → Released i j pool pool'
  Released-skip i j pool pool' empty h = record {
    valid = h.valid;
    freed = λ o p low high e. elim (Bool-cases (o == i)) [
      | inl same ↦
          let at : o ≡ i = (==_iff _ _).0 same in
          let none_is_some : none ≡ some p = sym empty ∙ ap orders (sym at) ∙ e in absurd cc
      | inr other ↦ h.freed o p (ground arith) high e
    ];
    kept = λ p away. h.kept p (λ o low high. away o (omega arith) high);
  }

  Released-next :
      (i j p : ℕ) (pool pool1 pool' : MemPool MarketOrder)
      → orders i ≡ some p
      → i < j
      → ((o o' q : ℕ) → orders o ≡ some q → orders o' ≡ some q → o ≡ o')
      → Freed pool pool1 (p ∷ [])
      → Released (i + 1) j pool1 pool'
      → Released i j pool pool'
  Released-next i j p pool pool1 pool' e inside apart one h = record {
    valid = h.valid;
    freed = λ o q low high e'. elim (Bool-cases (o == i)) [
      | inl same ↦
          let at : o ≡ i = (==_iff _ _).0 same in
          let hit : some q ≡ some p = sym e' ∙ ap orders at ∙ e in
          let to_p : q ≡ p = cc in
          rw to_p (
            ap (λ c. c.is_free)
              (h.kept p (λ o' low' high' again. omega (arith, apart o' i p again e, low')))
            ∙ one.freed.0)
      | inr other ↦ h.freed o q (ground arith) high e'
    ];
    kept = λ q away.
        h.kept q (λ o low high. away o (omega arith) high)
        ∙ one.kept q (differs q (away i (omega arith) inside), tt);
  }
    where
      differs : (q : ℕ) → orders i ≢ some q → (q == p) ≡ false
      differs q away = elim (Bool-cases (q == p)) [
        | inl same ↦
            let at : q ≡ p = (==_iff _ _).0 same in absurd (away (e ∙ ap (λ n. some n) (sym at)))
        | inr other ↦ other
      ]

  Owns-next :
      (i p : ℕ) (pool pool1 : MemPool MarketOrder)
      → orders i ≡ some p
      → Freed pool pool1 (p ∷ [])
      → Owns i pool
      → Owns (i + 1) pool1
  Owns-next i p pool pool1 e one h = record {
    used = λ o q low e'. elim (Bool-cases (q == p)) [
      | inl same ↦
          let at : q ≡ p = (==_iff _ _).0 same in
          let again : orders o ≡ some p = e' ∙ ap (λ n. some n) at in
          absurd (omega (arith, h.apart o i p again e, low))
      | inr other ↦ Freed-IsUsed pool pool1 (p ∷ []) q one (other, tt) (h.used o q (omega arith) e')
    ];
    apart = h.apart;
  }

  -- Each order of the map is given back once, and nothing else.
  pub free_orders-Released :
      (k i j : ℕ) (pool : MemPool MarketOrder)
      → j ≡ i + k
      → IsValid pool
      → Owns i pool
      → (pool' : MemPool MarketOrder) × (free_orders k i orders pool ≡ ok pool')
        × Released i j pool pool'
  unfolding free_orders
  free_orders-Released zero i j pool e v h = (
    pool,
    refl,
    record { valid = v; freed = λ o p low high e'. absurd (omega arith); kept = λ p away. refl },
  )
  free_orders-Released (suc k) i j pool e v h = elim (Option-cases (orders i)) [
    | inl empty ↦
        let (pool', run, r) =
          free_orders-Released k (i + 1) j pool (omega arith) v
            (record { used = λ o p low. h.used o p (omega arith); apart = h.apart }) in
        (pool', rw (free_orders, empty) run, Released-skip i j pool pool' empty r)
    | inr (p, kept) ↦
        let (pool1, done, one, count) = deallocate-Freed pool p v (h.used i p (omega arith) kept) in
        let (pool', run, r) =
          free_orders-Released k (i + 1) j pool1 (omega arith) one.valid
            (Owns-next i p pool pool1 kept one h) in
        (
          pool',
          rw (free_orders, kept, done) run,
          Released-next i j p pool pool1 pool' kept (omega arith) h.apart one r,
        )
  ]
