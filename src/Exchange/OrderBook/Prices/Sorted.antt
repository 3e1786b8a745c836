-- ===== src/Exchange/OrderBook/Prices/Sorted.antt =====
-- A new level among the sorted levels of a side.
use mathlib.Core.Path.{subst}
use trading_ecosystem.Prelude.{
  ℕ, ◌≡◌, sym, ap, ◌∙◌, ◌⊎◌, inl, inr, true, false, List, [], ◌∷◌, arith, ◌==◌, Bool-cases, All,
}
use trading_ecosystem.Prelude.Int.{eqb_ℤ}
use trading_ecosystem.Common.Types.{Side, buy, sell}
use trading_ecosystem.Common.Rings.{Fresh, Distinct}
use trading_ecosystem.Exchange.OrderBook.State.{MeOrdersAtPrice}
use trading_ecosystem.Exchange.OrderBook.Levels.{is_behind, is_better}
use trading_ecosystem.Exchange.OrderBook.Prices.{
  insert_level, insert_level-behind, insert_level-before, IsSorted,
}
use trading_ecosystem.Exchange.OrderBook.Prices.Links.{data_of}

-- Levels of one side at different prices: one is behind the other.
pub behind-total :
    (side : Side) (new t : MeOrdersAtPrice)
    → (side ≡ buy) ⊎ (side ≡ sell)
    → new.side ≡ side
    → t.side ≡ side
    → eqb_ℤ new.price t.price ≡ false
    → is_behind new t ≡ false
    → (is_behind t new ≡ true) × (is_better new t ≡ true)
behind-total side new t (inl b) e f d h = ground arith
behind-total side new t (inr b) e f d h = ground arith

pub behind-not-better :
    (side : Side) (new t : MeOrdersAtPrice)
    → (side ≡ buy) ⊎ (side ≡ sell)
    → new.side ≡ side
    → is_behind new t ≡ true
    → is_better new t ≡ false
behind-not-better side new t (inl b) e h = ground arith
behind-not-better side new t (inr b) e h = ground arith

module _ (levels : ℕ → MeOrdersAtPrice) (new : ℕ) where
  pub insert_level-All :
      (P : ℕ → Type 0) (ls : List ℕ) → P new → All P ls → All P (insert_level levels new ls)
  unfolding insert_level
  insert_level-All P [] p h = (p, tt)
  insert_level-All P (t ∷ ts) p h = elim (Bool-cases (is_behind (levels new) (levels t))) [
    | inl e ↦ rw e (h.0, insert_level-All P ts p h.1)
    | inr e ↦ rw e (p, h)
  ]

  pub insert_level-Distinct :
      (ls : List ℕ) → Fresh new ls → Distinct ls → Distinct (insert_level levels new ls)
  unfolding insert_level
  insert_level-Distinct [] f d = (tt, tt)
  insert_level-Distinct (t ∷ ts) f d = elim (Bool-cases (is_behind (levels new) (levels t))) [
    | inl e ↦ rw e (
      insert_level-All (λ y. (t == y) ≡ false) ts (ground (arith, f.0)) d.0,
      insert_level-Distinct ts f.1 d.1,
    )
    | inr e ↦ rw e (f, d)
  ]

  -- What stands first among the levels behind a level `t` is behind it.
  insert_behind :
      (t : ℕ) (ts : List ℕ)
      → is_behind (levels new) (levels t) ≡ true
      → IsSorted levels (t ∷ ts)
      → IsSorted levels (insert_level levels new ts)
      → IsSorted levels (t ∷ insert_level levels new ts)
  unfolding insert_level
  insert_behind t [] e s r = (e, tt)
  insert_behind t (u ∷ us) e s r = elim (Bool-cases (is_behind (levels new) (levels u))) [
    | inl h ↦
        subst (λ l. IsSorted levels (t ∷ l)) (sym (insert_level-behind levels new u us h))
          (s.0, subst (IsSorted levels) (insert_level-behind levels new u us h) r)
    | inr h ↦
        subst (λ l. IsSorted levels (t ∷ l)) (sym (insert_level-before levels new u us h))
          (e, subst (IsSorted levels) (insert_level-before levels new u us h) r)
  ]

  rest : (t : ℕ) (ts : List ℕ) → IsSorted levels (t ∷ ts) → IsSorted levels ts
  rest t [] s = tt
  rest t (u ∷ us) s = s.1

  pub insert_level-IsSorted :
      (ls : List ℕ)
      → All
          (λ t.
            (is_behind (levels new) (levels t) ≡ true)
            ⊎ ((is_behind (levels new) (levels t) ≡ false)
                × (is_behind (levels t) (levels new) ≡ true)))
          ls
      → IsSorted levels ls
      → IsSorted levels (insert_level levels new ls)
  unfolding insert_level
  insert_level-IsSorted [] h s = tt
  insert_level-IsSorted (t ∷ ts) h s = elim h.0 [
    | inl e ↦ rw e (insert_behind t ts e s (insert_level-IsSorted ts h.1 (rest t ts s)))
    | inr (e, f) ↦ rw e (f, s)
  ]

pub IsSorted-data :
    (levels levels' : ℕ → MeOrdersAtPrice) (ls : List ℕ)
    → ((l : ℕ) → data_of (levels' l) ≡ data_of (levels l))
    → IsSorted levels ls
    → IsSorted levels' ls
IsSorted-data levels levels' [] h s = tt
IsSorted-data levels levels' (x ∷ []) h s = tt
IsSorted-data levels levels' (x ∷ y ∷ ys) h s = (
  ap (λ a. is_behind a (levels' x)) (h y) ∙ ap (λ a. is_behind (levels y) a) (h x) ∙ s.0,
  IsSorted-data levels levels' (y ∷ ys) h s.1,
)
