-- ===== src/Exchange/OrderBook/Prices.antt =====
-- The price levels of a side, in exchange/matcher/me_order_book.h: the circular list of levels as a
-- list, best price first, and the search of `addOrdersAtPrice` for the place of a new level.
pub mod Links
pub mod Sorted
pub mod Cases
pub mod Insert
pub mod Add
pub mod Remove
use mathlib.Core.Path.{subst}
use trading_ecosystem.Prelude.{
  ℕ, zero, suc, ◌+◌, ◌-◌, ◌*◌, ◌/◌, ◌%◌, ◌^◌, ◌≤◌, ◌<◌, min, ◌≡◌, refl, sym, ap, ◌∙◌, ◌≢◌, ◌↔◌, ◌⊎◌,
  inl, inr, Bool, true, false, not, ◌&&◌, ◌||◌, Option, none, some, List, [], ◌∷◌, ◌++◌, map, arith,
  ltb, leb, ◌==◌, if◌then◌else◌, ==_iff, ==_refl, Bool-cases, Option-cases, length, length-append,
  length-Perm, nil_of_length, update, All, All-append, Fault, assertion, null_pointer, out_of_range,
  out_of_fuel, Outcome, ok, failed, ◌>>=◌, ◌>>◌, assert, in_range, deref, >>=-eq-ok, >>=-cong,
  >>=-assoc, >>=-≢, deref-fuel, count_below, count_below-le, count_below-same, count_below-cleared,
}
use trading_ecosystem.Prelude.Int.{ℤ, ltb_ℤ}
use trading_ecosystem.Common.Types.{Side, buy, sell, is_buy, is_sell}
use trading_ecosystem.Common.Rings.{Fresh, Distinct, Chain, Ring, StartsAt}
use trading_ecosystem.Exchange.OrderBook.State.{Book, MeOrdersAtPrice, level, best}
use trading_ecosystem.Exchange.OrderBook.Levels.{is_behind, is_better, walk, find_target}

abbrev pub next_entry_of : Book → ℕ → Option ℕ
next_entry_of b l = (level b l).next_entry

abbrev pub prev_entry_of : Book → ℕ → Option ℕ
prev_entry_of b l = (level b l).prev_entry

-- A new level in its place among the levels of a side
unfoldable pub insert_level : (ℕ → MeOrdersAtPrice) → ℕ → List ℕ → List ℕ
insert_level levels new [] = new ∷ []
insert_level levels new (t ∷ ts) =
    if is_behind (levels new) (levels t) then t ∷ insert_level levels new ts else new ∷ t ∷ ts

-- Every level belongs behind the one before it.
abbrev pub IsSorted : (ℕ → MeOrdersAtPrice) → List ℕ → Type 0
IsSorted levels [] = Unit
IsSorted levels (x ∷ []) = Unit
IsSorted levels (x ∷ y ∷ ys) = (is_behind (levels y) (levels x) ≡ true) × IsSorted levels (y ∷ ys)

pub insert_level-behind :
    (levels : ℕ → MeOrdersAtPrice) (new t : ℕ) (ts : List ℕ)
    → is_behind (levels new) (levels t) ≡ true
    → insert_level levels new (t ∷ ts) ≡ t ∷ insert_level levels new ts
unfolding insert_level
insert_level-behind levels new t ts e = rw e refl

pub insert_level-before :
    (levels : ℕ → MeOrdersAtPrice) (new t : ℕ) (ts : List ℕ)
    → is_behind (levels new) (levels t) ≡ false
    → insert_level levels new (t ∷ ts) ≡ new ∷ t ∷ ts
unfolding insert_level
insert_level-before levels new t ts e = rw e refl

-- What the search finds: the first level that the new one is not behind, or the end of the list.
pub data Found (b : Book) (new first : ℕ) (ts : List ℕ) (r : Outcome (Bool × ℕ)) : Type 0 where
  before :
      (ws : List ℕ) (u : ℕ) (zs : List ℕ)
      → r ≡ ok (false, u)
      → ts ≡ ws ++ u ∷ zs
      → insert_level (level b) new ts ≡ ws ++ new ∷ u ∷ zs
      → Found b new first ts r
  at_end :
      r ≡ ok (true, first) → insert_level (level b) new ts ≡ ts ++ new ∷ [] → Found b new first ts r

module _ (b : Book) (new first : ℕ) where
  walk_stop : (fuel : ℕ) (t : ℕ) → walk (suc fuel) b new first false t ≡ ok (false, t)
  unfolding walk
  walk_stop fuel t = refl

  walk_home : (fuel : ℕ) → walk (suc fuel) b new first true first ≡ ok (true, first)
  unfolding walk
  walk_home fuel = rw (walk, ==_refl first) refl

  walk_before :
      (fuel t : ℕ)
      → (t == first) ≡ false
      → is_behind (level b new) (level b t) ≡ false
      → walk (suc fuel) b new first true t ≡ walk fuel b new first false t
  unfolding walk
  walk_before fuel t e h = rw (walk, e, h) refl

  walk_on :
      (fuel t u : ℕ)
      → (t == first) ≡ false
      → is_behind (level b new) (level b t) ≡ true
      → next_entry_of b t ≡ some u
      → walk (suc fuel) b new first true t ≡ walk fuel b new first true u
  unfolding walk
  walk_on fuel t u e h n = rw (walk, e, h, n) refl

  Found-behind :
      (t : ℕ) (ts : List ℕ) (r r' : Outcome (Bool × ℕ))
      → is_behind (level b new) (level b t) ≡ true
      → r ≡ r'
      → Found b new first ts r'
      → Found b new first (t ∷ ts) r
  Found-behind t ts r r' h e (before ws u zs s f i) =
      before (t ∷ ws) u zs (e ∙ s) (ap (λ l. t ∷ l) f)
        (insert_level-behind (level b) new t ts h ∙ ap (λ l. t ∷ l) i)
  Found-behind t ts r r' h e (at_end s i) =
      at_end (e ∙ s) (insert_level-behind (level b) new t ts h ∙ ap (λ l. t ∷ l) i)

  walk-Found :
      (fuel t : ℕ) (ts : List ℕ)
      → Chain (next_entry_of b) (prev_entry_of b) t ts first
      → All (λ y. (y == first) ≡ false) (t ∷ ts)
      → length ts + 1 < fuel
      → Found b new first (t ∷ ts) (walk fuel b new first true t)
  unfolding insert_level
  walk-Found zero t ts c away h = absurd (omega arith)
  walk-Found (suc zero) t ts c away h = absurd (omega arith)
  walk-Found (suc (suc fuel)) t [] c away h =
      elim (Bool-cases (is_behind (level b new) (level b t))) [
        | inr e ↦
            before [] t [] (walk_before (suc fuel) t away.0 e ∙ walk_stop fuel t) refl
              (insert_level-before (level b) new t [] e)
        | inl e ↦
            Found-behind t [] _ _ e (walk_on (suc fuel) t first away.0 e c.0 ∙ walk_home fuel)
              (at_end refl refl)
      ]
  walk-Found (suc (suc fuel)) t (u ∷ us) c away h =
      let rest = walk-Found (suc fuel) u us c.1.1 away.1 (omega arith) in
      elim (Bool-cases (is_behind (level b new) (level b t))) [
        | inr e ↦
            before [] t (u ∷ us) (walk_before (suc fuel) t away.0 e ∙ walk_stop fuel t) refl
              (insert_level-before (level b) new t (u ∷ us) e)
        | inl e ↦ Found-behind t (u ∷ us) _ _ e (walk_on (suc fuel) t u away.0 e c.0) rest
      ]

  find_target_behind :
      (t : ℕ)
      → is_behind (level b new) (level b first) ≡ true
      → next_entry_of b first ≡ some t
      → find_target b new first
        ≡ walk (b.orders_at_price_pool.size + 2) b new first (is_behind (level b new) (level b t)) t
  unfolding find_target
  find_target_behind t e n = rw (find_target, e, n) refl

  pub find_target_front :
      is_behind (level b new) (level b first) ≡ false
      → find_target b new first ≡ walk (b.orders_at_price_pool.size + 2) b new first false first
  unfolding find_target
  find_target_front e = rw (find_target, e) refl

  pub walk_stopped : (fuel t : ℕ) → 0 < fuel → walk fuel b new first false t ≡ ok (false, t)
  walk_stopped zero t h = absurd (omega arith)
  walk_stopped (suc fuel) t h = walk_stop fuel t

  walk_ended : (fuel : ℕ) → 0 < fuel → walk fuel b new first true first ≡ ok (true, first)
  walk_ended zero h = absurd (omega arith)
  walk_ended (suc fuel) h = walk_home fuel

  -- The search among the levels of a side finds the place of a new level that is behind the first one.
  pub find_target-Found :
      (ts : List ℕ)
      → Ring (next_entry_of b) (prev_entry_of b) (first ∷ ts)
      → All (λ y. (y == first) ≡ false) ts
      → length ts < b.orders_at_price_pool.size
      → is_behind (level b new) (level b first) ≡ true
      → Found b new first ts (find_target b new first)
  unfolding insert_level
  find_target-Found [] r away h e =
      at_end (find_target_behind first e r.0 ∙ rw e (walk_ended _ (omega arith))) refl
  find_target-Found (t ∷ ts) r away h e = elim (Bool-cases (is_behind (level b new) (level b t))) [
    | inr f ↦
        before [] t ts (find_target_behind t e r.0 ∙ rw f (walk_stopped _ t (omega arith))) refl
          (insert_level-before (level b) new t ts f)
    | inl f ↦
        subst (Found b new first (t ∷ ts)) (sym (find_target_behind t e r.0 ∙ rw f refl))
          (walk-Found (b.orders_at_price_pool.size + 2) t ts r.1.1 away (omega arith))
  ]

-- Two levels of one side, of which one belongs behind the other
behind_or_better :
    (levels : ℕ → MeOrdersAtPrice) (new t : ℕ)
    → (levels new).side ≡ (levels t).side
    → is_better (levels new) (levels t) ≡ is_behind (levels t) (levels new)
behind_or_better levels new t e = ground arith
