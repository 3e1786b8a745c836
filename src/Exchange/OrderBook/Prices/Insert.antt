-- ===== src/Exchange/OrderBook/Prices/Insert.antt =====
-- The levels of a side of exchange/matcher/me_order_book.h as a sorted list, and a new one among them.
use mathlib.Core.Path.{subst}
use trading_ecosystem.Prelude.{
  ℕ, ◌≡◌, sym, ap, ◌∙◌, ◌≢◌, ◌⊎◌, inl, inr, true, false, Option, none, some, List, [], ◌∷◌, ◌++◌,
  ◌==◌, Bool-cases, All, Outcome, ok,
}
use trading_ecosystem.Prelude.Int.{eqb_ℤ}
use trading_ecosystem.Common.Types.{Side, buy, sell}
use trading_ecosystem.Common.Rings.{Fresh, Distinct, Ring, All-map, All-map2, ==_sym}
use trading_ecosystem.Common.Rings.Links.{IsLast, IsLast-All}
use trading_ecosystem.Common.Rings.Unlink.{IsLast-rest}
use trading_ecosystem.Exchange.OrderBook.State.{Book, level, best}
use trading_ecosystem.Exchange.OrderBook.Levels.{is_behind}
use trading_ecosystem.Exchange.OrderBook.Prices.{
  next_entry_of, prev_entry_of, insert_level, IsSorted,
}
use trading_ecosystem.Exchange.OrderBook.Prices.Links.{
  data_of, IsInserted, linked_first, linked_first-alone, linked_first-others,
}
use trading_ecosystem.Exchange.OrderBook.Prices.Sorted.{
  behind-total, insert_level-All, insert_level-Distinct, insert_level-IsSorted, IsSorted-data,
}

-- The pointer to the best level
abbrev pub IsBest : Option ℕ → List ℕ → Type 0
IsBest p [] = p ≡ none
IsBest p (x ∷ xs) = p ≡ some x

-- The levels of a side: linked in a ring from the best one on, sorted by price.
pub record HasLevels (b : Book) (side : Side) (ls : List ℕ) : Type 0 where
  pub linked : Ring (next_entry_of b) (prev_entry_of b) ls
  pub first : IsBest (best side b) ls
  pub distinct : Distinct ls
  pub sides : All (λ l. (level b l).side ≡ side) ls
  pub sorted : IsSorted (level b) ls

-- What remains to be said of a new level once it is linked in
pub HasLevels-insert :
    (side : Side) (new : ℕ) (ls : List ℕ) (b b' : Book)
    → HasLevels b side ls
    → (side ≡ buy) ⊎ (side ≡ sell)
    → Fresh new ls
    → (level b new).side ≡ side
    → All (λ l. eqb_ℤ (level b new).price (level b l).price ≡ false) ls
    → ((l : ℕ) → data_of (level b' l) ≡ data_of (level b l))
    → Ring (next_entry_of b') (prev_entry_of b') (insert_level (level b) new ls)
    → IsBest (best side b') (insert_level (level b) new ls)
    → HasLevels b' side (insert_level (level b) new ls)
HasLevels-insert side new ls b b' h s f e prices same ring best_is = record {
  linked = ring;
  first = best_is;
  distinct = insert_level-Distinct (level b) new ls f h.distinct;
  sides =
      All-map (insert_level (level b) new ls) (λ l g. ap (λ a. a.side) (same l) ∙ g)
        (insert_level-All (level b) new (λ l. (level b l).side ≡ side) ls e h.sides);
  sorted =
      IsSorted-data (level b) (level b') (insert_level (level b) new ls) same
        (insert_level-IsSorted (level b) new ls (All-map2 ls compare h.sides prices) h.sorted);
}
  where
    compare :
        (l : ℕ)
        → (level b l).side ≡ side
        → eqb_ℤ (level b new).price (level b l).price ≡ false
        → (is_behind (level b new) (level b l) ≡ true)
          ⊎ ((is_behind (level b new) (level b l) ≡ false)
              × (is_behind (level b l) (level b new) ≡ true))
    compare l g d = elim (Bool-cases (is_behind (level b new) (level b l))) [
      | inl t ↦ inl t
      | inr t ↦ inr (t, (behind-total side (level b new) (level b l) s e g d t).0)
    ]

-- The other side's levels are as they were, if its links and its best level are.
pub HasLevels-elsewhere :
    (other : Side) (os : List ℕ) (b b' : Book)
    → HasLevels b other os
    → ((l : ℕ) → data_of (level b' l) ≡ data_of (level b l))
    → Ring (next_entry_of b') (prev_entry_of b') os
    → best other b' ≡ best other b
    → HasLevels b' other os
HasLevels-elsewhere other os b b' h same ring best_is = record {
  linked = ring;
  first = subst (λ p. IsBest p os) (sym best_is) h.first;
  distinct = h.distinct;
  sides = All-map os (λ l g. ap (λ a. a.side) (same l) ∙ g) h.sides;
  sorted = IsSorted-data (level b) (level b') os same h.sorted;
}

-- A book with the new level in its place, and the other side as it was, as a result
abbrev pub Adds : Side → ℕ → List ℕ → Side → List ℕ → Book → Outcome Book → Type 0
Adds side new ls other os b m =
    (b' : Book) × (m ≡ ok b')
    × HasLevels b' side (insert_level (level b) new ls)
    × HasLevels b' other os
    × ((l : ℕ) → data_of (level b' l) ≡ data_of (level b l))

nil_not_snoc : (ws : List ℕ) (y : ℕ) → [] ≢ ws ++ y ∷ []
nil_not_snoc [] y e = cc
nil_not_snoc (w ∷ ws) y e = cc

pub first_IsInserted :
    (new x last : ℕ) (xs : List ℕ) (b : Book)
    → Ring (next_entry_of b) (prev_entry_of b) (x ∷ xs)
    → Distinct (x ∷ xs)
    → Fresh new (x ∷ xs)
    → IsLast (prev_entry_of b) x xs last
    → IsInserted b (linked_first new x last b) new last x
first_IsInserted new x last [] b r d f i = elim i.place [
  | inl (e, same) ↦
      subst (λ y. IsInserted b (linked_first new x y b) new y x) (sym same)
        (linked_first-alone new x b r.1 f.0)
  | inr (ws, e) ↦ absurd (nil_not_snoc ws last e)
]
first_IsInserted new x last (y ∷ ys) b r d f i =
    let others = All-map (y ∷ ys) (λ z g. ==_sym x z g) d.0 in
    linked_first-others new x last y b i.shown f.0
      (IsLast-All (λ z. (new == z) ≡ false) (prev_entry_of b) x (y ∷ ys) last i f)
      (IsLast-rest (λ z. (z == x) ≡ false) (prev_entry_of b) x y ys last i others) r.0 others.0
