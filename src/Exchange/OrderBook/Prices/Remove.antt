-- ===== src/Exchange/OrderBook/Prices/Remove.antt =====
-- `unlink_level`, the part of `removeOrdersAtPrice` of exchange/matcher/me_order_book.h for a side with
-- other levels.
use mathlib.Core.Path.{subst}
use trading_ecosystem.Prelude.{
  ℕ, ◌+◌, ◌<◌, ◌≡◌, refl, sym, ap, ◌∙◌, true, false, not, Option, none, some, List, [], ◌∷◌, ◌++◌,
  arith, ◌==◌, if◌then◌else◌, ==_refl, length, All, All-append, ok,
}
use trading_ecosystem.Common.Types.{Side, is_buy}
use trading_ecosystem.Common.Rings.{Fresh, Distinct, All-left, All-right, All-map, Distinct-rotate}
use trading_ecosystem.Common.Rings.Unlink.{
  Ring-elsewhere_unlinked, IsUnlinked, Ring-unlink, Ring-neighbours, IsLast-rest, head_or,
  others_first,
}
use trading_ecosystem.Exchange.OrderBook.State.{
  Book, MeOrdersAtPrice, level, set_level, set_next_entry, set_prev_entry, best, set_best,
  points_to,
}
use trading_ecosystem.Exchange.OrderBook.Levels.{is_behind, unlink_level}
use trading_ecosystem.Exchange.OrderBook.Prices.{next_entry_of, prev_entry_of, IsSorted}
use trading_ecosystem.Exchange.OrderBook.Prices.Links.{data_of}
use trading_ecosystem.Exchange.OrderBook.Prices.Sorted.{IsSorted-data}
use trading_ecosystem.Exchange.OrderBook.Prices.Insert.{IsBest, HasLevels, HasLevels-elsewhere}

-- The book after `unlink_level`
taken_out : (side : Side) (l before after : ℕ) (b0 : Book) → Book
taken_out side l before after b0 =
    let b = set_next_entry before (some after) b0 in
    let b = set_prev_entry after (some before) b in
    let b = if points_to (best side b0) l then set_best side (some after) b else b in
    set_prev_entry l none (set_next_entry l none b)

unlink_level-taken_out :
    (side : Side) (l before after : ℕ) (b : Book)
    → prev_entry_of b l ≡ some before
    → next_entry_of b l ≡ some after
    → (l == before) ≡ false
    → (l == after) ≡ false
    → unlink_level side l b ≡ ok (taken_out side l before after b)
unfolding unlink_level taken_out set_level
unlink_level-taken_out side l before after b p n lb la = ground arith

taken_out-IsUnlinked :
    (side : Side) (l before after : ℕ) (b : Book)
    → (l == before) ≡ false
    → (l == after) ≡ false
    → IsUnlinked
        (next_entry_of b)
        (prev_entry_of b)
        (next_entry_of (taken_out side l before after b))
        (prev_entry_of (taken_out side l before after b))
        before
        l
        after
unfolding taken_out set_level
taken_out-IsUnlinked side l before after b lb la = record {
  next_before = ground arith;
  prev_after = ground arith;
  next_other = λ i h k. ground arith;
  prev_other = λ i h k. ground arith;
}

taken_out-data_of :
    (side : Side) (l before after : ℕ) (b : Book) (i : ℕ)
    → data_of (level (taken_out side l before after b) i) ≡ data_of (level b i)
unfolding taken_out set_level
taken_out-data_of side l before after b i = ground arith

taken_out-best :
    (side : Side) (l before after : ℕ) (b : Book)
    → best side (taken_out side l before after b)
      ≡ (if points_to (best side b) l then some after else best side b)
unfolding taken_out set_level
taken_out-best side l before after b = ground arith

taken_out-best_other :
    (side other : Side) (l before after : ℕ) (b : Book)
    → is_buy other ≡ not (is_buy side)
    → best other (taken_out side l before after b) ≡ best other b
unfolding taken_out set_level
taken_out-best_other side other l before after b h = ground arith

behind_trans :
    (side : Side) (x y z : MeOrdersAtPrice)
    → x.side ≡ side
    → y.side ≡ side
    → z.side ≡ side
    → is_behind y x ≡ true
    → is_behind z y ≡ true
    → is_behind z x ≡ true
behind_trans side x y z ex ey ez h k = ground arith

-- Sorted levels are sorted without one of them.
IsSorted-without :
    (side : Side) (levels : ℕ → MeOrdersAtPrice) (xs : List ℕ) (l : ℕ) (ys : List ℕ)
    → All (λ i. (levels i).side ≡ side) (xs ++ l ∷ ys)
    → IsSorted levels (xs ++ l ∷ ys)
    → IsSorted levels (xs ++ ys)
IsSorted-without side levels [] l [] h s = tt
IsSorted-without side levels [] l (y ∷ ys) h s = s.1
IsSorted-without side levels (x ∷ []) l [] h s = tt
IsSorted-without side levels (x ∷ []) l (y ∷ ys) h s =
    (behind_trans side (levels x) (levels l) (levels y) h.0 h.1.0 h.1.1.0 s.0 s.1.0, s.1.1)
IsSorted-without side levels (x ∷ w ∷ xs) l ys h s =
    (s.0, IsSorted-without side levels (w ∷ xs) l ys h.1 s.1)

IsBest-rest :
    (xs : List ℕ) (l : ℕ) (ys : List ℕ) (a : ℕ) (zs : List ℕ) (p : Option ℕ)
    → IsBest p (xs ++ l ∷ ys)
    → Distinct (xs ++ l ∷ ys)
    → ys ++ xs ≡ a ∷ zs
    → IsBest (if points_to p l then some a else p) (xs ++ ys)
IsBest-rest [] l [] a zs p s d e = cc
IsBest-rest [] l (y ∷ ys) a zs p s d e = rw (s, ==_refl l) (ap (λ i. some (head_or 0 i)) (sym e))
IsBest-rest (x ∷ xs) l ys a zs p s d e =
    rw (s, (All-right (λ y. (x == y) ≡ false) xs (l ∷ ys) d.0).0) refl

-- A level of a side with other levels leaves the list wherever it stands, and the others stay in the order of their prices, with the best one at the side's pointer. Every step succeeds, the levels of the other side, which have to be others, stay as they were, and no level changes but for its links.
pub unlink_level-HasLevels :
    (side : Side) (xs : List ℕ) (l : ℕ) (ys : List ℕ) (other : Side) (os : List ℕ) (b : Book)
    → HasLevels b side (xs ++ l ∷ ys)
    → HasLevels b other os
    → is_buy other ≡ not (is_buy side)
    → All (λ k. Fresh k os) (xs ++ l ∷ ys)
    → 0 < length xs + length ys
    → (b' : Book) × (unlink_level side l b ≡ ok b')
      × HasLevels b' side (xs ++ ys)
      × HasLevels b' other os
      × ((i : ℕ) → data_of (level b' i) ≡ data_of (level b i))
unlink_level-HasLevels side xs l ys other os b h o opposed away others =
    let (a, zs, turn) = others_first xs ys others in
    let turned = Distinct-rotate xs (l ∷ ys) h.distinct in
    let new = subst (Fresh l) turn turned.0 in
    let (next_shown, (before, i)) =
      Ring-neighbours (next_entry_of b) (prev_entry_of b) xs l ys a zs h.linked turn in
    let b' = taken_out side l before a b in
    let off = IsLast-rest (λ y. (l == y) ≡ false) (prev_entry_of b) l a zs before i new in
    let same = taken_out-data_of side l before a b in
    let links = taken_out-IsUnlinked side l before a b off new.0 in
    let apart = subst (All (λ y. Fresh y os)) turn (
      All-append (λ y. Fresh y os) ys xs (All-right (λ y. Fresh y os) xs (l ∷ ys) away).1
        (All-left (λ y. Fresh y os) xs (l ∷ ys) away)) in
    (
      b',
      unlink_level-taken_out side l before a b i.shown next_shown off new.0,
      record {
        linked =
            Ring-unlink (next_entry_of b) (prev_entry_of b) (next_entry_of b') (prev_entry_of b') xs
              l ys a before zs h.linked h.distinct turn i links;
        first =
            subst (λ p. IsBest p (xs ++ ys)) (sym (taken_out-best side l before a b))
              (IsBest-rest xs l ys a zs (best side b) h.first h.distinct turn);
        distinct = Distinct-rotate ys xs turned.1;
        sides =
            All-map (xs ++ ys) (λ k g. ap (λ n. n.side) (same k) ∙ g)
              (All-append (λ k. (level b k).side ≡ side) xs ys
                (All-left (λ k. (level b k).side ≡ side) xs (l ∷ ys) h.sides)
                (All-right (λ k. (level b k).side ≡ side) xs (l ∷ ys) h.sides).1);
        sorted =
            IsSorted-data (level b) (level b') (xs ++ ys) same
              (IsSorted-without side (level b) xs l ys h.sides h.sorted);
      },
      HasLevels-elsewhere other os b b' o same
          (Ring-elsewhere_unlinked (next_entry_of b) (prev_entry_of b) (next_entry_of b')
            (prev_entry_of b') before l a os links
            (IsLast-rest (λ y. Fresh y os) (prev_entry_of b) l a zs before i apart)
            (All-right (λ y. Fresh y os) xs (l ∷ ys) away).0 apart.0 o.linked)
          (taken_out-best_other side other l before a b opposed),
      same,
    )
