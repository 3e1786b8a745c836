-- ===== src/Exchange/OrderBook/Prices/Add.antt =====
-- `addOrdersAtPrice` of exchange/matcher/me_order_book.h against the sorted list of a side's levels.
use mathlib.Core.List.{append-nil}
use mathlib.Core.Path.{subst}
use trading_ecosystem.Prelude.{
  ℕ, ◌≤◌, ◌<◌, ◌≡◌, refl, sym, ap, ◌∙◌, ◌⊎◌, inl, inr, true, false, not, some, List, [], ◌∷◌, ◌++◌,
  arith, ◌==◌, Bool-cases, length, All, All-append, ok,
}
use trading_ecosystem.Prelude.Int.{eqb_ℤ}
use trading_ecosystem.Common.Types.{Side, buy, sell, is_buy, opposite}
use trading_ecosystem.Common.Rings.{
  Fresh, Distinct, Ring, Ring-rotate, All-left, All-right, All-map, ==_sym,
}
use trading_ecosystem.Common.Rings.Links.{
  IsLast, Ring-IsLast, Ring-append, Ring-insert, Ring-next_last, IsLast-All, Ring-same,
  Ring-elsewhere_linked,
}
use trading_ecosystem.Exchange.OrderBook.State.{Book, level, best}
use trading_ecosystem.Exchange.OrderBook.Levels.{is_behind, find_target, add_orders_at_price}
use trading_ecosystem.Exchange.OrderBook.Prices.{
  next_entry_of, prev_entry_of, insert_level, insert_level-behind, insert_level-before, before,
  at_end, find_target_front, walk_stopped, find_target-Found,
}
use trading_ecosystem.Exchange.OrderBook.Prices.Links.{
  data_of, linked_before, linked_before-IsInserted, insert_before-linked_before, linked_before-best,
  linked_after, linked_after-IsInserted, insert_after-linked_after, linked_after-best, linked_first,
  insert_before-linked_first, linked_first-best, linked_first-best_other,
}
use trading_ecosystem.Exchange.OrderBook.Prices.Sorted.{behind-total, behind-not-better}
use trading_ecosystem.Exchange.OrderBook.Prices.Cases.{
  mapped, add_first, add_empty, add_before, add_after, add_first-links, add_first-data_of,
  add_first-best, mapped-best, add_first-best_other, add_first-other,
}
use trading_ecosystem.Exchange.OrderBook.Prices.Insert.{
  IsBest, HasLevels, HasLevels-insert, HasLevels-elsewhere, Adds, first_IsInserted,
}

opposes :
    (other side : Side)
    → other ≡ opposite side
    → (side ≡ buy) ⊎ (side ≡ sell)
    → is_buy other ≡ not (is_buy side)
opposes other side e (inl b) = rw (e, b) refl
opposes other side e (inr b) = rw (e, b) refl

module _ (side : Side) (new x : ℕ) (xs : List ℕ) (b : Book) (h : HasLevels b side (x ∷ xs))
    (s : (side ≡ buy) ⊎ (side ≡ sell)) (f : Fresh new (x ∷ xs)) (e : (level b new).side ≡ side)
    (prices : All (λ l. eqb_ℤ (level b new).price (level b l).price ≡ false) (x ∷ xs))
    (other : Side) (os : List ℕ) (o : HasLevels b other os)
    (opposed : is_buy other ≡ not (is_buy (level b new).side))
    (away : All (λ l. Fresh l os) (new ∷ x ∷ xs)) where
  best_first : best (level b new).side b ≡ some x
  best_first = ap (λ t. best t b) e ∙ h.first

  add_better :
      is_behind (level b new) (level b x) ≡ false
      → Adds side new (x ∷ xs) other os b (add_orders_at_price new b)
  add_better front =
      let m = mapped new b in
      let (last, i) = Ring-IsLast (next_entry_of b) (prev_entry_of b) x xs h.linked in
      let b' = linked_first new x last m in
      let found = find_target_front m new x front ∙ walk_stopped m new x _ x (omega arith) in
      let better = (behind-total side (level b new) (level b x) s e h.sides.0 prices.0 front).1 in
      let done = first_IsInserted new x last xs m h.linked h.distinct f i in
      let placed = sym (insert_level-before (level b) new x xs front) in
      (
        b',
        add_before new x x b best_first found
            ∙ insert_before-linked_first new x last m i.shown f.0 better,
        HasLevels-insert side new (x ∷ xs) b b' h s f e prices done.contents
            (subst (Ring (next_entry_of b') (prev_entry_of b')) placed (
              Ring-insert (next_entry_of b) (prev_entry_of b) (next_entry_of b') (prev_entry_of b')
                [] x xs new last h.linked h.distinct f
                (subst (λ l. IsLast (prev_entry_of b) x l last) (sym (append-nil xs)) i)
                done.links))
            (subst (IsBest (best side b')) placed
              (ap (λ t. best t b') (sym e) ∙ linked_first-best new x last m)),
        HasLevels-elsewhere other os b b' o done.contents
            (Ring-elsewhere_linked (next_entry_of b) (prev_entry_of b) (next_entry_of b')
              (prev_entry_of b') last new x os done.links
              (IsLast-All (λ y. Fresh y os) (prev_entry_of b) x xs last i away.1) away.0 away.1.0
              o.linked)
            (linked_first-best_other other new x last m opposed ∙ mapped-best new other b),
        done.contents,
      )

  add_between :
      (ws : List ℕ) (u : ℕ) (zs : List ℕ)
      → is_behind (level b new) (level b x) ≡ true
      → find_target (mapped new b) new x ≡ ok (false, u)
      → xs ≡ ws ++ u ∷ zs
      → insert_level (level b) new xs ≡ ws ++ new ∷ u ∷ zs
      → Adds side new (x ∷ xs) other os b (add_orders_at_price new b)
  add_between ws u zs behind found split place =
      let m = mapped new b in
      let ring = subst (λ l. Ring (next_entry_of b) (prev_entry_of b) (x ∷ l)) split h.linked in
      let distinct = subst (λ l. Distinct (x ∷ l)) split h.distinct in
      let fresh = subst (λ l. Fresh new (x ∷ l)) split f in
      let (last, i) =
        Ring-IsLast (next_entry_of b) (prev_entry_of b) u (zs ++ x ∷ ws)
          (Ring-rotate (next_entry_of b) (prev_entry_of b) (x ∷ ws) (u ∷ zs) ring) in
      let around =
        All-append (λ y. (new == y) ≡ false) (u ∷ zs) (x ∷ ws)
          (All-right (λ y. (new == y) ≡ false) (x ∷ ws) (u ∷ zs) fresh)
          (All-left (λ y. (new == y) ≡ false) (x ∷ ws) (u ∷ zs) fresh) in
      let there = subst (λ l. All (λ y. Fresh y os) (x ∷ l)) split away.1 in
      let apart =
        All-append (λ y. Fresh y os) (u ∷ zs) (x ∷ ws)
          (All-right (λ y. Fresh y os) (x ∷ ws) (u ∷ zs) there)
          (All-left (λ y. Fresh y os) (x ∷ ws) (u ∷ zs) there) in
      let b' = linked_before new u last m in
      let worse = behind-not-better side (level b new) (level b x) s e behind in
      let done =
        linked_before-IsInserted new u last m i.shown around.0
          (IsLast-All (λ y. (new == y) ≡ false) (prev_entry_of b) u (zs ++ x ∷ ws) last i around) in
      let placed =
        ap (λ l. x ∷ l) (sym place) ∙ sym (insert_level-behind (level b) new x xs behind) in
      (
        b',
        add_before new x u b best_first found
            ∙ insert_before-linked_before new x u last m i.shown around.0 worse,
        HasLevels-insert side new (x ∷ xs) b b' h s f e prices done.contents
            (subst (Ring (next_entry_of b') (prev_entry_of b')) placed (
              Ring-insert (next_entry_of b) (prev_entry_of b) (next_entry_of b') (prev_entry_of b')
                (x ∷ ws) u zs new last ring distinct fresh i done.links))
            (subst (IsBest (best side b')) placed
              (linked_before-best side new u last m ∙ mapped-best new side b ∙ h.first)),
        HasLevels-elsewhere other os b b' o done.contents
            (Ring-elsewhere_linked (next_entry_of b) (prev_entry_of b) (next_entry_of b')
              (prev_entry_of b') last new u os done.links
              (IsLast-All (λ y. Fresh y os) (prev_entry_of b) u (zs ++ x ∷ ws) last i apart) away.0
              apart.0 o.linked)
            (linked_before-best other new u last m ∙ mapped-best new other b),
        done.contents,
      )

  add_last :
      is_behind (level b new) (level b x) ≡ true
      → find_target (mapped new b) new x ≡ ok (true, x)
      → insert_level (level b) new xs ≡ xs ++ new ∷ []
      → Adds side new (x ∷ xs) other os b (add_orders_at_price new b)
  add_last behind found place =
      let m = mapped new b in
      let (last, i) = Ring-IsLast (next_entry_of b) (prev_entry_of b) x xs h.linked in
      let back = Ring-next_last (next_entry_of b) (prev_entry_of b) x xs last h.linked i in
      let new_last = IsLast-All (λ y. (new == y) ≡ false) (prev_entry_of b) x xs last i f in
      let b' = linked_after new x last m in
      let done = linked_after-IsInserted new x last m back f.0 new_last in
      let placed =
        ap (λ l. x ∷ l) (sym place) ∙ sym (insert_level-behind (level b) new x xs behind) in
      (
        b',
        add_after new x x b best_first found
            ∙ insert_after-linked_after new x last m i.shown back new_last,
        HasLevels-insert side new (x ∷ xs) b b' h s f e prices done.contents
            (subst (Ring (next_entry_of b') (prev_entry_of b')) placed (
              Ring-append (next_entry_of b) (prev_entry_of b) (next_entry_of b') (prev_entry_of b')
                x xs new last h.linked h.distinct f i done.links))
            (subst (IsBest (best side b')) placed
              (linked_after-best side new x last m ∙ mapped-best new side b ∙ h.first)),
        HasLevels-elsewhere other os b b' o done.contents
            (Ring-elsewhere_linked (next_entry_of b) (prev_entry_of b) (next_entry_of b')
              (prev_entry_of b') last new x os done.links
              (IsLast-All (λ y. Fresh y os) (prev_entry_of b) x xs last i away.1) away.0 away.1.0
              o.linked)
            (linked_after-best other new x last m ∙ mapped-best new other b),
        done.contents,
      )

  add_behind :
      is_behind (level b new) (level b x) ≡ true
      → length xs < b.orders_at_price_pool.size
      → Adds side new (x ∷ xs) other os b (add_orders_at_price new b)
  add_behind behind room =
      elim (find_target-Found (mapped new b) new x xs h.linked
        (All-map xs (λ y g. ==_sym x y g) h.distinct.0) room behind) [
          | before ws u zs found split place ↦ add_between ws u zs behind found split place
          | at_end found place ↦ add_last behind found place
        ]

  add_nonempty :
      length xs < b.orders_at_price_pool.size
      → Adds side new (x ∷ xs) other os b (add_orders_at_price new b)
  add_nonempty room = elim (Bool-cases (is_behind (level b new) (level b x))) [
    | inl behind ↦ add_behind behind room
    | inr front ↦ add_better front
  ]

add_alone :
    (side : Side) (new : ℕ) (b : Book) (other : Side) (os : List ℕ)
    → HasLevels b side []
    → (side ≡ buy) ⊎ (side ≡ sell)
    → (level b new).side ≡ side
    → HasLevels b other os
    → is_buy other ≡ not (is_buy (level b new).side)
    → Fresh new os
    → Adds side new [] other os b (add_orders_at_price new b)
unfolding insert_level
add_alone side new b other os h s e o opposed away =
    let b' = add_first new b in
    let same = λ (l : ℕ). add_first-data_of new l b in
    (
      b',
      add_empty new b (ap (λ t. best t b) e ∙ h.first),
      HasLevels-insert side new [] b b' h s tt e tt same (add_first-links new b)
          (ap (λ t. best t b') (sym e) ∙ add_first-best new b),
      HasLevels-elsewhere other os b b' o same
          (Ring-same (next_entry_of b) (prev_entry_of b) (next_entry_of b') (prev_entry_of b') os
            (All-map os (λ i g. ap (λ n. n.next_entry) (add_first-other new i b g)) away)
            (All-map os (λ i g. ap (λ n. n.prev_entry) (add_first-other new i b g)) away) o.linked)
          (add_first-best_other other new b opposed),
      same,
    )

-- A new level of a side goes to its place among the levels of that side, which stay in the order of their prices, best first, with the best one at the side's pointer: whether the side is empty, or the new level is better than all, between two, or behind all. Every step succeeds and the search ends, the levels of the other side stay as they were, and no level changes but for its links. The new level has to be of the side, not to be linked in yet, and at a price that no level of the side has; no level may be on both sides; and the side has at most as many levels as the pool has blocks.
pub add_orders_at_price-insert_level :
    (side : Side) (new : ℕ) (ls : List ℕ) (other : Side) (os : List ℕ) (b : Book)
    → HasLevels b side ls
    → HasLevels b other os
    → (side ≡ buy) ⊎ (side ≡ sell)
    → other ≡ opposite side
    → (level b new).side ≡ side
    → Fresh new ls
    → All (λ l. Fresh l os) (new ∷ ls)
    → All (λ l. eqb_ℤ (level b new).price (level b l).price ≡ false) ls
    → length ls ≤ b.orders_at_price_pool.size
    → (b' : Book) × (add_orders_at_price new b ≡ ok b')
      × HasLevels b' side (insert_level (level b) new ls)
      × HasLevels b' other os
      × ((l : ℕ) → data_of (level b' l) ≡ data_of (level b l))
add_orders_at_price-insert_level side new [] other os b h o s p e f away prices room =
    add_alone side new b other os h s e o
      (opposes other (level b new).side (p ∙ ap opposite (sym e))
        (subst (λ t. (t ≡ buy) ⊎ (t ≡ sell)) (sym e) s))
      away.0
add_orders_at_price-insert_level side new (x ∷ xs) other os b h o s p e f away prices room =
    add_nonempty side new x xs b h s f e prices other os o
      (opposes other (level b new).side (p ∙ ap opposite (sym e))
        (subst (λ t. (t ≡ buy) ⊎ (t ≡ sell)) (sym e) s))
      away (omega arith)
