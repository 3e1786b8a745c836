-- ===== src/Exchange/OrderBook/Fifo/Priority.antt =====
-- The priorities that `getNextPriority` of exchange/matcher/me_order_book.h hands out.
use mathlib.Core.List.{append_assoc}
use mathlib.Core.Path.{subst}
use trading_ecosystem.Prelude.{
  ℕ, ◌+◌, ◌^◌, ◌<◌, ◌≡◌, sym, ap, ◌∙◌, inl, inr, Option, some, List, [], ◌∷◌, ◌++◌, arith, update,
  All, Outcome, ok,
}
use trading_ecosystem.Prelude.Int.{ℤ}
use trading_ecosystem.Common.Rings.{Fresh, Ring, StartsAt}
use trading_ecosystem.Common.Rings.Links.{IsLast, Ring-IsLast, IsLast-All}
use trading_ecosystem.Exchange.OrderBook.State.{Book, MeOrder, level, order, get_orders_at_price}
use trading_ecosystem.Exchange.OrderBook.Orders.{get_next_priority, append_order}
use trading_ecosystem.Exchange.OrderBook.Fifo.{Represents, next_of, prev_of}
use trading_ecosystem.Exchange.OrderBook.Fifo.Append.{append_order-Represents}

-- Priorities rise along the list.
abbrev pub IsRising : (ℕ → ℕ) → List ℕ → Type 0
IsRising priority [] = Unit
IsRising priority (x ∷ []) = Unit
IsRising priority (x ∷ y ∷ ys) = (priority x < priority y) × IsRising priority (y ∷ ys)

IsRising-snoc :
    (f g : ℕ → ℕ) (ws : List ℕ) (y o : ℕ)
    → ((i : ℕ) → g i ≡ f i)
    → IsRising f (ws ++ y ∷ [])
    → f y < g o
    → IsRising g (ws ++ y ∷ o ∷ [])
IsRising-snoc f g [] y o same s h = (omega (arith, same y, h), tt)
IsRising-snoc f g (w ∷ []) y o same s h =
    (omega (arith, same w, same y, s.0), (omega (arith, same y, h), tt))
IsRising-snoc f g (w ∷ v ∷ ws) y o same s h =
    (omega (arith, same w, same v, s.0), IsRising-snoc f g (v ∷ ws) y o same s.1 h)

get_next_priority-last :
    (price : ℤ) (l x last : ℕ) (b : Book)
    → get_orders_at_price price b ≡ some l
    → (level b l).first_me_order ≡ some x
    → (order b x).prev_order ≡ some last
    → (order b last).priority + 1 < 2 ^ 64
    → get_next_priority price b ≡ ok ((order b last).priority + 1)
unfolding get_next_priority
get_next_priority-last price l x last b e f p small = ground arith

IsLast-snoc :
    (prev : ℕ → Option ℕ) (x : ℕ) (xs : List ℕ) (last : ℕ)
    → IsLast prev x xs last
    → (ws : List ℕ) × (x ∷ xs ≡ ws ++ last ∷ [])
IsLast-snoc prev x xs last i = elim i.place [
  | inl (e, same) ↦ ([], ap (λ l. x ∷ l) e ∙ ap (λ y. y ∷ []) (sym same))
  | inr (ws, e) ↦ (x ∷ ws, ap (λ l. x ∷ l) e)
]

ok_inj : (m n : ℕ) → ◌≡◌ {A = Outcome ℕ} (ok m) (ok n) → m ≡ n
ok_inj m n e = cc

-- Time priority: at a price with orders whose priorities rise from the oldest to the newest, an order that is added with the priority that `getNextPriority` gives for the price comes last in the level's list, and the priorities rise along the new list, as long as the newest priority is not the last one of 64 bits.
pub append_order-IsRising :
    (price : ℤ) (o l x : ℕ) (xs : List ℕ) (b : Book) (orders : ℕ → List ℕ)
    → Represents b orders
    → orders l ≡ x ∷ xs
    → ((k : ℕ) → Fresh o (orders k))
    → get_orders_at_price price b ≡ some l
    → IsRising (λ i. (order b i).priority) (x ∷ xs)
    → get_next_priority price b ≡ ok (order b o).priority
    → All (λ i. (order b i).priority + 1 < 2 ^ 64) (x ∷ xs)
    → (b' : Book) × (append_order o l b ≡ ok b')
      × Represents b' (update orders l (x ∷ xs ++ o ∷ []))
      × IsRising (λ i. (order b' i).priority) (x ∷ xs ++ o ∷ [])
append_order-IsRising price o l x xs b orders r e fresh at_price rising given small =
    let starts = subst (StartsAt (level b l).first_me_order) e (r.first l) in
    let (last, i) =
      Ring-IsLast (next_of b) (prev_of b) x xs
        (subst (Ring (next_of b) (prev_of b)) e (r.linked l)) in
    let (older, split) = IsLast-snoc (prev_of b) x xs last i in
    let small_last =
      IsLast-All (λ y. (order b y).priority + 1 < 2 ^ 64) (prev_of b) x xs last i small in
    let newest =
      ok_inj _ _ (
        sym (get_next_priority-last price l x last b at_price starts i.shown small_last) ∙ given) in
    let (b', ran, represents, same) = append_order-Represents o l x xs b orders r e fresh in
    let kept = λ (k : ℕ). ap (λ (n : MeOrder). n.priority) (same k) in
    (
      b',
      ran,
      represents,
      subst (IsRising (λ k. (order b' k).priority))
          (sym (ap (λ ys. ys ++ o ∷ []) split ∙ append_assoc older (last ∷ []) (o ∷ [])))
          (IsRising-snoc (λ k. (order b k).priority) (λ k. (order b' k).priority) older last o kept
            (subst (IsRising (λ k. (order b k).priority)) split rising)
            (omega (arith, newest, kept o))),
    )
