-- ===== src/Exchange/OrderBook/Fifo/Append.antt =====
-- `append_order`, the part of `addOrder` of exchange/matcher/me_order_book.h for a level with orders.
use mathlib.Core.Path.{subst}
use trading_ecosystem.Prelude.{
  ℕ, ◌≡◌, refl, sym, ap, false, some, List, [], ◌∷◌, ◌++◌, arith, ◌==◌, update, All, All-append, ok,
}
use trading_ecosystem.Common.Rings.{Fresh, Distinct, Ring, StartsAt, Distinct-snoc}
use trading_ecosystem.Common.Rings.Links.{
  Ring-elsewhere_linked, Ring-IsLast, IsLinkedIn, Ring-append, IsLast-All,
}
use trading_ecosystem.Exchange.OrderBook.State.{
  Book, level, order, set_order, set_next_order, set_prev_order,
}
use trading_ecosystem.Exchange.OrderBook.Orders.{append_order}
use trading_ecosystem.Exchange.OrderBook.Fifo.{
  next_of, prev_of, data_of, Represents, elsewhere, Represents-update,
}

-- The book after `append_order`
appended : (o l x last : ℕ) (b : Book) → Book
appended o l x last b =
    let b = set_next_order last (some o) b in
    let b = set_prev_order o (order b x).prev_order b in
    let b = set_next_order o (some x) b in set_prev_order x (some o) b

append_order-appended :
    (o l x last : ℕ) (b : Book)
    → (level b l).first_me_order ≡ some x
    → (order b x).prev_order ≡ some last
    → append_order o l b ≡ ok (appended o l x last b)
unfolding append_order appended
append_order-appended o l x last b f p = ground arith

appended-IsLinkedIn :
    (o l x last : ℕ) (b : Book)
    → (order b x).prev_order ≡ some last
    → (o == x) ≡ false
    → (o == last) ≡ false
    → IsLinkedIn
        (next_of b)
        (prev_of b)
        (next_of (appended o l x last b))
        (prev_of (appended o l x last b))
        last
        o
        x
unfolding appended set_order
appended-IsLinkedIn o l x last b p ox ol = record {
  next_last = ground arith;
  next_new = ground arith;
  prev_new = ground arith;
  prev_first = ground arith;
  next_other = λ i hl ho. ground arith;
  prev_other = λ i hx ho. ground arith;
}

appended-level : (o l x last : ℕ) (b : Book) (k : ℕ) → level (appended o l x last b) k ≡ level b k
unfolding appended set_order
appended-level o l x last b k = refl

appended-data_of :
    (o l x last : ℕ) (b : Book) (i : ℕ)
    → data_of (order (appended o l x last b) i) ≡ data_of (order b i)
unfolding appended set_order
appended-data_of o l x last b i = ground arith

-- What `addOrder` does at a level that has orders: the new order becomes the last one, at no other level anything changes, and no order changes but for its links. Every step of it succeeds.
pub append_order-Represents :
    (o l x : ℕ) (xs : List ℕ) (b : Book) (orders : ℕ → List ℕ)
    → Represents b orders
    → orders l ≡ x ∷ xs
    → ((k : ℕ) → Fresh o (orders k))
    → (b' : Book) × (append_order o l b ≡ ok b')
      × Represents b' (update orders l (x ∷ xs ++ o ∷ []))
      × ((i : ℕ) → data_of (order b' i) ≡ data_of (order b i))
append_order-Represents o l x xs b orders r e fresh =
    let starts = subst (StartsAt (level b l).first_me_order) e (r.first l) in
    let ring = subst (Ring (next_of b) (prev_of b)) e (r.linked l) in
    let distinct = subst Distinct e (r.distinct l) in
    let new = subst (Fresh o) e (fresh l) in
    let (last, i) = Ring-IsLast (next_of b) (prev_of b) x xs ring in
    let b' = appended o l x last b in
    let away = λ (k : ℕ) (h : (l == k) ≡ false).
      subst (All (λ y. Fresh y (orders k))) e (elsewhere b orders r l k h) in
    let linked =
      appended-IsLinkedIn o l x last b i.shown new.0
        (IsLast-All (λ y. (o == y) ≡ false) (prev_of b) x xs last i new) in
    (
      b',
      append_order-appended o l x last b starts i.shown,
      Represents-update b b' orders l (x ∷ xs ++ o ∷ []) r
          (Ring-append (next_of b) (prev_of b) (next_of b') (prev_of b') x xs o last ring distinct
            new i linked)
          (subst (λ n. n.first_me_order ≡ some x) (sym (appended-level o l x last b l)) starts)
          (Distinct-snoc (x ∷ xs) o distinct new)
          (λ k h.
            Ring-elsewhere_linked (next_of b) (prev_of b) (next_of b') (prev_of b') last o x
              (orders k) linked
              (IsLast-All (λ y. Fresh y (orders k)) (prev_of b) x xs last i (away k h)) (fresh k)
              (away k h).0 (r.linked k))
          (λ k h. ap (λ n. n.first_me_order) (appended-level o l x last b k))
          (λ k h. All-append (λ y. Fresh y (orders k)) (x ∷ xs) (o ∷ []) (away k h) (fresh k, tt)),
      appended-data_of o l x last b,
    )
