-- ===== src/Exchange/OrderBook/Fifo/Unlink.antt =====
-- `unlink_order`, the part of `removeOrder` of exchange/matcher/me_order_book.h for a level with other
-- orders.
use mathlib.Core.Path.{subst}
use trading_ecosystem.Prelude.{
  ℕ, ◌+◌, ◌<◌, ◌≡◌, refl, sym, ap, false, Option, none, some, List, [], ◌∷◌, ◌++◌, arith, ◌==◌,
  if◌then◌else◌, ==_refl, length, update, All, All-append, ok,
}
use trading_ecosystem.Common.Rings.{
  Fresh, Distinct, Ring, StartsAt, Distinct-rotate, All-left, All-right,
}
use trading_ecosystem.Common.Rings.Unlink.{
  Ring-elsewhere_unlinked, others_first, IsUnlinked, Ring-unlink, Ring-neighbours, IsLast-rest,
  head_or,
}
use trading_ecosystem.Exchange.OrderBook.State.{
  Book, level, order, set_order, set_level, set_next_order, set_prev_order, points_to,
}
use trading_ecosystem.Exchange.OrderBook.Orders.{unlink_order}
use trading_ecosystem.Exchange.OrderBook.Fifo.{
  next_of, prev_of, data_of, Represents, elsewhere, Represents-update,
}

-- The book after `unlink_order`
unlinked : (o l before after : ℕ) (b : Book) → Book
unlinked o l before after b =
    let b = set_next_order before (some after) b in
    let b = set_prev_order after (some before) b in
    let b =
      if points_to (level b l).first_me_order o
      then set_level l (record (level b l) { first_me_order = some after }) b
      else b in
    set_prev_order o none (set_next_order o none b)

unlink_order-unlinked :
    (o l before after : ℕ) (b : Book)
    → (order b o).prev_order ≡ some before
    → (order b o).next_order ≡ some after
    → unlink_order o l b ≡ ok (unlinked o l before after b)
unfolding unlink_order unlinked
unlink_order-unlinked o l before after b p n = ground arith

unlinked-IsUnlinked :
    (o l before after : ℕ) (b : Book)
    → (o == before) ≡ false
    → (o == after) ≡ false
    → IsUnlinked
        (next_of b)
        (prev_of b)
        (next_of (unlinked o l before after b))
        (prev_of (unlinked o l before after b))
        before
        o
        after
unfolding unlinked set_order set_level
unlinked-IsUnlinked o l before after b ob oa = record {
  next_before = ground arith;
  prev_after = ground arith;
  next_other = λ i hb ho. ground arith;
  prev_other = λ i ha ho. ground arith;
}

unlinked-level :
    (o l before after : ℕ) (b : Book) (k : ℕ)
    → (l == k) ≡ false
    → level (unlinked o l before after b) k ≡ level b k
unfolding unlinked set_order set_level
unlinked-level o l before after b k h = ground arith

unlinked-first :
    (o l before after : ℕ) (b : Book)
    → (level (unlinked o l before after b) l).first_me_order
      ≡ (if points_to (level b l).first_me_order o then some after else (level b l).first_me_order)
unfolding unlinked set_order set_level
unlinked-first o l before after b = ground arith

unlinked-data_of :
    (o l before after : ℕ) (b : Book) (i : ℕ)
    → data_of (order (unlinked o l before after b) i) ≡ data_of (order b i)
unfolding unlinked set_order set_level
unlinked-data_of o l before after b i = ground arith

starts_unlinked :
    (xs : List ℕ) (o : ℕ) (ys : List ℕ) (a : ℕ) (zs : List ℕ) (p : Option ℕ)
    → StartsAt p (xs ++ o ∷ ys)
    → Distinct (xs ++ o ∷ ys)
    → ys ++ xs ≡ a ∷ zs
    → StartsAt (if points_to p o then some a else p) (xs ++ ys)
starts_unlinked [] o [] a zs p s d e = tt
starts_unlinked [] o (y ∷ ys) a zs p s d e =
    rw (s, ==_refl o) (ap (λ l. some (head_or 0 l)) (sym e))
starts_unlinked (x ∷ xs) o ys a zs p s d e =
    rw (s, (All-right (λ y. (x == y) ≡ false) xs (o ∷ ys) d.0).0) refl

-- What `removeOrder` does at a level that has other orders: the order leaves its level's list wherever it stands, the others keep their order, the first of them is the level's first order, at no other level anything changes, and no order changes but for its links. Every step of it succeeds.
pub unlink_order-Represents :
    (xs : List ℕ) (o : ℕ) (ys : List ℕ) (l : ℕ) (b : Book) (orders : ℕ → List ℕ)
    → Represents b orders
    → orders l ≡ xs ++ o ∷ ys
    → 0 < length xs + length ys
    → (b' : Book) × (unlink_order o l b ≡ ok b')
      × Represents b' (update orders l (xs ++ ys))
      × ((i : ℕ) → data_of (order b' i) ≡ data_of (order b i))
unlink_order-Represents xs o ys l b orders r e others =
    let (a, zs, turn) = others_first xs ys others in
    let ring = subst (Ring (next_of b) (prev_of b)) e (r.linked l) in
    let distinct = subst Distinct e (r.distinct l) in
    let turned = Distinct-rotate xs (o ∷ ys) distinct in
    let new = subst (Fresh o) turn turned.0 in
    let (next_shown, (before, i)) =
      Ring-neighbours (next_of b) (prev_of b) xs o ys a zs ring turn in
    let b' = unlinked o l before a b in
    let away = λ (k : ℕ) (h : (l == k) ≡ false).
      subst (All (λ y. Fresh y (orders k))) e (elsewhere b orders r l k h) in
    let around = λ (k : ℕ) (h : (l == k) ≡ false). subst (All (λ y. Fresh y (orders k))) turn (
      All-append (λ y. Fresh y (orders k)) ys xs
        (All-right (λ y. Fresh y (orders k)) xs (o ∷ ys) (away k h)).1
        (All-left (λ y. Fresh y (orders k)) xs (o ∷ ys) (away k h))) in
    let u =
      unlinked-IsUnlinked o l before a b
        (IsLast-rest (λ y. (o == y) ≡ false) (prev_of b) o a zs before i new) new.0 in
    (
      b',
      unlink_order-unlinked o l before a b i.shown next_shown,
      Represents-update b b' orders l (xs ++ ys) r
          (Ring-unlink (next_of b) (prev_of b) (next_of b') (prev_of b') xs o ys a before zs ring
            distinct turn i u)
          (subst (λ p. StartsAt p (xs ++ ys)) (sym (unlinked-first o l before a b))
            (starts_unlinked xs o ys a zs (level b l).first_me_order
              (subst (StartsAt (level b l).first_me_order) e (r.first l)) distinct turn))
          (Distinct-rotate ys xs turned.1)
          (λ k h.
            Ring-elsewhere_unlinked (next_of b) (prev_of b) (next_of b') (prev_of b') before o a
              (orders k) u
              (IsLast-rest (λ y. Fresh y (orders k)) (prev_of b) o a zs before i (around k h))
              (All-right (λ y. Fresh y (orders k)) xs (o ∷ ys) (away k h)).0 (around k h).0
              (r.linked k))
          (λ k h. ap (λ n. n.first_me_order) (unlinked-level o l before a b k h))
          (λ k h.
            All-append (λ y. Fresh y (orders k)) xs ys
              (All-left (λ y. Fresh y (orders k)) xs (o ∷ ys) (away k h))
              (All-right (λ y. Fresh y (orders k)) xs (o ∷ ys) (away k h)).1),
      unlinked-data_of o l before a b,
    )
