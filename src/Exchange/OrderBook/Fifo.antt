-- ===== src/Exchange/OrderBook/Fifo.antt =====
-- The orders of a price level, in exchange/matcher/me_order_book.h: the circular lists of orders as
-- lists, oldest first.
pub mod Append
pub mod Unlink
pub mod Priority
use mathlib.Core.Path.{subst}
use trading_ecosystem.Prelude.{
  ℕ, zero, suc, ◌+◌, ◌-◌, ◌*◌, ◌/◌, ◌%◌, ◌^◌, ◌≤◌, ◌<◌, min, ◌≡◌, refl, sym, ap, ◌∙◌, ◌≢◌, ◌↔◌, ◌⊎◌,
  inl, inr, Bool, true, false, not, ◌&&◌, ◌||◌, Option, none, some, List, [], ◌∷◌, ◌++◌, map, arith,
  ltb, leb, ◌==◌, if◌then◌else◌, ==_iff, ==_refl, Bool-cases, Option-cases, length, length-append,
  length-Perm, nil_of_length, update, All, All-append, Fault, assertion, null_pointer, out_of_range,
  out_of_fuel, Outcome, ok, failed, ◌>>=◌, ◌>>◌, assert, in_range, deref, >>=-eq-ok, >>=-cong,
  >>=-assoc, >>=-≢, deref-fuel, count_below, count_below-le, count_below-same, count_below-cleared,
}
use trading_ecosystem.Common.Rings.{
  Fresh, Fresh-swap, Distinct, Ring, StartsAt, Distinct-rotate, Distinct-snoc, All-left, All-right,
  All-map2,
}
use trading_ecosystem.Common.Rings.Links.{
  IsLast, Ring-IsLast, IsLinkedIn, Ring-append, Ring-same, IsLast-All,
}
use trading_ecosystem.Common.Rings.Unlink.{
  IsUnlinked, Ring-unlink, Ring-neighbours, IsLast-rest, head_or,
}
use trading_ecosystem.Exchange.OrderBook.State.{
  Book, MeOrder, level, order, set_order, set_level, set_next_order, set_prev_order, points_to,
}
use trading_ecosystem.Exchange.OrderBook.Orders.{append_order, unlink_order}

abbrev pub next_of : Book → ℕ → Option ℕ
next_of b o = (order b o).next_order

abbrev pub prev_of : Book → ℕ → Option ℕ
prev_of b o = (order b o).prev_order

-- An order without its links
abbrev pub data_of : MeOrder → MeOrder
data_of o = record o { prev_order = none; next_order = none }

-- The lists of the levels' orders: each is linked in a ring from the level's first order on, and no order is in two places.
pub record Represents (b : Book) (orders : ℕ → List ℕ) : Type 0 where
  pub linked : (l : ℕ) → Ring (next_of b) (prev_of b) (orders l)
  pub first : (l : ℕ) → StartsAt (level b l).first_me_order (orders l)
  pub distinct : (l : ℕ) → Distinct (orders l)
  pub apart : (l k : ℕ) → (l ≡ k) ⊎ All (λ o. Fresh o (orders k)) (orders l)

pub update-cases :
    (orders : ℕ → List ℕ) (l k : ℕ) (v : List ℕ)
    → ((l ≡ k) × (update orders l v k ≡ v))
      ⊎ (((l == k) ≡ false) × (update orders l v k ≡ orders k))
update-cases orders l k v = elim (Bool-cases (l == k)) [
  | inl e ↦ inl ((==_iff l k).0 e, rw e refl)
  | inr e ↦ inr (e, rw e refl)
]

-- Levels that differ have no order in common.
pub elsewhere :
    (b : Book) (orders : ℕ → List ℕ)
    → Represents b orders
    → (l k : ℕ) → (l == k) ≡ false
    → All (λ o. Fresh o (orders k)) (orders l)
elsewhere b orders r l k e = elim (r.apart l k) [
  | inl same ↦ absurd (ground (arith, ==_iff l k))
  | inr h ↦ h
]

-- One level's list is changed, and the links at other levels' orders are as they were.
pub Represents-update :
    (b b' : Book) (orders : ℕ → List ℕ) (l : ℕ) (v : List ℕ)
    → Represents b orders
    → Ring (next_of b') (prev_of b') v
    → StartsAt (level b' l).first_me_order v
    → Distinct v
    → ((k : ℕ) → (l == k) ≡ false → Ring (next_of b') (prev_of b') (orders k))
    → ((k : ℕ) → (l == k) ≡ false → (level b' k).first_me_order ≡ (level b k).first_me_order)
    → ((k : ℕ) → (l == k) ≡ false → All (λ o. Fresh o (orders k)) v)
    → Represents b' (update orders l v)
Represents-update b b' orders l v r ring starts distinct rings same free = record {
  linked = λ k. elim (update-cases orders l k v) [
    | inl (e, u) ↦ subst (Ring (next_of b') (prev_of b')) (sym u) ring
    | inr (e, u) ↦ subst (Ring (next_of b') (prev_of b')) (sym u) (rings k e)
  ];
  first = λ k. elim (update-cases orders l k v) [
    | inl (e, u) ↦
        subst (StartsAt (level b' k).first_me_order) (sym u)
          (subst (λ k. StartsAt (level b' k).first_me_order v) e starts)
    | inr (e, u) ↦
        subst (StartsAt (level b' k).first_me_order) (sym u)
          (subst (λ p. StartsAt p (orders k)) (sym (same k e)) (r.first k))
  ];
  distinct = λ k. elim (update-cases orders l k v) [
    | inl (e, u) ↦ subst Distinct (sym u) distinct
    | inr (e, u) ↦ subst Distinct (sym u) (r.distinct k)
  ];
  apart = λ j k. elim (update-cases orders l j v) [
    | inl (ej, uj) ↦ elim (update-cases orders l k v) [
      | inl (ek, uk) ↦ inl (sym ej ∙ ek)
      | inr (ek, uk) ↦ inr (subst2_All (sym uj) (sym uk) (free k ek))
    ]
    | inr (ej, uj) ↦ elim (update-cases orders l k v) [
      | inl (ek, uk) ↦ inr (subst2_All (sym uj) (sym uk) (Fresh-swap v (orders j) (free j ej)))
      | inr (ek, uk) ↦ elim (r.apart j k) [
        | inl e ↦ inl e
        | inr h ↦ inr (subst2_All (sym uj) (sym uk) h)
      ]
    ]
  ];
}
  where
    subst2_All :
        {xs ys zs ws : List ℕ}
        → xs ≡ zs
        → ys ≡ ws
        → All (λ o. Fresh o ys) xs
        → All (λ o. Fresh o ws) zs
    subst2_All {ys} {zs} e f h =
        subst (λ ws. All (λ o. Fresh o ws) zs) f (subst (All (λ o. Fresh o ys)) e h)
