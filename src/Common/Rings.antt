-- ===== src/Common/Rings.antt =====
-- Circular doubly linked lists, as the order books keep them for orders and for price levels: the
-- links of a list of distinct nodes, given by the functions that a book's `next` and `prev` fields are.
pub mod Links
pub mod Unlink
use mathlib.Core.List.{append_assoc, append-nil}
use mathlib.Core.Path.{subst}
use trading_ecosystem.Prelude.{
  ℕ, ◌≡◌, refl, sym, ap, ◌∙◌, ◌⊎◌, inl, inr, false, Option, some, List, [], ◌∷◌, ◌++◌, arith, ◌==◌,
  All, All-append,
}

-- The node is not in the list.
abbrev pub Fresh : ℕ → List ℕ → Type 0
Fresh x ys = All (λ y. (x == y) ≡ false) ys

-- No node is there twice.
abbrev pub Distinct : List ℕ → Type 0
Distinct [] = Unit
Distinct (x ∷ xs) = Fresh x xs × Distinct xs

-- From `x` the links lead through the list to `z`, and back.
abbrev pub Chain : (ℕ → Option ℕ) → (ℕ → Option ℕ) → ℕ → List ℕ → ℕ → Type 0
Chain next prev x [] z = (next x ≡ some z) × (prev z ≡ some x)
Chain next prev x (y ∷ ys) z = (next x ≡ some y) × ((prev y ≡ some x) × Chain next prev y ys z)

-- The links lead round the list.
abbrev pub Ring : (ℕ → Option ℕ) → (ℕ → Option ℕ) → List ℕ → Type 0
Ring next prev [] = Unit
Ring next prev (x ∷ xs) = Chain next prev x xs x

pub Chain-join :
    (next prev : ℕ → Option ℕ) (x : ℕ) (ys : List ℕ) (y : ℕ) (zs : List ℕ) (z : ℕ)
    → Chain next prev x ys y
    → Chain next prev y zs z
    → Chain next prev x (ys ++ y ∷ zs) z
Chain-join next prev x [] y zs z c d = (c.0, (c.1, d))
Chain-join next prev x (w ∷ ys) y zs z c d =
    (c.0, (c.1.0, Chain-join next prev w ys y zs z c.1.1 d))

pub Chain-split :
    (next prev : ℕ → Option ℕ) (x : ℕ) (ys : List ℕ) (y : ℕ) (zs : List ℕ) (z : ℕ)
    → Chain next prev x (ys ++ y ∷ zs) z
    → Chain next prev x ys y × Chain next prev y zs z
Chain-split next prev x [] y zs z c = ((c.0, c.1.0), c.1.1)
Chain-split next prev x (w ∷ ys) y zs z c =
    let r = Chain-split next prev w ys y zs z c.1.1 in ((c.0, (c.1.0, r.0)), r.1)

-- A ring may be read from any of its nodes.
pub Ring-rotate :
    (next prev : ℕ → Option ℕ) (xs ys : List ℕ)
    → Ring next prev (xs ++ ys)
    → Ring next prev (ys ++ xs)
Ring-rotate next prev [] ys r = subst (Ring next prev) (sym (append-nil ys)) r
Ring-rotate next prev (x ∷ xs) [] r = subst (Ring next prev) (append-nil (x ∷ xs)) r
Ring-rotate next prev (x ∷ xs) (y ∷ ys) r =
    let c = Chain-split next prev x xs y ys x r in Chain-join next prev y ys x xs y c.1 c.0

pub All-map {ℓ κ} :
    {A : Type 0} {P : A → Type ℓ} {Q : A → Type κ} (xs : List A)
    → ((a : A) → P a → Q a)
    → All P xs
    → All Q xs
All-map [] f h = tt
All-map (x ∷ xs) f h = (f x h.0, All-map xs f h.1)

pub All-map2 :
    {A : Type 0} {P Q R : A → Type 0} (xs : List A)
    → ((a : A) → P a → Q a → R a)
    → All P xs
    → All Q xs
    → All R xs
All-map2 [] f g h = tt
All-map2 (x ∷ xs) f g h = (f x g.0 h.0, All-map2 xs f g.1 h.1)

pub All-left : {A : Type 0} (P : A → Type 0) (xs ys : List A) → All P (xs ++ ys) → All P xs
All-left P [] ys h = tt
All-left P (x ∷ xs) ys h = (h.0, All-left P xs ys h.1)

pub All-right : {A : Type 0} (P : A → Type 0) (xs ys : List A) → All P (xs ++ ys) → All P ys
All-right P [] ys h = h
All-right P (x ∷ xs) ys h = All-right P xs ys h.1

pub ==_sym : (a b : ℕ) → (a == b) ≡ false → (b == a) ≡ false
==_sym a b h = ground arith

pub Fresh-swap : (xs ys : List ℕ) → All (λ x. Fresh x ys) xs → All (λ y. Fresh y xs) ys
Fresh-swap xs [] h = tt
Fresh-swap xs (y ∷ ys) h =
    (All-map xs (λ x f. ==_sym x y f.0) h, Fresh-swap xs ys (All-map xs (λ x f. f.1) h))

pub Distinct-split :
    (xs ys : List ℕ) → Distinct (xs ++ ys) → Distinct xs × (Distinct ys × All (λ x. Fresh x ys) xs)
Distinct-split [] ys d = (tt, (d, tt))
Distinct-split (x ∷ xs) ys d =
    let r = Distinct-split xs ys d.1 in
    ((All-left _ xs ys d.0, r.0), (r.1.0, (All-right _ xs ys d.0, r.1.1)))

Distinct-join :
    (xs ys : List ℕ) → Distinct xs → Distinct ys → All (λ x. Fresh x ys) xs → Distinct (xs ++ ys)
Distinct-join [] ys d e f = e
Distinct-join (x ∷ xs) ys d e f = (All-append _ xs ys d.0 f.0, Distinct-join xs ys d.1 e f.1)

pub Distinct-rotate : (xs ys : List ℕ) → Distinct (xs ++ ys) → Distinct (ys ++ xs)
Distinct-rotate xs ys d =
    let r = Distinct-split xs ys d in Distinct-join ys xs r.1.0 r.0 (Fresh-swap xs ys r.1.1)

pub Distinct-snoc : (xs : List ℕ) (o : ℕ) → Distinct xs → Fresh o xs → Distinct (xs ++ o ∷ [])
Distinct-snoc xs o d f = Distinct-rotate (o ∷ []) xs (f, d)

-- The pointer to the first node of a list that is not empty
abbrev pub StartsAt : Option ℕ → List ℕ → Type 0
StartsAt p [] = Unit
StartsAt p (x ∷ xs) = p ≡ some x
