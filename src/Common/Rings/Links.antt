-- ===== src/Common/Rings/Links.antt =====
-- How the links of a circular list change when a node is linked in.
use mathlib.Core.List.{append_assoc}
use mathlib.Core.Path.{subst}
use trading_ecosystem.Prelude.{
  ℕ, ◌≡◌, refl, sym, ap, ◌∙◌, ◌⊎◌, inl, inr, false, Option, some, List, [], ◌∷◌, ◌++◌, ◌==◌, All,
  All-append,
}
use trading_ecosystem.Common.Rings.{
  Fresh, Fresh-swap, Distinct, Chain, Ring, Chain-join, Chain-split, Ring-rotate, Distinct-split,
  Distinct-rotate, All-left, All-right, All-map2,
}

-- Links that are the same at the nodes of a chain make the same chain.
pub Chain-same :
    (next prev next' prev' : ℕ → Option ℕ) (x : ℕ) (ys : List ℕ) (z : ℕ)
    → All (λ y. next' y ≡ next y) (x ∷ ys)
    → All (λ y. prev' y ≡ prev y) (ys ++ z ∷ [])
    → Chain next prev x ys z
    → Chain next' prev' x ys z
Chain-same next prev next' prev' x [] z f g c = (f.0 ∙ c.0, g.0 ∙ c.1)
Chain-same next prev next' prev' x (y ∷ ys) z f g c =
    (f.0 ∙ c.0, (g.0 ∙ c.1.0, Chain-same next prev next' prev' y ys z f.1 g.1 c.1.1))

last_view : (xs : List ℕ) → (xs ≡ []) ⊎ ((ws : List ℕ) × (y : ℕ) × (xs ≡ ws ++ y ∷ []))
last_view [] = inl refl
last_view (x ∷ xs) = elim (last_view xs) [
  | inl e ↦ inr ([], x, ap (λ l. x ∷ l) e)
  | inr (ws, y, e) ↦ inr (x ∷ ws, y, ap (λ l. x ∷ l) e)
]

-- The links after a node `o` is put between the last node and the first one, `x`
pub record IsLinkedIn (next prev next' prev' : ℕ → Option ℕ) (last o x : ℕ) : Type 0 where
  pub next_last : next' last ≡ some o
  pub next_new : next' o ≡ some x
  pub prev_new : prev' o ≡ some last
  pub prev_first : prev' x ≡ some o
  pub next_other : (i : ℕ) → (last == i) ≡ false → (o == i) ≡ false → next' i ≡ next i
  pub prev_other : (i : ℕ) → (x == i) ≡ false → (o == i) ≡ false → prev' i ≡ prev i

-- The last node of a ring, which the first one's `prev` shows.
pub record IsLast (prev : ℕ → Option ℕ) (x : ℕ) (xs : List ℕ) (last : ℕ) : Type 0 where
  pub shown : prev x ≡ some last
  pub place : ((xs ≡ []) × (last ≡ x)) ⊎ ((ws : List ℕ) × (xs ≡ ws ++ last ∷ []))

pub Ring-IsLast :
    (next prev : ℕ → Option ℕ) (x : ℕ) (xs : List ℕ)
    → Ring next prev (x ∷ xs)
    → (last : ℕ) × IsLast prev x xs last
Ring-IsLast next prev x xs r = elim (last_view xs) [
  | inl e ↦
      (x, record { shown = (subst (λ l. Chain next prev x l x) e r).1; place = inl (e, refl) })
  | inr (ws, y, e) ↦
      let c = Chain-split next prev x ws y [] x (subst (λ l. Chain next prev x l x) e r) in
      (y, record { shown = c.1.1; place = inr (ws, e) })
]

module _ (next prev next' prev' : ℕ → Option ℕ) where
  -- The links inside a stretch that holds neither the new node nor, but at its ends, those whose links change
  linked_stretch :
      (last o first x : ℕ) (ws : List ℕ)
      → IsLinkedIn next prev next' prev' last o first
      → Fresh last (x ∷ ws)
      → Fresh o (x ∷ ws)
      → Fresh first (ws ++ last ∷ [])
      → Fresh o (ws ++ last ∷ [])
      → Chain next prev x ws last
      → Chain next' prev' x ws last
  linked_stretch last o first x ws l fl fo gx go c =
      Chain-same next prev next' prev' x ws last (All-map2 (x ∷ ws) l.next_other fl fo)
        (All-map2 (ws ++ last ∷ []) l.prev_other gx go) c

  -- A node that is linked in before the first one of a ring is its last.
  pub Ring-append :
      (x : ℕ) (xs : List ℕ) (o last : ℕ)
      → Ring next prev (x ∷ xs)
      → Distinct (x ∷ xs)
      → Fresh o (x ∷ xs)
      → IsLast prev x xs last
      → IsLinkedIn next prev next' prev' last o x
      → Ring next' prev' (x ∷ xs ++ o ∷ [])
  Ring-append x xs o last r d f i l = elim i.place [
    | inl (e, same) ↦
        subst (λ ys. Chain next' prev' x (ys ++ o ∷ []) x) (sym e)
          (
            subst (λ y. next' y ≡ some o) same l.next_last,
            (subst (λ y. prev' o ≡ some y) same l.prev_new, (l.next_new, l.prev_first)),
          )
    | inr (ws, e) ↦
        let c = Chain-split next prev x ws last [] x (subst (λ ys. Chain next prev x ys x) e r) in
        let apart = Distinct-split (x ∷ ws) (last ∷ []) (subst (λ ys. Distinct (x ∷ ys)) e d) in
        let away = subst (λ ys. Fresh o (x ∷ ys)) e f in
        let stretch =
          linked_stretch last o x x ws l (Fresh-swap (x ∷ ws) (last ∷ []) apart.1.1).0
            (All-left _ (x ∷ ws) (last ∷ []) away) (subst (λ ys. Fresh x ys) e d.0) away.1 c.0 in
        subst (λ ys. Chain next' prev' x ys x)
          (sym (append_assoc ws (last ∷ []) (o ∷ [])) ∙ ap (λ ys. ys ++ o ∷ []) (sym e))
          (Chain-join next' prev' x ws last (o ∷ []) x stretch
            (l.next_last, (l.prev_new, (l.next_new, l.prev_first))))
  ]

  -- A node that is linked in before any node of a ring stands before it.
  pub Ring-insert :
      (ws : List ℕ) (x : ℕ) (zs : List ℕ) (o last : ℕ)
      → Ring next prev (ws ++ x ∷ zs)
      → Distinct (ws ++ x ∷ zs)
      → Fresh o (ws ++ x ∷ zs)
      → IsLast prev x (zs ++ ws) last
      → IsLinkedIn next prev next' prev' last o x
      → Ring next' prev' (ws ++ o ∷ x ∷ zs)
  Ring-insert ws x zs o last r d f i l =
      let turned =
        Ring-append x (zs ++ ws) o last (Ring-rotate next prev ws (x ∷ zs) r)
          (Distinct-rotate ws (x ∷ zs) d)
          (All-append (λ y. (o == y) ≡ false) (x ∷ zs) ws
            (All-right (λ y. (o == y) ≡ false) ws (x ∷ zs) f)
            (All-left (λ y. (o == y) ≡ false) ws (x ∷ zs) f))
          i l in
      subst (Ring next' prev') (append_assoc ws (o ∷ []) (x ∷ zs)) (
        Ring-rotate next' prev' (x ∷ zs) (ws ++ o ∷ [])
          (subst (Ring next' prev') (append_assoc (x ∷ zs) ws (o ∷ [])) turned))

  -- Links that are the same at the nodes of a ring make the same ring.
  pub Ring-same :
      (xs : List ℕ)
      → All (λ i. next' i ≡ next i) xs
      → All (λ i. prev' i ≡ prev i) xs
      → Ring next prev xs
      → Ring next' prev' xs
  Ring-same [] f g r = tt
  Ring-same (x ∷ xs) f g r =
      Chain-same next prev next' prev' x xs x f (All-append _ xs (x ∷ []) g.1 (g.0, tt)) r

-- The last node has what all nodes have.
pub IsLast-All :
    (P : ℕ → Type 0) (prev : ℕ → Option ℕ) (x : ℕ) (xs : List ℕ) (last : ℕ)
    → IsLast prev x xs last
    → All P (x ∷ xs)
    → P last
IsLast-All P prev x xs last i h = elim i.place [
  | inl (e, same) ↦ subst P (sym same) h.0
  | inr (ws, e) ↦ (All-right P ws (last ∷ []) (subst (All P) e h.1)).0
]

-- The last node's link leads to the first one.
pub Ring-next_last :
    (next prev : ℕ → Option ℕ) (x : ℕ) (xs : List ℕ) (last : ℕ)
    → Ring next prev (x ∷ xs)
    → IsLast prev x xs last
    → next last ≡ some x
Ring-next_last next prev x xs last r i = elim i.place [
  | inl (e, same) ↦
      subst (λ y. next y ≡ some x) (sym same) (subst (λ l. Chain next prev x l x) e r).0
  | inr (ws, e) ↦
      (Chain-split next prev x ws last [] x (subst (λ l. Chain next prev x l x) e r)).1.0
]

-- A ring of other nodes than those whose links change
pub Ring-elsewhere_linked :
    (next prev next' prev' : ℕ → Option ℕ) (last o x : ℕ) (ks : List ℕ)
    → IsLinkedIn next prev next' prev' last o x
    → Fresh last ks
    → Fresh o ks
    → Fresh x ks
    → Ring next prev ks
    → Ring next' prev' ks
Ring-elsewhere_linked next prev next' prev' last o x ks i fl fo fx =
    Ring-same next prev next' prev' ks (All-map2 ks i.next_other fl fo)
      (All-map2 ks i.prev_other fx fo)
