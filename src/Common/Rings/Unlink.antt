-- ===== src/Common/Rings/Unlink.antt =====
-- How the links of a circular list change when a node is taken out.
use mathlib.Core.Path.{subst}
use trading_ecosystem.Prelude.{
  ℕ, ◌+◌, ◌<◌, ◌≡◌, refl, sym, ap, ◌⊎◌, inl, inr, false, Option, some, List, [], ◌∷◌, ◌++◌, arith,
  ◌==◌, length, All,
}
use trading_ecosystem.Common.Rings.{
  Fresh, Fresh-swap, Distinct, Chain, Ring, Chain-join, Chain-split, Ring-rotate, Distinct-split,
  Distinct-rotate, All-left, All-right, All-map2,
}
use trading_ecosystem.Common.Rings.Links.{Ring-same, IsLast, Ring-IsLast, Chain-same}

-- The links after the node `o` between `before` and `after` is taken out
pub record IsUnlinked (next prev next' prev' : ℕ → Option ℕ) (before o after : ℕ) : Type 0 where
  pub next_before : next' before ≡ some after
  pub prev_after : prev' after ≡ some before
  pub next_other : (i : ℕ) → (before == i) ≡ false → (o == i) ≡ false → next' i ≡ next i
  pub prev_other : (i : ℕ) → (after == i) ≡ false → (o == i) ≡ false → prev' i ≡ prev i

abbrev pub head_or : ℕ → List ℕ → ℕ
head_or x [] = x
head_or x (y ∷ ys) = y

abbrev tail : List ℕ → List ℕ
tail [] = []
tail (y ∷ ys) = ys

-- The last of two nodes or more
last_of_tail :
    (a : ℕ) (ys ws : List ℕ) (b : ℕ)
    → a ∷ ys ≡ ws ++ b ∷ []
    → ((ys ≡ []) × (b ≡ a)) ⊎ ((vs : List ℕ) × (ys ≡ vs ++ b ∷ []))
last_of_tail a ys [] b e = inl (ap tail e, sym (ap (head_or 0) e))
last_of_tail a ys (w ∷ ws) b e = inr (ws, ap tail e)

module _ (next prev next' prev' : ℕ → Option ℕ) where
  unlinked_stretch :
      (before o after x : ℕ) (ws : List ℕ)
      → IsUnlinked next prev next' prev' before o after
      → Fresh before (x ∷ ws)
      → Fresh o (x ∷ ws)
      → Fresh after (ws ++ before ∷ [])
      → Fresh o (ws ++ before ∷ [])
      → Chain next prev x ws before
      → Chain next' prev' x ws before
  unlinked_stretch before o after x ws u fb fo ga go c =
      Chain-same next prev next' prev' x ws before (All-map2 (x ∷ ws) u.next_other fb fo)
        (All-map2 (ws ++ before ∷ []) u.prev_other ga go) c

  unlink_alone :
      (a b o : ℕ) (ys : List ℕ)
      → ys ≡ []
      → b ≡ a
      → IsUnlinked next prev next' prev' b o a
      → Ring next' prev' (a ∷ ys)
  unlink_alone a b o ys e same u =
      subst (λ l. Chain next' prev' a l a) (sym e)
        (
          subst (λ x. next' x ≡ some a) same u.next_before,
          subst (λ x. prev' a ≡ some x) same u.prev_after,
        )

  -- Without its first node, a ring of two nodes or more is a ring of the others.
  Ring-unlink_first :
      (o a b : ℕ) (ys : List ℕ)
      → Ring next prev (o ∷ a ∷ ys)
      → Distinct (o ∷ a ∷ ys)
      → IsLast prev o (a ∷ ys) b
      → IsUnlinked next prev next' prev' b o a
      → Ring next' prev' (a ∷ ys)
  Ring-unlink_first o a b ys r d i u = elim i.place [
    | inl (e, same) ↦ cc
    | inr (ws, e) ↦ elim (last_of_tail a ys ws b e) [
      | inl (none_left, same) ↦ unlink_alone a b o ys none_left same u
      | inr (vs, e') ↦
          let c = Chain-split next prev a vs b [] o (subst (λ l. Chain next prev a l o) e' r.1.1) in
          let apart = Distinct-split (a ∷ vs) (b ∷ []) (subst (λ l. Distinct (a ∷ l)) e' d.1) in
          let away = subst (λ l. Fresh o (a ∷ l)) e' d.0 in
          let stretch =
            unlinked_stretch b o a a vs u (Fresh-swap (a ∷ vs) (b ∷ []) apart.1.1).0
              (All-left _ (a ∷ vs) (b ∷ []) away) (subst (λ l. Fresh a l) e' d.1.0) away.1 c.0 in
          subst (λ l. Chain next' prev' a l a) (sym e')
            (Chain-join next' prev' a vs b [] a stretch (u.next_before, u.prev_after))
    ]
  ]

  -- Without any of its nodes, a ring of two nodes or more is a ring of the others, in their order.
  pub Ring-unlink :
      (xs : List ℕ) (o : ℕ) (ys : List ℕ) (a b : ℕ) (zs : List ℕ)
      → Ring next prev (xs ++ o ∷ ys)
      → Distinct (xs ++ o ∷ ys)
      → ys ++ xs ≡ a ∷ zs
      → IsLast prev o (a ∷ zs) b
      → IsUnlinked next prev next' prev' b o a
      → Ring next' prev' (xs ++ ys)
  Ring-unlink xs o ys a b zs r d e i u =
      let turned = subst (λ l. Ring next prev (o ∷ l)) e (Ring-rotate next prev xs (o ∷ ys) r) in
      let distinct = subst (λ l. Distinct (o ∷ l)) e (Distinct-rotate xs (o ∷ ys) d) in
      Ring-rotate next' prev' ys xs
        (subst (Ring next' prev') (sym e) (Ring-unlink_first o a b zs turned distinct i u))

-- What the links of a node show, in a ring of two nodes or more
pub Ring-neighbours :
    (next prev : ℕ → Option ℕ) (xs : List ℕ) (o : ℕ) (ys : List ℕ) (a : ℕ) (zs : List ℕ)
    → Ring next prev (xs ++ o ∷ ys)
    → ys ++ xs ≡ a ∷ zs
    → (next o ≡ some a) × ((b : ℕ) × IsLast prev o (a ∷ zs) b)
Ring-neighbours next prev xs o ys a zs r e =
    let turned = subst (λ l. Ring next prev (o ∷ l)) e (Ring-rotate next prev xs (o ∷ ys) r) in
    (turned.0, Ring-IsLast next prev o (a ∷ zs) turned)

-- In a ring of two nodes or more, the last one has what all nodes but the first have.
pub IsLast-rest :
    (P : ℕ → Type 0) (prev : ℕ → Option ℕ) (o a : ℕ) (zs : List ℕ) (last : ℕ)
    → IsLast prev o (a ∷ zs) last
    → All P (a ∷ zs)
    → P last
IsLast-rest P prev o a zs last i h = elim i.place [
  | inl (e, same) ↦ cc
  | inr (ws, e) ↦ (All-right P ws (last ∷ []) (subst (All P) e h)).0
]

-- Where a ring goes on behind a node with others
pub others_first :
    (xs ys : List ℕ) → 0 < length xs + length ys → (a : ℕ) × (zs : List ℕ) × (ys ++ xs ≡ a ∷ zs)
others_first xs (y ∷ ys) h = (y, ys ++ xs, refl)
others_first (x ∷ xs) [] h = (x, xs, refl)
others_first [] [] h = absurd (omega arith)

-- A ring of other nodes than those whose links change
pub Ring-elsewhere_unlinked :
    (next prev next' prev' : ℕ → Option ℕ) (before o after : ℕ) (ks : List ℕ)
    → IsUnlinked next prev next' prev' before o after
    → Fresh before ks
    → Fresh o ks
    → Fresh after ks
    → Ring next prev ks
    → Ring next' prev' ks
Ring-elsewhere_unlinked next prev next' prev' before o after ks u fb fo fa =
    Ring-same next prev next' prev' ks (All-map2 ks u.next_other fb fo)
      (All-map2 ks u.prev_other fa fo)
