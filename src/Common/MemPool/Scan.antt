-- ===== src/Common/MemPool/Scan.antt =====
-- The search of `updateNextFreeIndex` of common/mem_pool.h.
use trading_ecosystem.Prelude.{
  ℕ, zero, suc, ◌+◌, ◌-◌, ◌≤◌, ◌<◌, ◌≡◌, ◌≢◌, ◌⊎◌, inl, inr, Bool, true, false, arith, leb, ◌==◌,
  if◌then◌else◌, ==_iff, Bool-cases, assertion, Outcome, ok, failed,
}
use trading_ecosystem.Common.MemPool.{next_index, scan}

module _ (free : ℕ → Bool) (size initial : ℕ) where
  -- The blocks from `initial` up to the cursor, round the end of the store.
  abbrev IsPassed : ℕ → ℕ → Type 0
  IsPassed i j = ((initial ≤ j) × (j < i)) ⊎ ((i < initial) × ((initial ≤ j) ⊎ (j < i)))

  abbrev NoneFree : ℕ → Type 0
  NoneFree i = (j : ℕ) → j < size → IsPassed i j → free j ≡ false

  abbrev left : ℕ → ℕ
  left i = if leb initial i then size + initial - i else initial - i

  abbrev Found : Outcome ℕ → Type 0
  Found r = (i : ℕ) × (r ≡ ok i) × (i < size) × (free i ≡ true)

  abbrev Exhausted : Outcome ℕ → Type 0
  Exhausted r = (r ≡ failed assertion) × ((j : ℕ) → j < size → free j ≡ false)

  -- A block that is passed after a step was passed before it, or is the block of that step.
  IsPassed-next :
      (i j : ℕ)
      → i < size
      → initial < size
      → j < size
      → initial ≢ next_index size i
      → IsPassed (next_index size i) j
      → j ≢ i
      → IsPassed i j
  unfolding next_index
  IsPassed-next i j hi hs hj ne p out = ground arith

  NoneFree-next :
      (i : ℕ)
      → i < size
      → initial < size
      → NoneFree i
      → free i ≡ false
      → initial ≢ next_index size i
      → NoneFree (next_index size i)
  NoneFree-next i hi hs none_free used ne j hj p = elim (Bool-cases (j == i)) [
    | inl e ↦ rw ((==_iff j i).0 e) used
    | inr out ↦ none_free j hj (IsPassed-next i j hi hs hj ne p (ground arith))
  ]

  IsPassed-at_end :
      (i j : ℕ)
      → i < size
      → initial < size
      → j < size
      → initial ≡ next_index size i
      → j ≢ i
      → IsPassed i j
  unfolding next_index
  IsPassed-at_end i j hi hs hj e out = ground arith

  NoneFree-at_end :
      (i : ℕ)
      → i < size
      → initial < size
      → NoneFree i
      → free i ≡ false
      → initial ≡ next_index size i
      → (j : ℕ) → j < size
      → free j ≡ false
  NoneFree-at_end i hi hs none_free used e j hj = elim (Bool-cases (j == i)) [
    | inl same ↦ rw ((==_iff j i).0 same) used
    | inr out ↦ none_free j hj (IsPassed-at_end i j hi hs hj e (ground arith))
  ]

  left-next :
      (i : ℕ)
      → i < size
      → initial < size
      → initial ≢ next_index size i
      → left (next_index size i) + 1 ≡ left i
  unfolding next_index
  left-next i hi hs ne = ground arith

  left_pos : (i : ℕ) → i < size → 0 < left i
  left_pos i hi = ground arith

  next_index-lt : (i : ℕ) → i < size → next_index size i < size
  unfolding next_index
  next_index-lt i hi = ground arith

  scan_hit : (fuel i : ℕ) → free i ≡ true → scan free size initial (suc fuel) i ≡ ok i
  unfolding scan
  scan_hit fuel i f = ground arith

  scan_stop :
      (fuel i : ℕ)
      → free i ≡ false
      → (initial == next_index size i) ≡ true
      → scan free size initial (suc fuel) i ≡ failed assertion
  unfolding scan
  scan_stop fuel i f e = ground arith

  scan_more :
      (fuel i : ℕ)
      → free i ≡ false
      → (initial == next_index size i) ≡ false
      → scan free size initial (suc fuel) i ≡ scan free size initial fuel (next_index size i)
  unfolding scan
  scan_more fuel i f e = ground arith

  scan_lem :
      (fuel i : ℕ)
      → i < size
      → initial < size
      → left i ≤ fuel
      → NoneFree i
      → Found (scan free size initial fuel i) ⊎ Exhausted (scan free size initial fuel i)
  scan_lem zero i hi hs enough none_free = absurd (omega (arith, left_pos i hi))
  scan_lem (suc fuel) i hi hs enough none_free = elim (Bool-cases (free i)) [
    | inl f ↦ inl (i, scan_hit fuel i f, hi, f)
    | inr used ↦ elim (Bool-cases (initial == next_index size i)) [
      | inl e ↦
          inr (scan_stop fuel i used e, NoneFree-at_end i hi hs none_free used ((==_iff _ _).0 e))
      | inr ne ↦
          let more : initial ≢ next_index size i = ground arith in
          rw (scan_more fuel i used ne) (
            scan_lem fuel (next_index size i) (next_index-lt i hi) hs
              (omega (arith, left-next i hi hs more)) (NoneFree-next i hi hs none_free used more))
    ]
  ]

  -- Started at `initial`, `size` rounds are enough.
  pub scan_start :
      initial < size
      → Found (scan free size initial size initial)
        ⊎ Exhausted (scan free size initial size initial)
  scan_start hs = scan_lem size initial hs hs (ground arith) (λ j hj p. absurd (ground arith))
