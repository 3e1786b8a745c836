-- ===== src/Prelude/Counts.antt =====
-- How many elements of an array pass a test.
use Prim.Native.Nat.{ℕ, zero, suc, ◌+◌, ◌≤◌, ◌<◌}
use mathlib.Core.Path.{◌≡◌, refl}
use mathlib.Core.Logic.{inl, inr}
use mathlib.Core.Bool.{Bool, true, false}
use native.Mathlib.Omega.{arith}
use trading_ecosystem.Prelude.Tests.{if◌then◌else◌, ◌==◌, Bool-cases}

-- How many of the first `n` elements of an array pass a test.
pub count_below : (ℕ → Bool) → ℕ → ℕ
count_below p zero = 0
count_below p (suc n) = (if p n then 1 else 0) + count_below p n

pub count_below-le : (p : ℕ → Bool) (n : ℕ) → count_below p n ≤ n
unfolding count_below
count_below-le p zero = omega arith
count_below-le p (suc n) = ground (arith, count_below-le p n)

pub count_below-same :
    (p q : ℕ → Bool) (n : ℕ) → ((i : ℕ) → i < n → q i ≡ p i) → count_below q n ≡ count_below p n
unfolding count_below
count_below-same p q zero h = refl
count_below-same p q (suc n) h =
    ground (arith, h n (omega arith), count_below-same p q n (λ i l. h i (omega arith)))

pub count_below-cleared :
    (p q : ℕ → Bool) (o n : ℕ)
    → o < n
    → p o ≡ true
    → ((i : ℕ) → q i ≡ (if o == i then false else p i))
    → count_below q n + 1 ≡ count_below p n
unfolding count_below
count_below-cleared p q o zero l e h = absurd (omega arith)
count_below-cleared p q o (suc n) l e h = elim (Bool-cases (o == n)) [
  | inl same ↦ ground (arith, h n, count_below-same p q n (λ i l. ground (arith, h i)))
  | inr other ↦ ground (arith, h n, count_below-cleared p q o n (ground arith) e h)
]
