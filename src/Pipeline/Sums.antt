-- ===== src/Pipeline/Sums.antt =====
-- Sums over a range, in which one value stands alone.
use nbdpsy_mcp.Prelude.{
  ℕ, zero, suc, ◌+◌, ◌≤◌, ◌<◌, ◌≡◌, refl, arith, ◌==◌, if◌then◌else◌, Bool-cases, inl, inr,
}

-- The sum of n values from one on.
abbrev pub sum : (ℕ → ℕ) → ℕ → ℕ → ℕ
sum f i zero = 0
sum f i (suc n) = f i + sum f (i + 1) n

pub sum-add :
    (f g h : ℕ → ℕ) (i n : ℕ) → ((j : ℕ) → f j ≡ g j + h j) → sum f i n ≡ sum g i n + sum h i n
sum-add f g h i zero e = refl
sum-add f g h i (suc n) e = omega (arith, e i, sum-add f g h (i + 1) n e)

pub sum-none : (a c i n : ℕ) → a < i → sum (λ j. if a == j then c else 0) i n ≡ 0
sum-none a c i zero h = refl
sum-none a c i (suc n) h = ground (arith, h, sum-none a c (i + 1) n (omega (arith, h)))

pub sum-one : (a c i n : ℕ) → i ≤ a → a < i + n → sum (λ j. if a == j then c else 0) i n ≡ c
sum-one a c i zero low high = absurd (omega (arith, low, high))
sum-one a c i (suc n) low high = elim (Bool-cases (a == i)) [
  | inl e ↦ rw e (ground (arith, e, sum-none a c (i + 1) n))
  | inr e ↦
      let later : i + 1 ≤ a = ground (arith, e, low) in
      rw e (omega (arith, sum-one a c (i + 1) n later (omega (arith, high))))
]

pub sum-zero : (i n : ℕ) → sum (λ j. 0) i n ≡ 0
sum-zero i zero = refl
sum-zero i (suc n) = omega (arith, sum-zero (i + 1) n)
