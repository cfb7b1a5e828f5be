-- ===== src/Pipeline/Snapping.antt =====
-- The windows of app/video/pipeline/remake/timeline.py that end where the ball is in the middle.
use nbdpsy_mcp.Prelude.{
  ℕ, zero, suc, ◌+◌, ◌-◌, ◌*◌, ◌/◌, ◌≤◌, Bool, true, false, ◌≡◌, refl, arith, ltb, Bool-cases, inl,
  inr,
}
use native.Mathlib.Nat.{mul-le-mul_right}
use native.Mathlib.Omega.{div_any}
use nbdpsy_mcp.Pipeline.Blocks.{quantize, round_to}
use nbdpsy_mcp.Pipeline.Carve.{
  phase_grid_point, grid_down, grid_up, phase_k_floor, phase_k_ceil, min_static, widen, widen_fuel,
  snap_static_window, inside_run,
}

quantize_le : (t : ℕ) → quantize t ≤ t + 500
unfolding round_to
quantize_le t = ground arith

le_quantize : (t : ℕ) → t ≤ quantize t + 500
unfolding round_to
le_quantize t = ground arith

pub quantize_mono : (s t : ℕ) → s ≤ t → quantize s ≤ quantize t
unfolding round_to
quantize_mono s t h = ground arith

grid_mono : (h j k : ℕ) → j ≤ k → phase_grid_point h j ≤ phase_grid_point h k
grid_mono h j k le = quantize_mono (j * h) (k * h) (mul-le-mul_right h le)

quantize_zero : quantize 0 ≡ 0
unfolding round_to
quantize_zero = refl

pub not_ltb : (a b : ℕ) → ltb a b ≡ false → b ≤ a
not_ltb a b e = ground arith

grid_down_le : (h t k : ℕ) → phase_grid_point h (grid_down h t k) ≤ t
unfolding grid_down
grid_down_le h t zero = start (0 * h) (omega arith)
  where
    start : (z : ℕ) → z ≡ 0 → quantize z ≤ t
    start z e = rw (e, quantize_zero) (omega arith)
grid_down_le h t (suc k) = elim (Bool-cases (ltb t (phase_grid_point h (suc k)))) [
  | inl e ↦ rw e (grid_down_le h t k)
  | inr e ↦ rw e (not_ltb t (phase_grid_point h (suc k)) e)
]

-- The fuel is enough where as many steps lead half a frame behind the moment.
grid_up_le :
    (fuel h t k : ℕ) → t + 500 ≤ (k + fuel) * h → t ≤ phase_grid_point h (grid_up fuel h t k)
unfolding grid_up
grid_up_le zero h t k le = omega (arith, le_quantize (k * h), le)
grid_up_le (suc fuel) h t k le = elim (Bool-cases (ltb (phase_grid_point h k) t)) [
  | inl e ↦ rw e (grid_up_le fuel h t (suc k) (omega (arith, le)))
  | inr e ↦ rw e (not_ltb (phase_grid_point h k) t e)
]

phase_k_floor_le : (h t : ℕ) → phase_grid_point h (phase_k_floor h t) ≤ t
phase_k_floor_le h t = grid_down_le h t (t / h)

phase_k_ceil_le : (n t : ℕ) → t ≤ phase_grid_point (suc n) (phase_k_ceil (suc n) t)
phase_k_ceil_le n t =
    grid_up_le 501 (suc n) t ((t + suc n - 1) / suc n)
      (omega (arith, div_any (t + suc n - 1) (suc n)))

module _ (fps h : ℕ) where
  -- The ends only move outwards.
  widen_outwards :
      (fuel : ℕ) (low : Bool) (k_lo k_hi : ℕ)
      → let r = widen fps fuel h low k_lo k_hi in (r.0 ≤ k_lo) × (k_hi ≤ r.1)
  unfolding widen
  widen_outwards zero low k_lo k_hi = (omega arith, omega arith)
  widen_outwards (suc fuel) true k_lo k_hi =
      elim (Bool-cases (ltb (phase_grid_point h k_hi - phase_grid_point h k_lo) (min_static fps))) [
        | inl e ↦
            let (a, b) = widen_outwards fuel false (k_lo - 1) k_hi in rw e (omega (arith, a), b)
        | inr e ↦ rw e (omega arith, omega arith)
      ]
  widen_outwards (suc fuel) false k_lo k_hi =
      elim (Bool-cases (ltb (phase_grid_point h k_hi - phase_grid_point h k_lo) (min_static fps))) [
        | inl e ↦
            let (a, b) = widen_outwards fuel true k_lo (suc k_hi) in rw e (a, omega (arith, b))
        | inr e ↦ rw e (omega arith, omega arith)
      ]

  -- How often the later end moves.
  abbrev rises : ℕ → Bool → ℕ
  rises zero low = 0
  rises (suc fuel) true = rises fuel false
  rises (suc fuel) false = suc (rises fuel true)

  rises_half : (fuel : ℕ) → (fuel ≤ 2 * rises fuel true + 1) × (fuel ≤ 2 * rises fuel false)
  rises_half zero = (omega arith, omega arith)
  rises_half (suc fuel) = let (t, f) = rises_half fuel in (omega (arith, f), omega (arith, t))

  -- The fuel is enough where it moves the later end far enough.
  widen_long :
      (fuel : ℕ) (low : Bool) (k_lo k_hi : ℕ)
      → phase_grid_point h k_lo + min_static fps + 500 ≤ (k_hi + rises fuel low) * h
      → let r = widen fps fuel h low k_lo k_hi in
        min_static fps ≤ phase_grid_point h r.1 - phase_grid_point h r.0
  unfolding widen
  widen_long zero low k_lo k_hi le = omega (arith, le, le_quantize (k_hi * h))
  widen_long (suc fuel) true k_lo k_hi le =
      elim (Bool-cases (ltb (phase_grid_point h k_hi - phase_grid_point h k_lo) (min_static fps))) [
        | inl e ↦ rw e (
            widen_long fuel false (k_lo - 1) k_hi
              (omega (arith, le, grid_mono h (k_lo - 1) k_lo (omega arith))))
        | inr e ↦ rw e (not_ltb _ _ e)
      ]
  widen_long (suc fuel) false k_lo k_hi le =
      elim (Bool-cases (ltb (phase_grid_point h k_hi - phase_grid_point h k_lo) (min_static fps))) [
        | inl e ↦ rw e (widen_long fuel true k_lo (suc k_hi) (omega (arith, le)))
        | inr e ↦ rw e (not_ltb _ _ e)
      ]

module _ (fps n run_t0 run_t1 lo hi : ℕ) (ordered : lo ≤ hi) where
  abbrev ends : ℕ × ℕ
  ends =
      widen fps (widen_fuel fps) (suc n) true (phase_k_floor (suc n) lo) (phase_k_ceil (suc n) hi)

  -- The fuel of the source's loop is enough: its window is at least 2 s long before it is cut to the run.
  pub widen-enough :
      min_static fps ≤ phase_grid_point (suc n) ends.1 - phase_grid_point (suc n) ends.0
  widen-enough =
      widen_long fps (suc n) (widen_fuel fps) true (phase_k_floor (suc n) lo)
        (phase_k_ceil (suc n) hi)
        (omega (
          arith,
          ordered,
          phase_k_floor_le (suc n) lo,
          phase_k_ceil_le n hi,
          quantize_le (phase_k_ceil (suc n) hi * suc n),
          (rises_half fps (suc n) (widen_fuel fps)).0,
        ))

  -- A window that is within the run grows within it.
  pub snap_static_window_around :
      run_t0 ≤ lo
      → hi ≤ run_t1
      → let w = snap_static_window fps (suc n) run_t0 run_t1 (lo, hi) in
        (run_t0 ≤ w.0) × (w.0 ≤ lo) × (hi ≤ w.1) × (w.1 ≤ run_t1)
  unfolding snap_static_window
  snap_static_window_around from to =
      let (a, b) =
        widen_outwards fps (suc n) (widen_fuel fps) true (phase_k_floor (suc n) lo)
          (phase_k_ceil (suc n) hi) in
      cut (phase_grid_point (suc n) ends.0) (phase_grid_point (suc n) ends.1)
        (omega (arith, grid_mono (suc n) _ _ a, phase_k_floor_le (suc n) lo))
        (omega (arith, grid_mono (suc n) _ _ b, phase_k_ceil_le n hi))
    where
      cut :
          (g g' : ℕ)
          → g ≤ lo
          → hi ≤ g'
          → let w = inside_run run_t0 run_t1 g g' in
            (run_t0 ≤ w.0) × (w.0 ≤ lo) × (hi ≤ w.1) × (w.1 ≤ run_t1)
      cut g g' h k = (ground arith, ground (arith, h, from), ground (arith, k, to), ground arith)
