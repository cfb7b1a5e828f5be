-- ===== src/Pipeline/Settled.antt =====
-- The windows of a run while they grow and meet (carve_motion_for_speech in
-- app/video/pipeline/remake/timeline.py).
use nbdpsy_mcp.Prelude.{
  ℕ, zero, suc, ◌≤◌, ◌<◌, true, false, [], ◌∷◌, Option, none, some, map, ◌≡◌, refl, ap, ◌∙◌, arith,
  ltb, ◌==◌, length, Bool-cases, inl, inr,
}
use nbdpsy_mcp.Pipeline.Blocks.{larger}
use nbdpsy_mcp.Pipeline.Carve.{
  Window, Windows, smaller, clip, expand_to_min, expand, settle, sorted, merge_intervals,
}
use nbdpsy_mcp.Pipeline.Merged.{
  length-merge_intervals, covered, Within, IsChain, covered-merge_intervals,
  merge_intervals-IsChain, IsChain-Within,
}
use nbdpsy_mcp.Pipeline.Snapping.{snap_static_window_around}

module _ (run_t0 run_t1 : ℕ) where
  pub clip-Within : (ws : Windows) → Within run_t0 run_t1 (clip run_t0 run_t1 ws)
  unfolding clip
  clip-Within [] = tt
  clip-Within ((w0, w1) ∷ ws) = elim (Bool-cases (ltb (larger w0 run_t0) (smaller w1 run_t1))) [
    | inl e ↦ rw e ((ground arith, ground (arith, e), ground arith), clip-Within ws)
    | inr e ↦ rw e (clip-Within ws)
  ]

  -- Within the run nothing is lost.
  pub covered-clip :
      (x : ℕ) (ws : Windows)
      → run_t0 ≤ x
      → x < run_t1
      → covered x (clip run_t0 run_t1 ws) ≡ covered x ws
  unfolding clip
  covered-clip x [] h k = refl
  covered-clip x ((w0, w1) ∷ ws) h k = ground (arith, covered-clip x ws h k)

-- A window grows, and stays within the run.
Around : ℕ → ℕ → Window → Window → Type 0
Around t0 t1 (lo, hi) (a, b) = (t0 ≤ a) × (a ≤ lo) × (hi ≤ b) × (b ≤ t1)

expand_to_min-Around :
    (fps t0 t1 lo hi : ℕ)
    → t0 ≤ lo
    → lo ≤ hi
    → hi ≤ t1
    → Around t0 t1 (lo, hi) (expand_to_min fps t0 t1 (lo, hi))
unfolding expand_to_min Around
expand_to_min-Around fps t0 t1 lo hi from long to =
    (ground arith, ground arith, ground arith, ground arith)

-- Half a period is at least a tick.
abbrev pub IsPeriod : Option ℕ → Type 0
IsPeriod none = Unit
IsPeriod (some h) = 1 ≤ h

expand-Around :
    (fps t0 t1 : ℕ) (period : Option ℕ) (lo hi : ℕ)
    → IsPeriod period
    → t0 ≤ lo
    → lo ≤ hi
    → hi ≤ t1
    → Around t0 t1 (lo, hi) (expand fps period t0 t1 (lo, hi))
unfolding Around
expand-Around fps t0 t1 none lo hi p from long to =
    expand_to_min-Around fps t0 t1 lo hi from long to
expand-Around fps t0 t1 (some zero) lo hi p from long to = absurd (omega (arith, p))
expand-Around fps t0 t1 (some (suc n)) lo hi p from long to =
    snap_static_window_around fps n t0 t1 lo hi long from to

fewer : (m n fuel : ℕ) → m ≤ n → n ≤ suc fuel → (m == n) ≡ false → m ≤ fuel
fewer m n fuel h k e = ground arith

module _ (fps t0 t1 : ℕ) (period : Option ℕ) (p : IsPeriod period) where
  map-expand-Within :
      (ws : Windows) → Within t0 t1 ws → Within t0 t1 (map (expand fps period t0 t1) ws)
  unfolding Around
  map-expand-Within [] h = tt
  map-expand-Within ((lo, hi) ∷ ws) ((from, long, to), rest) =
      let (a, b, c, d) = expand-Around fps t0 t1 period lo hi p from long to in
      ((a, omega (arith, b, c, long), d), map-expand-Within ws rest)

  covered-map-expand :
      (x : ℕ) (ws : Windows)
      → Within t0 t1 ws
      → covered x ws ≡ true
      → covered x (map (expand fps period t0 t1) ws) ≡ true
  unfolding Around
  covered-map-expand x [] h e = cc
  covered-map-expand x ((lo, hi) ∷ ws) ((from, long, to), rest) e =
      let (a, b, c, d) = expand-Around fps t0 t1 period lo hi p from long to in
      ground (arith, b, c, e, covered-map-expand x ws rest)

  length-map-expand : (ws : Windows) → length (map (expand fps period t0 t1) ws) ≡ length ws
  length-map-expand [] = refl
  length-map-expand (w ∷ ws) = ap suc (length-map-expand ws)

  -- As many rounds as there are windows are enough: more change nothing.
  settle-enough :
      (fuel more : ℕ) (ws : Windows)
      → length ws ≤ fuel
      → fuel ≤ more
      → settle fps more period t0 t1 ws ≡ settle fps fuel period t0 t1 ws
  unfolding settle sorted
  settle-enough zero zero ws h k = refl
  settle-enough zero (suc more) [] h k = refl
  settle-enough zero (suc more) (w ∷ ws) h k = absurd (omega (arith, h))
  settle-enough (suc fuel) zero ws h k = absurd (omega (arith, k))
  settle-enough (suc fuel) (suc more) ws h k =
      let expanded = merge_intervals (map (expand fps period t0 t1) ws) in
      let few : length expanded ≤ length ws =
        omega (
          arith,
          length-merge_intervals (map (expand fps period t0 t1) ws),
          length-map-expand ws,
        ) in
      elim (Bool-cases (length expanded == length ws)) [
        | inl e ↦ rw e refl
        | inr e ↦ rw e (
            settle-enough fuel more expanded (fewer (length expanded) (length ws) fuel few h e)
              (omega (arith, k)))
      ]

  pub settle-IsChain :
      (fuel : ℕ) (ws : Windows) → IsChain t0 t1 ws → IsChain t0 t1 (settle fps fuel period t0 t1 ws)
  unfolding settle
  settle-IsChain zero ws h = h
  settle-IsChain (suc fuel) ws h =
      let (le, within) = IsChain-Within t0 t1 ws h in
      let expanded = merge_intervals (map (expand fps period t0 t1) ws) in
      let chain : IsChain t0 t1 expanded =
        merge_intervals-IsChain t0 t1 _ le (map-expand-Within ws within) in
      elim (Bool-cases (length expanded == length ws)) [
        | inl e ↦ rw e chain
        | inr e ↦ rw e (settle-IsChain fuel expanded chain)
      ]

  pub covered-settle :
      (x fuel : ℕ) (ws : Windows)
      → IsChain t0 t1 ws
      → covered x ws ≡ true
      → covered x (settle fps fuel period t0 t1 ws) ≡ true
  unfolding settle
  covered-settle x zero ws h c = c
  covered-settle x (suc fuel) ws h c =
      let (le, within) = IsChain-Within t0 t1 ws h in
      let expanded = merge_intervals (map (expand fps period t0 t1) ws) in
      let chain : IsChain t0 t1 expanded =
        merge_intervals-IsChain t0 t1 _ le (map-expand-Within ws within) in
      let kept : covered x expanded ≡ true =
        covered-merge_intervals x t0 t1 _ (map-expand-Within ws within)
        ∙ covered-map-expand x ws within c in
      elim (Bool-cases (length expanded == length ws)) [
        | inl e ↦ rw e kept
        | inr e ↦ rw e (covered-settle x fuel expanded chain kept)
      ]
