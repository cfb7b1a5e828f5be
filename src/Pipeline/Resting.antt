-- ===== src/Pipeline/Resting.antt =====
-- When the ball rests (carve_motion_for_speech in app/video/pipeline/remake/timeline.py).
use nbdpsy_mcp.Prelude.{
  ℕ, suc, ◌≤◌, ◌<◌, true, false, [], ◌∷◌, Option, none, some, map, ◌≡◌, refl, ◌∙◌, arith,
  if◌then◌else◌, length,
}
use nbdpsy_mcp.Pipeline.Blocks.{quantize}
use nbdpsy_mcp.Pipeline.Carve.{
  Windows, clip, inside_run, is_empty, merge_intervals, motion, fill, on_frames, framed,
  static_windows, carve_motion_for_speech,
}
use nbdpsy_mcp.Pipeline.Merged.{
  covered, Within, IsChain, covered-merge_intervals, merge_intervals-IsChain, IsChain-Within,
}
use nbdpsy_mcp.Pipeline.Snapping.{quantize_mono}
use nbdpsy_mcp.Pipeline.Filled.{Tiles, moves, fill-Tiles, moves-fill}
use nbdpsy_mcp.Pipeline.Settled.{
  IsPeriod, clip-Within, covered-clip, settle-IsChain, covered-settle,
}

inside_run-Within :
    (t0 t1 lo hi : ℕ)
    → lo ≤ hi
    → t0 ≤ hi
    → lo ≤ t1
    → t0 ≤ t1
    → let w = inside_run t0 t1 lo hi in (t0 ≤ w.0) × (w.0 ≤ w.1) × (w.1 ≤ t1)
inside_run-Within t0 t1 lo hi h k l m = (ground arith, ground arith, ground arith)

on_frames-Within :
    (t0 t1 : ℕ) (ws : Windows)
    → t0 ≤ t1
    → quantize t0 ≡ t0
    → quantize t1 ≡ t1
    → Within t0 t1 ws
    → Within t0 t1 (map (on_frames t0 t1) ws)
on_frames-Within t0 t1 [] le s e h = tt
on_frames-Within t0 t1 ((lo, hi) ∷ ws) le s e ((from, long, to), rest) = (
  inside_run-Within t0 t1 (quantize lo) (quantize hi) (quantize_mono lo hi long)
      (omega (arith, s, quantize_mono t0 hi (omega arith)))
      (omega (arith, e, quantize_mono lo t1 (omega arith))) le,
  on_frames-Within t0 t1 ws le s e rest,
)

framed-IsChain :
    (period : Option ℕ) (t0 t1 : ℕ) (ws : Windows)
    → quantize t0 ≡ t0
    → quantize t1 ≡ t1
    → IsChain t0 t1 ws
    → IsChain t0 t1 (framed period t0 t1 ws)
framed-IsChain (some h) t0 t1 ws s e chain = chain
framed-IsChain none t0 t1 ws s e chain =
    let (le, within) = IsChain-Within t0 t1 ws chain in
    merge_intervals-IsChain t0 t1 _ le (on_frames-Within t0 t1 ws le s e within)

module _ (fps t0 t1 : ℕ) (le : t0 ≤ t1) where
  static_windows-IsChain :
      (period : Option ℕ) (clipped : Windows)
      → quantize t0 ≡ t0
      → quantize t1 ≡ t1
      → IsPeriod period
      → Within t0 t1 clipped
      → IsChain t0 t1 (static_windows fps period t0 t1 clipped)
  static_windows-IsChain period clipped s e p within = framed-IsChain period t0 t1 _ s e (
      settle-IsChain fps t0 t1 period p (length clipped) (merge_intervals clipped)
        (merge_intervals-IsChain t0 t1 clipped le within))

  -- The pieces of a run that is on the frames join from its start to its end, with a period of the ball
  -- and without.
  pub carve_motion_for_speech-Tiles :
      (windows : Windows) (period : Option ℕ)
      → quantize t0 ≡ t0
      → quantize t1 ≡ t1
      → IsPeriod period
      → Tiles t0 t1 (carve_motion_for_speech fps period t0 t1 windows)
  unfolding carve_motion_for_speech
  carve_motion_for_speech-Tiles windows period s e p =
      tiled (clip t0 t1 windows) (clip-Within t0 t1 windows)
    where
      tiled :
          (clipped : Windows)
          → Within t0 t1 clipped
          → Tiles t0 t1 (
              if is_empty clipped
              then record { kind = motion; t0 = t0; t1 = t1 } ∷ []
              else fill t0 t1 (static_windows fps period t0 t1 clipped))
      tiled [] h = (refl, le, refl)
      tiled (w ∷ ws) h = fill-Tiles t0 t1 _ (static_windows-IsChain period (w ∷ ws) s e p h)

-- The pieces of a run of the moving ball join from its start to its end, and the ball does not move at
-- any moment of the run that is in a window in which a sentence is spoken, where the run has a
-- length, and half the period of the ball is at least a tick.
pub carve_motion_for_speech-Rests :
    (fps n t0 t1 x : ℕ) (windows : Windows)
    → t0 ≤ x
    → x < t1
    → covered x windows ≡ true
    → let pieces = carve_motion_for_speech fps (some (suc n)) t0 t1 windows in
      Tiles t0 t1 pieces × (moves x pieces ≡ false)
unfolding carve_motion_for_speech
carve_motion_for_speech-Rests fps n t0 t1 x windows from to spoken =
    rests (clip t0 t1 windows) (clip-Within t0 t1 windows)
      (covered-clip t0 t1 x windows from to ∙ spoken)
  where
    rests :
        (clipped : Windows)
        → Within t0 t1 clipped
        → covered x clipped ≡ true
        → let pieces =
            if is_empty clipped
            then record { kind = motion; t0 = t0; t1 = t1 } ∷ []
            else fill t0 t1 (static_windows fps (some (suc n)) t0 t1 clipped) in
          Tiles t0 t1 pieces × (moves x pieces ≡ false)
    rests [] h c = cc
    rests (w ∷ ws) h c =
        let merged = merge_intervals (w ∷ ws) in
        let chain : IsChain t0 t1 merged =
          merge_intervals-IsChain t0 t1 (w ∷ ws) (omega (arith, from, to)) h in
        let settled =
          settle-IsChain fps t0 t1 (some (suc n)) (omega arith) (length (w ∷ ws)) merged chain in
        (
          fill-Tiles t0 t1 _ settled,
          moves-fill x t0 t1 _ settled (
              covered-settle fps t0 t1 (some (suc n)) (omega arith) x (length (w ∷ ws)) merged chain
                (covered-merge_intervals x t0 t1 (w ∷ ws) h ∙ c)),
        )
