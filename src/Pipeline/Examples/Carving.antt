-- ===== src/Pipeline/Examples/Carving.antt =====
-- A run of the ball from 10 s to 30 s, at 25 frames a second, with sentences from 15 s to 15.5 s and from
-- 16.9 s to 18 s; the ball is in the middle every 600 ms.
use nbdpsy_mcp.Prelude.{ℕ, ◌*◌, false, [], ◌∷◌, some, none, ◌≡◌, refl, arith}
use nbdpsy_mcp.Pipeline.Blocks.{round_to}
use nbdpsy_mcp.Pipeline.Carve.{
  Windows, insert_window, sorted, merge_from, clip, grid_down, grid_up, widen, snap_static_window,
  expand_to_min, settle, motion, static, Piece, fill, carve_motion_for_speech, phase_floor,
  phase_ceil, phase_grid_point,
}
use nbdpsy_mcp.Pipeline.Filled.{Tiles, moves}
use nbdpsy_mcp.Pipeline.Resting.{carve_motion_for_speech-Rests}

abbrev at_ms : ℕ → ℕ
at_ms n = 25 * n

abbrev speech_windows : Windows
speech_windows =
    (at_ms 16900, at_ms 18000) ∷ (at_ms 15000, at_ms 15500) ∷ (at_ms 40000, at_ms 41000) ∷ []

abbrev piece_of_motion : ℕ → ℕ → Piece
piece_of_motion a b = record { kind = motion; t0 = at_ms a; t1 = at_ms b }

abbrev piece_of_rest : ℕ → ℕ → Piece
piece_of_rest a b = record { kind = static; t0 = at_ms a; t1 = at_ms b }

-- The two windows grow to the grid, to 2 s at least, and meet.
with_period :
    carve_motion_for_speech 25 (some (at_ms 600)) (at_ms 10000) (at_ms 30000) speech_windows
    ≡ piece_of_motion 10000 13800 ∷ piece_of_rest 13800 18600 ∷ piece_of_motion 18600 30000 ∷ []
unfolding carve_motion_for_speech clip sorted insert_window merge_from settle snap_static_window
    grid_down grid_up widen fill round_to
with_period = refl

without_period :
    carve_motion_for_speech 25 none (at_ms 10000) (at_ms 30000) speech_windows
    ≡ piece_of_motion 10000 14240
      ∷ piece_of_rest 14240 16240
      ∷ piece_of_motion 16240 16440
      ∷ piece_of_rest 16440 18440
      ∷ piece_of_motion 18440 30000
      ∷ []
unfolding carve_motion_for_speech clip sorted insert_window merge_from settle expand_to_min fill
    round_to
without_period = refl

-- A point of the grid that is rounded to the moment itself is passed over, at either end.
floor_passes : (phase_floor 12300 12000 ≡ 0) × (phase_grid_point 12300 1 ≡ 12000)
unfolding phase_floor grid_down round_to
floor_passes = (refl, refl)

ceil_passes : (phase_ceil 12600 13000 ≡ 25000) × (phase_grid_point 12600 1 ≡ 13000)
unfolding phase_ceil grid_up round_to
ceil_passes = (refl, refl)

carve_motion_for_speech-Rests_example :
    let pieces =
      carve_motion_for_speech 25 (some (at_ms 600)) (at_ms 10000) (at_ms 30000) speech_windows in
    Tiles (at_ms 10000) (at_ms 30000) pieces × (moves (at_ms 17000) pieces ≡ false)
carve_motion_for_speech-Rests_example =
    carve_motion_for_speech-Rests 25 14999 (at_ms 10000) (at_ms 30000) (at_ms 17000) speech_windows
      (omega arith) (omega arith) refl
