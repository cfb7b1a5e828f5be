-- ===== src/Pipeline/Carve.antt =====
-- carve_motion_for_speech of app/video/pipeline/remake/timeline.py: a run of the moving ball is cut where
-- a sentence is spoken, so that the ball rests. A moment is a number of ticks as in `Timeline`, exactly, so
-- that the source's tolerances are none; the axis counts from a moment that is an even number of frames
-- and a whole number of half periods before the film, and far enough for no index to be negative. The
-- middle of a window is rounded down to a tick.
use nbdpsy_mcp.Prelude.{
  ℕ, zero, suc, ◌+◌, ◌-◌, ◌*◌, ◌/◌, Bool, true, false, ◌&&◌, ◌||◌, List, [], ◌∷◌, ◌++◌, Option,
  none, some, map, if◌then◌else◌, ltb, leb, ◌==◌, length,
}
use nbdpsy_mcp.Pipeline.Blocks.{larger, quantize}
use nbdpsy_mcp.Pipeline.Timeline.{millis}

abbrev pub Window : Type 0
Window = ℕ × ℕ

abbrev pub Windows : Type 0
Windows = List Window

abbrev pub smaller : ℕ → ℕ → ℕ
smaller a b = if leb a b then a else b

-- The order of tuples.
abbrev pub is_before : Window → Window → Bool
is_before (a, b) (c, d) = ltb a c || (a == c && leb b d)

unfoldable pub insert_window : Window → Windows → Windows
insert_window w [] = w ∷ []
insert_window w (v ∷ ws) =
    let rest = insert_window w ws in if is_before w v then w ∷ v ∷ ws else v ∷ rest

unfoldable pub sorted : Windows → Windows
sorted [] = []
sorted (w ∷ ws) = insert_window w (sorted ws)

-- Of windows in order: one that meets the window before it makes it longer.
unfoldable pub merge_from : ℕ → ℕ → Windows → Windows
merge_from a b [] = (a, b) ∷ []
merge_from a b ((lo, hi) ∷ ws) =
    let longer = merge_from a (larger b hi) ws in
    let rest = merge_from lo hi ws in if leb lo b then longer else (a, b) ∷ rest

abbrev pub merge_sorted : Windows → Windows
merge_sorted [] = []
merge_sorted ((lo, hi) ∷ ws) = merge_from lo hi ws

abbrev pub merge_intervals : Windows → Windows
merge_intervals ws = merge_sorted (sorted ws)

abbrev pub is_empty : Windows → Bool
is_empty [] = true
is_empty (w ∷ ws) = false

module _ (run_t0 run_t1 : ℕ) where
  unfoldable pub clip : Windows → Windows
  clip [] = []
  clip ((w0, w1) ∷ ws) =
      let lo = larger w0 run_t0 in
      let hi = smaller w1 run_t1 in
      let rest = clip ws in if ltb lo hi then (lo, hi) ∷ rest else rest

  abbrev pub inside_run : ℕ → ℕ → Window
  inside_run lo hi = (larger run_t0 lo, smaller run_t1 hi)

-- The moments when the ball is in the middle.
abbrev pub phase_grid_point : ℕ → ℕ → ℕ
phase_grid_point h k = quantize (k * h)

-- `while _phase_grid_point(k) > t: k -= 1`
unfoldable pub grid_down : ℕ → ℕ → ℕ → ℕ
grid_down h t zero = zero
grid_down h t (suc k) =
    let less = grid_down h t k in if ltb t (phase_grid_point h (suc k)) then less else suc k

-- `while _phase_grid_point(k) < t: k += 1`, on fuel.
unfoldable pub grid_up : ℕ → ℕ → ℕ → ℕ → ℕ
grid_up zero h t k = k
grid_up (suc fuel) h t k =
    let more = grid_up fuel h t (suc k) in if ltb (phase_grid_point h k) t then more else k

abbrev pub phase_k_floor : ℕ → ℕ → ℕ
phase_k_floor h t = grid_down h t (t / h)

-- A grid point is at most half a frame, 500 ticks, before its moment.
abbrev pub phase_k_ceil : ℕ → ℕ → ℕ
phase_k_ceil h t = grid_up 501 h t ((t + h - 1) / h)

unfoldable pub phase_floor : ℕ → ℕ → ℕ
phase_floor h t = phase_grid_point h (phase_k_floor h t)

unfoldable pub phase_ceil : ℕ → ℕ → ℕ
phase_ceil h t = phase_grid_point h (phase_k_ceil h t)

module _ (fps : ℕ) where
  abbrev pub min_static : ℕ
  min_static = millis fps 2000

  -- The ends move outwards by turns until the window is long enough, on fuel.
  unfoldable pub widen : ℕ → ℕ → Bool → ℕ → ℕ → ℕ × ℕ
  widen zero h low k_lo k_hi = (k_lo, k_hi)
  widen (suc fuel) h low k_lo k_hi =
      let lower = widen fuel h false (k_lo - 1) k_hi in
      let higher = widen fuel h true k_lo (suc k_hi) in
      if ltb (phase_grid_point h k_hi - phase_grid_point h k_lo) min_static
      then (if low then lower else higher)
      else (k_lo, k_hi)

  abbrev pub widen_fuel : ℕ
  widen_fuel = 2 * min_static + 2100

  unfoldable pub snap_static_window : ℕ → ℕ → ℕ → Window → Window
  snap_static_window h run_t0 run_t1 (lo, hi) =
      let (k_lo, k_hi) = widen widen_fuel h true (phase_k_floor h lo) (phase_k_ceil h hi) in
      inside_run run_t0 run_t1 (phase_grid_point h k_lo) (phase_grid_point h k_hi)

  -- At the start of the run, then at its end.
  abbrev pub push_start : ℕ → ℕ → Window
  push_start run_t0 nlo =
      if ltb nlo run_t0 then (run_t0, run_t0 + min_static) else (nlo, nlo + min_static)

  abbrev pub push_end : ℕ → Window → Window
  push_end run_t1 (nlo, nhi) = if ltb run_t1 nhi then (run_t1 - min_static, run_t1) else (nlo, nhi)

  unfoldable pub expand_to_min : ℕ → ℕ → Window → Window
  expand_to_min run_t0 run_t1 (lo, hi) =
      let (nlo, nhi) = push_end run_t1 (push_start run_t0 ((lo + hi) / 2 - min_static / 2)) in
      if leb min_static (hi - lo) then (lo, hi) else inside_run run_t0 run_t1 nlo nhi

  -- With a period the window ends where the ball is in the middle.
  abbrev pub expand : Option ℕ → ℕ → ℕ → Window → Window
  expand (some h) run_t0 run_t1 w = snap_static_window h run_t0 run_t1 w
  expand none run_t0 run_t1 w = expand_to_min run_t0 run_t1 w

  -- Until no windows meet that did not, on fuel.
  unfoldable pub settle : ℕ → Option ℕ → ℕ → ℕ → Windows → Windows
  settle zero period run_t0 run_t1 ws = ws
  settle (suc fuel) period run_t0 run_t1 ws =
      let expanded = merge_intervals (map (expand period run_t0 run_t1) ws) in
      let rest = settle fuel period run_t0 run_t1 expanded in
      if length expanded == length ws then expanded else rest

pub data PieceKind : Type 0 where
  motion static : PieceKind

pub record Piece : Type 0 where
  pub kind : PieceKind
  pub t0 : ℕ
  pub t1 : ℕ

abbrev pub motion_piece : ℕ → ℕ → List Piece
motion_piece a b = if ltb a b then record { kind = motion; t0 = a; t1 = b } ∷ [] else []

-- The windows with the motion between them.
unfoldable pub fill : ℕ → ℕ → Windows → List Piece
fill cursor run_t1 [] = motion_piece cursor run_t1
fill cursor run_t1 ((lo, hi) ∷ ws) =
    motion_piece cursor lo ++ record { kind = static; t0 = lo; t1 = hi } ∷ fill hi run_t1 ws

abbrev pub on_frames : ℕ → ℕ → Window → Window
on_frames run_t0 run_t1 (lo, hi) = inside_run run_t0 run_t1 (quantize lo) (quantize hi)

abbrev pub framed : Option ℕ → ℕ → ℕ → Windows → Windows
framed (some h) run_t0 run_t1 ws = ws
framed none run_t0 run_t1 ws = merge_intervals (map (on_frames run_t0 run_t1) ws)

abbrev pub static_windows : ℕ → Option ℕ → ℕ → ℕ → Windows → Windows
static_windows fps period run_t0 run_t1 clipped =
    framed period run_t0 run_t1
      (settle fps (length clipped) period run_t0 run_t1 (merge_intervals clipped))

-- `period` is half a period, or none.
unfoldable pub carve_motion_for_speech : ℕ → Option ℕ → ℕ → ℕ → Windows → List Piece
carve_motion_for_speech fps period run_t0 run_t1 speech_windows =
    let clipped = clip run_t0 run_t1 speech_windows in
    if is_empty clipped
    then record { kind = motion; t0 = run_t0; t1 = run_t1 } ∷ []
    else fill run_t0 run_t1 (static_windows fps period run_t0 run_t1 clipped)
