-- ===== src/Pipeline/Filled.antt =====
-- The pieces between the windows of a run (carve_motion_for_speech in
-- app/video/pipeline/remake/timeline.py).
use nbdpsy_mcp.Prelude.{
  ℕ, ◌≤◌, ◌<◌, Bool, true, false, ◌&&◌, ◌||◌, List, [], ◌∷◌, ◌++◌, ◌≡◌, refl, arith, ltb, leb,
  Bool-cases, inl, inr, subst, append-nil,
}
use nbdpsy_mcp.Pipeline.Carve.{Windows, PieceKind, motion, static, Piece, motion_piece, fill}
use nbdpsy_mcp.Pipeline.Merged.{covered, IsChain}
use nbdpsy_mcp.Pipeline.Snapping.{not_ltb}

-- The pieces join from one moment to another.
abbrev pub Tiles : ℕ → ℕ → List Piece → Type 0
Tiles t0 t1 [] = t0 ≡ t1
Tiles t0 t1 (p ∷ pieces) = (p.t0 ≡ t0) × (p.t0 ≤ p.t1) × Tiles p.t1 t1 pieces

abbrev is_motion : PieceKind → Bool
is_motion motion = true
is_motion static = false

-- Does the ball move at a moment?
abbrev pub moves : ℕ → List Piece → Bool
moves x [] = false
moves x (p ∷ pieces) = (is_motion p.kind && (leb p.t0 x && ltb x p.t1)) || moves x pieces

motion_piece-Tiles :
    (a b t1 : ℕ) (pieces : List Piece)
    → a ≤ b
    → Tiles b t1 pieces
    → Tiles a t1 (motion_piece a b ++ pieces)
motion_piece-Tiles a b t1 pieces le h = elim (Bool-cases (ltb a b)) [
  | inl e ↦ rw e (refl, le, h)
  | inr e ↦ rw e (subst (λ t. Tiles t t1 pieces) (same (not_ltb a b e)) h)
]
  where
    same : b ≤ a → b ≡ a
    same ge = omega (arith, le, ge)

pub fill-Tiles : (c t1 : ℕ) (ws : Windows) → IsChain c t1 ws → Tiles c t1 (fill c t1 ws)
unfolding fill
fill-Tiles c t1 [] h = rw (← append-nil (motion_piece c t1)) (motion_piece-Tiles c t1 t1 [] h refl)
fill-Tiles c t1 ((lo, hi) ∷ ws) (from, long, rest) =
    motion_piece-Tiles c lo t1 _ from (refl, long, fill-Tiles hi t1 ws rest)

moves-motion_piece :
    (x a b : ℕ) (pieces : List Piece)
    → moves x (motion_piece a b ++ pieces) ≡ ((leb a x && ltb x b) || moves x pieces)
moves-motion_piece x a b pieces = ground arith

-- Before a moment nothing moves of what is behind it.
moves-fill_later :
    (x c t1 : ℕ) (ws : Windows) → IsChain c t1 ws → x < c → moves x (fill c t1 ws) ≡ false
unfolding fill
moves-fill_later x c t1 [] h lt = ground arith
moves-fill_later x c t1 ((lo, hi) ∷ ws) (from, long, rest) lt =
    rw (moves-motion_piece x c lo (record { kind = static; t0 = lo; t1 = hi } ∷ fill hi t1 ws))
      (ground (arith, moves-fill_later x hi t1 ws rest (omega arith)))

covered_later : (x t t1 : ℕ) (ws : Windows) → IsChain t t1 ws → covered x ws ≡ true → t ≤ x
covered_later x t t1 [] h e = cc
covered_later x t t1 ((lo, hi) ∷ ws) (from, long, rest) e =
    ground (arith, covered_later x hi t1 ws rest)

pub moves-fill :
    (x c t1 : ℕ) (ws : Windows)
    → IsChain c t1 ws
    → covered x ws ≡ true
    → moves x (fill c t1 ws) ≡ false
unfolding fill
moves-fill x c t1 [] h e = cc
moves-fill x c t1 ((lo, hi) ∷ ws) (from, long, rest) e =
    rw (moves-motion_piece x c lo (record { kind = static; t0 = lo; t1 = hi } ∷ fill hi t1 ws)) (
      ground (
        arith,
        moves-fill x hi t1 ws rest,
        covered_later x hi t1 ws rest,
        moves-fill_later x hi t1 ws rest,
      ))
