-- ===== src/Pipeline/Examples.antt =====
-- Fragments that a model merges to one sentence, and fragments that it shortens.
mod Layout
mod Carving
use nbdpsy_mcp.Prelude.{ℕ, ◌*◌, ◌≤◌, Bool, true, false, List, [], ◌∷◌, some, ◌≡◌, refl, arith, All}
use nbdpsy_mcp.Pipeline.Resegment.{
  Segment, Segments, answered, merge_batch, validate_merge, in_order, count_chars, needs_resegment,
  resegment, resegment_from,
}
use nbdpsy_mcp.Pipeline.Coverage.{Part, inputs, outputs, IsSound, resegment-keeps_text}

abbrev segment : ℕ → ℕ → List ℕ → Segment
segment start end_ text = record { start = start; end_ = end_; text = text }

-- "so we" and "go."
abbrev fragments : Segments
fragments =
    segment 0 900 (115 ∷ 111 ∷ 32 ∷ 119 ∷ 101 ∷ []) ∷ segment 900 2000 (103 ∷ 111 ∷ 46 ∷ []) ∷ []

abbrev sentence : Segments
sentence = segment 0 2000 (115 ∷ 111 ∷ 32 ∷ 119 ∷ 101 ∷ 32 ∷ 103 ∷ 111 ∷ 46 ∷ []) ∷ []

-- The word in front is lost.
abbrev shortened : Segments
shortened = segment 0 2000 (119 ∷ 101 ∷ 32 ∷ 103 ∷ 111 ∷ 46 ∷ []) ∷ []

abbrev never : ℕ → Bool
never new_start = false

fragments-needs_resegment : needs_resegment fragments ≡ true
unfolding needs_resegment
fragments-needs_resegment = refl

merged : resegment never (λ batch. answered sentence) 1 fragments ≡ some sentence
unfolding resegment resegment_from merge_batch validate_merge in_order count_chars
merged = refl

not_merged : resegment never (λ batch. answered shortened) 1 fragments ≡ some fragments
unfolding resegment resegment_from merge_batch validate_merge in_order count_chars
not_merged = refl

resegment-keeps_text_example :
    (parts : List Part) × (inputs parts ≡ fragments)
    × (resegment never (λ batch. answered sentence) 2 fragments ≡ some (outputs parts))
    × All IsSound parts
    × (95 * count_chars fragments ≤ 100 * count_chars (outputs parts))
resegment-keeps_text_example =
    resegment-keeps_text never (λ batch. answered sentence) 2 fragments (omega arith)
