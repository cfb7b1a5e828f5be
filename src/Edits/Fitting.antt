-- ===== src/Edits/Fitting.antt =====
-- What the check of a target for a card (app/video/pipeline/remake/revision.py) is for the layout that
-- is made with it (app/video/pipeline/remake/timeline.py).
use nbdpsy_mcp.Prelude.{
  ℕ, suc, ◌*◌, ◌≤◌, Bool, false, List, ◌∷◌, Option, some, ◌≡◌, sym, ◌∙◌, map, length, leb→le,
}
use nbdpsy_mcp.Result.{ok, ok_inj}
use nbdpsy_mcp.Pipeline.Blocks.{Scene, Sentence}
use nbdpsy_mcp.Pipeline.Timeline.{card_block}
use nbdpsy_mcp.Pipeline.Fitting.{IsClear, card_block-fits}
use nbdpsy_mcp.Edits.Value.{Value, is_null}
use nbdpsy_mcp.Edits.Plan.{Line, StoryScene, card_dub_durations, check_duration}
use nbdpsy_mcp.Edits.Override.{ticks_of}
use nbdpsy_mcp.Edits.Accepted.{check_duration-ticks_of}

-- A target that the check lets pass for a card cuts no speech: laid out with it, the last sentence of the
-- card ends before the card does, where the durations of its sentences are those that the check
-- found, the pause between sentences is at most 1 s, from 1 to 499 sentences are spoken, and a sentence
-- before the card, if there is one, ends 300 ms before the first of them is to start.
pub check_duration-fits :
    (n card_gap : ℕ) (closing : Bool) (ds : Value) (d : ℕ) (shown : StoryScene) (lines : List Line)
    (sc : Scene) (s : Sentence) (segs : List Sentence) (new_t0 : ℕ) (speech_end : Option ℕ)
    → check_duration (suc n) ds shown lines ≡ ok tt
    → is_null ds ≡ false
    → ticks_of (suc n) ds ≡ ok d
    → map (λ x. x.duration) (s ∷ segs) ≡ card_dub_durations shown lines
    → card_gap ≤ 1000 * suc n
    → length segs ≤ 498
    → IsClear (suc n) new_t0 speech_end
    → let b = card_block (suc n) card_gap closing (some d) sc (s ∷ segs) new_t0 speech_end in
      (e : ℕ) × (b.speech_end ≡ some e) × (e ≤ b.new_t1)
check_duration-fits n card_gap closing ds d shown lines sc s segs new_t0 speech_end passed given
      target same short few before =
    let (x, hx, least) = check_duration-ticks_of (suc n) ds shown lines passed given in
    let equal : x ≡ d = ok_inj (sym hx ∙ target) in
    card_block-fits n card_gap closing d sc s segs new_t0 speech_end short
      (rw (same, ← equal) (leb→le _ x least)) few before
