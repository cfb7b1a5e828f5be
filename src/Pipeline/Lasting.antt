-- ===== src/Pipeline/Lasting.antt =====
-- How long each sentence of a remake is spoken (relayout in app/video/pipeline/remake/timeline.py).
use nbdpsy_mcp.Prelude.{
  ℕ, suc, ◌+◌, ◌-◌, ◌*◌, ◌≤◌, Bool, true, false, not, ◌&&◌, List, [], ◌∷◌, Option, none, some, ◌≡◌,
  refl, arith, ◌==◌, ◌⊎◌, leb, ltb, if◌then◌else◌, Bool-cases, inl, inr, All, All-append,
}
use native.Mathlib.Omega.{div_any}
use nbdpsy_mcp.Pipeline.Blocks.{
  Scene, Sentence, Placed, Override, round_to, quantize, assign_block, insert_sentence, block_segs,
  is_ball, is_closing, find_override, is_overridden,
}
use nbdpsy_mcp.Pipeline.Timeline.{
  put, start_of, end_of, place_ball, place_card, card_algo, card_block, block, relayout_from,
  relayout,
}
use nbdpsy_mcp.Pipeline.Speech.{speech}

abbrev pub IsIn : Sentence → List Sentence → Type 0
IsIn s [] = ⊥
IsIn s (x ∷ xs) = (s ≡ x) ⊎ IsIn s xs

-- A place is that of a sentence of the list that is to be spoken, and it ends its duration behind its
-- start, to half a millisecond.
abbrev pub IsTimed : ℕ → List Sentence → Placed → Type 0
IsTimed fps segments p =
    (s : Sentence) × IsIn s segments
    × (s.no_dub ≡ false)
    × (s.sid ≡ p.sid)
    × (2 * (p.start + s.duration) ≤ 2 * p.end_ + fps)
    × (2 * p.end_ ≤ 2 * (p.start + s.duration) + fps)

round_to_near :
    (n t : ℕ) → (2 * t ≤ 2 * round_to (suc n) t + suc n) × (2 * round_to (suc n) t ≤ 2 * t + suc n)
unfolding round_to
round_to_near n t = ground (arith, div_any t (suc n))

module _ (n : ℕ) (segments : List Sentence) where
  abbrev IsDue : Sentence → Type 0
  IsDue s = IsIn s segments × (s.no_dub ≡ false)

  abbrev Timed : List Placed → Type 0
  Timed = All (IsTimed (suc n) segments)

  put-IsTimed :
      (start : ℕ) (warned : Bool) (s : Sentence)
      → IsDue s
      → IsTimed (suc n) segments (put (suc n) start warned s)
  put-IsTimed start warned s due =
      let (low, high) = round_to_near n (start + s.duration) in (s, due.0, due.1, refl, low, high)

  insert_sentence-IsDue :
      (s : Sentence) (xs : List Sentence)
      → IsDue s
      → All IsDue xs
      → All IsDue (insert_sentence s xs)
  insert_sentence-IsDue s [] due h = (due, tt)
  insert_sentence-IsDue s (x ∷ xs) due h = elim (Bool-cases (leb s.orig_start x.orig_start)) [
    | inl e ↦ rw e (due, h)
    | inr e ↦ rw e (h.0, insert_sentence-IsDue s xs due h.1)
  ]

  inserted-IsDue :
      (silent here : Bool) (s : Sentence) (rest : List Sentence)
      → IsIn s segments
      → s.no_dub ≡ silent
      → All IsDue rest
      → All IsDue (if not silent && here then insert_sentence s rest else rest)
  inserted-IsDue true here s rest there e h = h
  inserted-IsDue false false s rest there e h = h
  inserted-IsDue false true s rest there e h = insert_sentence-IsDue s rest (there, e) h

  block_segs-IsDue :
      (all : List Scene) (blk : ℕ) (segs : List Sentence)
      → All (λ s. IsIn s segments) segs
      → All IsDue (block_segs all blk segs)
  unfolding block_segs
  block_segs-IsDue all blk [] h = tt
  block_segs-IsDue all blk (s ∷ segs) h =
      inserted-IsDue s.no_dub (assign_block s.orig_start all == blk) s (block_segs all blk segs) h.0
        refl (block_segs-IsDue all blk segs h.1)

  place_ball-Timed :
      (new_t0 blk_t0 new_t1 : ℕ) (speech_end : Option ℕ) (segs : List Sentence)
      → All IsDue segs
      → Timed (place_ball (suc n) new_t0 blk_t0 new_t1 speech_end segs).0
  unfolding place_ball
  place_ball-Timed new_t0 blk_t0 new_t1 speech_end [] h = tt
  place_ball-Timed new_t0 blk_t0 new_t1 speech_end (s ∷ segs) h =
      let start = start_of (suc n) ((new_t0 + s.orig_start) - blk_t0) speech_end in
      (
        put-IsTimed start (ltb new_t1 (start + s.duration)) s h.0,
        place_ball-Timed new_t0 blk_t0 new_t1 (some (end_of (suc n) start s)) segs h.1,
      )

  place_card-Timed :
      (card_gap : ℕ) (overridden : Bool) (new_t0 : ℕ) (prev speech_end : Option ℕ)
      (segs : List Sentence)
      → All IsDue segs
      → Timed (place_card (suc n) card_gap overridden new_t0 prev speech_end segs).0
  unfolding place_card
  place_card-Timed card_gap overridden new_t0 prev speech_end [] h = tt
  place_card-Timed card_gap overridden new_t0 prev speech_end (s ∷ segs) h =
      let start =
        start_of (suc n) (card_algo (suc n) card_gap overridden new_t0 prev speech_end s.orig_start)
          speech_end in
      (
        put-IsTimed start false s h.0,
        place_card-Timed card_gap overridden new_t0 (some s.orig_end)
            (some (end_of (suc n) start s)) segs h.1,
      )

  module _ (card_gap : ℕ) (overrides : List Override) where
    card_block-Timed :
        (closing : Bool) (override : Option ℕ) (sc : Scene) (segs : List Sentence) (new_t0 : ℕ)
        (speech_end : Option ℕ)
        → All IsDue segs
        → Timed (card_block (suc n) card_gap closing override sc segs new_t0 speech_end).placed
    card_block-Timed closing override sc [] new_t0 speech_end h = tt
    card_block-Timed closing override sc (s ∷ segs) new_t0 speech_end h =
        place_card-Timed card_gap (is_overridden override) new_t0 none speech_end (s ∷ segs) h

    block-Timed :
        (sc : Scene) (scenes : List Scene) (segs : List Sentence) (cur : ℕ) (speech_end : Option ℕ)
        → All IsDue segs
        → Timed (block (suc n) card_gap overrides sc scenes segs cur speech_end).placed
    unfolding block
    block-Timed sc scenes segs cur speech_end h = elim (Bool-cases (is_ball sc.kind)) [
      | inl e ↦ rw e (
          place_ball-Timed (quantize cur) sc.t0 (quantize (quantize cur + (sc.t1 - sc.t0)))
            speech_end segs h)
      | inr e ↦ rw e (
          card_block-Timed (is_closing sc scenes) (find_override sc overrides) sc segs
            (quantize cur) speech_end h)
    ]

    relayout_from-Timed :
        (all : List Scene) (blk : ℕ) (scenes : List Scene) (cur : ℕ) (speech_end : Option ℕ)
        → All (λ s. IsIn s segments) segments
        → Timed (
            speech
              (relayout_from (suc n) card_gap overrides all blk scenes segments cur speech_end))
    unfolding relayout_from
    relayout_from-Timed all blk [] cur speech_end h = tt
    relayout_from-Timed all blk (sc ∷ scenes) cur speech_end h =
        let segs = block_segs all blk segments in
        let b = block (suc n) card_gap overrides sc scenes segs cur speech_end in
        All-append (IsTimed (suc n) segments) b.placed _
          (block-Timed sc scenes segs cur speech_end (block_segs-IsDue all blk segments h))
          (relayout_from-Timed all (blk + 1) scenes b.new_t1 b.speech_end h)

All-IsIn_more :
    (x : Sentence) (segments segs : List Sentence)
    → All (λ s. IsIn s segments) segs
    → All (λ s. IsIn s (x ∷ segments)) segs
All-IsIn_more x segments [] h = tt
All-IsIn_more x segments (s ∷ segs) h = (inr h.0, All-IsIn_more x segments segs h.1)

All-IsIn : (segments : List Sentence) → All (λ s. IsIn s segments) segments
All-IsIn [] = tt
All-IsIn (x ∷ xs) = (inl refl, All-IsIn_more x xs xs (All-IsIn xs))

pub relayout-IsTimed :
    (n card_gap : ℕ) (overrides : List Override) (origin : ℕ) (scenes : List Scene)
    (segments : List Sentence)
    → All
        (IsTimed (suc n) segments)
        (speech (relayout (suc n) card_gap overrides origin scenes segments))
unfolding relayout
relayout-IsTimed n card_gap overrides origin scenes segments =
    relayout_from-Timed n segments card_gap overrides scenes 0 scenes origin none
      (All-IsIn segments)
