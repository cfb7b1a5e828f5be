-- ===== src/Pipeline/Speech.antt =====
-- The places of the sentences of a remake, one behind the other, and the blocks on the grid of the
-- frames (relayout in app/video/pipeline/remake/timeline.py).
use nbdpsy_mcp.Prelude.{
  ℕ, suc, ◌+◌, ◌-◌, ◌*◌, ◌%◌, ◌≤◌, Bool, List, [], ◌∷◌, ◌++◌, Option, none, some, ◌≡◌, refl, sym,
  ap, ◌∙◌, arith, Bool-cases, inl, inr, subst,
}
use native.Mathlib.Omega.{div_any}
use nbdpsy_mcp.Pipeline.Blocks.{
  Scene, Sentence, Placed, Override, round_to, quantize, block_segs, is_ball, is_closing,
  find_override, is_overridden,
}
use nbdpsy_mcp.Pipeline.Timeline.{
  Block, ceil_ms, guarded, start_of, end_of, place_ball, place_card, card_algo, card_block, block,
  relayout_from, relayout,
}

ceil_ms_le : (n t : ℕ) → t ≤ ceil_ms (suc n) t
unfolding ceil_ms
ceil_ms_le n t = omega (arith, div_any (t + suc n - 1) (suc n))

quantize-quantize : (t : ℕ) → quantize (quantize t) ≡ quantize t
unfolding round_to
quantize-quantize t = ground arith

-- Every sentence starts at least 300 ms behind the end of the one before.
abbrev pub IsAfter : ℕ → Option ℕ → ℕ → Type 0
IsAfter fps none start = Unit
IsAfter fps (some speech_end) start = speech_end + 300 * fps ≤ start

abbrev pub IsSpaced : ℕ → Option ℕ → List Placed → Type 0
IsSpaced fps speech_end [] = Unit
IsSpaced fps speech_end (p ∷ placed) =
    IsAfter fps speech_end p.start × IsSpaced fps (some p.end_) placed

-- The end of the last sentence.
abbrev pub end_after : Option ℕ → List Placed → Option ℕ
end_after speech_end [] = speech_end
end_after speech_end (p ∷ placed) = end_after (some p.end_) placed

IsSpaced-append :
    (fps : ℕ) (speech_end : Option ℕ) (ps qs : List Placed)
    → IsSpaced fps speech_end ps
    → IsSpaced fps (end_after speech_end ps) qs
    → IsSpaced fps speech_end (ps ++ qs)
IsSpaced-append fps speech_end [] qs h k = k
IsSpaced-append fps speech_end (p ∷ ps) qs h k =
    (h.0, IsSpaced-append fps (some p.end_) ps qs h.1 k)

guarded-IsAfter :
    (n algo : ℕ) (speech_end : Option ℕ)
    → IsAfter (suc n) speech_end (start_of (suc n) algo speech_end)
guarded-IsAfter n algo none = tt
guarded-IsAfter n algo (some e) = ground (arith, ceil_ms_le n (guarded (suc n) algo (some e)))

-- What a block is for the sentences before it.
Follows : ℕ → Option ℕ → List Placed × Option ℕ → Type 0
Follows fps speech_end after =
    IsSpaced fps speech_end after.0 × (after.1 ≡ end_after speech_end after.0)

place_ball-Follows :
    (n new_t0 blk_t0 new_t1 : ℕ) (speech_end : Option ℕ) (segs : List Sentence)
    → Follows (suc n) speech_end (place_ball (suc n) new_t0 blk_t0 new_t1 speech_end segs)
unfolding place_ball Follows
place_ball-Follows n new_t0 blk_t0 new_t1 speech_end [] = (tt, refl)
place_ball-Follows n new_t0 blk_t0 new_t1 speech_end (s ∷ segs) =
    let (spaced, last) =
      place_ball-Follows n new_t0 blk_t0 new_t1
        (some (end_of (suc n) (start_of (suc n) ((new_t0 + s.orig_start) - blk_t0) speech_end) s))
        segs in
    ((guarded-IsAfter n ((new_t0 + s.orig_start) - blk_t0) speech_end, spaced), last)

place_card-Follows :
    (n card_gap : ℕ) (overridden : Bool) (new_t0 : ℕ) (prev speech_end : Option ℕ)
    (segs : List Sentence)
    → Follows
        (suc n)
        speech_end
        (place_card (suc n) card_gap overridden new_t0 prev speech_end segs)
unfolding place_card Follows
place_card-Follows n card_gap overridden new_t0 prev speech_end [] = (tt, refl)
place_card-Follows n card_gap overridden new_t0 prev speech_end (s ∷ segs) =
    let algo = card_algo (suc n) card_gap overridden new_t0 prev speech_end s.orig_start in
    let (spaced, last) =
      place_card-Follows n card_gap overridden new_t0 (some s.orig_end)
        (some (end_of (suc n) (start_of (suc n) algo speech_end) s)) segs in
    ((guarded-IsAfter n algo speech_end, spaced), last)

quantize-later : (t d : ℕ) → quantize t ≤ quantize (quantize t + d)
unfolding round_to
quantize-later t d = ground arith

quantize-grid : (t : ℕ) → quantize t % 1000 ≡ 0
unfolding round_to
quantize-grid t = ground arith

-- Blocks join: each starts where the one before it ends, and ends on the grid of the frames, not
-- before its start.
abbrev pub IsJoined : ℕ → List Block → Type 0
IsJoined t0 [] = Unit
IsJoined t0 (b ∷ blocks) =
    (b.new_t0 ≡ t0) × (b.new_t0 ≤ b.new_t1) × (b.new_t1 % 1000 ≡ 0) × IsJoined b.new_t1 blocks

-- The ends of a block that starts at a moment.
IsFramed : ℕ → Block → Type 0
IsFramed cur b = (b.new_t0 ≡ quantize cur) × ((d : ℕ) × (b.new_t1 ≡ quantize (quantize cur + d)))

abbrev pub speech : List Block → List Placed
speech [] = []
speech (b ∷ blocks) = b.placed ++ speech blocks

module _ (n card_gap : ℕ) (overrides : List Override) where
  card_block-Follows :
      (closing : Bool) (override : Option ℕ) (sc : Scene) (segs : List Sentence) (new_t0 : ℕ)
      (speech_end : Option ℕ)
      → let b = card_block (suc n) card_gap closing override sc segs new_t0 speech_end in
        Follows (suc n) speech_end (b.placed, b.speech_end)
  unfolding Follows
  card_block-Follows closing override sc [] new_t0 speech_end = (tt, refl)
  card_block-Follows closing override sc (s ∷ segs) new_t0 speech_end =
      place_card-Follows n card_gap (is_overridden override) new_t0 none speech_end (s ∷ segs)

  block-Follows :
      (sc : Scene) (scenes : List Scene) (segs : List Sentence) (cur : ℕ) (speech_end : Option ℕ)
      → let b = block (suc n) card_gap overrides sc scenes segs cur speech_end in
        Follows (suc n) speech_end (b.placed, b.speech_end)
  unfolding block
  block-Follows sc scenes segs cur speech_end = elim (Bool-cases (is_ball sc.kind)) [
    | inl e ↦ rw e (
        place_ball-Follows n (quantize cur) sc.t0 (quantize (quantize cur + (sc.t1 - sc.t0)))
          speech_end segs)
    | inr e ↦ rw e (
        card_block-Follows (is_closing sc scenes) (find_override sc overrides) sc segs
          (quantize cur) speech_end)
  ]

  card_block-IsFramed :
      (closing : Bool) (override : Option ℕ) (sc : Scene) (segs : List Sentence) (cur : ℕ)
      (speech_end : Option ℕ)
      → IsFramed cur
          (card_block (suc n) card_gap closing override sc segs (quantize cur) speech_end)
  unfolding IsFramed
  card_block-IsFramed closing override sc [] cur speech_end = (refl, (_, refl))
  card_block-IsFramed closing override sc (s ∷ segs) cur speech_end = (refl, (_, refl))

  block-IsFramed :
      (sc : Scene) (scenes : List Scene) (segs : List Sentence) (cur : ℕ) (speech_end : Option ℕ)
      → IsFramed cur (block (suc n) card_gap overrides sc scenes segs cur speech_end)
  unfolding block IsFramed
  block-IsFramed sc scenes segs cur speech_end = elim (Bool-cases (is_ball sc.kind)) [
    | inl e ↦ rw e (refl, (sc.t1 - sc.t0, refl))
    | inr e ↦ rw e (
        card_block-IsFramed (is_closing sc scenes) (find_override sc overrides) sc segs cur
          speech_end)
  ]

  relayout_from-IsSpaced :
      (all : List Scene) (blk : ℕ) (scenes : List Scene) (segments : List Sentence) (cur : ℕ)
      (speech_end : Option ℕ)
      → IsSpaced
          (suc n)
          speech_end
          (speech (relayout_from (suc n) card_gap overrides all blk scenes segments cur speech_end))
  unfolding relayout_from Follows
  relayout_from-IsSpaced all blk [] segments cur speech_end = tt
  relayout_from-IsSpaced all blk (sc ∷ scenes) segments cur speech_end =
      let b =
        block (suc n) card_gap overrides sc scenes (block_segs all blk segments) cur speech_end in
      let (spaced, last) = block-Follows sc scenes (block_segs all blk segments) cur speech_end in
      IsSpaced-append (suc n) speech_end b.placed _ spaced (
        subst
          (λ e. IsSpaced (suc n) e (
            speech (
              relayout_from (suc n) card_gap overrides all (blk + 1) scenes segments b.new_t1
                b.speech_end)))
          last (relayout_from-IsSpaced all (blk + 1) scenes segments b.new_t1 b.speech_end))

  relayout_from-IsJoined :
      (all : List Scene) (blk : ℕ) (scenes : List Scene) (segments : List Sentence) (cur : ℕ)
      (speech_end : Option ℕ)
      → IsJoined
          (quantize cur)
          (relayout_from (suc n) card_gap overrides all blk scenes segments cur speech_end)
  unfolding relayout_from IsFramed
  relayout_from-IsJoined all blk [] segments cur speech_end = tt
  relayout_from-IsJoined all blk (sc ∷ scenes) segments cur speech_end =
      let segs = block_segs all blk segments in
      let b = block (suc n) card_gap overrides sc scenes segs cur speech_end in
      let (starts, (d, ends)) = block-IsFramed sc scenes segs cur speech_end in
      (
        starts,
        subst (λ t. t ≤ b.new_t1) (sym starts)
            (subst (λ t. quantize cur ≤ t) (sym ends) (quantize-later cur d)),
        ap (λ t. t % 1000) ends ∙ quantize-grid (quantize cur + d),
        subst
            (λ t. IsJoined t (
              relayout_from (suc n) card_gap overrides all (blk + 1) scenes segments b.new_t1
                b.speech_end))
            (ap quantize ends ∙ quantize-quantize (quantize cur + d) ∙ sym ends)
            (relayout_from-IsJoined all (blk + 1) scenes segments b.new_t1 b.speech_end),
      )

  -- The layout of a whole film.
  pub relayout-IsSpaced :
      (origin : ℕ) (scenes : List Scene) (segments : List Sentence)
      → IsSpaced (suc n) none (speech (relayout (suc n) card_gap overrides origin scenes segments))
        × IsJoined (quantize origin) (relayout (suc n) card_gap overrides origin scenes segments)
  unfolding relayout
  relayout-IsSpaced origin scenes segments = (
    relayout_from-IsSpaced scenes 0 scenes segments origin none,
    relayout_from-IsJoined scenes 0 scenes segments origin none,
  )
