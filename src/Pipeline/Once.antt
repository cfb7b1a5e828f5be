-- ===== src/Pipeline/Once.antt =====
-- The places of a remake against the sentences that are to be spoken (relayout in
-- app/video/pipeline/remake/timeline.py).
use nbdpsy_mcp.Prelude.{
  ℕ, suc, ◌+◌, ◌-◌, ◌<◌, Bool, true, false, not, List, [], ◌∷◌, ◌++◌, Option, none, some, ◌≡◌, refl,
  sym, ap, ◌∙◌, arith, ◌==◌, ◌&&◌, if◌then◌else◌, ltb, leb, Bool-cases, inl, inr, length, All,
}
use nbdpsy_mcp.Pipeline.Blocks.{
  Scene, Sentence, Placed, Override, dist, first_inside, nearest, or_nearest, assign_block,
  insert_sentence, block_segs, is_ball, is_closing, find_override, is_overridden, quantize,
}
use nbdpsy_mcp.Pipeline.Timeline.{
  place_ball, place_card, card_block, block, relayout_from, relayout, start_of, end_of, card_algo,
}
use nbdpsy_mcp.Pipeline.Sums.{sum, sum-add, sum-one, sum-zero}
use nbdpsy_mcp.Pipeline.Lasting.{IsTimed, relayout-IsTimed}
use nbdpsy_mcp.Pipeline.Speech.{speech, IsSpaced, IsJoined, relayout-IsSpaced}

abbrev one_if : Bool → ℕ
one_if true = 1
one_if false = 0

-- How many places the sentence k has.
abbrev pub places : ℕ → List Placed → ℕ
places k [] = 0
places k (p ∷ placed) = one_if (p.sid == k) + places k placed

abbrev sentences : ℕ → List Sentence → ℕ
sentences k [] = 0
sentences k (s ∷ segs) = one_if (s.sid == k) + sentences k segs

-- How many sentences k are to be spoken.
abbrev pub spoken : ℕ → List Sentence → ℕ
spoken k [] = 0
spoken k (s ∷ segs) = one_if (not s.no_dub && (s.sid == k)) + spoken k segs

places-append : (k : ℕ) (ps qs : List Placed) → places k (ps ++ qs) ≡ places k ps + places k qs
places-append k [] qs = omega arith
places-append k (p ∷ ps) qs = omega (arith, places-append k ps qs)

sentences-insert_sentence :
    (k : ℕ) (s : Sentence) (xs : List Sentence)
    → sentences k (insert_sentence s xs) ≡ one_if (s.sid == k) + sentences k xs
sentences-insert_sentence k s [] = refl
sentences-insert_sentence k s (x ∷ xs) = elim (Bool-cases (leb s.orig_start x.orig_start)) [
  | inl e ↦ rw e refl
  | inr e ↦ rw e (omega (arith, sentences-insert_sentence k s xs))
]

-- A scene is found in the list.
first_inside-lt :
    (t idx : ℕ) (scenes : List Scene) (i : ℕ)
    → first_inside t idx scenes ≡ some i
    → i < idx + length scenes
first_inside-lt t idx [] i e = cc
first_inside-lt t idx (sc ∷ scenes) i e = ground (arith, first_inside-lt t (idx + 1) scenes i)

nearest-lt :
    (t idx best d : ℕ) (scenes : List Scene)
    → best < idx
    → nearest t idx best d scenes < idx + length scenes
nearest-lt t idx best d [] h = omega (arith, h)
nearest-lt t idx best d (sc ∷ scenes) h = elim (Bool-cases (ltb (dist sc t) d)) [
  | inl e ↦ rw e (omega (arith, nearest-lt t (idx + 1) idx (dist sc t) scenes (omega arith)))
  | inr e ↦ rw e (omega (arith, nearest-lt t (idx + 1) best d scenes (omega (arith, h))))
]

or_nearest-lt :
    (o : Option ℕ) (t : ℕ) (sc : Scene) (scenes : List Scene)
    → o ≡ first_inside t 0 (sc ∷ scenes)
    → or_nearest o t (sc ∷ scenes) < length (sc ∷ scenes)
or_nearest-lt (some i) t sc scenes e = omega (arith, first_inside-lt t 0 (sc ∷ scenes) i (sym e))
or_nearest-lt none t sc scenes e = omega (arith, nearest-lt t 1 0 (dist sc t) scenes (omega arith))

assign_block-lt :
    (t : ℕ) (sc : Scene) (scenes : List Scene) → assign_block t (sc ∷ scenes) < length (sc ∷ scenes)
unfolding assign_block
assign_block-lt t sc scenes = or_nearest-lt (first_inside t 0 (sc ∷ scenes)) t sc scenes refl

abbrev mark : ℕ → Sentence → ℕ
mark k s = one_if (not s.no_dub && (s.sid == k))

sentences-branch :
    (k : ℕ) (silent here : Bool) (s : Sentence) (rest : List Sentence)
    → sentences k (if not silent && here then insert_sentence s rest else rest)
      ≡ (if here then one_if (not silent && (s.sid == k)) else 0) + sentences k rest
sentences-branch k true true s rest = omega arith
sentences-branch k true false s rest = omega arith
sentences-branch k false true s rest = sentences-insert_sentence k s rest
sentences-branch k false false s rest = omega arith

-- A sentence is in its block and in no other.
sentences-block_segs :
    (k : ℕ) (all : List Scene) (blk : ℕ) (s : Sentence) (segs : List Sentence)
    → sentences k (block_segs all blk (s ∷ segs))
      ≡ (if assign_block s.orig_start all == blk then mark k s else 0)
        + sentences k (block_segs all blk segs)
unfolding block_segs
sentences-block_segs k all blk s segs =
    sentences-branch k s.no_dub (assign_block s.orig_start all == blk) s (block_segs all blk segs)

sum-sentences :
    (k : ℕ) (sc : Scene) (scenes : List Scene) (segs : List Sentence)
    → sum (λ b. sentences k (block_segs (sc ∷ scenes) b segs)) 0 (length (sc ∷ scenes))
      ≡ spoken k segs
unfolding block_segs
sum-sentences k sc scenes [] = sum-zero 0 (length (sc ∷ scenes))
sum-sentences k sc scenes (s ∷ segs) =
    let all = sc ∷ scenes in
    let mine = assign_block s.orig_start all in
    let rest : ℕ → ℕ = λ b. sentences k (block_segs all b segs) in
    sum-add (λ b. sentences k (block_segs all b (s ∷ segs)))
      (λ b. if mine == b then mark k s else 0) rest 0 (length all)
      (λ b. sentences-block_segs k all b s segs)
    ∙ omega (
      arith,
      sum-one mine (mark k s) 0 (length all) (omega arith)
          (omega (arith, assign_block-lt s.orig_start sc scenes)),
      sum-sentences k sc scenes segs,
    )

places-place_ball :
    (k fps new_t0 blk_t0 new_t1 : ℕ) (speech_end : Option ℕ) (segs : List Sentence)
    → places k (place_ball fps new_t0 blk_t0 new_t1 speech_end segs).0 ≡ sentences k segs
unfolding place_ball
places-place_ball k fps new_t0 blk_t0 new_t1 speech_end [] = refl
places-place_ball k fps new_t0 blk_t0 new_t1 speech_end (s ∷ segs) =
    ap (λ m. one_if (s.sid == k) + m)
      (places-place_ball k fps new_t0 blk_t0 new_t1
        (some (end_of fps (start_of fps ((new_t0 + s.orig_start) - blk_t0) speech_end) s)) segs)

places-place_card :
    (k fps card_gap : ℕ) (overridden : Bool) (new_t0 : ℕ) (prev speech_end : Option ℕ)
    (segs : List Sentence)
    → places k (place_card fps card_gap overridden new_t0 prev speech_end segs).0 ≡ sentences k segs
unfolding place_card
places-place_card k fps card_gap overridden new_t0 prev speech_end [] = refl
places-place_card k fps card_gap overridden new_t0 prev speech_end (s ∷ segs) =
    let algo = card_algo fps card_gap overridden new_t0 prev speech_end s.orig_start in
    ap (λ m. one_if (s.sid == k) + m)
      (places-place_card k fps card_gap overridden new_t0 (some s.orig_end)
        (some (end_of fps (start_of fps algo speech_end) s)) segs)

module _ (fps card_gap : ℕ) (overrides : List Override) (k : ℕ) where
  places-card_block :
      (closing : Bool) (override : Option ℕ) (sc : Scene) (segs : List Sentence) (new_t0 : ℕ)
      (speech_end : Option ℕ)
      → places k (card_block fps card_gap closing override sc segs new_t0 speech_end).placed
        ≡ sentences k segs
  places-card_block closing override sc [] new_t0 speech_end = refl
  places-card_block closing override sc (s ∷ segs) new_t0 speech_end =
      places-place_card k fps card_gap (is_overridden override) new_t0 none speech_end (s ∷ segs)

  places-block :
      (sc : Scene) (scenes : List Scene) (segs : List Sentence) (cur : ℕ) (speech_end : Option ℕ)
      → places k (block fps card_gap overrides sc scenes segs cur speech_end).placed
        ≡ sentences k segs
  unfolding block
  places-block sc scenes segs cur speech_end = elim (Bool-cases (is_ball sc.kind)) [
    | inl e ↦ rw e (
        places-place_ball k fps (quantize cur) sc.t0 (quantize (quantize cur + (sc.t1 - sc.t0)))
          speech_end segs)
    | inr e ↦ rw e (
        places-card_block (is_closing sc scenes) (find_override sc overrides) sc segs (quantize cur)
          speech_end)
  ]

  places-relayout_from :
      (all : List Scene) (blk : ℕ) (scenes : List Scene) (segments : List Sentence) (cur : ℕ)
      (speech_end : Option ℕ)
      → places k
          (speech (relayout_from fps card_gap overrides all blk scenes segments cur speech_end))
        ≡ sum (λ b. sentences k (block_segs all b segments)) blk (length scenes)
  unfolding relayout_from
  places-relayout_from all blk [] segments cur speech_end = refl
  places-relayout_from all blk (sc ∷ scenes) segments cur speech_end =
      let segs = block_segs all blk segments in
      let b = block fps card_gap overrides sc scenes segs cur speech_end in
      places-append k b.placed _
      ∙ omega (
        arith,
        places-block sc scenes segs cur speech_end,
        places-relayout_from all (blk + 1) scenes segments b.new_t1 b.speech_end,
      )

  -- As many places as there are sentences to speak.
  places-relayout :
      (origin : ℕ) (sc : Scene) (scenes : List Scene) (segments : List Sentence)
      → places k (speech (relayout fps card_gap overrides origin (sc ∷ scenes) segments))
        ≡ spoken k segments
  unfolding relayout
  places-relayout origin sc scenes segments =
      places-relayout_from (sc ∷ scenes) 0 (sc ∷ scenes) segments origin none
      ∙ sum-sentences k sc scenes segments

-- In a film with a scene and a rate of frames that is not 0, with any pause and any targets for cards:
-- every sentence that is to be spoken has one place for each time that it is in the list, and no
-- other has any; each place lasts as long as its sentence, to half a millisecond, and starts at least
-- 300 ms behind the end of the place before it, so that no two are spoken at once; and
-- the blocks join: the first starts at the frame of the origin, each other one where the one before
-- it ends, and each ends at a frame, not before its start.
pub relayout-places :
    (n card_gap : ℕ) (overrides : List Override) (origin : ℕ) (sc : Scene) (scenes : List Scene)
    (segments : List Sentence) (k : ℕ)
    → let blocks = relayout (suc n) card_gap overrides origin (sc ∷ scenes) segments in
      (places k (speech blocks) ≡ spoken k segments)
      × All (IsTimed (suc n) segments) (speech blocks)
      × IsSpaced (suc n) none (speech blocks)
      × IsJoined (quantize origin) blocks
relayout-places n card_gap overrides origin sc scenes segments k =
    let (spaced, joined) = relayout-IsSpaced n card_gap overrides origin (sc ∷ scenes) segments in
    (
      places-relayout (suc n) card_gap overrides k origin sc scenes segments,
      relayout-IsTimed n card_gap overrides origin (sc ∷ scenes) segments,
      spaced,
      joined,
    )
