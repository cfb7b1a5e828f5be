-- ===== src/Pipeline/Timeline.antt =====
-- app/video/pipeline/remake/timeline.py: relayout places the sentences of a remake, and its blocks,
-- on a new axis. A moment is a number of ticks of 1/(1000 fps) s, exactly, where the source has
-- floats: a frame has 1000 ticks and a millisecond has fps. Both axes count from an origin that is a
-- whole number of seconds before the start of the film, and as far before it as the last scene is
-- behind it, so that no difference that the source takes is negative.
use nbdpsy_mcp.Prelude.{
  ℕ, ◌+◌, ◌-◌, ◌*◌, ◌/◌, Bool, false, List, [], ◌∷◌, Option, none, some, if◌then◌else◌, ltb, leb,
  length,
}
use nbdpsy_mcp.Pipeline.Blocks.{
  Scene, Sentence, Placed, Override, is_ball, larger, is_closing, round_to, quantize, block_segs,
  override_of, or_zero, is_overridden,
}

-- A block on the new axis, with its sentences, and where the last of them ends.
pub record Block : Type 0 where
  pub new_t0 : ℕ
  pub new_t1 : ℕ
  pub placed : List Placed
  pub speech_end : Option ℕ

module _ (fps : ℕ) where
  abbrev pub millis : ℕ → ℕ
  millis n = n * fps

  abbrev pub lead : ℕ
  lead = millis 500

  abbrev pub tail : ℕ
  tail = millis 1500

  abbrev pub functional_pause_min : ℕ
  functional_pause_min = millis 8000

  abbrev pub min_card : ℕ
  min_card = millis 4000

  abbrev pub min_closing_card : ℕ
  min_closing_card = millis 8000

  abbrev pub min_speech_gap : ℕ
  min_speech_gap = millis 300

  unfoldable pub ceil_ms : ℕ → ℕ
  ceil_ms t = fps * ((t + fps - 1) / fps)

  -- Never closer to the sentence before than the gap.
  abbrev pub guarded : ℕ → Option ℕ → ℕ
  guarded algo none = algo
  guarded algo (some speech_end) = larger algo (speech_end + min_speech_gap)

  abbrev pub start_of : ℕ → Option ℕ → ℕ
  start_of algo speech_end = ceil_ms (guarded algo speech_end)

  abbrev pub end_of : ℕ → Sentence → ℕ
  end_of start s = round_to fps (start + s.duration)

  abbrev pub put : ℕ → Bool → Sentence → Placed
  put start warned s = record { sid = s.sid; start = start; end_ = end_of start s; warned = warned }

  -- In a block with a ball a sentence keeps its distance from the start of the block.
  unfoldable pub place_ball : ℕ → ℕ → ℕ → Option ℕ → List Sentence → List Placed × Option ℕ
  place_ball new_t0 blk_t0 new_t1 speech_end [] = ([], speech_end)
  place_ball new_t0 blk_t0 new_t1 speech_end (s ∷ segs) =
      let start = start_of ((new_t0 + s.orig_start) - blk_t0) speech_end in
      let rest = place_ball new_t0 blk_t0 new_t1 (some (end_of start s)) segs in
      (put start (ltb new_t1 (start + s.duration)) s ∷ rest.0, rest.1)

  abbrev pub empty_dur : Bool → ℕ → Option ℕ → ℕ
  empty_dur closing orig_dur (some d) = d
  empty_dur closing orig_dur none = if closing then larger min_closing_card orig_dur else orig_dur

  abbrev pub card_dur : Bool → ℕ → ℕ → Option ℕ → ℕ
  card_dur closing new_t0 speech_end (some d) = d
  card_dur closing new_t0 speech_end none =
      larger (if closing then min_closing_card else min_card) ((speech_end + tail) - new_t0)

  abbrev pub total : List ℕ → ℕ
  total [] = 0
  total (d ∷ durations) = d + total durations

  -- What a target for a card is checked against.
  unfoldable pub min_card_duration : List ℕ → ℕ
  min_card_duration [] = lead + tail
  min_card_duration (d ∷ durations) =
      lead + total (d ∷ durations) + length durations * millis 1000 + tail

  abbrev pub ball_block : Scene → List Sentence → ℕ → Option ℕ → Block
  ball_block sc segs new_t0 speech_end =
      let new_t1 = quantize (new_t0 + (sc.t1 - sc.t0)) in
      let (placed, last) = place_ball new_t0 sc.t0 new_t1 speech_end segs in
      record { new_t0 = new_t0; new_t1 = new_t1; placed = placed; speech_end = last }

module _ (fps card_gap : ℕ) where
  abbrev pub seg_gap : Bool → ℕ → ℕ → ℕ
  seg_gap overridden prev_orig_end orig_start =
      if overridden
      then card_gap
      else if leb (functional_pause_min fps) (orig_start - prev_orig_end)
      then orig_start - prev_orig_end
      else card_gap

  -- Behind the first sentence of a card there is an end of speech.
  abbrev pub card_algo : Bool → ℕ → Option ℕ → Option ℕ → ℕ → ℕ
  card_algo overridden new_t0 none speech_end orig_start = new_t0 + lead fps
  card_algo overridden new_t0 (some prev_orig_end) none orig_start = new_t0 + lead fps
  card_algo overridden new_t0 (some prev_orig_end) (some speech_end) orig_start =
      speech_end + seg_gap overridden prev_orig_end orig_start

  unfoldable pub place_card :
      Bool → ℕ → Option ℕ → Option ℕ → List Sentence → List Placed × Option ℕ
  place_card overridden new_t0 prev speech_end [] = ([], speech_end)
  place_card overridden new_t0 prev speech_end (s ∷ segs) =
      let start =
        start_of fps (card_algo overridden new_t0 prev speech_end s.orig_start) speech_end in
      let rest = place_card overridden new_t0 (some s.orig_end) (some (end_of fps start s)) segs in
      (put fps start false s ∷ rest.0, rest.1)

  abbrev pub card_block : Bool → Option ℕ → Scene → List Sentence → ℕ → Option ℕ → Block
  card_block closing override sc [] new_t0 speech_end = record {
    new_t0 = new_t0;
    new_t1 = quantize (new_t0 + empty_dur fps closing (sc.t1 - sc.t0) override);
    placed = [];
    speech_end = speech_end;
  }
  card_block closing override sc (s ∷ segs) new_t0 speech_end =
      let (placed, last) = place_card (is_overridden override) new_t0 none speech_end (s ∷ segs) in
      record {
        new_t0 = new_t0;
        new_t1 = quantize (new_t0 + card_dur fps closing new_t0 (or_zero last) override);
        placed = placed;
        speech_end = last;
      }

module _ (fps card_gap : ℕ) (overrides : List Override) where
  -- One turn of the loop, for a scene with the scenes behind it.
  unfoldable pub block : Scene → List Scene → List Sentence → ℕ → Option ℕ → Block
  block sc scenes segs cur speech_end =
      if is_ball sc.kind
      then ball_block fps sc segs (quantize cur) speech_end
      else card_block fps card_gap (is_closing sc scenes) (override_of sc overrides) sc segs
          (quantize cur) speech_end

  unfoldable pub relayout_from :
      List Scene → ℕ → List Scene → List Sentence → ℕ → Option ℕ → List Block
  relayout_from all blk [] segments cur speech_end = []
  relayout_from all blk (sc ∷ scenes) segments cur speech_end =
      let b = block sc scenes (block_segs all blk segments) cur speech_end in
      b ∷ relayout_from all (blk + 1) scenes segments b.new_t1 b.speech_end

  -- The blocks in their order; `origin` is the start of the film.
  unfoldable pub relayout : ℕ → List Scene → List Sentence → List Block
  relayout origin scenes segments = relayout_from scenes 0 scenes segments origin none
