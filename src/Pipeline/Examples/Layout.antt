-- ===== src/Pipeline/Examples/Layout.antt =====
-- A film of 25 frames a second: a ball with two sentences, the first too long, and a card with one.
use nbdpsy_mcp.Prelude.{ℕ, ◌+◌, ◌*◌, false, List, [], ◌∷◌, none, some, ◌≡◌, refl, map, All}
use nbdpsy_mcp.Pipeline.Blocks.{
  Scene, ball_exercise, card, Sentence, Override, assign_block, block_segs, round_to, quantize,
}
use nbdpsy_mcp.Pipeline.Timeline.{
  min_card_duration, ceil_ms, place_ball, place_card, block, relayout_from, relayout,
}
use nbdpsy_mcp.Pipeline.Lasting.{IsTimed}
use nbdpsy_mcp.Pipeline.Speech.{IsSpaced, IsJoined, speech}
use nbdpsy_mcp.Pipeline.Once.{places, spoken, relayout-places}

-- Ticks of 1/25000 s; the origin is 40 s before the film.
abbrev at_ms : ℕ → ℕ
at_ms n = 1000000 + 25 * n

abbrev scenes : List Scene
scenes =
    record { kind = ball_exercise; t0 = at_ms 0; t1 = at_ms 10000 }
    ∷ record { kind = card; t0 = at_ms 10000; t1 = at_ms 13000 }
    ∷ []

abbrev sentence : ℕ → ℕ → ℕ → Sentence
sentence sid start duration = record {
  sid = sid;
  orig_start = at_ms start;
  orig_end = at_ms (start + 1000);
  duration = 25 * duration;
  no_dub = false;
}

abbrev segments : List Sentence
segments = sentence 0 1000 4000 ∷ sentence 1 3000 2000 ∷ sentence 2 10500 1000 ∷ []

-- The second sentence is pushed back behind the first; the card starts with the ball's end.
placed :
    map (λ p. p.start) (speech (relayout 25 25000 [] (at_ms 0) scenes segments))
    ≡ at_ms 1000 ∷ at_ms 5300 ∷ at_ms 10500 ∷ []
unfolding relayout relayout_from block block_segs assign_block round_to ceil_ms place_ball
    place_card
placed = refl

blocks :
    map (λ b. b.new_t1) (relayout 25 25000 [] (at_ms 0) scenes segments)
    ≡ at_ms 10000 ∷ at_ms 18000 ∷ []
unfolding relayout relayout_from block block_segs assign_block round_to ceil_ms place_ball
    place_card
blocks = refl

abbrev short_card : List Scene
short_card = record { kind = card; t0 = at_ms 0; t1 = at_ms 3000 } ∷ []

abbrev two_sentences : List Sentence
two_sentences = sentence 0 100 2000 ∷ sentence 1 1200 2000 ∷ []

-- The least target for a card with two sentences of 2 s, with the usual pause of 1 s.
least : min_card_duration 25 (25 * 2000 ∷ 25 * 2000 ∷ []) ≡ 25 * 7000
unfolding min_card_duration
least = refl

abbrev target : List Override
target = record { src_t0 = at_ms 0; src_t1 = at_ms 3000; new_dur = 25 * 7000 } ∷ []

-- With a pause of 6 s the card ends before the last sentence does.
short_card_end :
    map (λ b. b.new_t1) (relayout 25 (25 * 6000) target (at_ms 0) short_card two_sentences)
    ≡ at_ms 7000 ∷ []
unfolding relayout relayout_from block block_segs assign_block round_to ceil_ms place_ball
    place_card
short_card_end = refl

overrun :
    map (λ b. b.speech_end) (relayout 25 (25 * 6000) target (at_ms 0) short_card two_sentences)
    ≡ some (at_ms 10500) ∷ []
unfolding relayout relayout_from block block_segs assign_block round_to ceil_ms place_ball
    place_card
overrun = refl

relayout-places_example :
    let blocks = relayout 25 25000 [] (at_ms 0) scenes segments in
    (places 1 (speech blocks) ≡ spoken 1 segments)
    × All (IsTimed 25 segments) (speech blocks)
    × IsSpaced 25 none (speech blocks)
    × IsJoined (quantize (at_ms 0)) blocks
relayout-places_example =
    relayout-places 24 25000 [] (at_ms 0)
      (record { kind = ball_exercise; t0 = at_ms 0; t1 = at_ms 10000 })
      (record { kind = card; t0 = at_ms 10000; t1 = at_ms 13000 } ∷ []) segments 1
