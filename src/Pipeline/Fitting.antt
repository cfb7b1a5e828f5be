-- ===== src/Pipeline/Fitting.antt =====
-- A target for the duration of a card that is at least the least one
-- (app/video/pipeline/remake/timeline.py, and the check in app/video/pipeline/remake/revision.py).
use nbdpsy_mcp.Prelude.{
  ℕ, suc, ◌+◌, ◌-◌, ◌*◌, ◌≤◌, Bool, true, List, [], ◌∷◌, Option, none, some, ◌≡◌, refl, ap, map,
  arith, length,
}
use native.Mathlib.Nat.{mul-le-mul_right}
use native.Mathlib.Omega.{div_any}
use nbdpsy_mcp.Pipeline.Blocks.{Scene, Sentence, round_to, quantize}
use nbdpsy_mcp.Pipeline.Timeline.{
  min_card_duration, total, ceil_ms, guarded, start_of, end_of, place_card, card_block,
}

ceil_ms_up : (n t : ℕ) → ceil_ms (suc n) t ≤ t + n
unfolding ceil_ms
ceil_ms_up n t = omega (arith, div_any (t + suc n - 1) (suc n))

round_to_up : (n t : ℕ) → round_to (suc n) t ≤ t + suc n
unfolding round_to
round_to_up n t = ground (arith, div_any t (suc n))

quantize_down : (t : ℕ) → t ≤ quantize t + 500
unfolding round_to
quantize_down t = ground arith

-- Where the sentences of a card are spoken one behind the other, at the latest.
abbrev allowance : ℕ → List Sentence → ℕ
allowance n [] = 0
allowance n (s ∷ segs) = s.duration + 1000 * suc n + 2 * suc n + allowance n segs

allowance-total :
    (n : ℕ) (segs : List Sentence)
    → allowance n segs ≡ total (suc n) (map (λ s. s.duration) segs) + 1002 * (length segs * suc n)
allowance-total n [] = omega arith
allowance-total n (s ∷ segs) = omega (arith, allowance-total n segs)

length_times_le :
    (n : ℕ) (segs : List Sentence) → length segs ≤ 498 → length segs * suc n ≤ 498 * suc n
length_times_le n segs h = mul-le-mul_right (suc n) h

guarded_up :
    (n card_gap last : ℕ)
    → card_gap ≤ 1000 * suc n
    → guarded (suc n) (last + card_gap) (some last) ≤ last + 1000 * suc n
guarded_up n card_gap last h = ground arith

end_of_up :
    (n algo last : ℕ) (s : Sentence)
    → end_of (suc n) (start_of (suc n) algo (some last)) s
      ≤ guarded (suc n) algo (some last) + s.duration + 2 * suc n
end_of_up n algo last s = omega (
  arith,
  ceil_ms_up n (guarded (suc n) algo (some last)),
  round_to_up n (start_of (suc n) algo (some last) + s.duration),
)

-- The sentence before a card, if there is one, ends 300 ms before the first of the card is to start.
abbrev pub IsClear : ℕ → ℕ → Option ℕ → Type 0
IsClear fps new_t0 none = Unit
IsClear fps new_t0 (some last) = last + 300 * fps ≤ new_t0 + 500 * fps

first_end_up :
    (n new_t0 : ℕ) (speech_end : Option ℕ) (s : Sentence)
    → IsClear (suc n) new_t0 speech_end
    → end_of (suc n) (start_of (suc n) (new_t0 + 500 * suc n) speech_end) s
      ≤ new_t0 + 500 * suc n + s.duration + 2 * suc n
first_end_up n new_t0 none s h = omega (
  arith,
  ceil_ms_up n (new_t0 + 500 * suc n),
  round_to_up n (start_of (suc n) (new_t0 + 500 * suc n) none + s.duration),
)
first_end_up n new_t0 (some last) s h = ground (arith, end_of_up n (new_t0 + 500 * suc n) last s)

module _ (n card_gap : ℕ) (short : card_gap ≤ 1000 * suc n) (new_t0 : ℕ) where
  place_card_up :
      (prev last : ℕ) (segs : List Sentence)
      → (e : ℕ) × ((place_card (suc n) card_gap true new_t0 (some prev) (some last) segs).1
          ≡ some e)
        × (e ≤ last + allowance n segs)
  unfolding place_card
  place_card_up prev last [] = (last, refl, omega arith)
  place_card_up prev last (s ∷ segs) =
      let stop = end_of (suc n) (start_of (suc n) (last + card_gap) (some last)) s in
      let (e, he, le) = place_card_up s.orig_end stop segs in
      (
        e,
        he,
        omega (arith, le, end_of_up n (last + card_gap) last s, guarded_up n card_gap last short),
      )

length-map : (f : Sentence → ℕ) (segs : List Sentence) → length (map f segs) ≡ length segs
length-map f [] = refl
length-map f (s ∷ segs) = omega (arith, length-map f segs)

-- The speech of a card with a target ends before the card does, where the target is at least the least
-- duration for the card's sentences, the pause between sentences is at most 1 s, at most 499 sentences
-- are spoken, and a sentence before the card ends 300 ms before the first of them is to start.
pub card_block-fits :
    (n card_gap : ℕ) (closing : Bool) (d : ℕ) (sc : Scene) (s : Sentence) (segs : List Sentence)
    (new_t0 : ℕ) (speech_end : Option ℕ)
    → card_gap ≤ 1000 * suc n
    → min_card_duration (suc n) (map (λ x. x.duration) (s ∷ segs)) ≤ d
    → length segs ≤ 498
    → IsClear (suc n) new_t0 speech_end
    → let b = card_block (suc n) card_gap closing (some d) sc (s ∷ segs) new_t0 speech_end in
      (e : ℕ) × (b.speech_end ≡ some e) × (e ≤ b.new_t1)
unfolding place_card min_card_duration
card_block-fits n card_gap closing d sc s segs new_t0 speech_end short fits few before =
    let stop = end_of (suc n) (start_of (suc n) (new_t0 + 500 * suc n) speech_end) s in
    let (e, he, le) = place_card_up n card_gap short new_t0 s.orig_end stop segs in
    let bound : e ≤ quantize (new_t0 + d) = omega (
      arith,
      le,
      fits,
      length_times_le n segs few,
      allowance-total n segs,
      ap (λ k. k * suc n) (length-map (λ x. x.duration) segs),
      first_end_up n new_t0 speech_end s before,
      quantize_down (new_t0 + d),
    ) in
    (e, he, bound)
