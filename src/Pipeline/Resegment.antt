-- ===== src/Pipeline/Resegment.antt =====
-- app/video/pipeline/resegment.py: fragments of subtitles are merged to sentences in batches, by a
-- model whose answer is checked. A moment is a number of milliseconds. The answer of the model for a
-- batch, already parsed, is an argument, as is whether the deadline has passed at a batch.
use mathlib.Core.Option
use nbdpsy_mcp.Prelude.{
  ℕ, zero, suc, ◌+◌, ◌-◌, ◌*◌, Bool, true, false, not, ◌&&◌, ◌||◌, List, [], ◌∷◌, ◌++◌, Option,
  none, some, ◌==◌, if◌then◌else◌, ltb, leb, length, take, drop, select,
}

-- A text as its characters.
pub record Segment : Type 0 where
  pub start : ℕ
  pub end_ : ℕ
  pub text : List ℕ

abbrev pub Segments : Type 0
Segments = List Segment

abbrev pub batch_size : ℕ
batch_size = 50

abbrev pub overlap : ℕ
overlap = 5

-- What `\s` matches: the white space of Unicode.
abbrev pub is_space : ℕ → Bool
is_space c =
    (leb 9 c && leb c 13)
    || (leb 28 c && leb c 32)
    || c == 133
    || c == 160
    || c == 5760
    || (leb 8192 c && leb c 8202)
    || c == 8232
    || c == 8233
    || c == 8239
    || c == 8287
    || c == 12288

abbrev pub last_visible : Option ℕ → List ℕ → Option ℕ
last_visible last [] = last
last_visible last (c ∷ text) = last_visible (if is_space c then last else some c) text

-- `text.rstrip()[-1:] in ".!?"`, which the empty text passes.
abbrev pub is_sentence_end : Option ℕ → Bool
is_sentence_end none = true
is_sentence_end (some c) = c == 46 || (c == 33 || c == 63)

abbrev pub total_length : Segments → ℕ
total_length [] = 0
total_length (s ∷ segments) = length s.text + total_length segments

abbrev pub sentence_ends : Segments → Segments
sentence_ends segments = select (λ s. is_sentence_end (last_visible none s.text)) segments

-- The texts have less than 40 characters on average, or less than half of them end a sentence.
unfoldable pub needs_resegment : Segments → Bool
needs_resegment [] = false
needs_resegment (s ∷ segments) =
    ltb (total_length (s ∷ segments)) (40 * length (s ∷ segments))
    || ltb (2 * length (sentence_ends (s ∷ segments))) (length (s ∷ segments))

-- The characters of the segments that are no white space.
unfoldable pub count_chars : Segments → ℕ
count_chars [] = 0
count_chars (s ∷ segments) = length (select (λ c. not (is_space c)) s.text) + count_chars segments

-- No segment starts before the one in front of it ends.
unfoldable pub in_order : ℕ → Segments → Bool
in_order prev_end [] = true
in_order prev_end (s ∷ segments) =
    let rest = in_order s.end_ segments in if ltb s.start prev_end then false else rest

abbrev pub is_empty : Segments → Bool
is_empty [] = true
is_empty (s ∷ segments) = false

-- 95 % of the characters are left; `prev_end` starts at -1, before every moment.
unfoldable pub validate_merge : Segments → Segments → Bool
validate_merge original merged =
    not (is_empty merged)
    && (in_order 0 merged
        && (ltb 0 (count_chars original)
            && leb (95 * count_chars original) (100 * count_chars merged)))

-- What the call of the model gave: an exception, or the sentences that were read from its text.
pub data Reply : Type 0 where
  failed : Reply
  answered : Segments → Reply

abbrev pub first_start : Segments → ℕ
first_start [] = 0
first_start (s ∷ segments) = s.start

-- Sentences of the overlap are dropped.
abbrev pub past_floor : Segments → Segments → Segments
past_floor pure_new merged_all = select (λ m. ltb (first_start pure_new) m.end_) merged_all

unfoldable pub merge_batch : Segments → Reply → Segments
merge_batch pure_new failed = pure_new
merge_batch pure_new (answered merged_all) =
    let merged = past_floor pure_new merged_all in
    if validate_merge pure_new merged then merged else pure_new

-- One round at `new_start`: the batch with its overlap goes to the model.
abbrev pub batch_at : ℕ → Segments → Segments
batch_at new_start segments = drop (new_start - overlap) (take (new_start + batch_size) segments)

abbrev pub pure_at : ℕ → Segments → Segments
pure_at new_start segments = take batch_size (drop new_start segments)

module _ (expired : ℕ → Bool) (llm_chat : Segments → Reply) where
  abbrev pub round : ℕ → Segments → Segments
  round new_start segments =
      merge_batch (pure_at new_start segments) (llm_chat (batch_at new_start segments))

  -- The loop from `new_start` on; `none` where the fuel runs out.
  unfoldable pub resegment_from : ℕ → ℕ → Segments → Option Segments
  resegment_from zero new_start segments = if ltb new_start (length segments) then none else some []
  resegment_from (suc fuel) new_start segments =
      let more =
        Option.map (λ out. round new_start segments ++ out)
          (resegment_from fuel (new_start + batch_size) segments) in
      if ltb new_start (length segments)
      then if expired new_start then some (drop new_start segments) else more
      else some []

  unfoldable pub resegment : ℕ → Segments → Option Segments
  resegment fuel segments = resegment_from fuel 0 segments
