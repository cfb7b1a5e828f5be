-- ===== src/Pipeline/Blocks.antt =====
-- The scenes and sentences of app/video/pipeline/remake/timeline.py, and which sentence belongs to
-- which scene. The moments are those of `Timeline`.
use nbdpsy_mcp.Prelude.{
  ℕ, ◌+◌, ◌-◌, ◌*◌, ◌/◌, ◌%◌, Bool, true, false, not, ◌&&◌, ◌||◌, List, [], ◌∷◌, Option, none, some,
  ◌==◌, if◌then◌else◌, ltb, leb,
}

pub data Kind : Type 0 where
  ball_exercise card other : Kind

pub record Scene : Type 0 where
  pub kind : Kind
  pub t0 : ℕ
  pub t1 : ℕ

-- A sentence with its place in the list, its natural duration, and whether it is spoken at all.
pub record Sentence : Type 0 where
  pub sid : ℕ
  pub orig_start : ℕ
  pub orig_end : ℕ
  pub duration : ℕ
  pub no_dub : Bool

-- Where a sentence is spoken, and whether a warning says that it leaves its block.
pub record Placed : Type 0 where
  pub sid : ℕ
  pub start : ℕ
  pub end_ : ℕ
  pub warned : Bool

-- A target for the duration of the card between two moments of the source.
pub record Override : Type 0 where
  pub src_t0 : ℕ
  pub src_t1 : ℕ
  pub new_dur : ℕ

abbrev pub is_ball : Kind → Bool
is_ball ball_exercise = true
is_ball _ = false

abbrev pub is_card : Kind → Bool
is_card card = true
is_card _ = false

abbrev pub larger : ℕ → ℕ → ℕ
larger a b = if leb a b then b else a

abbrev pub has_ball : List Scene → Bool
has_ball [] = false
has_ball (sc ∷ scenes) = is_ball sc.kind || has_ball scenes

abbrev pub has_card : List Scene → Bool
has_card [] = false
has_card (sc ∷ scenes) = is_card sc.kind || has_card scenes

-- _closing_card_idx names this scene: a card behind which there is neither a card nor a ball.
abbrev pub is_closing : Scene → List Scene → Bool
is_closing sc scenes = is_card sc.kind && not (has_card scenes || has_ball scenes)

-- `round`: to the nearest multiple, and from the middle to the even one.
unfoldable pub round_to : ℕ → ℕ → ℕ
round_to unit t =
    let q = t / unit in
    let r = t % unit in
    if ltb unit (2 * r)
    then unit * (q + 1)
    else if (2 * r == unit) && (q % 2 == 1)
    then unit * (q + 1)
    else unit * q

-- The ticks of a frame.
abbrev pub frame : ℕ
frame = 1000

abbrev pub quantize : ℕ → ℕ
quantize t = round_to frame t

abbrev pub inside : Scene → ℕ → Bool
inside sc t = leb sc.t0 t && ltb t sc.t1

abbrev pub dist : Scene → ℕ → ℕ
dist sc t = if ltb t sc.t0 then sc.t0 - t else if leb sc.t1 t then t - sc.t1 else 0

abbrev pub first_inside : ℕ → ℕ → List Scene → Option ℕ
first_inside t idx [] = none
first_inside t idx (sc ∷ scenes) =
    let rest = first_inside t (idx + 1) scenes in if inside sc t then some idx else rest

-- The first of the nearest scenes, with the best so far.
abbrev pub nearest : ℕ → ℕ → ℕ → ℕ → List Scene → ℕ
nearest t idx best d [] = best
nearest t idx best d (sc ∷ scenes) =
    nearest t (idx + 1) (if ltb (dist sc t) d then idx else best)
      (if ltb (dist sc t) d then dist sc t else d) scenes

abbrev pub or_nearest : Option ℕ → ℕ → List Scene → ℕ
or_nearest (some idx) t scenes = idx
or_nearest none t [] = 0
or_nearest none t (sc ∷ scenes) = nearest t 1 0 (dist sc t) scenes

unfoldable pub assign_block : ℕ → List Scene → ℕ
assign_block t scenes = or_nearest (first_inside t 0 scenes) t scenes

-- The sentences of one block, sorted by their start; those with one start keep their order.
abbrev pub insert_sentence : Sentence → List Sentence → List Sentence
insert_sentence s [] = s ∷ []
insert_sentence s (x ∷ xs) =
    let rest = insert_sentence s xs in
    if leb s.orig_start x.orig_start then s ∷ x ∷ xs else x ∷ rest

unfoldable pub block_segs : List Scene → ℕ → List Sentence → List Sentence
block_segs scenes blk [] = []
block_segs scenes blk (s ∷ segments) =
    let rest = block_segs scenes blk segments in
    if not s.no_dub && (assign_block s.orig_start scenes == blk)
    then insert_sentence s rest
    else rest

abbrev pub find_override : Scene → List Override → Option ℕ
find_override sc [] = none
find_override sc (o ∷ overrides) =
    let rest = find_override sc overrides in
    if (sc.t0 == o.src_t0) && (sc.t1 == o.src_t1) then some o.new_dur else rest

-- An override is for a card, not for a ball.
abbrev pub override_of : Scene → List Override → Option ℕ
override_of sc overrides = if is_ball sc.kind then none else find_override sc overrides

abbrev pub or_zero : Option ℕ → ℕ
or_zero none = 0
or_zero (some t) = t

abbrev pub is_overridden : Option ℕ → Bool
is_overridden none = false
is_overridden (some d) = true
