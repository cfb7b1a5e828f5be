-- ===== src/Pipeline/Coverage.antt =====
-- The parts that app/video/pipeline/resegment.py merges, their order, and how many characters are left:
-- which words the model writes is not looked at, here as in the source.
use nbdpsy_mcp.Prelude.{
  ℕ, zero, suc, ◌+◌, ◌*◌, ◌≤◌, Bool, true, false, List, [], ◌∷◌, ◌++◌, some, ◌≡◌, refl, sym, ap,
  ◌∙◌, ◌⊎◌, inl, inr, arith, ltb, length, drop, Bool-cases, take-append-drop, All, append-nil,
}
use nbdpsy_mcp.Pipeline.Resegment.{
  Segment, Segments, batch_size, count_chars, validate_merge, Reply, failed, answered, past_floor,
  merge_batch, batch_at, pure_at, round, resegment_from, resegment,
}

-- A part of the input with what came of it.
abbrev pub Part : Type 0
Part = Segments × Segments

abbrev pub inputs : List Part → Segments
inputs [] = []
inputs (p ∷ parts) = p.0 ++ inputs parts

abbrev pub outputs : List Part → Segments
outputs [] = []
outputs (p ∷ parts) = p.1 ++ outputs parts

-- A part is kept as it is, or merged to sentences that passed the validation.
abbrev pub IsSound : Part → Type 0
IsSound p = (p.1 ≡ p.0) ⊎ (validate_merge p.0 p.1 ≡ true)

merge_batch-IsSound :
    (pure_new : Segments) (reply : Reply) → IsSound (pure_new, merge_batch pure_new reply)
unfolding merge_batch
merge_batch-IsSound pure_new failed = inl refl
merge_batch-IsSound pure_new (answered merged_all) =
    elim (Bool-cases (validate_merge pure_new (past_floor pure_new merged_all))) [
      | inl e ↦ inr (rw (e, e))
      | inr e ↦ inl (rw e)
    ]

zero_add : (m : ℕ) → m ≡ zero + m
zero_add m = omega arith

suc_add : (n m : ℕ) → suc (n + m) ≡ suc n + m
suc_add n m = omega arith

drop_nil : (n : ℕ) → drop {A = Segment} n [] ≡ []
drop_nil zero = refl
drop_nil (suc n) = refl

drop-drop : (n m : ℕ) (xs : Segments) → drop m (drop n xs) ≡ drop (n + m) xs
drop-drop zero m xs = ap (λ k. drop k xs) (zero_add m)
drop-drop (suc n) m [] = drop_nil m ∙ sym (drop_nil (suc n + m))
drop-drop (suc n) m (x ∷ xs) = drop-drop n m xs ∙ ap (λ k. drop k (x ∷ xs)) (suc_add n m)

drop_all : (n : ℕ) (xs : Segments) → length xs ≤ n → drop n xs ≡ []
drop_all zero [] h = refl
drop_all (suc n) [] h = refl
drop_all zero (x ∷ xs) h = absurd (omega arith)
drop_all (suc n) (x ∷ xs) h = drop_all n xs (omega arith)

count_chars-append : (xs ys : Segments) → count_chars (xs ++ ys) ≡ count_chars xs + count_chars ys
unfolding count_chars
count_chars-append [] ys = omega arith
count_chars-append (x ∷ xs) ys = omega (arith, count_chars-append xs ys)

-- A sound part has at least 95 % as many characters as before.
part_chars : (p : Part) → IsSound p → 95 * count_chars p.0 ≤ 100 * count_chars p.1
unfolding validate_merge
part_chars p (inl e) = omega (arith, ap count_chars e)
part_chars p (inr e) = ground (arith, e)

parts_chars :
    (parts : List Part)
    → All IsSound parts
    → 95 * count_chars (inputs parts) ≤ 100 * count_chars (outputs parts)
unfolding count_chars
parts_chars [] h = omega arith
parts_chars (p ∷ parts) h = omega (
  arith,
  count_chars-append p.0 (inputs parts),
  count_chars-append p.1 (outputs parts),
  part_chars p h.0,
  parts_chars parts h.1,
)

module _ (expired : ℕ → Bool) (llm_chat : Segments → Reply) where
  abbrev Split : ℕ → ℕ → Segments → Type 0
  Split fuel new_start segments =
      (parts : List Part) × (inputs parts ≡ drop new_start segments)
      × (resegment_from expired llm_chat fuel new_start segments ≡ some (outputs parts))
      × All IsSound parts

  next_part :
      (fuel new_start : ℕ) (segments : Segments)
      → ltb new_start (length segments) ≡ true
      → expired new_start ≡ false
      → Split fuel (new_start + batch_size) segments
      → Split (suc fuel) new_start segments
  unfolding resegment_from
  next_part fuel new_start segments e f (parts, ins, outs, sound) = (
    (pure_at new_start segments, round expired llm_chat new_start segments) ∷ parts,
    rw (ins, sym (drop-drop new_start batch_size segments))
        (take-append-drop batch_size (drop new_start segments)),
    rw (e, f, outs) refl,
    (
      merge_batch-IsSound (pure_at new_start segments) (llm_chat (batch_at new_start segments)),
      sound,
    ),
  )

  resegment_from-parts :
      (fuel new_start : ℕ) (segments : Segments)
      → length segments ≤ fuel + new_start
      → Split fuel new_start segments
  unfolding resegment_from
  resegment_from-parts zero new_start segments enough =
      ([], sym (drop_all new_start segments (omega (arith, enough))), ground (arith, enough), tt)
  resegment_from-parts (suc fuel) new_start segments enough =
      elim (Bool-cases (ltb new_start (length segments))) [
        | inr e ↦ ([], sym (drop_all new_start segments (ground (arith, e))), rw e refl, tt)
        | inl e ↦ elim (Bool-cases (expired new_start)) [
          | inl f ↦ (
            (drop new_start segments, drop new_start segments) ∷ [],
            append-nil (drop new_start segments),
            rw (e, f) (ap some (sym (append-nil (drop new_start segments)))),
            (inl refl, tt),
          )
          | inr f ↦
              next_part fuel new_start segments e f (
                resegment_from-parts fuel (new_start + batch_size) segments (omega (arith, enough)))
        ]
      ]

  -- With fuel for the length of the list, the merge ends: the input splits to consecutive parts, the
  -- result is what the parts became in the same order, each kept as it is or merged to sentences that
  -- passed the validation, and the result has at least 95 % as many characters that are no white space
  -- as the input, whatever the model answers and whenever the deadline passes. (The characters are
  -- counted, not compared.)
  pub resegment-keeps_text :
      (fuel : ℕ) (segments : Segments)
      → length segments ≤ fuel
      → (parts : List Part) × (inputs parts ≡ segments)
        × (resegment expired llm_chat fuel segments ≡ some (outputs parts))
        × All IsSound parts
        × (95 * count_chars segments ≤ 100 * count_chars (outputs parts))
  unfolding resegment
  resegment-keeps_text fuel segments enough =
      let (parts, ins, outs, sound) =
        resegment_from-parts fuel 0 segments (omega (arith, enough)) in
      (parts, ins, outs, sound, rw (sym ins) (parts_chars parts sound))
