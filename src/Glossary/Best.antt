-- ===== src/Glossary/Best.antt =====
-- Which row of the glossary counts for a term (match_terms in app/video/pipeline/glossary.py).
use nbdpsy_mcp.Prelude.{
  ℕ, Bool, true, false, not, ◌&&◌, ◌||◌, List, [], ◌∷◌, ◌++◌, Option, none, some, ◌==◌, ==_iff,
  if◌then◌else◌, ltb, leb, ◌≡◌, refl, ap, ◌∙◌, arith, Bool-cases, inl, inr, All, All-append,
  append_assoc, append-nil, subst,
}
use nbdpsy_mcp.Glossary.{
  Text, same_text, is_empty, PsychGlossary, priority, Index, is_better, index_key, index_keys,
  keys_of, index_rows, normalize_term, match_term, answer,
}

same_text→≡ : (s t : Text) → same_text s t ≡ true → s ≡ t
same_text→≡ [] [] h = refl
same_text→≡ [] (d ∷ t) h = cc
same_text→≡ (c ∷ s) [] h = cc
same_text→≡ (c ∷ s) (d ∷ t) h = elim (Bool-cases (c == d)) [
  | inl e ↦ rw ((==_iff c d).0 e) (ap (λ l. d ∷ l) (same_text→≡ s t (rest e h)))
  | inr e ↦ absurd (cc (e, h))
]
  where
    rest : (c == d) ≡ true → ((c == d) && same_text s t) ≡ true → same_text s t ≡ true
    rest e h = ground (arith, e, h)

abbrev pub mentions : Text → List Text → Bool
mentions k [] = false
mentions k (key ∷ keys) = same_text key k || mentions k keys

index_key-at :
    (row : PsychGlossary) (key k : Text) (index : Index)
    → is_empty k ≡ false
    → index_key row key index k
      ≡ (if same_text key k && is_better row (index k) then some row else index k)
unfolding index_key
index_key-at row key k index full = elim (Bool-cases (same_text key k)) [
  | inl e ↦ rw (e, same_text→≡ key k e, full) refl
  | inr e ↦ rw e refl
]

not_better : (row : PsychGlossary) → is_better row (some row) ≡ false
not_better row = ground arith

-- Two keys of a row, one behind the other.
both_keys :
    (row : PsychGlossary) (s m : Bool) (old : Option PsychGlossary)
    → (if m && is_better row (if s && is_better row old then some row else old)
        then some row
        else if s && is_better row old
        then some row
        else old)
      ≡ (if (s || m) && is_better row old then some row else old)
both_keys row false m old = refl
both_keys row true false old = refl
both_keys row true true old = elim (Bool-cases (is_better row old)) [
  | inl e ↦ rw (e, not_better row) refl
  | inr e ↦ rw (e, e) refl
]

index_keys-at :
    (row : PsychGlossary) (keys : List Text) (k : Text) (index : Index)
    → is_empty k ≡ false
    → index_keys row keys index k
      ≡ (if mentions k keys && is_better row (index k) then some row else index k)
unfolding index_keys
index_keys-at row [] k index full = refl
index_keys-at row (key ∷ keys) k index full =
    index_keys-at row keys k (index_key row key index) full
    ∙ rw (index_key-at row key k index full)
        (both_keys row (same_text key k) (mentions k keys) (index k))

raised : (h : Bool) (p q r : ℕ) → ltb q r ≡ true → not h || ltb p q ≡ true → not h || ltb p r ≡ true
raised h p q r up z = ground arith

raised_equal :
    (h : Bool) (p q r : ℕ) → ltb q r ≡ true → not h || leb p q ≡ true → not h || ltb p r ≡ true
raised_equal h p q r up z = ground arith

not_raised : (h : Bool) (p q : ℕ) → (h && ltb q p) ≡ false → not h || leb p q ≡ true
not_raised h p q z = ground arith

and_left : (a b : Bool) → (a && b) ≡ true → a ≡ true
and_left true b h = refl
and_left false b h = cc

and_right : (a b : Bool) → (a && b) ≡ true → b ≡ true
and_right true b h = h
and_right false b h = cc

or_right : (a b : Bool) → b ≡ true → a || b ≡ true
or_right true b h = refl
or_right false b h = h

All-weaken :
    {A : Type 0} (P Q : A → Type 0) (xs : List A) → ((x : A) → P x → Q x) → All P xs → All Q xs
All-weaken P Q [] f h = tt
All-weaken P Q (x ∷ xs) f h = (f x h.0, All-weaken P Q xs f h.1)

module _ (is_space : ℕ → Bool) (lower : Text → Text) (k : Text) where
  abbrev pub has : PsychGlossary → Bool
  has row = mentions k (keys_of is_space lower row)

  -- A row that has the term only with a lower priority, and one with no higher priority.
  abbrev Lower : PsychGlossary → PsychGlossary → Type 0
  Lower row r = not (has r) || ltb (priority r) (priority row) ≡ true

  abbrev NotHigher : PsychGlossary → PsychGlossary → Type 0
  NotHigher row r = not (has r) || leb (priority r) (priority row) ≡ true

  -- The row that counts: it has the term, every row before it that has the term has a lower priority,
  -- and none behind it has a higher one. Without a row that counts no row has the term.
  pub Best : List PsychGlossary → Option PsychGlossary → Type 0
  Best rows none = All (λ r. not (has r) ≡ true) rows
  Best rows (some row) =
      (before : List PsychGlossary) × (after : List PsychGlossary) × (rows ≡ before ++ row ∷ after)
      × (has row ≡ true)
      × All (Lower row) before
      × All (NotHigher row) after

  below_none : (r row : PsychGlossary) → not (has r) ≡ true → Lower row r
  below_none r row h = rw h refl

  below_best :
      (r best row : PsychGlossary)
      → ltb (priority best) (priority row) ≡ true
      → Lower best r
      → Lower row r
  below_best r best row up h = raised (has r) (priority r) (priority best) (priority row) up h

  below_equal :
      (r best row : PsychGlossary)
      → ltb (priority best) (priority row) ≡ true
      → NotHigher best r
      → Lower row r
  below_equal r best row up h =
      raised_equal (has r) (priority r) (priority best) (priority row) up h

  -- One row more.
  next-Best :
      (seen : List PsychGlossary) (row : PsychGlossary) (o : Option PsychGlossary)
      → Best seen o
      → Best (seen ++ row ∷ []) (if has row && is_better row o then some row else o)
  unfolding Best
  next-Best seen row none h = elim (Bool-cases (has row)) [
    | inl e ↦
        rw e (seen, [], refl, e, All-weaken _ (Lower row) seen (λ r z. below_none r row z) h, tt)
    | inr e ↦ rw e (All-append (λ r. not (has r) ≡ true) seen (row ∷ []) h (rw e refl, tt))
  ]
  next-Best seen row (some best) (before, after, e, here, low, high) =
      elim (Bool-cases (has row && ltb (priority best) (priority row))) [
        | inl c ↦
            let up : ltb (priority best) (priority row) ≡ true = and_right (has row) _ c in
            let own : has row ≡ true = and_left (has row) _ c in
            rw c (
              seen,
              [],
              refl,
              own,
              rw e (
                  All-append (Lower row) before (best ∷ after)
                    (All-weaken _ (Lower row) before (λ r z. below_best r best row up z) low)
                    (
                      or_right (not (has best)) _ up,
                      All-weaken _ (Lower row) after (λ r z. below_equal r best row up z) high,
                    )),
              tt,
            )
        | inr c ↦ rw c (
          before,
          after ++ row ∷ [],
          ap (λ l. l ++ row ∷ []) e ∙ append_assoc before (best ∷ after) (row ∷ []),
          here,
          low,
          All-append (NotHigher best) after (row ∷ []) high
              (not_raised (has row) (priority row) (priority best) c, tt),
        )
      ]

  none-Best : Best [] none
  unfolding Best
  none-Best = tt

  index_rows-Best :
      (seen rows : List PsychGlossary) (index : Index)
      → is_empty k ≡ false
      → Best seen (index k)
      → Best (seen ++ rows) (index_rows is_space lower rows index k)
  unfolding index_rows
  index_rows-Best seen [] index full h = rw (append-nil seen) h
  index_rows-Best seen (row ∷ rows) index full h =
      subst (λ l. Best l (index_rows is_space lower (row ∷ rows) index k))
        (append_assoc seen (row ∷ []) rows)
        (index_rows-Best (seen ++ row ∷ []) rows (index_keys row (keys_of is_space lower row) index)
          full
          (rw (index_keys-at row (keys_of is_space lower row) k index full)
            (next-Best seen row (index k) h)))

-- The answer for a candidate whose normalized term is not empty is that of the row that counts for the
-- term: among the rows that have it as their term or as a normalized alias, the first of those with the
-- highest priority; and there is no answer exactly where no row has it.
pub match_term-Best :
    (is_space : ℕ → Bool) (lower : Text → Text) (rows : List PsychGlossary) (candidate : Text)
    → is_empty (normalize_term is_space lower candidate) ≡ false
    → (o : Option PsychGlossary) × (match_term is_space lower rows candidate
        ≡ answer is_space lower o)
      × Best is_space lower (normalize_term is_space lower candidate) rows o
unfolding match_term
match_term-Best is_space lower rows candidate full =
    let norm = normalize_term is_space lower candidate in
    (
      index_rows is_space lower rows (λ k. none) norm,
      rw full refl,
      index_rows-Best is_space lower norm [] rows (λ k. none) full (none-Best is_space lower norm),
    )
