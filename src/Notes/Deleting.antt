-- ===== src/Notes/Deleting.antt =====
-- How many notes delete_notes_by_title (app/browser/note_delete.py) deletes, and what is reported.
use nbdpsy_mcp.Prelude.{
  subst, ℕ, zero, suc, ◌+◌, ◌≤◌, ◌<◌, Bool, ◌&&◌, String, ◌≡◌, ◌⊎◌, inl, inr, refl, ap, ◌∙◌, arith,
  ltb, Bool-cases, leb, leb→le, leb-false→lt, none, some,
}
use nbdpsy_mcp.Notes.Deletion.{
  Attempt, deleted_one, failed, Outcome, Look, shown, look_failed, looked, raised, delete_loop,
  delete_notes_by_title, after_attempt, final, done, error,
}

abbrev pub IsDeleted : Attempt → Type 0
IsDeleted (deleted_one before) = Unit
IsDeleted (failed is_missing reason) = ⊥

-- From `deleted` notes on, `total` are deleted in the end.
abbrev pub Fate : ℕ → ℕ → Look → (ℕ → Attempt) → Outcome → Type 0
Fate count deleted look attempt outcome =
    (total : ℕ) × (deleted ≤ total)
    × (total ≤ deleted + count)
    × ((i : ℕ) → deleted ≤ i → i < total → IsDeleted (attempt i))
    × ((outcome ≡ looked total look)
        ⊎ ((is_missing : Bool) × (reason : String) × (attempt total ≡ failed is_missing reason)
            × (outcome ≡ raised reason)))

IsDeleted-from :
    (deleted total : ℕ) (attempt : ℕ → Attempt)
    → IsDeleted (attempt deleted)
    → ((i : ℕ) → deleted + 1 ≤ i → i < total → IsDeleted (attempt i))
    → (i : ℕ) → deleted ≤ i
    → i < total
    → IsDeleted (attempt i)
IsDeleted-from deleted total attempt first rest i low high =
    elim (Bool-cases (leb (deleted + 1) i)) [
      | inl e ↦ rest i (leb→le _ _ e) high
      | inr e ↦
          let same : deleted ≡ i = omega (arith, low, leb-false→lt _ _ e) in
          subst (λ j. IsDeleted (attempt j)) same first
    ]

no_attempts :
    (deleted : ℕ) (attempt : ℕ → Attempt) (i : ℕ)
    → deleted ≤ i
    → i < deleted
    → IsDeleted (attempt i)
no_attempts deleted attempt i low high = absurd (omega (arith, low, high))

after_attempt-Fate :
    (count deleted : ℕ) (look : Look) (attempt : ℕ → Attempt) (rest : Outcome) (a : Attempt)
    → attempt deleted ≡ a
    → Fate count (deleted + 1) look attempt rest
    → Fate (suc count) deleted look attempt (after_attempt deleted look rest a)
after_attempt-Fate count deleted look attempt rest (deleted_one before) e
      (total, low, high, all, end_) =
    elim (Bool-cases (ltb 1 before)) [
      | inl more ↦ (
        total,
        omega (arith, low),
        omega (arith, high),
        IsDeleted-from deleted total attempt (rw e tt) all,
        rw more end_,
      )
      | inr last ↦ (
        deleted + 1,
        omega arith,
        omega arith,
        IsDeleted-from deleted (deleted + 1) attempt (rw e tt) (no_attempts (deleted + 1) attempt),
        rw last (inl refl),
      )
    ]
after_attempt-Fate count deleted look attempt rest (failed is_missing reason) e fate = (
  deleted,
  omega arith,
  omega arith,
  no_attempts deleted attempt,
  elim (Bool-cases (ltb 0 deleted && is_missing)) [
    | inl gone ↦ inl (rw gone refl)
    | inr stop ↦ inr (is_missing, reason, e, rw stop refl)
  ],
)

delete_loop-Fate :
    (count deleted : ℕ) (look : Look) (attempt : ℕ → Attempt)
    → Fate count deleted look attempt (delete_loop count deleted look attempt)
unfolding delete_loop
delete_loop-Fate zero deleted look attempt =
    (deleted, omega arith, omega arith, no_attempts deleted attempt, inl refl)
delete_loop-Fate (suc count) deleted look attempt =
    after_attempt-Fate count deleted look attempt (delete_loop count (deleted + 1) look attempt)
      (attempt deleted) refl (delete_loop-Fate count (deleted + 1) look attempt)

Look-cases :
    (look : Look)
    → ((cards : ℕ) × (look ≡ shown cards)) ⊎ ((reason : String) × (look ≡ look_failed reason))
Look-cases (shown cards) = inl (cards, refl)
Look-cases (look_failed reason) = inr (reason, refl)

-- The attempts below a number deleted a note each.
abbrev pub DeletedBelow : ℕ → (ℕ → Attempt) → Type 0
DeletedBelow zero attempt = Unit
DeletedBelow (suc n) attempt = DeletedBelow n attempt × IsDeleted (attempt n)

deleted_below :
    (n : ℕ) (attempt : ℕ → Attempt)
    → ((i : ℕ) → i < n → IsDeleted (attempt i))
    → DeletedBelow n attempt
deleted_below zero attempt all = tt
deleted_below (suc n) attempt all =
    (deleted_below n attempt (λ i below. all i (omega (arith, below))), all n (omega arith))

-- What becomes of a deletion of `count` notes: from the first attempt on, at most `count` attempts
-- delete a note each, as the page shows. Then the report is that number, done, with the cards that are
-- left, if they could be counted; or it is an error with no note deleted, however many were, and with
-- the reason of the next attempt, which failed, or of the count of the cards, which failed.
pub delete_notes_by_title-Reported :
    (count : ℕ) (look : Look) (attempt : ℕ → Attempt)
    → (total : ℕ) × (total ≤ count)
      × DeletedBelow total attempt
      × (((cards : ℕ) × (look ≡ shown cards)
            × (final (delete_notes_by_title count look attempt)
                ≡ record { status = done; deleted = total; remaining = some cards; reason = none }))
          ⊎ ((reason : String) × ((look ≡ look_failed reason)
                ⊎ ((is_missing : Bool) × (attempt total ≡ failed is_missing reason)))
              × (final (delete_notes_by_title count look attempt) ≡ record {
                status = error;
                deleted = 0;
                remaining = none;
                reason = some reason;
              })))
unfolding delete_notes_by_title
delete_notes_by_title-Reported count look attempt =
    let (total, low, high, all, end_) = delete_loop-Fate count 0 look attempt in
    (
      total,
      omega (arith, high),
      deleted_below total attempt (λ i below. all i (omega arith) below),
      elim end_ [
        | inl e ↦ elim (Look-cases look) [
          | inl (cards, q) ↦ inl (cards, q, ap final e ∙ rw q refl)
          | inr (reason, q) ↦ inr (reason, inl q, ap final e ∙ rw q refl)
        ]
        | inr (is_missing, reason, e, stop) ↦ inr (reason, inr (is_missing, e), ap final stop)
      ],
    )
