-- ===== src/Video/Listing.antt =====
-- Which jobs a listing has, and how many (list_video_jobs in app/http/video_rest.py).
use nbdpsy_mcp.Prelude.{
  ℕ, zero, suc, ◌≤◌, Bool, true, [], ◌∷◌, ◌++◌, Option, none, some, String, subst, eq_iff, str_eq,
  sym, ap, ◌⊎◌, ℤ, pos, negsuc, ◌≡◌, refl, arith, leb, leb→le, Bool-cases, inl, inr, select, drop,
  length, length-take_le, All, All-append, All-take,
}
use nbdpsy_mcp.Auth.Guards.{Operator, is_admin}
use nbdpsy_mcp.Video.Job.{VideoJob}
use nbdpsy_mcp.Video.Store.{Jobs}
use nbdpsy_mcp.Video.Endpoints.{
  State, status_text, is_owner, is_asked, is_listed, newest_first, capped, sql_limit, sql_offset,
  list_video_jobs,
}

module _ (P : VideoJob → Type 0) where
  newest_first-All : (jobs : Jobs) → All P jobs → All P (newest_first jobs)
  newest_first-All [] h = tt
  newest_first-All (job ∷ jobs) h =
      All-append P (newest_first jobs) (job ∷ []) (newest_first-All jobs h.1) (h.0, tt)

  drop-All : (n : ℕ) (jobs : Jobs) → All P jobs → All P (drop n jobs)
  drop-All zero jobs h = h
  drop-All (suc n) [] h = tt
  drop-All (suc n) (job ∷ jobs) h = drop-All n jobs h.1

  sql_offset-All : (offset : ℤ) (jobs : Jobs) → All P jobs → All P (sql_offset offset jobs)
  sql_offset-All (pos n) jobs h = drop-All n jobs h
  sql_offset-All (negsuc n) jobs h = h

  sql_limit-All : (limit : ℤ) (jobs : Jobs) → All P jobs → All P (sql_limit limit jobs)
  sql_limit-All (pos n) jobs h = All-take P n jobs h
  sql_limit-All (negsuc n) jobs h = h

capped-length : (n : ℕ) (jobs : Jobs) → length (sql_limit (capped (pos n)) jobs) ≤ 100
capped-length n jobs = elim (Bool-cases (leb n 100)) [
  | inl e ↦ rw e (omega (arith, length-take_le n jobs, leb→le n 100 e))
  | inr e ↦ rw e (length-take_le 100 jobs)
]

-- A job that the operator may see: an administrator every job, and else the operator's own; with the
-- status that is asked for, where one is.
abbrev pub IsShown : Operator → Option String → VideoJob → Type 0
IsShown op status job =
    ((op.role ≡ "admin") ⊎ (job.created_by ≡ some op.id))
    × ((status ≡ none) ⊎ ((status ≡ some "") ⊎ (status ≡ some (status_text job.status))))

abbrev pub IsIn : VideoJob → Jobs → Type 0
IsIn job [] = ⊥
IsIn job (x ∷ xs) = (job ≡ x) ⊎ IsIn job xs

asked-IsAsked :
    (status : Option String) (job : VideoJob)
    → is_asked status job ≡ true
    → (status ≡ none) ⊎ ((status ≡ some "") ⊎ (status ≡ some (status_text job.status)))
asked-IsAsked none job e = inl refl
asked-IsAsked (some t) job e = elim (Bool-cases (str_eq t "")) [
  | inl q ↦ inr (inl (ap some ((eq_iff t "").0 q)))
  | inr q ↦
      let same : str_eq (status_text job.status) t ≡ true = ground (arith, e, q) in
      inr (inr (ap some (sym ((eq_iff (status_text job.status) t).0 same))))
]

IsAsked-asked :
    (status : Option String) (job : VideoJob)
    → (status ≡ none) ⊎ ((status ≡ some "") ⊎ (status ≡ some (status_text job.status)))
    → is_asked status job ≡ true
IsAsked-asked status job (inl e) = rw e refl
IsAsked-asked status job (inr (inl e)) = rw e refl
IsAsked-asked status job (inr (inr e)) =
    let same = (eq_iff (status_text job.status) (status_text job.status)).1 refl in
    rw e (ground (arith, same))

owner-IsOwner :
    (op : Operator) (created_by : Option ℕ)
    → is_owner op created_by ≡ true
    → created_by ≡ some op.id
owner-IsOwner op none e = cc
owner-IsOwner op (some id) e = ground (arith, e)

is_listed-IsShown :
    (op : Operator) (status : Option String) (job : VideoJob)
    → is_listed op status job ≡ true
    → IsShown op status job
is_listed-IsShown op status job e =
    let asked : is_asked status job ≡ true = ground (arith, e) in
    (
      elim (Bool-cases (is_admin op)) [
        | inl q ↦ inl ((eq_iff op.role "admin").0 q)
        | inr q ↦
            let own : is_owner op job.created_by ≡ true = ground (arith, e, q) in
            inr (owner-IsOwner op job.created_by own)
      ],
      asked-IsAsked status job asked,
    )

IsShown-is_listed :
    (op : Operator) (status : Option String) (job : VideoJob)
    → IsShown op status job
    → is_listed op status job ≡ true
IsShown-is_listed op status job (inl e, h) =
    let admin : is_admin op ≡ true = (eq_iff op.role "admin").1 e in
    rw (admin, IsAsked-asked status job h) refl
IsShown-is_listed op status job (inr e, h) =
    let own : is_owner op job.created_by ≡ true = rw e (ground arith) in
    let asked = IsAsked-asked status job h in ground (arith, own, asked)

IsIn-append : (job : VideoJob) (xs ys : Jobs) → IsIn job xs ⊎ IsIn job ys → IsIn job (xs ++ ys)
IsIn-append job [] ys (inl h) = absurd h
IsIn-append job [] ys (inr h) = h
IsIn-append job (x ∷ xs) ys (inl (inl e)) = inl e
IsIn-append job (x ∷ xs) ys (inl (inr h)) = inr (IsIn-append job xs ys (inl h))
IsIn-append job (x ∷ xs) ys (inr h) = inr (IsIn-append job xs ys (inr h))

IsIn-newest_first : (job : VideoJob) (jobs : Jobs) → IsIn job jobs → IsIn job (newest_first jobs)
IsIn-newest_first job [] h = absurd h
IsIn-newest_first job (x ∷ jobs) (inl e) =
    IsIn-append job (newest_first jobs) (x ∷ []) (inr (inl e))
IsIn-newest_first job (x ∷ jobs) (inr h) =
    IsIn-append job (newest_first jobs) (x ∷ []) (inl (IsIn-newest_first job jobs h))

IsIn-select :
    (p : VideoJob → Bool) (job : VideoJob) (jobs : Jobs)
    → p job ≡ true
    → IsIn job jobs
    → IsIn job (select p jobs)
IsIn-select p job [] e h = absurd h
IsIn-select p job (x ∷ jobs) e (inl same) =
    let ex : p x ≡ true = subst (λ y. p y ≡ true) same e in rw ex (inl same)
IsIn-select p job (x ∷ jobs) e (inr h) = elim (Bool-cases (p x)) [
  | inl q ↦ rw q (inr (IsIn-select p job jobs e h))
  | inr q ↦ rw q (IsIn-select p job jobs e h)
]

select-IsShown :
    (op : Operator) (status : Option String) (jobs : Jobs)
    → All (IsShown op status) (select (is_listed op status) jobs)
select-IsShown op status [] = tt
select-IsShown op status (job ∷ jobs) = elim (Bool-cases (is_listed op status job)) [
  | inl e ↦ rw e (is_listed-IsShown op status job e, select-IsShown op status jobs)
  | inr e ↦ rw e (select-IsShown op status jobs)
]

listed_or_hidden :
    (op : Operator) (status : Option String) (all jobs : Jobs)
    → ((job : VideoJob) → IsIn job jobs → IsIn job all)
    → All
        (λ job.
          IsIn job (newest_first (select (is_listed op status) all)) ⊎ ¬ IsShown op status job)
        jobs
listed_or_hidden op status all [] sub = tt
listed_or_hidden op status all (job ∷ jobs) sub = (
  elim (Bool-cases (is_listed op status job)) [
    | inl e ↦ inl (
        IsIn-newest_first job (select (is_listed op status) all)
          (IsIn-select (is_listed op status) job all e (sub job (inl refl))))
    | inr e ↦ inr (λ shown. ground (arith, e, IsShown-is_listed op status job shown))
  ],
  listed_or_hidden op status all jobs (λ other h. sub other (inr h)),
)

-- With any limit and offset, every job that is listed is one that the operator may see (an
-- administrator any job, and else the operator's own), with the status that is asked for. With a limit
-- that is not negative there are at most 100. A negative limit lifts that cap: without an offset, no
-- job of the table that the operator may see, with the status that is asked for, is missing.
pub list_video_jobs-Listed :
    (op : Operator) (offset limit : ℤ) (status : Option String) (s : State) (n : ℕ)
    → All (IsShown op status) (list_video_jobs op limit offset status s)
      × (length (list_video_jobs op (pos n) offset status s) ≤ 100)
      × All
          (λ job.
            IsIn job (list_video_jobs op (negsuc n) (pos 0) status s) ⊎ ¬ IsShown op status job)
          s.jobs
unfolding list_video_jobs
list_video_jobs-Listed op offset limit status s n =
    let P = IsShown op status in
    let chosen = select (is_listed op status) s.jobs in
    let listed = newest_first chosen in
    (
      sql_limit-All P (capped limit) (sql_offset offset listed) (
          sql_offset-All P offset listed
            (newest_first-All P chosen (select-IsShown op status s.jobs))),
      capped-length n (sql_offset offset listed),
      listed_or_hidden op status s.jobs s.jobs (λ job h. h),
    )
