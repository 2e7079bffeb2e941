-- ===== src/Platform/Jobs/Claims.antt =====
-- Which job a claim takes.
use sintade.Prelude.{
  ℕ, ◌+◌, ◌≤◌, ◌≡◌, refl, sym, ap, ◌∙◌, subst, Bool, true, false, List, [], ◌∷◌, Option, none, some,
  arith, All, All-map, All-filter_passed, All-of_filter, filter, update_where, Bool-cases, inl, inr,
}
use sintade.Prelude.Sort.{ByKey, IsSorted, sort_by, sort_by-IsSorted, All-sort_by, All-of_sort_by}
use sintade.Platform.Jobs.{
  Job, is_job, is_runnable, runs_before, first_of, next_runnable, lock_job, claimed, claim_kinds,
}

abbrev run_of : Job → ℕ
run_of j = j.run_at

runs_before-ByKey : ByKey runs_before run_of
runs_before-ByKey = record { smaller = λ x y h. ground arith; larger = λ x y h. ground arith }

first_of-All : (P : Job → Type 0) (xs : List Job) (j : Job) → first_of xs ≡ some j → All P xs → P j
first_of-All P [] j e h = absurd (cc)
first_of-All P (x ∷ xs) j e h = subst P (cc) h.0

first_of-least :
    (xs : List Job) (j : Job)
    → first_of xs ≡ some j
    → IsSorted run_of xs
    → All (λ x. j.run_at ≤ x.run_at) xs
first_of-least [] j e h = tt
first_of-least (x ∷ xs) j e h =
    let same : x ≡ j = cc in
    subst (λ y. All (λ z. y.run_at ≤ z.run_at) (x ∷ xs)) same (omega arith, h.0)

first_of-none : (P : Job → Type 0) (xs : List Job) → first_of xs ≡ none → All P xs
first_of-none P [] e = tt
first_of-none P (x ∷ xs) e = absurd (cc)

All-unit : (xs : List Job) → All (λ _. Unit {0}) xs
All-unit [] = tt
All-unit (x ∷ xs) = (tt, All-unit xs)

-- What holds of every job holds of the one that is claimed, which is runnable besides.
next_runnable-All :
    (P : Job → Type 0) (now : ℕ) (kinds : Option (List ℕ)) (jobs : List Job) (j : Job)
    → next_runnable now kinds jobs ≡ some j
    → All P jobs
    → P j × (is_runnable now kinds j ≡ true)
unfolding next_runnable
next_runnable-All P now kinds jobs j e h =
    first_of-All (λ x. P x × (is_runnable now kinds x ≡ true))
      (sort_by runs_before (filter (is_runnable now kinds) jobs)) j e
      (All-sort_by runs_before (λ x. P x × (is_runnable now kinds x ≡ true))
        (filter (is_runnable now kinds) jobs) (All-filter_passed (is_runnable now kinds) P jobs h))

next_runnable-oldest :
    (now : ℕ) (kinds : Option (List ℕ)) (jobs : List Job) (j : Job)
    → next_runnable now kinds jobs ≡ some j
    → All (λ x. is_runnable now kinds x ≡ true → j.run_at ≤ x.run_at) jobs
unfolding next_runnable
next_runnable-oldest now kinds jobs j e =
    let runnable = filter (is_runnable now kinds) jobs in
    All-of_filter (is_runnable now kinds) (λ x. j.run_at ≤ x.run_at) jobs
      (All-of_sort_by runs_before (λ x. j.run_at ≤ x.run_at) runnable
        (first_of-least (sort_by runs_before runnable) j e
          (sort_by-IsSorted runs_before run_of runs_before-ByKey runnable)))

-- A claim takes a job that is runnable, of a wanted kind, with no lock that holds, neither done nor
-- dead, and no runnable job is older.
pub claim_kinds-oldest :
    (now worker lock : ℕ) (kinds : Option (List ℕ)) (jobs : List Job) (j : Job) (jobs' : List Job)
    → claim_kinds now worker lock kinds jobs ≡ (some j, jobs')
    → (is_runnable now kinds j ≡ true)
      × All (λ x. is_runnable now kinds x ≡ true → j.run_at ≤ x.run_at) jobs
unfolding claim_kinds
claim_kinds-oldest now worker lock kinds jobs j jobs' h =
    let next : next_runnable now kinds jobs ≡ some j = ap (λ p. p.0) h in
    (
      (next_runnable-All (λ _. Unit {0}) now kinds jobs j next (All-unit jobs)).1,
      next_runnable-oldest now kinds jobs j next,
    )

-- A claim finds nothing only where no job is runnable, and then it changes nothing.
pub claim_kinds-none :
    (now worker lock : ℕ) (kinds : Option (List ℕ)) (jobs jobs' : List Job)
    → claim_kinds now worker lock kinds jobs ≡ (none, jobs')
    → (jobs' ≡ jobs) × All (λ x. is_runnable now kinds x ≡ false) jobs
unfolding claim_kinds next_runnable
claim_kinds-none now worker lock kinds jobs jobs' h =
    let runnable = filter (is_runnable now kinds) jobs in
    let next : next_runnable now kinds jobs ≡ none = ap (λ p. p.0) h in
    let empty : All (λ _. ⊥) (sort_by runs_before runnable) =
      first_of-none (λ _. ⊥) (sort_by runs_before runnable) next in
    (
      sym (ap (λ o. claimed now worker lock o jobs) (sym next) ∙ ap (λ p. p.1) h),
      All-map (λ x. is_runnable now kinds x ≡ true → ⊥) (λ x. is_runnable now kinds x ≡ false)
          (λ x no_run. not_runnable (is_runnable now kinds x) no_run) jobs
          (All-of_filter (is_runnable now kinds) (λ _. ⊥) jobs
            (All-of_sort_by runs_before (λ _. ⊥) runnable empty)),
    )
  where
    not_runnable : (b : Bool) → (b ≡ true → ⊥) → b ≡ false
    not_runnable true never = absurd (never refl)
    not_runnable false never = refl

locked_after :
    (now worker lock id : ℕ) (jobs : List Job)
    → All
        (λ x. is_job id x ≡ true → x.locked_until ≡ some (now + lock))
        (update_where (is_job id) (lock_job now worker lock) jobs)
locked_after now worker lock id [] = tt
locked_after now worker lock id (x ∷ jobs) = elim (Bool-cases (is_job id x)) [
  | inl e ↦ rw e ((λ _. refl), locked_after now worker lock id jobs)
  | inr e ↦ rw e ((λ k. absurd (cc (rw e at k))), locked_after now worker lock id jobs)
]

-- While the lock of a claim lasts, no later claim of any worker takes the same job, if nothing comes
-- in between.
pub claim_kinds-exclusive :
    (now later worker other lock lock' : ℕ) (kinds kinds' : Option (List ℕ))
    (jobs jobs' jobs'' : List Job) (j k : Job)
    → later ≤ now + lock
    → claim_kinds now worker lock kinds jobs ≡ (some j, jobs')
    → claim_kinds later other lock' kinds' jobs' ≡ (some k, jobs'')
    → is_job j.id k ≡ false
unfolding claim_kinds
claim_kinds-exclusive now later worker other lock lock' kinds kinds' jobs jobs' jobs'' j k within
      first second =
    let next : next_runnable now kinds jobs ≡ some j = ap (λ p. p.0) first in
    let left : update_where (is_job j.id) (lock_job now worker lock) jobs ≡ jobs' =
      ap (λ o. claimed now worker lock o jobs) (sym next) ∙ ap (λ p. p.1) first in
    let next' : next_runnable later kinds' jobs' ≡ some k = ap (λ p. p.0) second in
    let (held, runnable) =
      next_runnable-All (λ x. is_job j.id x ≡ true → x.locked_until ≡ some (now + lock)) later
        kinds' jobs' k next'
        (subst (All (λ x. is_job j.id x ≡ true → x.locked_until ≡ some (now + lock))) left
          (locked_after now worker lock j.id jobs)) in
    elim (Bool-cases (is_job j.id k)) [
      | inr different ↦ different
      | inl same ↦
          let lock_holds : k.locked_until ≡ some (now + lock) = held same in absurd (ground arith)
    ]
