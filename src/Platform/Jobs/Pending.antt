-- ===== src/Platform/Jobs/Pending.antt =====
-- Scheduled jobs do not pile up.
use sintade.Prelude.{
  ℕ, ◌+◌, ◌≤◌, ◌≡◌, refl, sym, ◌∙◌, subst, Bool, true, false, not, ◌&&◌, List, [], ◌∷◌, ◌++◌,
  Option, none, some, leb, ◌==◌, if◌then◌else◌, arith, All, any, update_where, count_where,
  Bool-cases, inl, inr,
}
use sintade.Platform.Jobs.{
  Job, is_job, is_pending, new_job, enqueue, is_locked_by, extend_lock, pending_of,
  enqueue_unless_pending, identical_pending, enqueue_unless_identical_pending, next_runnable,
  lock_job, claimed, claim_kinds, complete, count_attempt, give_up_or_wait, fail,
}

-- The statements on the table of jobs, a conditional one with the snapshot that it sees.
pub data Op : Type 0 where
  add : ℕ → ℕ → ℕ → Op
  add_unless_pending : (seen : List Job) → ℕ → ℕ → ℕ → Op
  add_unless_identical : (seen : List Job) → ℕ → ℕ → ℕ → Op
  claim : ℕ → ℕ → Option (List ℕ) → Op
  keep : ℕ → ℕ → ℕ → Op
  end_well : ℕ → Op
  end_badly : ℕ → ℕ → Op

unfoldable pub apply : ℕ → Op → List Job → List Job
apply now (add id kind payload) jobs = enqueue now id kind payload jobs
apply now (add_unless_pending seen id kind payload) jobs =
    (enqueue_unless_pending now id kind payload seen jobs).0
apply now (add_unless_identical seen id kind payload) jobs =
    (enqueue_unless_identical_pending now id kind payload seen jobs).0
apply now (claim worker lock kinds) jobs = (claim_kinds now worker lock kinds jobs).1
apply now (keep id worker lock) jobs = (extend_lock now id worker lock jobs).0
apply now (end_well id) jobs = complete now id jobs
apply now (end_badly delay id) jobs = (fail now delay id jobs).1

-- Each statement at its time, the first one first.
unfoldable pub apply_all : List (ℕ × Op) → List Job → List Job
unfolding apply
apply_all [] jobs = jobs
apply_all ((now, op) ∷ ops) jobs = apply_all ops (apply now op jobs)

-- Whether a statement adds a job of the kind in another way than unless one is pending.
abbrev pub adds_freely : ℕ → Op → Bool
adds_freely kind (add _ k _) = k == kind
adds_freely kind (add_unless_identical _ _ k _) = k == kind
adds_freely kind _ = false

count-update_where :
    (p q : Job → Bool) (f : Job → Job) (jobs : List Job)
    → ((j : Job) → p (f j) ≡ true → p j ≡ true)
    → count_where p (update_where q f jobs) ≤ count_where p jobs
count-update_where p q f [] h = omega arith
count-update_where p q f (j ∷ jobs) h =
    let rest = count-update_where p q f jobs h in
    elim (Bool-cases (q j)) [
      | inr kept ↦ rw kept (ground (arith, rest))
      | inl changed ↦ rw changed (elim (Bool-cases (p (f j))) [
        | inl counted ↦ rw (counted, h j counted) (omega arith)
        | inr not_counted ↦ rw not_counted (ground (arith, rest))
      ])
    ]

count-append :
    (p : Job → Bool) (jobs : List Job) (j : Job)
    → count_where p (jobs ++ j ∷ []) ≡ count_where p jobs + (if p j then 1 else 0)
count-append p [] j = ground arith
count-append p (x ∷ jobs) j = ground (arith, count-append p jobs j)

count-none : (p : Job → Bool) (jobs : List Job) → any p jobs ≡ false → count_where p jobs ≡ 0
count-none p [] h = refl
count-none p (x ∷ jobs) h = ground (arith, count-none p jobs)

module _ (kind : ℕ) where
  abbrev pub pending_count : List Job → ℕ
  pending_count = count_where (pending_of kind)

  add_other :
      (now id k payload : ℕ) (jobs : List Job)
      → (k == kind) ≡ false
      → pending_count (enqueue now id k payload jobs) ≡ pending_count jobs
  unfolding enqueue
  add_other now id k payload jobs other =
      count-append (pending_of kind) jobs (new_job now id k payload) ∙ rw other (omega arith)

  -- A check that saw no pending job of the kind although the table has one when it inserts.
  abbrev pub misses : ℕ → (seen jobs : List Job) → Bool
  misses k seen jobs = k == kind && any (pending_of kind) jobs && not (any (pending_of kind) seen)

  abbrev pub missed : Op → List Job → ℕ
  missed (add_unless_pending seen _ k _) jobs = if misses k seen jobs then 1 else 0
  missed _ jobs = 0

  -- How many checks of a history missed a pending job.
  unfoldable pub stale_checks : List (ℕ × Op) → List Job → ℕ
  unfolding apply
  stale_checks [] jobs = 0
  stale_checks ((now, op) ∷ ops) jobs = missed op jobs + stale_checks ops (apply now op jobs)

  add_checked :
      (n now id k payload : ℕ) (seen jobs : List Job)
      → 1 ≤ n
      → pending_count jobs ≤ n
      → pending_count (enqueue_unless_pending now id k payload seen jobs).0
        ≤ n + (if misses k seen jobs then 1 else 0)
  unfolding enqueue_unless_pending enqueue
  add_checked n now id k payload seen jobs pos h = elim (Bool-cases (any (pending_of k) seen)) [
    | inl pending ↦ rw pending (ground arith)
    | inr none_pending ↦ rw none_pending (elim (Bool-cases (k == kind)) [
      | inr other ↦
          let kept = add_other now id k payload jobs other in rw other (omega (arith, kept, h))
      | inl same ↦
          let e : k ≡ kind = ground arith in
          let unseen : any (pending_of kind) seen ≡ false =
            subst (λ m. any (pending_of m) seen ≡ false) e none_pending in
          let one_more : pending_count (enqueue now id k payload jobs) ≡ pending_count jobs + 1 =
            count-append (pending_of kind) jobs (new_job now id k payload) ∙ rw same refl in
          elim (Bool-cases (any (pending_of kind) jobs)) [
            | inl there ↦ rw (same, unseen, there) (omega (arith, one_more, h))
            | inr nothing ↦
                let none_yet = count-none (pending_of kind) jobs nothing in
                rw (same, unseen, nothing) (omega (arith, one_more, none_yet, pos))
          ]
    ])
  ]

  update_AtMost :
      (n : ℕ) (q : Job → Bool) (f : Job → Job) (jobs : List Job)
      → ((j : Job) → pending_of kind (f j) ≡ true → pending_of kind j ≡ true)
      → pending_count jobs ≤ n
      → pending_count (update_where q f jobs) ≤ n
  update_AtMost n q f jobs h k =
      let fewer = count-update_where (pending_of kind) q f jobs h in omega arith

  claimed_AtMost :
      (n now worker lock : ℕ) (o : Option Job) (jobs : List Job)
      → pending_count jobs ≤ n
      → pending_count (claimed now worker lock o jobs) ≤ n
  claimed_AtMost n now worker lock none jobs h = h
  claimed_AtMost n now worker lock (some j) jobs h =
      update_AtMost n (is_job j.id) (lock_job now worker lock) jobs (λ x k. k) h

  failed_pending :
      (now delay : ℕ) (j : Job)
      → pending_of kind (give_up_or_wait now delay (count_attempt j)) ≡ true
      → pending_of kind j ≡ true
  failed_pending now delay j h = elim (Bool-cases (leb j.max_attempts (j.attempts + 1))) [
    | inl dead ↦ absurd (ground arith)
    | inr waiting ↦ rw waiting at h
  ]

  add_identical :
      (n now id k payload : ℕ) (seen jobs : List Job)
      → (k == kind) ≡ false
      → pending_count jobs ≤ n
      → pending_count (enqueue_unless_identical_pending now id k payload seen jobs).0 ≤ n
  unfolding enqueue_unless_identical_pending
  add_identical n now id k payload seen jobs other h =
      elim (Bool-cases (any (identical_pending k payload) seen)) [
        | inl pending ↦ rw pending h
        | inr none_pending ↦
            rw none_pending (subst (λ m. m ≤ n) (sym (add_other now id k payload jobs other)) h)
      ]

  apply_AtMost :
      (n now : ℕ) (op : Op) (jobs : List Job)
      → adds_freely kind op ≡ false
      → 1 ≤ n
      → pending_count jobs ≤ n
      → pending_count (apply now op jobs) ≤ n + missed op jobs
  unfolding apply claim_kinds extend_lock complete fail
  apply_AtMost n now (add id k payload) jobs other pos h =
      let kept = add_other now id k payload jobs other in omega (arith, kept, h)
  apply_AtMost n now (add_unless_pending seen id k payload) jobs other pos h =
      add_checked n now id k payload seen jobs pos h
  apply_AtMost n now (add_unless_identical seen id k payload) jobs other pos h =
      let kept = add_identical n now id k payload seen jobs other h in omega (arith, kept)
  apply_AtMost n now (claim worker lock kinds) jobs other pos h =
      let kept = claimed_AtMost n now worker lock (next_runnable now kinds jobs) jobs h in
      omega (arith, kept)
  apply_AtMost n now (keep id worker lock) jobs other pos h =
      let kept =
        update_AtMost n (λ j. is_job id j && is_locked_by worker j.locked_by && is_pending j)
          (λ j. record j { locked_until = some (now + lock) }) jobs (λ x k. k) h in
      omega (arith, kept)
  apply_AtMost n now (end_well id) jobs other pos h =
      let kept =
        update_AtMost n (is_job id) (λ j. record j { done_at = some now }) jobs
          (λ x k. ground arith) h in
      omega (arith, kept)
  apply_AtMost n now (end_badly delay id) jobs other pos h =
      let kept =
        update_AtMost n (is_job id) (λ j. give_up_or_wait now delay (count_attempt j)) jobs
          (failed_pending now delay) h in
      omega (arith, kept)

  apply_all-AtMost :
      (n : ℕ) (ops : List (ℕ × Op)) (jobs : List Job)
      → All (λ o. adds_freely kind o.1 ≡ false) ops
      → 1 ≤ n
      → pending_count jobs ≤ n
      → pending_count (apply_all ops jobs) ≤ n + stale_checks ops jobs
  unfolding apply_all stale_checks
  apply_all-AtMost n [] jobs a pos h = omega (arith, h)
  apply_all-AtMost n ((now, op) ∷ ops) jobs a pos h =
      let rest =
        apply_all-AtMost (n + missed op jobs) ops (apply now op jobs) a.1 (omega (arith, pos))
          (apply_AtMost n now op jobs a.0 pos h) in
      omega (arith, rest)

  -- Over any history of the queue, whatever snapshots its conditional statements see, at most one
  -- job of a kind waits or runs, and one more for each check that missed a pending job, if at most
  -- one did before and jobs of that kind are only ever added unless one is seen to be pending.
  pub apply_all-pending_count :
      (ops : List (ℕ × Op)) (jobs : List Job)
      → All (λ o. adds_freely kind o.1 ≡ false) ops
      → pending_count jobs ≤ 1
      → pending_count (apply_all ops jobs) ≤ 1 + stale_checks ops jobs
  apply_all-pending_count ops jobs a h = apply_all-AtMost 1 ops jobs a (omega arith) h
