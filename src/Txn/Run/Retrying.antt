-- ===== src/Txn/Run/Retrying.antt =====
-- txn/transaction.py: the retry loop of `_run` commits the first attempt that meets no conflict.
use persistence_os.Base.{
  ℕ, zero, suc, ◌+◌, ◌≤◌, ◌<◌, ◌≡◌, refl, false, none, some, if◌then◌else◌, arith, Outcome, ok, err,
  ◌>>=◌, Bool-cases, Outcome-cases, inl, inr, ◌⊎◌,
}
use mathlib.Core.Path.{subst}
use persistence_os.Fact.Datom.{Python}
use persistence_os.Txn.Transaction.{TxnError, deadline_exceeded, retry_exhausted}
use persistence_os.Txn.Commit.{Host, Committed}
use persistence_os.Txn.Run.{Attempt, Body, try_once, run_from, run}

module _ {V : Type 0} ⦃py : Python V⦄ (host : Host V) (body : Body V) (world : ℕ → Attempt V) where
  abbrev pub Conflicts : ℕ → Type 0
  Conflicts n = (Attempt.expired (world n) ≡ false) × (try_once host body n (world n) ≡ ok none)

  abbrev pub Commits : ℕ → Committed V → Type 0
  Commits n c = (Attempt.expired (world n) ≡ false) × (try_once host body n (world n) ≡ ok (some c))

  earlier :
      (attempt k : ℕ)
      → Conflicts attempt
      → ((m : ℕ) → m < k → Conflicts (suc attempt + m))
      → (m : ℕ) → m < suc k
      → Conflicts (attempt + m)
  earlier attempt k here later zero lt = subst Conflicts (omega arith) here
  earlier attempt k here later (suc m) lt = subst Conflicts (omega arith) (later m (omega arith))

  -- What one round decides.
  round :
      (attempt : ℕ) (again : Outcome TxnError (Committed V)) (c : Committed V)
      → (if Attempt.expired (world attempt)
          then err deadline_exceeded
          else (try_once host body attempt (world attempt) >>= λ r. elim r [
            | none ↦ again
            | some d ↦ ok d
          ]))
        ≡ ok c
      → Commits attempt c ⊎ (Conflicts attempt × (again ≡ ok c))
  round attempt again c h = elim (Bool-cases (Attempt.expired (world attempt))) [
    | inl late ↦ absurd (ground arith)
    | inr early ↦ elim (Outcome-cases (try_once host body attempt (world attempt))) [
      | inr (e, failed) ↦ absurd (ground arith)
      | inl (none, conflict) ↦ inr ((early, conflict), ground arith)
      | inl (some d, commits) ↦ inl (early, ground arith)
    ]
  ]

  run_from-Commits :
      (left attempt : ℕ) (c : Committed V)
      → run_from host body left attempt world ≡ ok c
      → (k : ℕ) × (k < left) × ((m : ℕ) → m < k → Conflicts (attempt + m)) × Commits (attempt + k) c
  unfolding run_from
  run_from-Commits zero attempt c h = absurd (ground arith)
  run_from-Commits (suc n) attempt c h =
      elim (round attempt (run_from host body n (suc attempt) world) c h) [
        | inl now ↦ (
          0,
          omega arith,
          (λ m lt. absurd (omega arith)),
          subst (λ n. Commits n c) (omega arith) now,
        )
        | inr (here, rest) ↦
            let (k, lt, before, commits) = run_from-Commits n (suc attempt) c rest in
            (
              suc k,
              omega arith,
              earlier attempt k here before,
              subst (λ n. Commits n c) (omega arith) commits,
            )
      ]

  -- If the retry loop, outside of another dosync, returns a commit, then it is the commit of an
  -- attempt whose number is at most max_retries, and all attempts before it met a conflict before
  -- the deadline.
  pub run-Commits :
      (max_retries : ℕ) (c : Committed V)
      → run host body false max_retries world ≡ ok c
      → (k : ℕ) × (k ≤ max_retries) × ((m : ℕ) → m < k → Conflicts m) × Commits k c
  unfolding run
  run-Commits max_retries c h =
      let (k, lt, before, commits) = run_from-Commits (suc max_retries) 0 c h in
      (
        k,
        omega arith,
        (λ m l. subst Conflicts (omega arith) (before m l)),
        subst (λ n. Commits n c) (omega arith) commits,
      )

  run_from-reaches :
      (left attempt k : ℕ) (c : Committed V)
      → k < left
      → ((m : ℕ) → m < k → Conflicts (attempt + m))
      → Commits (attempt + k) c
      → run_from host body left attempt world ≡ ok c
  unfolding run_from
  run_from-reaches zero attempt k c lt before commits = absurd (omega arith)
  run_from-reaches (suc n) attempt zero c lt before commits =
      let now : Commits attempt c = subst (λ n. Commits n c) (omega arith) commits in
      rw (now.0, now.1) refl
  run_from-reaches (suc n) attempt (suc k) c lt before commits =
      let here : Conflicts attempt = subst Conflicts (omega arith) (before 0 (omega arith)) in
      let rest =
        run_from-reaches n (suc attempt) k c (omega arith)
          (λ m l. subst Conflicts (omega arith) (before (suc m) (omega arith)))
          (subst (λ n. Commits n c) (omega arith) commits) in
      rw (here.0, here.1) rest

  -- If an attempt whose number is at most max_retries commits before the deadline, and all attempts
  -- before it met a conflict before the deadline, then the retry loop, outside of another dosync,
  -- returns its commit.
  pub run-reaches :
      (max_retries k : ℕ) (c : Committed V)
      → k ≤ max_retries
      → ((m : ℕ) → m < k → Conflicts m)
      → Commits k c
      → run host body false max_retries world ≡ ok c
  unfolding run
  run-reaches max_retries k c le before commits =
      run_from-reaches (suc max_retries) 0 k c (omega arith)
        (λ m l. subst Conflicts (omega arith) (before m l))
        (subst (λ n. Commits n c) (omega arith) commits)

  run_from-exhausted :
      (left attempt : ℕ)
      → ((m : ℕ) → m < left → Conflicts (attempt + m))
      → Attempt.expired (world (attempt + left)) ≡ false
      → run_from host body left attempt world ≡ err retry_exhausted
  unfolding run_from
  run_from-exhausted zero attempt before early =
      let now : Attempt.expired (world attempt) ≡ false =
        subst (λ n. Attempt.expired (world n) ≡ false) (omega arith) early in
      rw now refl
  run_from-exhausted (suc n) attempt before early =
      let here : Conflicts attempt = subst Conflicts (omega arith) (before 0 (omega arith)) in
      let rest =
        run_from-exhausted n (suc attempt)
          (λ m l. subst Conflicts (omega arith) (before (suc m) (omega arith)))
          (subst (λ n. Attempt.expired (world n) ≡ false) (omega arith) early) in
      rw (here.0, here.1) rest

  -- If all attempts up to number max_retries meet a conflict, and the deadline has not passed after
  -- them, then the retry loop, outside of another dosync, raises TxnRetryExhausted.
  pub run-exhausted :
      (max_retries : ℕ)
      → ((m : ℕ) → m ≤ max_retries → Conflicts m)
      → Attempt.expired (world (suc max_retries)) ≡ false
      → run host body false max_retries world ≡ err retry_exhausted
  unfolding run
  run-exhausted max_retries before early =
      run_from-exhausted (suc max_retries) 0
        (λ m l. subst Conflicts (omega arith) (before m (omega arith)))
        (subst (λ n. Attempt.expired (world n) ≡ false) (omega arith) early)
