-- ===== src/Fact/Fold/Resuming.antt =====
-- fact/db.py: what a `FoldError` says, when each item is committed on its own.
use persistence_os.Base.{
  ℕ, zero, suc, ◌+◌, ◌-◌, List, [], ◌∷◌, ◌≡◌, ◌≢◌, refl, sym, ap, ◌∙◌, Outcome, ok, err, ◌>>=◌,
  arith, length, Bool-cases, inl, inr,
}
use persistence_os.Fact.Datom.{Datetime, Error, Fact, Python, Provenance, Datom}
use persistence_os.Fact.Transact.{transact_batch}
use persistence_os.Fact.Fold.{
  OnError, on_raise, flushed, bad_on_error, transact_raised, is_other, abort, skip, checkpoint,
  other, Reduced, fn_raised, not_a_list, reduced, fold_error, Progress, Run, or_raise, flush_call,
  flush_facts, settled, take_in, fold_items, fold, flush_rest, outcome,
}

-- `xs[:n]`
abbrev pub first_items : {I : Type 0} → ℕ → List I → List I
first_items zero is = []
first_items (suc n) [] = []
first_items (suc n) (i ∷ is) = i ∷ first_items n is

module _ {A I V : Type 0} ⦃py : Python V⦄ (prov : Provenance V)
    (fn : A → I → List (Datom V) → Reduced A V) (policy : OnError) (clock : ℕ → Datetime) where
  -- The reducer returns at least one fact, whenever it returns a list.
  abbrev pub AlwaysWrites : Type 0
  AlwaysWrites = (a b : A) (i : I) (log : List (Datom V)) → fn a i log ≢ reduced b []

  -- One item leaves the fold settled, or ends it with what was settled before.
  abbrev Settles : ℕ → A → ℕ → List (Datom V) → Run A V (Progress A V) → Type 0
  Settles idx a n log (ok p) = (b : A) × (m : ℕ) × (log' : List (Datom V)) × (p ≡ settled b m log')
  Settles idx a n log (err (fold_error b m j, log')) = (b ≡ a) × (m ≡ n) × (j ≡ idx) × (log' ≡ log)
  Settles idx a n log (err _) = Unit

  after_batch :
      (idx : ℕ) (a b : A) (n : ℕ) (log : List (Datom V)) (p : Progress A V)
      (r : Outcome Error (List (Datom V)))
      → p.acc ≡ b
      → Settles idx a n log (or_raise log r >>= λ l. ok (flushed p l))
  after_batch idx a b n log p (ok l) h =
      (p.acc, p.committed_total + (length l - length p.log), l, refl)
  after_batch idx a b n log p (err e) h = tt

  after_fn :
      (kept : policy ≢ skip) (idx : ℕ) (a : A) (n : ℕ) (log : List (Datom V)) (r : Reduced A V)
      → ((b : A) → r ≢ reduced b [])
      → Settles idx a n log (take_in prov policy 0 (clock idx) idx r (settled a n log))
  unfolding take_in flush_facts
  after_fn kept idx a n log fn_raised h = by_policy policy kept
    where
      by_policy : (q : OnError) → q ≢ skip → Settles idx a n log (on_raise q idx (settled a n log))
      by_policy abort k = (refl, refl, refl, refl)
      by_policy skip k = absurd (k refl)
      by_policy checkpoint k = (refl, refl, refl, refl)
      by_policy other k = (refl, refl, refl, refl)
  after_fn kept idx a n log (not_a_list b) h = (refl, refl, refl, refl)
  after_fn kept idx a n log (reduced b []) h = absurd (h b refl)
  after_fn kept idx a n log (reduced b (f ∷ fs)) h =
      after_batch idx a b n log
        (record (settled a n log) { acc = b; pending_facts = f ∷ fs; pending_count = 1 })
        (transact_batch (flush_call prov (clock idx)) (f ∷ fs) log) refl

  abbrev Resumes : ℕ → List I → A → ℕ → List (Datom V) → A → ℕ → ℕ → List (Datom V) → Type 0
  Resumes idx items a n log b m k log' =
      (j : ℕ) × (k ≡ idx + j)
      × (fold_items prov fn policy 0 clock idx (first_items j items) (settled a n log)
          ≡ ok (settled b m log'))

  module _ (idx : ℕ) (i : I) (is : List I) (a b : A) (n m k : ℕ) (log log' : List (Datom V))
      (more : (c : A) (l : ℕ) (log1 : List (Datom V))
        → fold_items prov fn policy 0 clock (suc idx) is (settled c l log1)
          ≡ err (fold_error b m k, log')
        → Resumes (suc idx) is c l log1 b m k log') where
    by_item :
        (r : Run A V (Progress A V))
        → take_in prov policy 0 (clock idx) idx (fn a i log) (settled a n log) ≡ r
        → Settles idx a n log r
        → r >>= fold_items prov fn policy 0 clock (suc idx) is ≡ err (fold_error b m k, log')
        → Resumes idx (i ∷ is) a n log b m k log'
    unfolding fold_items
    by_item (ok p) e (c, l, log1, same) h =
        let (j, at, again) =
          more c l log1 (ap (fold_items prov fn policy 0 clock (suc idx) is) (sym same) ∙ h) in
        (
          suc j,
          omega (arith, at),
          ap (λ r. r >>= fold_items prov fn policy 0 clock (suc idx) (first_items j is)) e
              ∙ ap (fold_items prov fn policy 0 clock (suc idx) (first_items j is)) same
              ∙ again,
        )
    by_item (err (fold_error b' m' k', l')) e (sb, sm, sk, sl) h =
        let at : k' ≡ k = cc h in
        let here : settled a n log ≡ settled b m log' = cc (h, sb, sm, sl) in
        (0, omega (arith, at, sk), ap ok here)
    by_item (err (bad_on_error, l')) e s h = absurd (cc h)
    by_item (err (transact_raised x, l')) e s h = absurd (cc h)

  resume_items :
      (writes : AlwaysWrites) (kept : policy ≢ skip) (idx : ℕ) (items : List I) (a b : A)
      (n m k : ℕ) (log log' : List (Datom V))
      → fold_items prov fn policy 0 clock idx items (settled a n log) ≡ err (fold_error b m k, log')
      → Resumes idx items a n log b m k log'
  unfolding fold_items
  resume_items writes kept idx [] a b n m k log log' h = absurd (cc h)
  resume_items writes kept idx (i ∷ is) a b n m k log log' h =
      by_item idx i is a b n m k log log'
        (λ c l log1. resume_items writes kept (suc idx) is c b l m k log1 log')
        (take_in prov policy 0 (clock idx) idx (fn a i log) (settled a n log)) refl
        (after_fn kept idx a n log (fn a i log) (λ c. writes a c i log)) h

  abbrev ended : Datetime → Progress A V → Run A V (A × (ℕ × List (Datom V)))
  ended now p = flush_rest prov now p.pending_facts p >>= λ q. ok (outcome q)

  -- The last flush raises no `FoldError`.
  no_fold_error :
      (now : Datetime) (fs : List (Fact V)) (p : Progress A V) (b : A) (m k : ℕ)
      (log' : List (Datom V))
      → flush_rest prov now fs p >>= (λ q. ok (outcome q)) ≢ err (fold_error b m k, log')
  unfolding flush_facts
  no_fold_error now [] p b m k log' = λ h. cc h
  no_fold_error now (f ∷ fs) p b m k log' =
      by_batch (transact_batch (flush_call prov now) (f ∷ fs) p.log)
    where
      by_batch :
          (r : Outcome Error (List (Datom V)))
          → (or_raise p.log r >>= (λ l. ok (flushed p l))) >>= (λ q. ok (outcome q))
            ≢ err (fold_error b m k, log')
      by_batch (ok l) = λ h. cc h
      by_batch (err e) = λ h. cc h

  by_items :
      (now now' : Datetime) (items : List I) (seed b : A) (m k : ℕ) (log log' : List (Datom V))
      (r : Run A V (Progress A V))
      → fold_items prov fn policy 0 clock 0 items (settled seed 0 log) ≡ r
      → (fold_items prov fn policy 0 clock 0 items (settled seed 0 log)
            ≡ err (fold_error b m k, log')
          → Resumes 0 items seed 0 log b m k log')
      → r >>= ended now ≡ err (fold_error b m k, log')
      → fold_items prov fn policy 0 clock 0 (first_items k items) (settled seed 0 log)
          >>= ended now'
        ≡ ok (b, (m, log'))
  by_items now now' items seed b m k log log' (ok p) e resume h =
      absurd (no_fold_error now p.pending_facts p b m k log' h)
  by_items now now' items seed b m k log log' (err x) e resume h =
      let (j, at, again) = resume (e ∙ cc h) in
      let same : k ≡ j = omega (arith, at) in
      ap
        (λ i.
          fold_items prov fn policy 0 clock 0 (first_items i items) (settled seed 0 log)
          >>= ended now')
        same
      ∙ ap (λ r. r >>= ended now') again

  -- With checkpoint_every 0, a policy that is not skip, and a reducer that writes at least one fact
  -- whenever it returns a list, a FoldError at an item index tells exactly what the fold of the
  -- items before that index returns: its accumulator, its count, and the log.
  pub fold-Resumes :
      (writes : AlwaysWrites) (kept : policy ≢ skip) (items : List I) (seed b : A) (m k : ℕ)
      (log log' : List (Datom V))
      → fold prov fn policy 0 clock seed items log ≡ err (fold_error b m k, log')
      → fold prov fn policy 0 clock seed (first_items k items) log ≡ ok (b, (m, log'))
  unfolding fold
  fold-Resumes writes kept items seed b m k log log' h = elim (Bool-cases (is_other policy)) [
    | inl bad ↦ absurd (cc (rw bad at h))
    | inr fine ↦ rw fine (
        by_items (clock (length items)) (clock (length (first_items k items))) items seed b m k log
          log' (fold_items prov fn policy 0 clock 0 items (settled seed 0 log)) refl
          (resume_items writes kept 0 items seed b 0 m k log log') (rw fine at h))
  ]
