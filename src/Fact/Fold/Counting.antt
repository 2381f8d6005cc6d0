-- ===== src/Fact/Fold/Counting.antt =====
-- fact/db.py: the count of a fold, in its result and in its errors.
use persistence_os.Base.{
  ℕ, suc, ◌+◌, ◌≤◌, Bool, true, false, ◌++◌, List, [], ◌∷◌, map, reverse, ◌≡◌, refl, ◌∙◌, Outcome,
  ok, err, ◌>>=◌, arith, length, length-append, bind_ok, if◌then◌else◌, num_eq, leb,
}
use persistence_os.Fact.Datom.{TxId, Datetime, Error, Fact, Python, Provenance, Datom}
use persistence_os.Fact.Store.{stamp, next_tx, allocate_and_append, mark_invalidated}
use persistence_os.Fact.Shape.{Call}
use persistence_os.Fact.Transact.{
  Pending, nothing_pending, mark_all, mark_stored, commit, build_index, shape_batch, transact_batch,
}
use persistence_os.Fact.Fold.{
  OnError, abort, skip, checkpoint, other, on_raise, is_other, Reduced, fn_raised, not_a_list,
  reduced, fold_error, bad_on_error, transact_raised, Progress, Run, or_raise, flush_call, flushed,
  flush, flush_facts, flush_rest, settled, take_in, settle, fold_items, fold, outcome,
}

module _ {V : Type 0} where
  length-map : (f : Datom V → Datom V) (xs : List (Datom V)) → length (map f xs) ≡ length xs
  length-map f [] = refl
  length-map f (x ∷ xs) = omega (arith, length-map f xs)

  length-mark_all :
      (olds : List TxId) (new : TxId) (log : List (Datom V))
      → length (mark_all olds new log) ≡ length log
  unfolding mark_all mark_invalidated
  length-mark_all [] new log = refl
  length-mark_all (old ∷ olds) new log =
      length-mark_all olds new (mark_invalidated old new log) ∙ length-map _ log

  length-mark_stored :
      (olds : List TxId) (ds log : List (Datom V))
      → length (mark_stored olds (ds, log)) ≡ length log
  unfolding mark_stored
  length-mark_stored olds [] log = refl
  length-mark_stored olds (d ∷ ds) log = length-mark_all olds d.txid log

module _ {V : Type 0} ⦃py : Python V⦄ where
  length-commit : (p : Pending V) (log : List (Datom V)) → length log ≤ length (commit p log)
  unfolding commit allocate_and_append
  length-commit p log = omega (
    arith,
    length-mark_stored p.invalidations (allocate_and_append p.new_datoms log).0
        (allocate_and_append p.new_datoms log).1,
    appended p.new_datoms,
  )
    where
      appended : (ds : List (Datom V)) → length log ≤ length (allocate_and_append ds log).1
      appended [] = omega arith
      appended (d ∷ ds) = omega (arith, length-append {0} log (map (stamp (next_tx log)) (d ∷ ds)))

  length-transact_batch :
      (c : Call V) (fs : List (Fact V)) (log log' : List (Datom V))
      → transact_batch c fs log ≡ ok log'
      → length log ≤ length log'
  unfolding transact_batch
  length-transact_batch c [] log log' h = let same : log ≡ log' = cc h in rw same (omega arith)
  length-transact_batch c (f ∷ fs) log log' h =
      let (p, _, e) =
        bind_ok (shape_batch c (build_index [] (reverse log)) (f ∷ fs) [] nothing_pending) _ h in
      let same : commit p log ≡ log' = cc e in rw (← same) (length-commit p log)

module _ {A V : Type 0} (base : ℕ) where
  -- The log is as much longer than at the start as the count says.
  abbrev CountedRun : Run A V (Progress A V) → Type 0
  CountedRun (ok p) = length p.log ≡ base + p.committed_total
  CountedRun (err (fold_error a n k, log)) = length log ≡ base + n
  CountedRun (err (bad_on_error, log)) = length log ≡ base
  CountedRun (err (transact_raised e, log)) = base ≤ length log

  abbrev pub Counted : Run A V (A × (ℕ × List (Datom V))) → Type 0
  Counted (ok (a, (n, log))) = length log ≡ base + n
  Counted (err (fold_error a n k, log)) = length log ≡ base + n
  Counted (err (bad_on_error, log)) = length log ≡ base
  Counted (err (transact_raised e, log)) = base ≤ length log

  CountedRun-bind :
      (r : Run A V (Progress A V)) (k : Progress A V → Run A V (Progress A V))
      → CountedRun r
      → ((p : Progress A V) → length p.log ≡ base + p.committed_total → CountedRun (k p))
      → CountedRun (r >>= k)
  CountedRun-bind (ok p) k h f = f p h
  CountedRun-bind (err (fold_error a n i, log)) k h f = h
  CountedRun-bind (err (bad_on_error, log)) k h f = h
  CountedRun-bind (err (transact_raised e, log)) k h f = h

  Counted-bind :
      (r : Run A V (Progress A V)) (k : Progress A V → Run A V (A × (ℕ × List (Datom V))))
      → CountedRun r
      → ((p : Progress A V) → length p.log ≡ base + p.committed_total → Counted (k p))
      → Counted (r >>= k)
  Counted-bind (ok p) k h f = f p h
  Counted-bind (err (fold_error a n i, log)) k h f = h
  Counted-bind (err (bad_on_error, log)) k h f = h
  Counted-bind (err (transact_raised e, log)) k h f = h

  Counted-outcome :
      (r : Run A V (Progress A V)) → CountedRun r → Counted (r >>= λ q. ok (outcome q))
  Counted-outcome (ok p) h = h
  Counted-outcome (err (fold_error a n i, log)) h = h
  Counted-outcome (err (bad_on_error, log)) h = h
  Counted-outcome (err (transact_raised e, log)) h = h

module _ {A V : Type 0} ⦃py : Python V⦄ (prov : Provenance V) (base : ℕ) where
  after_batch :
      (p : Progress A V) (r : Outcome Error (List (Datom V)))
      → length p.log ≡ base + p.committed_total
      → ((l : List (Datom V)) → r ≡ ok l → length p.log ≤ length l)
      → CountedRun base (or_raise p.log r >>= λ l. ok (flushed p l))
  after_batch p (ok l) h grown = omega (arith, grown l refl)
  after_batch p (err e) h grown = omega arith

  flush_facts-Counted :
      (now : Datetime) (fs : List (Fact V)) (p : Progress A V)
      → length p.log ≡ base + p.committed_total
      → CountedRun base (flush_facts prov now fs p)
  unfolding flush_facts
  flush_facts-Counted now [] p h = h
  flush_facts-Counted now (f ∷ fs) p h =
      after_batch p (transact_batch (flush_call prov now) (f ∷ fs) p.log) h
        (length-transact_batch (flush_call prov now) (f ∷ fs) p.log)

  flush_rest-Counted :
      (now : Datetime) (fs : List (Fact V)) (p : Progress A V)
      → length p.log ≡ base + p.committed_total
      → CountedRun base (flush_rest prov now fs p)
  flush_rest-Counted now [] p h = h
  flush_rest-Counted now (f ∷ fs) p h = flush_facts-Counted now (f ∷ fs) p h

  settle-Counted :
      (every : ℕ) (now : Datetime) (p : Progress A V)
      → length p.log ≡ base + p.committed_total
      → CountedRun base (settle prov every now p)
  unfolding settle flush
  settle-Counted every now p h = by_tests (num_eq every 0) (leb every p.pending_count)
    where
      by_tests :
          (b c : Bool)
          → CountedRun base (
              if b
              then flush_facts prov now p.pending_facts p
              else if c
              then flush_facts prov now p.pending_facts p
              else ok p)
      by_tests true c = flush_facts-Counted now p.pending_facts p h
      by_tests false true = flush_facts-Counted now p.pending_facts p h
      by_tests false false = h

  on_raise-Counted :
      (policy : OnError) (idx : ℕ) (p : Progress A V)
      → length p.log ≡ base + p.committed_total
      → CountedRun base (on_raise policy idx p)
  on_raise-Counted abort idx p h = h
  on_raise-Counted skip idx p h = h
  on_raise-Counted checkpoint idx p h = h
  on_raise-Counted other idx p h = h

  take_in-Counted :
      (policy : OnError) (every : ℕ) (now : Datetime) (idx : ℕ) (r : Reduced A V) (p : Progress A V)
      → length p.log ≡ base + p.committed_total
      → CountedRun base (take_in prov policy every now idx r p)
  unfolding take_in
  take_in-Counted policy every now idx fn_raised p h = on_raise-Counted policy idx p h
  take_in-Counted policy every now idx (not_a_list a) p h = h
  take_in-Counted policy every now idx (reduced a fs) p h =
      settle-Counted every now
        (record p {
          acc = a;
          pending_facts = p.pending_facts ++ fs;
          pending_count = suc p.pending_count;
        })
        h

module _ {A I V : Type 0} ⦃py : Python V⦄ (prov : Provenance V)
    (fn : A → I → List (Datom V) → Reduced A V) (policy : OnError) (every : ℕ)
    (clock : ℕ → Datetime) where
  fold_items-Counted :
      (base idx : ℕ) (items : List I) (p : Progress A V)
      → length p.log ≡ base + p.committed_total
      → CountedRun base (fold_items prov fn policy every clock idx items p)
  unfolding fold_items
  fold_items-Counted base idx [] p h = h
  fold_items-Counted base idx (i ∷ is) p h =
      CountedRun-bind base (take_in prov policy every (clock idx) idx (fn p.acc i p.log) p)
        (fold_items prov fn policy every clock (suc idx) is)
        (take_in-Counted prov base policy every (clock idx) idx (fn p.acc i p.log) p h)
        (fold_items-Counted base (suc idx) is)

  -- The count that a fold returns, and the count of a FoldError, is the number of datoms by which
  -- the log has grown; a bad policy leaves the length of the log, and an error of the transaction
  -- does not shorten it.
  pub fold-Counted :
      (seed : A) (items : List I) (log : List (Datom V))
      → Counted (length log) (fold prov fn policy every clock seed items log)
  unfolding fold
  fold-Counted seed items log = by_policy (is_other policy)
    where
      by_policy :
          (b : Bool)
          → Counted (length log) (
              if b
              then err (bad_on_error, log)
              else (fold_items prov fn policy every clock 0 items (settled seed 0 log) >>= λ p.
                  flush_rest prov (clock (length items)) p.pending_facts p >>= λ q. ok (outcome q)))
      by_policy true = refl
      by_policy false =
          Counted-bind (length log)
            (fold_items prov fn policy every clock 0 items (settled seed 0 log))
            (λ p. flush_rest prov (clock (length items)) p.pending_facts p >>= λ q. ok (outcome q))
            (fold_items-Counted (length log) 0 items (settled seed 0 log) (omega arith))
            (λ p h.
              Counted-outcome (length log)
                (flush_rest prov (clock (length items)) p.pending_facts p)
                (flush_rest-Counted prov (length log) (clock (length items)) p.pending_facts p h))
