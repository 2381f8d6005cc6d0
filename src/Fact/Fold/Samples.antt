-- ===== src/Fact/Fold/Samples.antt =====
-- The theorems on `DB.fold` at concrete inputs: numbers are summed and stored, and 0 is refused.
use persistence_os.Base.{
  ℕ, suc, ◌+◌, List, [], ◌∷◌, ◌≡◌, ◌≢◌, refl, ok, err, num_eq, if◌then◌else◌, first, Bool-cases,
  inl, inr, length,
}
use persistence_os.Base.Dict.{lookup, insert}
use persistence_os.Base.Text.{lstrip, take}
use persistence_os.Fact.Datom.{tx, Datetime, Datom, make, canonicalise, with_tx}
use persistence_os.Fact.Store.{allocate_and_append, mark_invalidated}
use persistence_os.Fact.Shape.{
  shape, coerce_dt, coerce_end, supersede, companion_of, companion_span, hash_fact, is_open,
}
use persistence_os.Fact.Transact.{
  transact_batch, shape_batch, add, commit, mark_stored, build_index, update_open,
}
use persistence_os.Fact.Samples.{Value, int, small_python, at, fact}
use persistence_os.Fact.Fold.{abort, Reduced, fn_raised, reduced, fold_error, Run, fold}
use persistence_os.Fact.Fold.Counting.{Counted, fold-Counted}
use persistence_os.Fact.Fold.Resuming.{fold-Resumes}

abbrev sum_up : ℕ → ℕ → List (Datom Value) → Reduced ℕ Value
sum_up a i log =
    if num_eq i 0 then fn_raised else reduced (a + i) (fact "total" "sum" (int (tx (a + i))) i ∷ [])

abbrev clock : ℕ → Datetime
clock n = at (suc n)

-- The log that a fold left. Its line opens what a run of it goes through.
log_after : {A R : Type 0} → Run A Value (R × (ℕ × List (Datom Value))) → List (Datom Value)
unfolding fold transact_batch shape_batch shape coerce_dt coerce_end supersede companion_of
    companion_span make canonicalise hash_fact first add commit mark_stored build_index update_open
    mark_invalidated allocate_and_append with_tx lstrip take is_open lookup insert
log_after (ok (a, (n, log))) = log
log_after (err (e, log)) = log

abbrev stopped_log : List (Datom Value)
stopped_log = log_after (fold [] sum_up abort 0 clock 0 (3 ∷ 4 ∷ 0 ∷ 5 ∷ []) [])

three_datoms : length stopped_log ≡ 3
unfolding log_after
three_datoms = refl

writes : (a b i : ℕ) (log : List (Datom Value)) → sum_up a i log ≢ reduced b []
writes a b i log = elim (Bool-cases (num_eq i 0)) [
  | inl zero_item ↦ rw zero_item (λ h. cc h)
  | inr other_item ↦ rw other_item (λ h. cc h)
]

fold-Resumes_example : fold [] sum_up abort 0 clock 0 (3 ∷ 4 ∷ []) [] ≡ ok (7, (3, stopped_log))
unfolding log_after
fold-Resumes_example =
    fold-Resumes [] sum_up abort clock writes (λ h. cc h) (3 ∷ 4 ∷ 0 ∷ 5 ∷ []) 0 7 3 2 []
      stopped_log refl

fold-Counted_example : Counted 0 (fold [] sum_up abort 2 clock 0 (3 ∷ 4 ∷ 5 ∷ []) [])
fold-Counted_example = fold-Counted [] sum_up abort 2 clock 0 (3 ∷ 4 ∷ 5 ∷ []) []

-- An item without facts moves the accumulator and not the checkpoint, so the error after it has the
-- accumulator from before it.
abbrev silent : ℕ → ℕ → List (Datom Value) → Reduced ℕ Value
silent a i log = if num_eq i 0 then fn_raised else reduced (a + i) []

stale_accumulator : fold [] silent abort 0 clock 0 (3 ∷ 0 ∷ []) [] ≡ err (fold_error 0 0 1, [])
unfolding log_after
stale_accumulator = refl
