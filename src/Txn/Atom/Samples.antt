-- ===== src/Txn/Atom/Samples.antt =====
-- The theorems on txn/atom.py at concrete inputs: a counter that is made, swapped and reset.
use persistence_os.Base.{ℕ, suc, true, false, List, [], ◌≡◌, refl, Outcome, ok, err, first}
use persistence_os.Base.Text.{lstrip}
use persistence_os.Fact.Datom.{tx, Datom, make, canonicalise, with_tx}
use persistence_os.Fact.Shape.{
  coerce_dt, coerce_end, find_prior_assert, is_open_at, supersede, companion_of, companion_span,
  hash_fact, shape,
}
use persistence_os.Fact.Store.{allocate_and_append, mark_invalidated}
use persistence_os.Fact.Transact.{transact, shape_all, add, commit, mark_stored}
use persistence_os.Fact.Samples.{Value, int, str, small_python, at}
use persistence_os.Txn.Atom.{
  AtomError, Atom, Clock, atom_in_dosync_prohibited, already_open, transact_value,
  read_latest_value, deref, swap, compare_and_set, reset, create,
}
use persistence_os.Txn.Atom.Reading.{Swapped, compare_and_set-Swapped, create_once}

abbrev counter : Atom
counter = record { eid = "counter"; db_id = "db" }

abbrev clock_at : ℕ → Clock
clock_at n = record { at_write = at n; at_transact = at n }

abbrev nil : Value
nil = str ""

abbrev number : ℕ → Value
number n = int (tx n)

abbrev plus_one : Value → Outcome AtomError Value
plus_one (int (tx n)) = ok (number (suc n))
plus_one v = ok (number 1)

-- The log that an operation returned. Its line opens what a run of it goes through.
log_of : {A : Type 0} → Outcome AtomError (A × List (Datom Value)) → List (Datom Value)
unfolding create reset swap compare_and_set deref transact_value read_latest_value transact
    shape_all shape coerce_dt coerce_end supersede companion_of companion_span find_prior_assert
    is_open_at make canonicalise hash_fact first add commit mark_stored mark_invalidated
    allocate_and_append with_tx lstrip
log_of (ok (x, log)) = log
log_of (err _) = []

abbrev made_log : List (Datom Value)
made_log = log_of (create (clock_at 10) "counter" "db" (number 4) [])

abbrev swapped_log : List (Datom Value)
swapped_log = log_of (swap nil false 256 (clock_at 20) counter plus_one made_log)

abbrev reset_log : List (Datom Value)
reset_log = log_of (reset false (clock_at 20) counter (number 9) made_log)

refused_in_dosync :
    reset true (clock_at 20) counter (number 9) made_log ≡ err atom_in_dosync_prohibited
unfolding log_of
refused_in_dosync = refl

create_once_example :
    (deref nil false counter made_log ≡ ok (number 4))
    × (create (clock_at 20) "counter" "db" (number 7) made_log ≡ err already_open)
unfolding log_of
create_once_example =
    create_once nil (clock_at 10) (clock_at 20) "counter" "db" (number 4) (number 7) counter []
      made_log refl

compare_and_set-Swapped_example :
    Swapped nil false counter (number 4) (number 9) made_log true reset_log
unfolding log_of
compare_and_set-Swapped_example =
    compare_and_set-Swapped nil false (clock_at 20) counter (number 4) (number 9) true made_log
      reset_log refl
