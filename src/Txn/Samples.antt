-- ===== src/Txn/Samples.antt =====
-- The theorems on txn/ at concrete inputs: a counter that is read and altered.
use persistence_os.Base.{
  ℕ, zero, suc, ◌≤◌, ◌<◌, true, false, Option, none, some, List, [], ◌∷◌, ◌≡◌, refl, Outcome, ok,
  err, arith, num_eq, if◌then◌else◌, keep,
}
use persistence_os.Base.Dict.{lookup, erase, insert}
use persistence_os.Base.Text.{lstrip, take}
use persistence_os.Fact.Datom.{tx, datetime, asserted, Datom, make, canonicalise, with_tx}
use persistence_os.Fact.Store.{since, mark_invalidated, allocate_and_append}
use persistence_os.Fact.Shape.{
  shape, coerce_dt, coerce_end, supersede, companion_of, companion_span, hash_fact, is_open,
}
use persistence_os.Fact.Transact.{
  transact_batch, shape_batch, add, commit, mark_stored, build_index, update_open,
}
use persistence_os.Fact.View.{entity, as_of, pick_latest, is_candidate, retracted_in, update_latest}
use persistence_os.Fact.Samples.{Value, int, str, small_python, at}
use persistence_os.Txn.Transaction.{
  Ref, same_ref, TxnError, Transaction, begin, Values, assoc, commute, read_in_body, value_at,
  set_value, has_ref, snapshot,
}
use persistence_os.Txn.Transaction.Reads.{read_in_body-commute, assoc-same_entity}
use persistence_os.Txn.Conflict.{any_datoms_since, has_eid}
use persistence_os.Txn.Commit.{
  Edn, Host, Committed, Readings, commit_attempt, check_gates, locked_commit, build_commute_facts,
}
use persistence_os.Txn.Run.{Attempt, Body, run, try_once}
use persistence_os.Txn.Commit.Snapshot.{commit_attempt-Serial}
use persistence_os.Txn.Commit.Commuting.{replayed, build_commute_facts-replayed}
use persistence_os.Txn.Run.Retrying.{Conflicts, Commits, run-Commits, run-reaches}

abbrev plus_one : Value → List Value → Outcome TxnError Value
plus_one (int (tx n)) args = ok (int (tx (suc n)))
plus_one v args = ok (int (tx 1))

abbrev values : Values Value
values = record { nil = str ""; is_immutable = λ v. true; registry = ("inc-by", plus_one) ∷ [] }

abbrev counter : Ref
counter = record { eid = "counter"; db_id = "db"; spec_attr = "value" }

abbrev name : Ref
name = record { eid = "counter"; db_id = "db"; spec_attr = "name" }

abbrev stored : ℕ → ℕ → Datom Value
stored t n = record {
  e = "counter";
  a = "value";
  v = int (tx n);
  txid = tx t;
  tx_time = t;
  valid_from = t;
  valid_to = none;
  op = asserted;
  provenance = [];
  invalidated_by = none;
}

abbrev fresh : Transaction Value
fresh = begin (at 9) 0

abbrev with_write : Ref → Value → Transaction Value
with_write r v = record fresh { write_set = (r, v) ∷ [] }

abbrev commuted : Transaction Value
commuted = record fresh {
  commute_log = (counter, ("inc-by", [])) ∷ [];
  commute_eager = (counter, int (tx 1)) ∷ [];
}

read_in_body-commute_example :
    (read_in_body values "db" [] counter commuted ≡ int (tx 1))
    × (Transaction.read_set commuted ≡ [])
unfolding same_ref value_at lookup entity pick_latest as_of keep
read_in_body-commute_example =
    read_in_body-commute values "db" [] counter counter "inc-by" [] fresh commuted (int (tx 1))
      (unfold commute set_value in refl)

assoc-same_entity_example :
    Transaction.write_set (with_write counter (str "total")) ≡ (counter, str "total") ∷ []
unfolding value_at same_ref
assoc-same_entity_example =
    assoc-same_entity values "db" counter name (int (tx 4)) (str "total") fresh
      (with_write counter (int (tx 4))) (with_write counter (str "total")) refl refl
      (unfold assoc set_value in refl) (unfold assoc set_value in refl)

abbrev edn : Edn Value
edn = record {
  of_text = str;
  of_number = λ n. int (tx n);
  of_bool = λ b. str "bool";
  of_list = λ l. str "list";
  of_dict = λ d. str "dict";
}

abbrev host : Host Value
host = record {
  values = values;
  edn = edn;
  conform = λ a v. none;
  conforms_intents = λ l. true;
  runtime_active = false;
  deadline_set = false;
}

abbrev readings : Readings
readings = record {
  writes_at = at 10;
  fact_at = at 10;
  committed_at = at 10;
  commutes_at = at 10;
  batch_at = at 10;
}

-- A transaction that has read the counter, and one that commutes on it twice.
abbrev reader : Transaction Value
reader = record fresh { read_set = counter ∷ [] }

-- What an attempt has committed; its line opens what a run goes through.
taken : Outcome TxnError (Option (Committed Value)) → Committed Value
unfolding commit_attempt transact_batch shape_batch shape coerce_dt coerce_end supersede
    companion_of companion_span make canonicalise hash_fact add commit mark_stored mark_invalidated
    allocate_and_append with_tx lstrip build_index update_open lookup erase insert keep take since
    locked_commit check_gates any_datoms_since has_eid build_commute_facts is_open
taken (ok (some c)) = c
taken (ok none) = record { log = []; commit_id = ""; performed = [] }
taken (err e) = record { log = []; commit_id = ""; performed = [] }

commit_attempt-Serial_example :
    entity "counter" (as_of 9 (stored 5 3 ∷ [])) ≡ entity "counter" (stored 5 3 ∷ [])
unfolding taken
commit_attempt-Serial_example =
    commit_attempt-Serial host readings "c1" (stored 5 3 ∷ []) reader
      (taken (commit_attempt host readings "c1" (stored 5 3 ∷ []) reader)) "counter" refl refl

build_commute_facts-replayed_example :
    value_at counter ((counter, int (tx 5)) ∷ [])
    ≡ replayed values
        (stored 5 3 ∷ [])
        (at 10)
        []
        counter
        ((counter, ("inc-by", [])) ∷ (counter, ("inc-by", [])) ∷ [])
        none
unfolding value_at has_ref snapshot entity pick_latest as_of is_candidate retracted_in update_latest
    lookup insert keep build_commute_facts
build_commute_facts-replayed_example =
    build_commute_facts-replayed values (stored 5 3 ∷ []) (at 10) [] counter
      ((counter, ("inc-by", [])) ∷ (counter, ("inc-by", [])) ∷ []) []
      ((record {
        e = "counter";
        a = "value";
        v = int (tx 4);
        valid_from = some (datetime (at 10));
        valid_to = none;
        op = none;
      })
        ∷ (record {
          e = "counter";
          a = "value";
          v = int (tx 5);
          valid_from = some (datetime (at 10));
          valid_to = none;
          op = none;
        })
        ∷ [])
      ((counter, int (tx 5)) ∷ []) refl refl

-- The first attempt meets a newer datom, the others do not.
abbrev world : ℕ → Attempt Value
world n = record {
  t_start = at 9;
  body_log = stored 5 3 ∷ [];
  locked_log = if num_eq n 0 then stored 20 4 ∷ [] else stored 5 3 ∷ [];
  readings = readings;
  commit_id = "c1";
  expired = false;
}

abbrev busy : ℕ → Attempt Value
busy n = record {
  t_start = at 9;
  body_log = stored 5 3 ∷ [];
  locked_log = stored 20 4 ∷ [];
  readings = readings;
  commit_id = "c1";
  expired = false;
}

abbrev body : Body Value
body log x = ok (record x { read_set = counter ∷ [] })

abbrev second : Committed Value
second = taken (try_once host body 1 (world 1))

first-Conflicts : (m : ℕ) → m < 1 → Conflicts host body world m
unfolding taken try_once
first-Conflicts zero l = (refl, refl)
first-Conflicts (suc m) l = absurd (omega arith)

run-reaches_example : run host body false 3 world ≡ ok second
unfolding taken try_once
run-reaches_example =
    run-reaches host body world 3 1 second (omega arith) (λ m l. first-Conflicts m l) (refl, refl)

run-Commits_example :
    (k : ℕ) × (k ≤ 3)
    × ((m : ℕ) → m < k → Conflicts host body world m)
    × Commits host body world k second
unfolding taken try_once run
run-Commits_example = run-Commits host body world 3 second refl
