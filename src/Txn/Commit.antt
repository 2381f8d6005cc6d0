-- ===== src/Txn/Commit.antt =====
-- txn/transaction.py: the commit gate. The log is the one that
-- the writer lock guards; each reading of the clock is an argument, as are the spec registry, the
-- fresh id and whether an effect runtime is active. What the commit hands to the runtime comes back
-- as the list of intents, in order.
pub mod Snapshot
pub mod Commuting
use persistence_os.Base.{
  ℕ, String, Bool, true, false, not, ◌&&◌, ◌++◌, Option, none, some, List, [], ◌∷◌, map, string_eq,
  ltb, if◌then◌else◌, Outcome, ok, err, raise_if, ◌>>=◌, ◌>>◌,
}
use persistence_os.Base.Dict.{Dict, lookup}
use persistence_os.Base.Text.{text_ltb}
use persistence_os.Fact.Datom.{Datetime, datetime, Fact, Error, Python, Provenance, Datom}
use persistence_os.Fact.Store.{since}
use persistence_os.Fact.Shape.{Call}
use persistence_os.Fact.Transact.{transact_batch}
use persistence_os.Txn.Transaction.{
  Ref, TxnError, registry_changed, spec_error, value_not_immutable, audit_stack_missing, fact_error,
  EffectIntent, Transaction, has_ref, value_at, set_value, Values, snapshot, lookup_commute,
}
use persistence_os.Txn.Conflict.{refs_of, any_datoms_since, touched}

-- How the values encode the provenance: texts, numbers, truth values, lists and dicts.
pub record Edn (V : Type 0) : Type 0 where
  pub of_text : String → V
  pub of_number : ℕ → V
  pub of_bool : Bool → V
  pub of_list : List V → V
  pub of_dict : Dict String V → V

-- `sorted` of texts
unfoldable pub insert_text : String → List String → List String
insert_text s [] = s ∷ []
insert_text s (t ∷ ts) =
    let rest = insert_text s ts in if text_ltb t s then t ∷ rest else s ∷ t ∷ ts

unfoldable pub sorted : List String → List String
unfolding insert_text
sorted [] = []
sorted (s ∷ ss) = insert_text s (sorted ss)

-- The readings of the clock during a commit.
pub record Readings : Type 0 where
  pub writes_at : Datetime
  pub fact_at : Datetime
  pub committed_at : Datetime
  pub commutes_at : Datetime
  pub batch_at : Datetime

module _ {V : Type 0} where
  abbrev pub fact_of : Ref → V → Datetime → Fact V
  fact_of r v now = record {
    e = r.eid;
    a = r.spec_attr;
    v = v;
    valid_from = some (datetime now);
    valid_to = none;
    op = none;
  }

  unfoldable pub build_write_facts : Datetime → List (Ref × V) → List (Fact V)
  build_write_facts now [] = []
  build_write_facts now ((r, v) ∷ d) = fact_of r v now ∷ build_write_facts now d

  unfoldable pub build_commit_fact : (String → V) → Datetime → String → Fact V
  build_commit_fact of_text now commit_id = record {
    e = commit_id;
    a = ":persistence.txn/commit-id";
    v = of_text commit_id;
    valid_from = some (datetime now);
    valid_to = none;
    op = none;
  }

  -- `conform` is `none` where no spec is registered for the attribute.
  unfoldable pub spec_validate_writes :
      (String → V → Option Bool) → List (Ref × V) → Outcome TxnError (Unit {0})
  spec_validate_writes conform [] = ok tt
  spec_validate_writes conform ((r, v) ∷ d) = elim (conform r.spec_attr v) [
    | some false ↦ err spec_error
    | some true ↦ spec_validate_writes conform d
    | none ↦ spec_validate_writes conform d
  ]

  intent_to_wire : Edn V → EffectIntent V → V
  intent_to_wire edn i =
      edn.of_dict ((":op", edn.of_text i.op) ∷ (":kwargs", edn.of_dict i.kwargs) ∷ [])

  commute_to_wire : Edn V → Ref × (String × List V) → V
  commute_to_wire edn (r, (fn_id, args)) = edn.of_dict (
      (":ref", edn.of_text r.eid)
      ∷ (":fn-id", edn.of_text fn_id)
      ∷ (":args", edn.of_list args)
      ∷ [])

  abbrev eids_of : Edn V → List Ref → V
  eids_of edn refs = edn.of_list (map edn.of_text (sorted (map (λ (r : Ref). r.eid) refs)))

  abbrev pub in_front : Fact V → List (Fact V) × List (Ref × V) → List (Fact V) × List (Ref × V)
  in_front f (fs, resolved) = (f ∷ fs, resolved)

module _ {V : Type 0} ⦃py : Python V⦄ where
  unfoldable pub build_commit_provenance :
      Edn V
      → (List V → Bool)
      → Bool
      → Datetime
      → Transaction V
      → String
      → Outcome TxnError (Provenance V)
  unfolding intent_to_wire commute_to_wire
  build_commit_provenance edn conforms deadline_set committed_at x commit_id =
      let intents = map (intent_to_wire edn) x.effect_intent_log in
      raise_if (not (conforms intents)) spec_error
      >> ok (
          (":persistence.txn/commit-id", edn.of_text commit_id)
          ∷ (":persistence.txn/started-at", edn.of_text (py.isoformat x.t_start))
          ∷ (":persistence.txn/committed-at", edn.of_text (py.isoformat committed_at))
          ∷ (":persistence.txn/retry-count", edn.of_number x.attempt)
          ∷ (":persistence.txn/non-deterministic-retry", edn.of_bool deadline_set)
          ∷ (":persistence.txn/read-set", eids_of edn x.read_set)
          ∷ (":persistence.txn/ensure-set", eids_of edn x.ensure_set)
          ∷ (":persistence.txn/intent-log", edn.of_list intents)
          ∷ (":persistence.txn/commute-log", edn.of_list (map (commute_to_wire edn) x.commute_log))
          ∷ [])

  -- One entry of the commute log: the base is the value that this commit has computed for the ref,
  -- or the one that is committed.
  unfoldable pub commute_base : Values V → List (Datom V) → Datetime → Ref → List (Ref × V) → V
  unfolding value_at
  commute_base values log now r resolved = elim (value_at r resolved) [
    | some v ↦ v
    | none ↦ snapshot values log now r
  ]

  unfoldable pub build_commute_facts :
      Values V
      → List (Datom V)
      → Datetime
      → List Ref
      → List (Ref × (String × List V))
      → List (Ref × V)
      → Outcome TxnError (List (Fact V) × List (Ref × V))
  unfolding has_ref commute_base set_value lookup_commute
  build_commute_facts values log now explicit [] resolved = ok ([], resolved)
  build_commute_facts values log now explicit ((r, (fn_id, args)) ∷ entries) resolved =
      elim (has_ref r explicit) [
        | true ↦ build_commute_facts values log now explicit entries resolved
        | false ↦ elim (lookup_commute values fn_id) [
          | none ↦ err registry_changed
          | some fn ↦ fn (commute_base values log now r resolved) args >>= λ v.
              raise_if (not (values.is_immutable v)) value_not_immutable
              >> (build_commute_facts values log now explicit entries (set_value r v resolved)
                  >>= λ rest. ok (in_front (fact_of r v now) rest))
        ]
      ]

-- What a commit consults besides the transaction.
pub record Host (V : Type 0) : Type 0 where
  pub values : Values V
  pub edn : Edn V
  pub conform : String → V → Option Bool
  pub conforms_intents : List V → Bool
  pub runtime_active : Bool
  pub deadline_set : Bool

-- What a commit leaves: the log, and the intents that `_replay_effect_intents` performs next.
pub record Committed (V : Type 0) : Type 0 where
  pub log : List (Datom V)
  pub commit_id : String
  pub performed : List (EffectIntent V)

unfoldable pub of_fact_error : {A : Type 0} → Outcome Error A → Outcome TxnError A
of_fact_error (ok a) = ok a
of_fact_error (err e) = err (fact_error e)

abbrev pub is_empty : {A : Type 0} → List A → Bool
is_empty [] = true
is_empty (x ∷ xs) = false

module _ {V : Type 0} ⦃py : Python V⦄ (host : Host V) where
  abbrev pub call_of : Datetime → Provenance V → Call V
  call_of now provenance = record { now = now; provenance = provenance; force_retroactive = false }

  -- The body of `with tx.db.store._lock`, without the test for conflicts.
  unfoldable pub write_batch :
      Readings
      → String
      → Provenance V
      → List (Datom V)
      → Transaction V
      → Outcome TxnError (List (Datom V))
  unfolding build_write_facts build_commit_fact build_commute_facts of_fact_error
  write_batch at commit_id provenance log x =
      build_commute_facts host.values log at.commutes_at (refs_of x.write_set) x.commute_log []
      >>= λ commutes. of_fact_error (
          transact_batch (call_of at.batch_at provenance)
            (build_write_facts at.writes_at x.write_set
              ++ (commutes.0
                  ++ (x.staged_facts
                      ++ build_commit_fact host.edn.of_text at.fact_at commit_id ∷ [])))
            log)

  -- The gates in front of the lock.
  unfoldable pub check_gates : Readings → String → Transaction V → Outcome TxnError (Provenance V)
  unfolding spec_validate_writes build_commit_provenance
  check_gates at commit_id x =
      raise_if (not (is_empty x.effect_intent_log) && not host.runtime_active) audit_stack_missing
      >> spec_validate_writes host.conform x.write_set
      >> build_commit_provenance host.edn host.conforms_intents host.deadline_set at.committed_at x
          commit_id

  unfoldable pub committed : String → Transaction V → List (Datom V) → Committed V
  committed commit_id x written = record {
    log = written;
    commit_id = commit_id;
    performed = x.effect_intent_log;
  }

  -- Under the lock.
  unfoldable pub locked_commit :
      Readings
      → String
      → List (Datom V)
      → Transaction V
      → Provenance V
      → Outcome TxnError (Option (Committed V))
  unfolding any_datoms_since write_batch committed
  locked_commit at commit_id log x provenance =
      if any_datoms_since log x.t_start.instant (touched x)
      then ok none
      else (write_batch at commit_id provenance log x >>= λ written.
          ok (some (committed commit_id x written)))

  -- `none` is a conflict: the caller tries again.
  unfoldable pub commit_attempt :
      Readings → String → List (Datom V) → Transaction V → Outcome TxnError (Option (Committed V))
  unfolding check_gates locked_commit
  commit_attempt at commit_id log x =
      check_gates at commit_id x >>= λ p. locked_commit at commit_id log x p
