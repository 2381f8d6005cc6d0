-- ===== src/Txn/Transaction.antt =====
-- txn/transaction.py: `Transaction` and its operations on one attempt, with `Ref` of txn/ref.py and
-- the registry lookup of txn/_commute.py. An operation returns the transaction that it leaves.
-- Python's `None` is the parameter `nil`; what a database is to a transaction is its log and its id.
pub mod Reads
use persistence_os.Base.{
  ℕ, String, Bool, true, false, not, ◌&&◌, ◌++◌, Option, none, some, List, [], ◌∷◌, ◌==◌, string_eq,
  if◌then◌else◌, Outcome, ok, err, raise_if, ◌>>=◌, ◌>>◌, pair_eq,
}
use persistence_os.Base.Dict.{Dict, lookup}
use persistence_os.Fact.Datom.{Datetime, Fact, Error, Python, Datom}
use persistence_os.Fact.View.{as_of, entity}

pub record Ref : Type 0 where
  pub eid : String
  pub db_id : String
  pub spec_attr : String

-- `==` and `hash` of a `Ref` leave `spec_attr` out (`field(compare=False)`).
unfoldable pub same_ref : Ref → Ref → Bool
same_ref r q = r.eid == q.eid && r.db_id == q.db_id

pub data TxnError : Type 0 where
  ref_branch_mismatch value_not_immutable unknown_fn_id registry_changed spec_error : TxnError
  audit_stack_missing nested_dosync deadline_exceeded retry_exhausted body_raised : TxnError
  fact_error : Error → TxnError

pub record EffectIntent (V : Type 0) : Type 0 where
  pub op : String
  pub kwargs : Dict String V

pub record Transaction (V : Type 0) : Type 0 where
  pub t_start : Datetime
  pub attempt : ℕ
  pub read_set : List Ref
  pub write_set : List (Ref × V)
  pub ensure_set : List Ref
  pub effect_intent_log : List (EffectIntent V)
  pub commute_log : List (Ref × (String × List V))
  pub commute_eager : List (Ref × V)
  pub staged_facts : List (Fact V)

abbrev pub begin : {V : Type 0} → Datetime → ℕ → Transaction V
begin t n = record {
  t_start = t;
  attempt = n;
  read_set = [];
  write_set = [];
  ensure_set = [];
  effect_intent_log = [];
  commute_log = [];
  commute_eager = [];
  staged_facts = [];
}

-- `ref in s` of a set, and `s.add(ref)`
unfoldable pub has_ref : Ref → List Ref → Bool
unfolding same_ref
has_ref r [] = false
has_ref r (q ∷ qs) = if same_ref q r then true else has_ref r qs

unfoldable pub add_ref : Ref → List Ref → List Ref
unfolding has_ref
add_ref r qs = if has_ref r qs then qs else qs ++ r ∷ []

module _ {V : Type 0} where
  -- `d.get(ref)`
  unfoldable pub value_at : Ref → List (Ref × V) → Option V
  unfolding same_ref
  value_at r [] = none
  value_at r ((q, v) ∷ d) = if same_ref q r then some v else value_at r d

  -- `d[ref] = v`: a key that is there already stays, as the `Ref` that it was.
  unfoldable pub set_value : Ref → V → List (Ref × V) → List (Ref × V)
  unfolding same_ref
  set_value r v [] = (r, v) ∷ []
  set_value r v ((q, w) ∷ d) = if same_ref q r then (q, v) ∷ d else (q, w) ∷ set_value r v d

  unfoldable pub get_or : V → Option V → V
  get_or v none = v
  get_or v (some w) = w

-- What the values bring: `None`, `is_immutable_value`, and the commute registry, whose functions may
-- raise.
pub record Values (V : Type 0) : Type 0 where
  pub nil : V
  pub is_immutable : V → Bool
  pub registry : Dict String (V → List V → Outcome TxnError V)

unfoldable pub lookup_commute :
    {V : Type 0} → Values V → String → Option (V → List V → Outcome TxnError V)
lookup_commute values fn_id = lookup fn_id values.registry

module _ {V : Type 0} ⦃py : Python V⦄ (values : Values V) where
  -- A read of the database at an instant.
  unfoldable pub snapshot : List (Datom V) → Datetime → Ref → V
  unfolding get_or
  snapshot log t r = get_or values.nil (lookup r.spec_attr (entity r.eid (as_of t.instant log)))

module _ {V : Type 0} ⦃py : Python V⦄ (values : Values V) (db_id : String) where
  unfoldable pub check_branch : Ref → Outcome TxnError (Unit {0})
  check_branch r = raise_if (not (r.db_id == db_id)) ref_branch_mismatch

  unfoldable pub assoc : Ref → V → Transaction V → Outcome TxnError (Transaction V)
  unfolding check_branch set_value
  assoc r v x =
      check_branch r
      >> raise_if (not (values.is_immutable v)) value_not_immutable
      >> ok (record x { write_set = set_value r v x.write_set })

  unfoldable pub add_facts : List (Fact V) → Transaction V → Transaction V
  add_facts fs x = record x { staged_facts = x.staged_facts ++ fs }

  unfoldable pub effect : String → Dict String V → Transaction V → Transaction V
  effect op kwargs x = record x {
    effect_intent_log = x.effect_intent_log ++ record { op = op; kwargs = kwargs } ∷ [];
  }

  -- What a read in the body sees: its own write, its own commute, or the snapshot.
  unfoldable pub read_in_body : List (Datom V) → Ref → Transaction V → V
  unfolding value_at snapshot
  read_in_body log r x = elim (value_at r x.write_set) [
    | some v ↦ v
    | none ↦ elim (value_at r x.commute_eager) [
      | some v ↦ v
      | none ↦ snapshot values log x.t_start r
    ]
  ]

  unfoldable pub deref : List (Datom V) → Ref → Transaction V → Outcome TxnError (V × Transaction V)
  unfolding check_branch add_ref read_in_body
  deref log r x =
      check_branch r >> ok (read_in_body log r x, record x { read_set = add_ref r x.read_set })

  unfoldable pub alter :
      List (Datom V)
      → Ref
      → (V → Outcome TxnError V)
      → Transaction V
      → Outcome TxnError (V × Transaction V)
  unfolding deref assoc
  alter log r fn x = deref log r x >>= λ p. fn p.0 >>= λ v. assoc r v p.1 >>= λ y. ok (v, y)

  unfoldable pub commute :
      List (Datom V) → Ref → String → List V → Transaction V → Outcome TxnError (V × Transaction V)
  unfolding check_branch read_in_body set_value lookup_commute
  commute log r fn_id args x = check_branch r >> elim (lookup_commute values fn_id) [
    | none ↦ err unknown_fn_id
    | some fn ↦ fn (read_in_body log r x) args >>= λ v.
        raise_if (not (values.is_immutable v)) value_not_immutable
        >> ok (
          v,
          record x {
            commute_log = x.commute_log ++ (r, (fn_id, args)) ∷ [];
            commute_eager = set_value r v x.commute_eager;
          },
        )
  ]

  unfoldable pub ensure :
      List (Datom V) → Ref → Transaction V → Outcome TxnError (V × Transaction V)
  unfolding check_branch deref add_ref
  ensure log r x =
      check_branch r
      >> (deref log r x >>= λ p.
          ok (p.0, record p.1 { ensure_set = add_ref r (Transaction.ensure_set p.1) }))
