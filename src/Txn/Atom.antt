-- ===== src/Txn/Atom.antt =====
-- txn/atom.py: the operations of an atom. Those that write hold the store's lock from the read to
-- the write, so each is one step on the log. The readings of the clock are arguments: that of
-- `_transact_value`, then that of `DB.transact`.
pub mod Ending
pub mod Reading
pub mod Returning
mod Samples
use persistence_os.Base.{
  ℕ, zero, suc, String, Bool, true, false, not, Option, none, some, List, [], ◌∷◌, reverse, ◌==◌,
  if◌then◌else◌, first, Outcome, ok, err, raise_if, ◌>>=◌, ◌>>◌,
}
use persistence_os.Fact.Datom.{Datetime, datetime, Error, Fact, Python, value_eq, Datom}
use persistence_os.Fact.Shape.{Call, is_open_at}
use persistence_os.Fact.Transact.{transact}

pub data AtomError : Type 0 where
  atom_in_dosync_prohibited atom_cas_exhausted already_open fn_raised : AtomError
  transact_raised : Error → AtomError

pub record Atom : Type 0 where
  pub eid : String
  pub db_id : String

pub record Clock : Type 0 where
  pub at_write : Datetime
  pub at_transact : Datetime

abbrev pub lift_error : {A : Type 0} → Outcome Error A → Outcome AtomError A
lift_error (ok x) = ok x
lift_error (err e) = err (transact_raised e)

-- `_ATOM_ATTR`
abbrev pub atom_attr : String
atom_attr = "value"

unfoldable pub check_not_in_dosync : Bool → Outcome AtomError (Unit {0})
check_not_in_dosync in_dosync = raise_if in_dosync atom_in_dosync_prohibited

module _ {V : Type 0} where
  abbrev pub value_or : V → Option (Datom V) → V
  value_or nil none = nil
  value_or nil (some d) = d.v

  -- `_read_latest_value`, where `nil` is Python's `None`
  unfoldable pub read_latest_value : V → Atom → List (Datom V) → V
  read_latest_value nil atom log =
      value_or nil (first (is_open_at atom.eid atom_attr) (reverse log))

  -- The scan of `_atom` (txn/_db_extension.py), which goes from the oldest datom on.
  unfoldable pub any_open : String → List (Datom V) → Bool
  any_open eid [] = false
  any_open eid (d ∷ ds) = if is_open_at eid atom_attr d then true else any_open eid ds

  unfoldable pub deref : V → Bool → Atom → List (Datom V) → Outcome AtomError V
  unfolding check_not_in_dosync
  deref nil in_dosync atom log =
      check_not_in_dosync in_dosync >> ok (read_latest_value nil atom log)

  abbrev pub value_fact : Atom → V → Datetime → Fact V
  value_fact atom v t = record {
    e = atom.eid;
    a = atom_attr;
    v = v;
    valid_from = some (datetime t);
    valid_to = none;
    op = none;
  }

  -- The arguments that `_transact_value` leaves to their defaults.
  abbrev pub default_call : Datetime → Call V
  default_call t = record { now = t; provenance = []; force_retroactive = false }

module _ {V : Type 0} ⦃py : Python V⦄ where
  unfoldable pub transact_value :
      Clock → Atom → V → List (Datom V) → Outcome AtomError (List (Datom V))
  transact_value clock atom v log =
      lift_error
        (transact (default_call clock.at_transact) (value_fact atom v clock.at_write ∷ []) log)

  -- Returns the new value and the new log; `fn` may raise. A round of the loop returns or raises.
  unfoldable pub swap :
      V
      → Bool
      → ℕ
      → Clock
      → Atom
      → (V → Outcome AtomError V)
      → List (Datom V)
      → Outcome AtomError (V × List (Datom V))
  unfolding check_not_in_dosync
  swap nil in_dosync zero clock atom fn log =
      check_not_in_dosync in_dosync >> err atom_cas_exhausted
  swap nil in_dosync (suc n) clock atom fn log =
      check_not_in_dosync in_dosync
      >> (fn (read_latest_value nil atom log) >>= λ v.
          transact_value clock atom v log >>= λ log'. ok (v, log'))

  unfoldable pub compare_and_set :
      V → Bool → Clock → Atom → V → V → List (Datom V) → Outcome AtomError (Bool × List (Datom V))
  unfolding check_not_in_dosync
  compare_and_set nil in_dosync clock atom old new log =
      check_not_in_dosync in_dosync
      >> (if not (read_latest_value nil atom log == old)
          then ok (false, log)
          else (transact_value clock atom new log >>= λ log'. ok (true, log')))

  unfoldable pub reset :
      Bool → Clock → Atom → V → List (Datom V) → Outcome AtomError (V × List (Datom V))
  unfolding check_not_in_dosync
  reset in_dosync clock atom v log =
      check_not_in_dosync in_dosync >> (transact_value clock atom v log >>= λ log'. ok (v, log'))

  -- `_atom` of txn/_db_extension.py, the method `DB.atom`
  unfoldable pub create :
      Clock → String → String → V → List (Datom V) → Outcome AtomError (Atom × List (Datom V))
  unfolding any_open
  create clock eid db_id initial log =
      let atom : Atom = record { eid = eid; db_id = db_id } in
      raise_if (any_open eid log) already_open
      >> (transact_value clock atom initial log >>= λ log'. ok (atom, log'))
