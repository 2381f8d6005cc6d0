-- ===== src/Txn/Conflict.antt =====
-- txn/conflict.py: whether a newer datom touches an entity of a transaction.
use persistence_os.Base.{
  ℕ, String, Bool, true, false, ◌++◌, List, [], ◌∷◌, map, ◌==◌, string_eq, if◌then◌else◌,
}
use persistence_os.Fact.Datom.{Datom}
use persistence_os.Fact.Store.{since}
use persistence_os.Txn.Transaction.{Ref, Transaction}

-- `{r.eid for r in refs}`, and membership in it
unfoldable pub has_eid : String → List Ref → Bool
has_eid e [] = false
has_eid e (r ∷ rs) = if r.eid == e then true else has_eid e rs

module _ {V : Type 0} where
  abbrev pub refs_of : List (Ref × V) → List Ref
  refs_of d = map (λ p. p.0) d

  unfoldable pub any_touched : List Ref → List (Datom V) → Bool
  unfolding has_eid
  any_touched refs [] = false
  any_touched refs (d ∷ ds) = if has_eid d.e refs then true else any_touched refs ds

  -- `any_datoms_since(db, t_start, {r.eid for r in refs})`
  unfoldable pub any_datoms_since : List (Datom V) → ℕ → List Ref → Bool
  unfolding any_touched
  any_datoms_since log t [] = false
  any_datoms_since log t (r ∷ rs) = any_touched (r ∷ rs) (since t log)

  abbrev pub touched : Transaction V → List Ref
  touched x = x.read_set ++ (refs_of x.write_set ++ x.ensure_set)
