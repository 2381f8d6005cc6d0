-- ===== src/Txn/Atom/Returning.antt =====
-- txn/atom.py: when a reset returns.
use persistence_os.Base.{ℕ, ◌≡◌, ◌≤◌, Outcome, ok, err, string_eq}
use persistence_os.Fact.Datom.{Datom}
use persistence_os.Txn.Atom.{Atom, atom_attr}

abbrev IsOk : {E : Type 0} {A : Type 0} → Outcome E A → Type 0
IsOk (ok x) = Unit
IsOk (err e) = ⊥

-- Every datom of the entity's attribute starts at that instant or before.
abbrev pub StartsBy : {V : Type 0} → Atom → ℕ → Datom V → Type 0
StartsBy atom n d = d.e ≡ atom.eid → d.a ≡ atom_attr → d.valid_from ≤ n
