-- ===== src/Fact/Transact.antt =====
-- fact/db.py: `DB.transact` and `DB.transact_batch` as functions from the log to the new log. An
-- error is raised before the log is written.
pub mod Batching
pub mod Appends
pub mod Reading
pub mod Repeating
use persistence_os.Base.{
  String, Bool, ◌&&◌, ◌++◌, Option, none, some, List, [], ◌∷◌, reverse, string_eq, pair_eq,
  if◌then◌else◌, or_else, Outcome, ok, ◌>>=◌,
}
use persistence_os.Base.Dict.{Dict, lookup, insert, erase}
use persistence_os.Fact.Datom.{TxId, is_assert_text, Error, Fact, Python, Datom}
use persistence_os.Fact.Store.{allocate_and_append, mark_invalidated}
use persistence_os.Fact.Shape.{
  is_open_ended, is_open, find_prior_assert, op_or_assert, Call, Shaped, shape,
}

-- The lists that a call builds before it writes.
pub record Pending (V : Type 0) : Type 0 where
  pub new_datoms : List (Datom V)
  pub invalidations : List TxId

abbrev pub nothing_pending : {V : Type 0} → Pending V
nothing_pending = record { new_datoms = []; invalidations = [] }

module _ {V : Type 0} where
  abbrev pub companions : Option (Datom V × TxId) → List (Datom V)
  companions none = []
  companions (some (d, t)) = d ∷ []

  abbrev pub superseded : Option (Datom V × TxId) → List TxId
  superseded none = []
  superseded (some (d, t)) = t ∷ []

  unfoldable pub add : Pending V → Shaped V → Pending V
  add p s = record {
    new_datoms = p.new_datoms ++ (companions s.companion ++ s.datom ∷ []);
    invalidations = p.invalidations ++ superseded s.companion;
  }

  unfoldable pub mark_all : List TxId → TxId → List (Datom V) → List (Datom V)
  mark_all [] new log = log
  mark_all (old ∷ olds) new log = mark_all olds new (mark_invalidated old new log)

  -- `if stored: real_tx = stored[0].tx; ...`
  unfoldable pub mark_stored : List TxId → List (Datom V) × List (Datom V) → List (Datom V)
  unfolding mark_all
  mark_stored olds ([], log) = log
  mark_stored olds (d ∷ ds, log) = mark_all olds d.txid log

module _ {V : Type 0} ⦃py : Python V⦄ where
  unfoldable pub commit : Pending V → List (Datom V) → List (Datom V)
  commit p log = mark_stored p.invalidations (allocate_and_append p.new_datoms log)

  -- The loop of `transact`: each fact scans the snapshot and the datoms built so far.
  unfoldable pub shape_all :
      Call V → List (Datom V) → List (Fact V) → Pending V → Outcome Error (Pending V)
  shape_all c log [] p = ok p
  shape_all c log (f ∷ fs) p = shape c f (find_prior_assert (log ++ p.new_datoms) f.e f.a) >>= λ s.
      shape_all c log fs (add p s)

  unfoldable pub transact : Call V → List (Fact V) → List (Datom V) → Outcome Error (List (Datom V))
  transact c [] log = ok log
  transact c (f ∷ fs) log = shape_all c log (f ∷ fs) nothing_pending >>= λ p. ok (commit p log)

abbrev pub Index : Type 0 → Type 0
Index V = Dict (String × String) (Datom V)

module _ {V : Type 0} where
  -- One round of the index loop: the first hit of a key stays.
  unfoldable pub index_datom : Index V → Datom V → Index V
  index_datom index d =
      if is_open d
      then elim (lookup (d.e, d.a) index) [ none ↦ insert (d.e, d.a) d index | some _ ↦ index ]
      else index

  unfoldable pub build_index : Index V → List (Datom V) → Index V
  unfolding index_datom
  build_index index [] = index
  build_index index (d ∷ ds) = build_index (index_datom index d) ds

  -- `in_batch_open.pop(key, None)` if a companion was made
  unfoldable pub pop_closed : String × String → Option (Datom V × TxId) → Index V → Index V
  pop_closed key none index = index
  pop_closed key (some _) index = erase key index

  -- The in-batch index after one fact.
  unfoldable pub update_open : Fact V → Bool → Shaped V → Index V → Index V
  unfolding pop_closed
  update_open f asserts s index =
      let popped = pop_closed (f.e, f.a) s.companion index in
      if asserts && is_open_ended s.datom.valid_to then insert (f.e, f.a) s.datom popped else popped

module _ {V : Type 0} ⦃py : Python V⦄ where
  unfoldable pub shape_batch :
      Call V → Index V → List (Fact V) → Index V → Pending V → Outcome Error (Pending V)
  shape_batch c prior_index [] opened p = ok p
  shape_batch c prior_index (f ∷ fs) opened p =
      shape c f (or_else (lookup (f.e, f.a) opened) (lookup (f.e, f.a) prior_index)) >>= λ s.
      shape_batch c prior_index fs (update_open f (is_assert_text (op_or_assert f.op)) s opened)
        (add p s)

  unfoldable pub transact_batch :
      Call V → List (Fact V) → List (Datom V) → Outcome Error (List (Datom V))
  transact_batch c [] log = ok log
  transact_batch c (f ∷ fs) log =
      shape_batch c (build_index [] (reverse log)) (f ∷ fs) [] nothing_pending >>= λ p.
      ok (commit p log)
