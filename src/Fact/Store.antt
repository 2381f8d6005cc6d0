-- ===== src/Fact/Store.antt =====
-- fact/store.py: `InMemoryStore`. Its state is the log, a list of datoms in insertion order; each
-- method holds the lock, so it is one step on the log.
pub mod Ids
use persistence_os.Base.{
  ℕ, Bool, true, false, ◌&&◌, ◌++◌, Option, none, some, List, [], ◌∷◌, map, ltb, ◌==◌,
  if◌then◌else◌, keep, Outcome, ok, ◌>>=◌,
}
use persistence_os.Fact.Datom.{
  TxId, tx, tx_eq, tx_suc, tx_max, is_assert, Datetime, Error, Python, Datom, canonicalise, with_tx,
  instant_of,
}

abbrev pub is_none : Option TxId → Bool
is_none none = true
is_none (some _) = false

module _ {V : Type 0} where
  unfoldable pub max_from : TxId → List (Datom V) → TxId
  max_from t [] = t
  max_from t (d ∷ ds) = max_from (tx_max t d.txid) ds

  -- `max((d.tx for d in log), default=0)`
  unfoldable pub max_txid : List (Datom V) → TxId
  max_txid [] = tx 0
  max_txid (d ∷ ds) = max_from d.txid ds

  unfoldable pub next_tx : List (Datom V) → TxId
  next_tx log = tx_suc (max_txid log)

  unfoldable pub append : List (Datom V) → List (Datom V) → List (Datom V)
  append ds log = log ++ ds

  unfoldable pub since : ℕ → List (Datom V) → List (Datom V)
  since t log = keep (λ d. ltb t d.tx_time) log

  -- One row of `mark_invalidated`: only the pointer changes.
  unfoldable pub mark : TxId → TxId → Datom V → Datom V
  mark old new d =
      if (d.txid == old) && is_none d.invalidated_by && is_assert d.op
      then record d { invalidated_by = some new }
      else d

  unfoldable pub mark_invalidated : TxId → TxId → List (Datom V) → List (Datom V)
  mark_invalidated old new log = map (mark old new) log

module _ {V : Type 0} ⦃py : Python V⦄ where
  unfoldable pub stamp : TxId → Datom V → Datom V
  stamp t d = with_tx d t

  -- Returns the stored datoms and the new log.
  unfoldable pub allocate_and_append :
      List (Datom V) → List (Datom V) → List (Datom V) × List (Datom V)
  unfolding stamp
  allocate_and_append [] log = ([], log)
  allocate_and_append (d ∷ ds) log =
      let out = map (stamp (next_tx log)) (d ∷ ds) in (out, log ++ out)

  replace_tx_time : Datetime → List (Datom V) → Outcome Error (List (Datom V))
  replace_tx_time t [] = ok []
  replace_tx_time t (d ∷ ds) = do
    now ← instant_of t
    rest ← replace_tx_time t ds
    ok (canonicalise (record d { tx_time = now }) ∷ rest)

  replace_tx_time_optional : Option Datetime → List (Datom V) → Outcome Error (List (Datom V))
  unfolding replace_tx_time
  replace_tx_time_optional none ds = ok ds
  replace_tx_time_optional (some t) ds = replace_tx_time t ds

  -- Returns the id, 0 for an empty batch, and the new log.
  unfoldable pub transact_serializable :
      List (Datom V) → Option Datetime → List (Datom V) → Outcome Error (TxId × List (Datom V))
  unfolding replace_tx_time_optional
  transact_serializable [] t log = ok (tx 0, log)
  transact_serializable (d ∷ ds) t log = do
    stamped ← replace_tx_time_optional t (d ∷ ds)
    ok (next_tx log, (allocate_and_append stamped log).1)
