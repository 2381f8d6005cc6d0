-- ===== src/Txn/Run.antt =====
-- txn/transaction.py: the retry loop `_run`. What other transactions commit in between is part of
-- each attempt.
pub mod Retrying
use persistence_os.Base.{
  ℕ, zero, suc, String, Bool, Option, none, some, List, if◌then◌else◌, Outcome, ok, err, ◌>>=◌,
  ◌>>◌,
}
use persistence_os.Fact.Datom.{Datetime, Error, Python, Datom}
use persistence_os.Txn.Transaction.{
  TxnError, nested_dosync, deadline_exceeded, retry_exhausted, Transaction, begin,
}
use persistence_os.Txn.Commit.{Host, Committed, Readings, commit_attempt}

-- What one round of the loop meets: its start, the log that the body reads, and the log and the
-- readings under the lock. Between them other transactions may have committed.
pub record Attempt (V : Type 0) : Type 0 where
  pub t_start : Datetime
  pub body_log : List (Datom V)
  pub locked_log : List (Datom V)
  pub readings : Readings
  pub commit_id : String
  pub expired : Bool

abbrev pub Body : Type 0 → Type 0
Body V = List (Datom V) → Transaction V → Outcome TxnError (Transaction V)

module _ {V : Type 0} ⦃py : Python V⦄ (host : Host V) (body : Body V) where
  unfoldable pub try_once : ℕ → Attempt V → Outcome TxnError (Option (Committed V))
  try_once attempt now = body now.body_log (begin now.t_start attempt) >>= λ x.
      commit_attempt host now.readings now.commit_id now.locked_log x

  -- The loop of `_run`: the first argument is how many attempts are left.
  unfoldable pub run_from : ℕ → ℕ → (ℕ → Attempt V) → Outcome TxnError (Committed V)
  unfolding try_once
  run_from zero attempt world =
      if Attempt.expired (world attempt) then err deadline_exceeded else err retry_exhausted
  run_from (suc n) attempt world =
      let again = run_from n (suc attempt) world in
      if Attempt.expired (world attempt)
      then err deadline_exceeded
      else (try_once attempt (world attempt) >>= λ r. elim r [ none ↦ again | some c ↦ ok c ])

  unfoldable pub run : Bool → ℕ → (ℕ → Attempt V) → Outcome TxnError (Committed V)
  unfolding run_from
  run in_dosync max_retries world =
      if in_dosync then err nested_dosync else run_from (suc max_retries) 0 world
