-- ===== src/Fact/Fold.antt =====
-- fact/db.py: `DB.fold`. The reducer sees the log as it is when it is called. `clock` gives the reading
-- of each flush, by the index of the item after which it comes.
pub mod Counting
pub mod Resuming
mod Samples
use persistence_os.Base.{
  ℕ, zero, suc, ◌+◌, ◌-◌, String, Bool, true, false, ◌++◌, Option, none, some, List, [], ◌∷◌,
  num_eq, leb, if◌then◌else◌, Outcome, ok, err, ◌>>=◌, length, string_eq,
}
use persistence_os.Base.Dict.{lookup, insert}
use persistence_os.Fact.Datom.{Datetime, Error, Fact, Python, Provenance, Datom}
use persistence_os.Fact.Shape.{Call}
use persistence_os.Fact.Transact.{transact_batch}

pub data OnError : Type 0 where
  abort skip checkpoint other : OnError

abbrev pub is_other : OnError → Bool
is_other other = true
is_other _ = false

-- What a call of the reducer comes to: it raises, or it returns, perhaps with something else than a list
-- of facts.
pub data Reduced (A V : Type 0) : Type 0 where
  fn_raised : Reduced A V
  not_a_list : A → Reduced A V
  reduced : A → List (Fact V) → Reduced A V

-- `FoldError` with its accumulator, its count and its index, the ValueError on `on_error`, and what
-- `transact_batch` raises.
pub data FoldFailure (A : Type 0) : Type 0 where
  fold_error : A → ℕ → ℕ → FoldFailure A
  bad_on_error : FoldFailure A
  transact_raised : Error → FoldFailure A

pub record Progress (A V : Type 0) : Type 0 where
  pub acc : A
  pub checkpoint_acc : A
  pub committed_total : ℕ
  pub pending_facts : List (Fact V)
  pub pending_count : ℕ
  pub log : List (Datom V)

-- A failure comes with the log that it leaves.
abbrev pub Run : Type 0 → Type 0 → Type 0 → Type 0
Run A V R = Outcome (FoldFailure A × List (Datom V)) R

abbrev pub or_raise : {A V R : Type 0} → List (Datom V) → Outcome Error R → Run A V R
or_raise log (ok x) = ok x
or_raise log (err e) = err (transact_raised e, log)

-- `prov_for_batch`
unfoldable pub batch_provenance :
    {V : Type 0} ⦃py : Python V⦄ → Option (Provenance V) → Provenance V
batch_provenance ⦃py⦄ none = ("source", py.of_str "fold") ∷ []
batch_provenance ⦃py⦄ (some prov) = elim (lookup "source" prov) [
  | none ↦ insert "source" (py.of_str "fold") prov
  | some _ ↦ prov
]

abbrev pub flush_call : {V : Type 0} → Provenance V → Datetime → Call V
flush_call prov now = record { now = now; provenance = prov; force_retroactive = false }

-- The variables after so many commits, with nothing pending.
abbrev pub settled : {A V : Type 0} → A → ℕ → List (Datom V) → Progress A V
settled a n log = record {
  acc = a;
  checkpoint_acc = a;
  committed_total = n;
  pending_facts = [];
  pending_count = 0;
  log = log;
}

module _ {A V : Type 0} where
  abbrev pub flushed : Progress A V → List (Datom V) → Progress A V
  flushed p log = record p {
    pending_facts = [];
    pending_count = 0;
    committed_total = p.committed_total + (length log - length p.log);
    checkpoint_acc = p.acc;
    log = log;
  }

  abbrev pub stop : ℕ → Progress A V → Run A V (Progress A V)
  stop idx p = err (fold_error p.checkpoint_acc p.committed_total idx, p.log)

  abbrev pub on_raise : OnError → ℕ → Progress A V → Run A V (Progress A V)
  on_raise skip idx p = ok p
  on_raise abort idx p = stop idx p
  on_raise checkpoint idx p = stop idx p
  on_raise other idx p = stop idx p

  abbrev pub outcome : Progress A V → A × (ℕ × List (Datom V))
  outcome p = (p.acc, (p.committed_total, p.log))

module _ {A V : Type 0} ⦃py : Python V⦄ (prov : Provenance V) where
  unfoldable pub flush_facts : Datetime → List (Fact V) → Progress A V → Run A V (Progress A V)
  flush_facts now [] p = ok (record p { pending_count = 0 })
  flush_facts now (f ∷ fs) p =
      or_raise p.log (transact_batch (flush_call prov now) (f ∷ fs) p.log) >>= λ log.
      ok (flushed p log)

  -- `if pending_facts: _flush()` after the loop
  abbrev pub flush_rest : Datetime → List (Fact V) → Progress A V → Run A V (Progress A V)
  flush_rest now [] p = ok p
  flush_rest now (f ∷ fs) p = flush_facts now (f ∷ fs) p

  -- `_flush`
  unfoldable pub flush : Datetime → Progress A V → Run A V (Progress A V)
  unfolding flush_facts
  flush now p = flush_facts now p.pending_facts p

  unfoldable pub settle : ℕ → Datetime → Progress A V → Run A V (Progress A V)
  unfolding flush
  settle every now p =
      if num_eq every 0
      then flush now p
      else if leb every p.pending_count
      then flush now p
      else ok p

  -- What follows the call of the reducer.
  unfoldable pub take_in :
      OnError → ℕ → Datetime → ℕ → Reduced A V → Progress A V → Run A V (Progress A V)
  unfolding settle
  take_in policy every now idx fn_raised p = on_raise policy idx p
  take_in policy every now idx (not_a_list a) p = stop idx p
  take_in policy every now idx (reduced a fs) p = settle every now (record p {
    acc = a;
    pending_facts = p.pending_facts ++ fs;
    pending_count = suc p.pending_count;
  })

module _ {A I V : Type 0} ⦃py : Python V⦄ (prov : Provenance V)
    (fn : A → I → List (Datom V) → Reduced A V) (policy : OnError) (every : ℕ)
    (clock : ℕ → Datetime) where
  unfoldable pub fold_items : ℕ → List I → Progress A V → Run A V (Progress A V)
  unfolding take_in
  fold_items idx [] p = ok p
  fold_items idx (i ∷ is) p =
      take_in prov policy every (clock idx) idx (fn p.acc i p.log) p >>= fold_items (suc idx) is

  -- Returns the accumulator, the number of datoms, and the log.
  unfoldable pub fold : A → List I → List (Datom V) → Run A V (A × (ℕ × List (Datom V)))
  unfolding fold_items flush_facts
  fold seed items log =
      if is_other policy
      then err (bad_on_error, log)
      else (fold_items 0 items (settled seed 0 log) >>= λ p.
          flush_rest prov (clock (length items)) p.pending_facts p >>= λ q. ok (outcome q))
