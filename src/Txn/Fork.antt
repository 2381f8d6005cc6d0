-- ===== src/Txn/Fork.antt =====
-- fact/_fork.py, and `DB.fork` of fact/db.py: branches are tried from one seed, one is chosen, and the
-- transaction queues an intent for each step. A raise leaves what was queued.
pub mod Choosing
mod Samples
use persistence_os.Base.{
  ℕ, zero, suc, String, Bool, true, false, not, ◌||◌, Option, none, some, List, [], ◌∷◌, map, ltb,
  if◌then◌else◌, Outcome, ok, err, ◌>>=◌, length,
}
use persistence_os.Base.Dict.{Dict}
use persistence_os.Fact.Datom.{Python, TxId, tx}
use persistence_os.Txn.Transaction.{Values, Transaction, effect}

pub record ForkBranchResult (V : Type 0) : Type 0 where
  pub branch_index : ℕ
  pub branch_id : String
  pub item : V
  pub branch_state : V
  pub score : Option V
  pub error : Option String

-- `ForkResult`, but for `all_branches`, which goes beside it, and `txn_commit_uuid`, which is None.
pub record ForkResult (V : Type 0) : Type 0 where
  pub chosen_index : ℕ
  pub chosen_state : V
  pub all_branches : List (ForkBranchResult V)

-- What `choose` comes to: it raises a `ForkChooseError` or something else, or returns something that
-- is no integer, a negative one, or another.
pub data Choice : Type 0 where
  raised_choose_error raised_other not_an_int negative : Choice
  index : ℕ → Choice

pub data ForkError : Type 0 where
  outside_dosync bad_on_error no_items : ForkError
  fn_raised : String → ForkError
  choose_error : ForkError

pub data ForkPolicy : Type 0 where
  stop continue other : ForkPolicy

-- What the fork takes of the values: `_hash16` of a value, of a branch's item and state, and of the
-- list of items, those of the two callbacks, and JSON.
pub record ForkHost (V : Type 0) : Type 0 where
  pub hash16 : V → String
  pub hash_branch : V → V → String
  pub hash_items : List V → String
  pub fn_hash : String
  pub choose_hash : String
  -- None, a truth value, a number or a text
  pub is_plain : V → Bool
  -- `json.dumps(v, default=str, sort_keys=True)`, `none` for its TypeError and ValueError
  pub try_dumps : V → Option String
  pub repr : V → String

-- `fn(seed, item)`: it returns, or raises with a message.
abbrev pub ForkFn : Type 0 → Type 0
ForkFn V = V → V → Outcome String V

module _ {V : Type 0} (host : ForkHost V) (fn : ForkFn V) (seed : V) where
  abbrev pub branch : ℕ → V → V → Option String → ForkBranchResult V
  branch idx item state error = record {
    branch_index = idx;
    branch_id = host.hash_branch item state;
    item = item;
    branch_state = state;
    score = none;
    error = error;
  }

  unfoldable pub run_item : ForkPolicy → ℕ → V → Outcome ForkError (ForkBranchResult V)
  run_item policy idx item = elim (fn seed item) [
    | ok state ↦ ok (branch idx item state none)
    | err message ↦ elim policy [
      | continue ↦ ok (branch idx item seed (some message))
      | _ ↦ err (fn_raised message)
    ]
  ]

  unfoldable pub run_items : ForkPolicy → ℕ → List V → Outcome ForkError (List (ForkBranchResult V))
  unfolding run_item
  run_items policy idx [] = ok []
  run_items policy idx (item ∷ items) =
      run_item policy idx item >>= λ b. run_items policy (suc idx) items >>= λ bs. ok (b ∷ bs)

-- `_validate_choose_index`, after the `except` clauses around `choose`
unfoldable pub validate_choose_index : Choice → ℕ → Outcome ForkError ℕ
validate_choose_index raised_choose_error n = err choose_error
validate_choose_index raised_other n = err choose_error
validate_choose_index not_an_int n = err choose_error
validate_choose_index negative n = err choose_error
validate_choose_index (index i) n = if ltb i n then ok i else err choose_error

module _ {V : Type 0} ⦃py : Python V⦄ (host : ForkHost V) where
  abbrev pub number : ℕ → V
  number n = py.of_tx (tx n)

  unfoldable pub canonicalize_score_value : V → V
  canonicalize_score_value raw =
      if host.is_plain raw
      then raw
      else elim (host.try_dumps raw) [ none ↦ py.of_str (host.repr raw) | some s ↦ py.of_str s ]

  -- The keyword arguments of the four intents.
  unfoldable pub probe_kwargs : V → List V → ℕ → Dict String V
  probe_kwargs seed items n =
      ("seed_hash", py.of_str (host.hash16 seed))
      ∷ ("items_hash", py.of_str (host.hash_items items))
      ∷ ("fn_hash", py.of_str host.fn_hash)
      ∷ ("choose_hash", py.of_str host.choose_hash)
      ∷ ("branch_count", number n)
      ∷ []

  unfoldable pub branch_kwargs : ForkBranchResult V → Dict String V
  branch_kwargs b =
      ("branch_index", number b.branch_index)
      ∷ ("branch_id", py.of_str b.branch_id)
      ∷ ("item_hash", py.of_str (host.hash16 b.item))
      ∷ ("branch_state_hash", py.of_str (host.hash16 b.branch_state))
      ∷ []

  abbrev pub score_payload : ForkBranchResult V → V
  score_payload b = elim b.score [ none ↦ b.branch_state | some v ↦ v ]

  unfoldable pub score_kwargs : ForkBranchResult V → Dict String V
  unfolding canonicalize_score_value
  score_kwargs b =
      ("branch_index", number b.branch_index)
      ∷ ("score_value", canonicalize_score_value (score_payload b))
      ∷ ("score_hash", py.of_str (host.hash16 (score_payload b)))
      ∷ []

  unfoldable pub chosen_kwargs : ℕ → ForkBranchResult V → Dict String V
  chosen_kwargs i b =
      ("chosen_index", number i)
      ∷ ("chosen_branch_id", py.of_str b.branch_id)
      ∷ ("chosen_state_hash", py.of_str (host.hash16 b.branch_state))
      ∷ []

-- `branches[i]`
unfoldable pub get_elem? : {A : Type 0} → List A → ℕ → Option A
get_elem? [] i = none
get_elem? (x ∷ xs) zero = some x
get_elem? (x ∷ xs) (suc i) = get_elem? xs i

module _ {V : Type 0} ⦃py : Python V⦄ (values : Values V) (db_id : String) (host : ForkHost V) where
  abbrev pub Forked : Type 0
  Forked = Outcome ForkError (ForkResult V) × Transaction V

  unfoldable pub emit_all : String → List (Dict String V) → Transaction V → Transaction V
  unfolding effect
  emit_all op [] x = x
  emit_all op (kwargs ∷ rest) x = emit_all op rest (effect values db_id op kwargs x)

  -- The probe, the branches and the scores.
  unfoldable pub emit_tried : V → List V → List (ForkBranchResult V) → Transaction V → Transaction V
  unfolding emit_all effect
  emit_tried seed items bs x = emit_all ":fork/score" (map (score_kwargs host) bs) (
      emit_all ":fork/branch" (map (branch_kwargs host) bs)
        (effect values db_id ":fork/probe" (probe_kwargs host seed items (length bs)) x))

  unfoldable pub pick : List (ForkBranchResult V) → Outcome ForkError ℕ → Transaction V → Forked
  unfolding effect
  pick bs (err e) x = (err e, x)
  pick bs (ok i) x = elim (get_elem? bs i) [
    | none ↦ (err choose_error, x)
    | some b ↦ (
      ok (record { chosen_index = i; chosen_state = b.branch_state; all_branches = bs }),
      effect values db_id ":fork/chosen" (chosen_kwargs host i b) x,
    )
  ]

  unfoldable pub choose_among :
      V
      → List V
      → (List (ForkBranchResult V) → Choice)
      → Outcome ForkError (List (ForkBranchResult V))
      → Transaction V
      → Forked
  unfolding emit_tried pick
  choose_among seed items choose (err e) x = (err e, x)
  choose_among seed items choose (ok bs) x =
      pick bs (validate_choose_index (choose bs) (length bs)) (emit_tried seed items bs x)

  abbrev pub is_bad : ForkPolicy → Bool
  is_bad other = true
  is_bad _ = false

  abbrev pub is_empty : List V → Bool
  is_empty [] = true
  is_empty (_ ∷ _) = false

  -- `fork_impl`; a missing `tx` is refused as an inactive dosync is.
  unfoldable pub fork_impl :
      Bool
      → List V
      → ForkFn V
      → (List (ForkBranchResult V) → Choice)
      → V
      → ForkPolicy
      → Transaction V
      → Forked
  unfolding choose_among
  fork_impl in_dosync items fn choose seed policy x =
      if not in_dosync
      then (err outside_dosync, x)
      else if is_bad policy
      then (err bad_on_error, x)
      else if is_empty items
      then (err no_items, x)
      else choose_among seed items choose (run_items host fn seed policy 0 items) x
