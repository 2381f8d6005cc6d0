-- ===== src/Fact/View.antt =====
-- fact/db.py: the reads. `DB.as_of`, `as_of_valid` and `history` on the log, and `DBView.entity`
-- on the datoms of a view. A view is its list of datoms.
pub mod Winner
pub mod Pointers
pub mod Newest
use persistence_os.Base.{
  ℕ, String, Bool, true, false, not, ◌&&◌, ◌||◌, Option, none, some, List, [], ◌∷◌, ltb, leb, ◌==◌,
  nat_eq, string_eq, pair_eq, if◌then◌else◌, keep,
}
use persistence_os.Base.Dict.{Dict, lookup, insert}
use persistence_os.Fact.Datom.{tx_ltb, is_assert, Python, value_eq, Datom}

abbrev pub ends_after : ℕ → Option ℕ → Bool
ends_after t none = true
ends_after t (some stop) = ltb t stop

module _ {V : Type 0} where
  unfoldable pub as_of : ℕ → List (Datom V) → List (Datom V)
  as_of t log = keep (λ d. leb d.tx_time t) log

  unfoldable pub as_of_valid : ℕ → List (Datom V) → List (Datom V)
  as_of_valid t log =
      keep (λ d. is_assert d.op && leb d.valid_from t && ends_after t d.valid_to) log

  -- `sorted(..., key=lambda d: d.tx)`: a stable sort
  unfoldable pub insert_by_tx : Datom V → List (Datom V) → List (Datom V)
  insert_by_tx d [] = d ∷ []
  insert_by_tx d (x ∷ xs) =
      let later = x ∷ insert_by_tx d xs in if tx_ltb x.txid d.txid then later else d ∷ x ∷ xs

  unfoldable pub sort_by_tx : List (Datom V) → List (Datom V)
  sort_by_tx [] = []
  sort_by_tx (d ∷ ds) = insert_by_tx d (sort_by_tx ds)

  unfoldable pub history : String → List (Datom V) → List (Datom V)
  history e log = sort_by_tx (keep (λ d. d.e == e) log)

  -- `(d.valid_from, d.tx) > (cur.valid_from, cur.tx)`
  unfoldable pub beats : Datom V → Datom V → Bool
  beats d cur =
      ltb cur.valid_from d.valid_from || (d.valid_from == cur.valid_from && tx_ltb cur.txid d.txid)

  -- One round over the open candidates.
  unfoldable pub update_latest : Dict String (Datom V) → Datom V → Dict String (Datom V)
  update_latest latest d = elim (lookup d.a latest) [
    | none ↦ insert d.a d latest
    | some cur ↦ if beats d cur then insert d.a d latest else latest
  ]

module _ {V : Type 0} ⦃py : Python V⦄ where
  -- `_freeze`
  unfoldable pub freeze : V → V
  freeze v = if py.hashable v then v else py.of_str (py.dumps v)

  abbrev pub key_of : Datom V → String × (V × ℕ)
  key_of d = (d.a, (freeze d.v, d.valid_from))

  -- Whether the retracts of entity `e` in the view hold the key: `key in retracts`.
  unfoldable pub retracted_in : String → String × (V × ℕ) → List (Datom V) → Bool
  retracted_in e key [] = false
  retracted_in e key (d ∷ ds) =
      (d.e == e && not (is_assert d.op) && key_of d == key) || retracted_in e key ds

  -- The candidates that are not closed by a retract of the view.
  unfoldable pub is_candidate : String → List (Datom V) → Datom V → Bool
  is_candidate e view d = d.e == e && is_assert d.op && not (retracted_in e (key_of d) view)

  unfoldable pub pick_latest :
      String → List (Datom V) → List (Datom V) → Dict String (Datom V) → Dict String (Datom V)
  pick_latest e view [] latest = latest
  pick_latest e view (d ∷ ds) latest =
      pick_latest e view ds (if is_candidate e view d then update_latest latest d else latest)

  values_of : Dict String (Datom V) → Dict String V
  values_of [] = []
  values_of ((a, d) ∷ rest) = (a, d.v) ∷ values_of rest

  -- `DBView.entity`
  unfoldable pub entity : String → List (Datom V) → Dict String V
  unfolding values_of
  entity e view = values_of (pick_latest e view view [])
