-- ===== src/Fact/Shape.antt =====
-- fact/db.py: what `DB.transact` and `DB.transact_batch` do with one fact. The clock is an
-- argument, its one reading of the call.
pub mod Rounds
use persistence_os.Base.{
  ℕ, String, Bool, true, false, not, ◌&&◌, Option, none, some, List, reverse, ltb, ◌==◌, string_eq,
  if◌then◌else◌, first, Outcome, ok, err, raise_if, ◌>>=◌, ◌>>◌,
}
use persistence_os.Base.Dict.{insert}
use persistence_os.Base.Text.{take}
use persistence_os.Fact.Datom.{
  TxId, placeholder, is_assert, OpText, assert, retract, is_assert_text, Datetime, Error,
  not_a_datetime, naive_datetime, bad_iso, naive_comparison, retroactive, TimeArg, datetime, text,
  other_value, Fact, Python, Provenance, Datom, make,
}
use persistence_os.Fact.Store.{is_none}

abbrev pub is_open_ended : Option ℕ → Bool
is_open_ended none = true
is_open_ended (some _) = false

-- The arguments of a call that are the same for each fact, and its clock reading.
pub record Call (V : Type 0) : Type 0 where
  pub now : Datetime
  pub provenance : Provenance V
  pub force_retroactive : Bool

module _ {V : Type 0} where
  -- What a scan for the prior assert accepts: the attribute's open, non-invalidated asserts.
  unfoldable pub is_open : Datom V → Bool
  is_open d = is_assert d.op && is_none d.invalidated_by && is_open_ended d.valid_to

  unfoldable pub is_open_at : String → String → Datom V → Bool
  unfolding is_open
  is_open_at e a d = d.e == e && d.a == a && is_open d

  -- `_find_prior_assert`
  unfoldable pub find_prior_assert : List (Datom V) → String → String → Option (Datom V)
  find_prior_assert datoms e a = first (is_open_at e a) (reverse datoms)

-- `_coerce_dt`
unfoldable pub coerce_dt : (String → Option Datetime) → TimeArg → Outcome Error Datetime
coerce_dt iso (datetime t) = raise_if (not t.aware) naive_datetime >> ok t
coerce_dt iso (text s) = elim (iso s) [ none ↦ err bad_iso | some t ↦ ok t ]
coerce_dt iso (other_value _) = err not_a_datetime

-- `_coerce_dt(x) if x else None`: a missing, empty or false value is no end.
unfoldable pub coerce_end :
    (String → Option Datetime) → Option TimeArg → Outcome Error (Option Datetime)
unfolding coerce_dt
coerce_end iso none = ok none
coerce_end iso (some (datetime t)) = coerce_dt iso (datetime t) >>= λ u. ok (some u)
coerce_end iso (some (text s)) =
    if s == "" then ok none else (coerce_dt iso (text s) >>= λ u. ok (some u))
coerce_end iso (some (other_value false)) = ok none
coerce_end iso (some (other_value true)) = err not_a_datetime

-- `fact.get("valid_from", now)`, `fact.get("op", "assert")`
abbrev pub start_or : Datetime → Option TimeArg → TimeArg
start_or now none = datetime now
start_or now (some t) = t

abbrev pub op_or_assert : Option OpText → OpText
op_or_assert none = assert
op_or_assert (some op) = op

module _ {V : Type 0} ⦃py : Python V⦄ where
  -- `_hash_fact`
  unfoldable pub hash_fact : Fact V → V
  hash_fact f = py.of_str (take 16 (py.sha256_hex (py.dumps_fact f)))

module _ {V : Type 0} where
  -- The interval of the companion retract: refused, clamped, or up to the new start.
  unfoldable pub companion_span : Bool → Datetime → Datom V → Outcome Error (ℕ × ℕ)
  companion_span force vf prior =
      raise_if (not vf.aware) naive_comparison
      >> (if ltb vf.instant prior.valid_from
          then (raise_if (not force) retroactive >> ok (vf.instant, prior.valid_from))
          else ok (prior.valid_from, vf.instant))

abbrev aware_at : ℕ → Datetime
aware_at n = record { instant = n; aware = true }

-- What one fact adds to the two lists that the call builds.
pub record Shaped (V : Type 0) : Type 0 where
  pub companion : Option (Datom V × TxId)
  pub datom : Datom V

module _ {V : Type 0} ⦃py : Python V⦄ where
  unfoldable pub companion_of : Call V → Datetime → Datom V → Outcome Error (Datom V × TxId)
  companion_of c vf prior = do
    (start, stop) ← companion_span c.force_retroactive vf prior
    d ←
        make prior.e prior.a prior.v placeholder c.now (aware_at start) (some (aware_at stop))
          retract (insert "superseded_by_tx" (py.of_tx placeholder) prior.provenance) none
    ok (d, prior.txid)

  -- Only an assert looks for a prior assert.
  unfoldable pub supersede :
      Call V → Datetime → Bool → Option (Datom V) → Outcome Error (Option (Datom V × TxId))
  supersede c vf false prior = ok none
  supersede c vf true none = ok none
  supersede c vf true (some prior) = companion_of c vf prior >>= λ r. ok (some r)

  -- The body of the loop, given the prior assert.
  unfoldable pub shape : Call V → Fact V → Option (Datom V) → Outcome Error (Shaped V)
  shape c f prior = do
    vf ← coerce_dt py.fromisoformat (start_or c.now f.valid_from)
    vt ← coerce_end py.fromisoformat f.valid_to
    closing ← supersede c vf (is_assert_text (op_or_assert f.op)) prior
    d ←
        make f.e f.a f.v placeholder c.now vf vt (op_or_assert f.op)
          (insert "prompt_hash" (hash_fact f) c.provenance) none
    ok (record { companion = closing; datom = d })
