-- ===== src/Fact/Datom.antt =====
-- fact/datom.py, and `with_tx` of store/_codec.py: the datom, the checks and the
-- canonicalisation of its `__post_init__`, and the values that Python brings.
pub mod Made
use persistence_os.Base.{
  ℕ, suc, String, Bool, true, false, not, Option, none, some, map, ltb, num_eq, ◌≡◌, ◌↔◌, arith, Eq,
  ◌==◌, string_eq, if◌then◌else◌, Outcome, ok, err, raise_if, ◌>>=◌, ◌>>◌,
}
use persistence_os.Base.Dict.{Dict, lookup, insert}
use persistence_os.Base.Text.{lstrip}

-- A transaction id is an integer: -1, the placeholder of a datom that is not yet stored, or a
-- number that the store has allocated.
pub data TxId : Type 0 where
  placeholder : TxId
  tx : ℕ → TxId

abbrev pub tx_beq : TxId → TxId → Bool
tx_beq placeholder placeholder = true
tx_beq (tx m) (tx n) = num_eq m n
tx_beq placeholder (tx n) = false
tx_beq (tx m) placeholder = false

pub tx_beq_iff : (a b : TxId) → (tx_beq a b ≡ true) ↔ (a ≡ b)
tx_beq_iff placeholder placeholder = ground arith
tx_beq_iff (tx m) (tx n) = ground arith
tx_beq_iff placeholder (tx n) = ground arith
tx_beq_iff (tx m) placeholder = ground arith

instance abbrev pub tx_eq : Eq TxId
tx_eq = record { equal = tx_beq; equal_iff = tx_beq_iff }

-- `a < b` on ids
abbrev pub tx_ltb : TxId → TxId → Bool
tx_ltb placeholder placeholder = false
tx_ltb placeholder (tx n) = true
tx_ltb (tx m) placeholder = false
tx_ltb (tx m) (tx n) = ltb m n

-- `a + 1`
abbrev pub tx_suc : TxId → TxId
tx_suc placeholder = tx 0
tx_suc (tx n) = tx (suc n)

abbrev pub tx_max : TxId → TxId → TxId
tx_max placeholder b = b
tx_max (tx m) placeholder = tx m
tx_max (tx m) (tx n) = elim (ltb m n) [ true ↦ tx n | false ↦ tx m ]

pub data Op : Type 0 where
  asserted retracted : Op

abbrev pub is_assert : Op → Bool
is_assert asserted = true
is_assert retracted = false

-- The texts that callers pass as `op`; the constructor refuses all but two.
pub data OpText : Type 0 where
  assert retract other : OpText

abbrev pub is_assert_text : OpText → Bool
is_assert_text assert = true
is_assert_text _ = false

-- A `datetime`: an instant, in microseconds, and whether it has a time zone.
pub record Datetime : Type 0 where
  pub instant : ℕ
  pub aware : Bool

pub data Error : Type 0 where
  bad_op naive_datetime bad_iso not_a_datetime naive_comparison retroactive : Error

-- What callers pass as a time: a `datetime`, an ISO text, or another value, which is true or false
-- in a test.
pub data TimeArg : Type 0 where
  datetime : Datetime → TimeArg
  text : String → TimeArg
  other_value : Bool → TimeArg

-- A fact dict. `e`, `a` and `v` are required; `get` gives the rest or its default.
pub record Fact (V : Type 0) : Type 0 where
  pub e : String
  pub a : String
  pub v : V
  pub valid_from : Option TimeArg
  pub valid_to : Option TimeArg
  pub op : Option OpText

-- The values of type `Any` are an abstract type `V` with the `==`, the integers, texts, hashing
-- and encodings that Python's runtime and standard library give.
pub record Python (V : Type 0) : Type 0 where
  pub eq : Eq V
  -- an integer, and a text, as a value
  pub of_tx : TxId → V
  pub of_str : String → V
  -- `isinstance(v, str)`, with the text
  pub as_str : V → Option String
  -- whether `hash(v)` returns
  pub hashable : V → Bool
  -- `json.dumps(v, default=str, sort_keys=True)`
  pub dumps : V → String
  pub dumps_fact : Fact V → String
  -- `hashlib.sha256(text.encode()).hexdigest()`
  pub sha256_hex : String → String
  -- `datetime.fromisoformat`, `none` for its ValueError
  pub fromisoformat : String → Option Datetime
  -- `isoformat`
  pub isoformat : Datetime → String

instance abbrev pub value_eq : {V : Type 0} ⦃py : Python V⦄ → Eq V
value_eq ⦃py⦄ = py.eq

abbrev pub Provenance : Type 0 → Type 0
Provenance V = Dict String V

pub record Datom (V : Type 0) : Type 0 where
  pub e : String
  pub a : String
  pub v : V
  pub txid : TxId
  pub tx_time : ℕ
  pub valid_from : ℕ
  pub valid_to : Option ℕ
  pub op : Op
  pub provenance : Provenance V
  pub invalidated_by : Option TxId

op_of : OpText → Outcome Error Op
op_of assert = ok asserted
op_of retract = ok retracted
op_of other = err bad_op

-- `ts.tzinfo is None` raises
unfoldable pub instant_of : Datetime → Outcome Error ℕ
instant_of t = raise_if (not t.aware) naive_datetime >> ok t.instant

instant_of_optional : Option Datetime → Outcome Error (Option ℕ)
unfolding instant_of
instant_of_optional none = ok none
instant_of_optional (some t) = instant_of t >>= λ n. ok (some n)

module _ {V : Type 0} ⦃py : Python V⦄ where
  strip_text : Option String → Provenance V → Provenance V
  strip_text none prov = prov
  strip_text (some s) prov =
      if lstrip s == s then prov else insert "source" (py.of_str (lstrip s)) prov

  strip_source : Option V → Provenance V → Provenance V
  unfolding strip_text
  strip_source none prov = prov
  strip_source (some v) prov = strip_text (py.as_str v) prov

  -- The end of `__post_init__`: `a` and `provenance["source"]` without leading colons.
  unfoldable pub canonicalise : Datom V → Datom V
  unfolding strip_source
  canonicalise d = record d {
    a = lstrip d.a;
    provenance = strip_source (lookup "source" d.provenance) d.provenance;
  }

  -- `Datom(...)`: the checks in the order of `__post_init__`, then the canonical form.
  unfoldable pub make :
      String
      → String
      → V
      → TxId
      → Datetime
      → Datetime
      → Option Datetime
      → OpText
      → Provenance V
      → Option TxId
      → Outcome Error (Datom V)
  unfolding op_of instant_of instant_of_optional
  make e a v txid tx_time valid_from valid_to op prov inv = do
    o ← op_of op
    now ← instant_of tx_time
    start ← instant_of valid_from
    stop ← instant_of_optional valid_to
    ok (
        canonicalise (record {
          e = e;
          a = a;
          v = v;
          txid = txid;
          tx_time = now;
          valid_from = start;
          valid_to = stop;
          op = o;
          provenance = prov;
          invalidated_by = inv;
        }))

  fill_placeholder : TxId → String × V → String × V
  fill_placeholder t (k, v) = (k, if v == py.of_tx placeholder then py.of_tx t else v)

  -- `_codec.with_tx`: every value of the provenance that equals -1 becomes the id. (Where none
  -- does, the source keeps the dict, which is what the map returns.)
  unfoldable pub with_tx : Datom V → TxId → Datom V
  unfolding fill_placeholder
  with_tx d t =
      canonicalise (record d { txid = t; provenance = map (fill_placeholder t) d.provenance })
