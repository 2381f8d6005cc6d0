-- ===== src/Fact/Shape/Rounds.antt =====
-- What one round of the loop has added when it returned.
use Prim.Native.Nat.{min, max}
use persistence_os.Base.Text.{lstrip}
use persistence_os.Base.{
  string_eq, ◌⊎◌, sym, ap, ◌∙◌, ℕ, Bool, true, false, Option, none, some, ◌≡◌, ◌≤◌, ok, arith,
  bind_ok,
}
use persistence_os.Fact.Datom.{
  TxId, placeholder, retract, is_assert, Datetime, is_assert_text, Fact, Python, Datom, make,
}
use persistence_os.Base.Dict.{insert}
use persistence_os.Fact.Datom.Made.{IsMade, make-IsMade}
use persistence_os.Fact.Shape.{
  Call, Shaped, coerce_dt, coerce_end, start_or, op_or_assert, hash_fact, supersede, companion_of,
  companion_span, shape,
}

pub record IsShaped {V : Type 0} ⦃py : Python V⦄ (c : Call V) (f : Fact V)
    (prior : Option (Datom V)) (s : Shaped V) : Type 0 where
  pub start : Datetime
  pub stop : Option Datetime
  pub coerced : coerce_dt py.fromisoformat (start_or c.now f.valid_from) ≡ ok start
  pub ended : coerce_end py.fromisoformat f.valid_to ≡ ok stop
  pub closing : supersede c start (is_assert_text (op_or_assert f.op)) prior ≡ ok s.companion
  pub made : IsMade f.e f.a f.v placeholder c.now start stop (op_or_assert f.op) none s.datom

module _ {V : Type 0} ⦃py : Python V⦄ where
  pub shape-IsShaped :
      (c : Call V) (f : Fact V) (prior : Option (Datom V)) {s : Shaped V}
      → shape c f prior ≡ ok s
      → IsShaped c f prior s
  unfolding shape
  shape-IsShaped c f prior {s} h =
      let (vf, e1, h1) = bind_ok (coerce_dt py.fromisoformat (start_or c.now f.valid_from)) _ h in
      let (vt, e2, h2) = bind_ok (coerce_end py.fromisoformat f.valid_to) _ h1 in
      let op = op_or_assert f.op in
      let (closing, e3, h3) = bind_ok (supersede c vf (is_assert_text op) prior) _ h2 in
      let prov = insert "prompt_hash" (hash_fact f) c.provenance in
      let (d, e4, h4) = bind_ok (make f.e f.a f.v placeholder c.now vf vt op prov none) _ h3 in
      let e : ◌≡◌ {A = Shaped V} (record { companion = closing; datom = d }) s = cc h4 in
      rw (← e) (record {
        start = vf;
        stop = vt;
        coerced = e1;
        ended = e2;
        closing = e3;
        made = make-IsMade f.e f.a f.v placeholder c.now vf vt op prov none e4;
      })

-- A companion retract of `prior` made for a fact that starts at `vf`: it names the prior datom,
-- and its interval runs forward between the two starts.
pub record IsCompanion {V : Type 0} (c : Call V) (vf : Datetime) (prior d : Datom V) (t : TxId)
    : Type 0 where
  pub entity : d.e ≡ prior.e
  pub attribute : d.a ≡ lstrip prior.a
  pub value : d.v ≡ prior.v
  pub kind : is_assert d.op ≡ false
  pub learned : d.tx_time ≡ c.now.instant
  pub id : t ≡ prior.txid
  pub start : d.valid_from ≡ min vf.instant prior.valid_from
  pub stop : d.valid_to ≡ some (max vf.instant prior.valid_from)
  pub allowed : (c.force_retroactive ≡ true) ⊎ (prior.valid_from ≤ vf.instant)

module _ {V : Type 0} ⦃py : Python V⦄ where
  span_lem :
      (force : Bool) (vf : Datetime) (prior : Datom V) {p : ℕ × ℕ}
      → companion_span force vf prior ≡ ok p
      → (p.0 ≡ min vf.instant prior.valid_from)
        × (p.1 ≡ max vf.instant prior.valid_from)
        × ((force ≡ true) ⊎ (prior.valid_from ≤ vf.instant))
  unfolding companion_span
  span_lem true vf prior h = ground arith
  span_lem false vf prior h = ground arith

  pub companion_of-IsCompanion :
      (c : Call V) (vf : Datetime) (prior : Datom V) {d : Datom V} {t : TxId}
      → companion_of c vf prior ≡ ok (d, t)
      → IsCompanion c vf prior d t
  unfolding companion_of
  companion_of-IsCompanion c vf prior {d} {t} h =
      let (span, e1, h1) = bind_ok (companion_span c.force_retroactive vf prior) _ h in
      let from_dt : Datetime = record { instant = span.0; aware = true } in
      let to_dt : Datetime = record { instant = span.1; aware = true } in
      let prov = insert "superseded_by_tx" (py.of_tx placeholder) prior.provenance in
      let (d', e2, h2) =
        bind_ok
          (make prior.e prior.a prior.v placeholder c.now from_dt (some to_dt) retract prov none) _
          h1 in
      let m =
        make-IsMade prior.e prior.a prior.v placeholder c.now from_dt (some to_dt) retract prov none
          e2 in
      let s = span_lem c.force_retroactive vf prior e1 in
      let e : d' ≡ d = cc h2 in
      let e' : prior.txid ≡ t = cc h2 in
      rw (← e) (record {
        entity = m.entity;
        attribute = m.attribute;
        value = m.value;
        kind = m.kind;
        learned = m.learned;
        id = sym e';
        start = m.start ∙ s.0;
        stop = m.stop ∙ ap some s.1;
        allowed = s.2;
      })

-- A companion is made exactly if an assert found a prior assert.
abbrev pub Closes :
    {V : Type 0} → Call V → Datetime → Bool → Option (Datom V) → Option (Datom V × TxId) → Type 0
Closes c vf true (some prior) (some (d, t)) = IsCompanion c vf prior d t
Closes c vf true (some prior) none = ⊥
Closes c vf true none comp = comp ≡ none
Closes c vf false prior comp = comp ≡ none

abbrev pub AreRetracts : {V : Type 0} → Option (Datom V × TxId) → Type 0
AreRetracts none = Unit
AreRetracts (some (d, t)) = is_assert d.op ≡ false

module _ {V : Type 0} where
  pub Closes-AreRetracts :
      (c : Call V) (vf : Datetime) (b : Bool) (prior : Option (Datom V))
      (comp : Option (Datom V × TxId))
      → Closes c vf b prior comp
      → AreRetracts comp
  Closes-AreRetracts c vf true (some prior) (some (d, t)) h = h.kind
  Closes-AreRetracts c vf true (some prior) none h = absurd h
  Closes-AreRetracts c vf true none comp h = rw h tt
  Closes-AreRetracts c vf false prior comp h = rw h tt

module _ {V : Type 0} ⦃py : Python V⦄ where
  pub supersede-Closes :
      (c : Call V) (vf : Datetime) (b : Bool) (prior : Option (Datom V))
      (comp : Option (Datom V × TxId))
      → supersede c vf b prior ≡ ok comp
      → Closes c vf b prior comp
  unfolding supersede
  supersede-Closes c vf true (some prior) none h =
      let (r, e, h') = bind_ok (companion_of c vf prior) _ h in cc h'
  supersede-Closes c vf true (some prior) (some (d, t)) h =
      let (r, e, h') = bind_ok (companion_of c vf prior) _ h in
      let same : r ≡ (d, t) = cc h' in companion_of-IsCompanion c vf prior (e ∙ ap ok same)
  supersede-Closes c vf true none comp h = cc
  supersede-Closes c vf false prior comp h = cc
