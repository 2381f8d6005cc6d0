-- ===== src/Fact/Datom/Made.antt =====
-- What a datom that `Datom(...)` returned looks like.
use persistence_os.Base.{ℕ, String, Option, none, some, ◌≡◌, ok, arith}
use persistence_os.Base.Text.{lstrip}
use persistence_os.Fact.Datom.{
  TxId, OpText, is_assert, is_assert_text, Datetime, Python, Provenance, Datom, instant_of,
  canonicalise, make,
}

-- The instant of an end, which may be missing.
abbrev pub end_instant : Option Datetime → Option ℕ
end_instant none = none
end_instant (some t) = some t.instant

-- The fields of a datom, from the arguments it was made from.
pub record IsMade {V : Type 0} (e a : String) (v : V) (t : TxId) (now vf : Datetime)
    (vt : Option Datetime) (op : OpText) (inv : Option TxId) (d : Datom V) : Type 0 where
  pub entity : d.e ≡ e
  pub attribute : d.a ≡ lstrip a
  pub value : d.v ≡ v
  pub id : d.txid ≡ t
  pub learned : d.tx_time ≡ now.instant
  pub start : d.valid_from ≡ vf.instant
  pub stop : d.valid_to ≡ end_instant vt
  pub kind : is_assert d.op ≡ is_assert_text op
  pub pointer : d.invalidated_by ≡ inv

module _ {V : Type 0} ⦃py : Python V⦄ where
  pub make-IsMade :
      (e a : String) (v : V) (t : TxId) (now vf : Datetime) (vt : Option Datetime) (op : OpText)
      (prov : Provenance V) (inv : Option TxId) {d : Datom V}
      → make e a v t now vf vt op prov inv ≡ ok d
      → IsMade e a v t now vf vt op inv d
  unfolding make canonicalise instant_of
  make-IsMade e a v t now vf none op prov inv h = ground arith
  make-IsMade e a v t now vf (some u) op prov inv h = ground arith
