-- ===== src/Repl/Caps.antt =====
-- repl/_caps.py: the closed set of capabilities, `CapabilitySet`, and the tokens in the fact store.
-- Hashing, `secrets.token_urlsafe` and JSON are parameters; a set of capabilities is the list that
-- `to_canonical` sorts.
pub mod Revoking
use persistence_os.Base.{
  String, Bool, true, false, not, ◌&&◌, Option, none, some, List, [], ◌∷◌, ◌==◌, string_eq, leb,
  if◌then◌else◌, Outcome, ok, raise_if, ◌>>=◌, ◌>>◌,
}
use persistence_os.Base.Dict.{Dict, lookup}
use persistence_os.Fact.Datom.{Datetime, text, Fact, Error, Python, Datom}
use persistence_os.Fact.Shape.{Call}
use persistence_os.Fact.Transact.{transact}
use persistence_os.Fact.View.{as_of, entity}
use persistence_os.Base.Text.{contains}

abbrev pub qualifiers_by_op : Dict String (List String)
qualifiers_by_op =
    ("inspect", "read" ∷ "audit-tail" ∷ [])
    ∷ ("edit", "write" ∷ "propose-only" ∷ [])
    ∷ ("rewind", "any" ∷ "branch-only" ∷ [])
    ∷ ("branch", "fork" ∷ "fork-from-cursor" ∷ [])
    ∷ ("auth", "login" ∷ [])
    ∷ []

pub record Capability : Type 0 where
  pub op : String
  pub qualifier : String

-- `(op, qualifier) in ALL_CAPS`
unfoldable pub is_known : String → String → Bool
unfolding contains
is_known op q = elim (lookup op qualifiers_by_op) [ none ↦ false | some qs ↦ contains q qs ]

pub data CapError : Type 0 where
  unknown_capability : CapError
  bad_cap_json : CapError

unfoldable pub make_capability : String → String → Outcome CapError Capability
unfolding is_known
make_capability op q =
    raise_if (not (is_known op q)) unknown_capability >> ok (record { op = op; qualifier = q })

unfoldable pub has_cap : Capability → List Capability → Bool
has_cap c [] = false
has_cap c (d ∷ ds) = if d.op == c.op && d.qualifier == c.qualifier then true else has_cap c ds

pub record CapabilitySet : Type 0 where
  pub caps : List Capability
  pub expires_at : Option Datetime
  pub label : String

unfoldable pub has : CapabilitySet → String → String → Outcome CapError Bool
unfolding make_capability has_cap
has s op q = make_capability op q >>= λ c. ok (has_cap c s.caps)

unfoldable pub is_expired : CapabilitySet → Datetime → Bool
is_expired s now = elim s.expires_at [
  | none ↦ false
  | some t ↦ leb (Datetime.instant t) now.instant
]

-- What the tokens take of the values: `token_id` of a raw token, a text as a value, `True`, and
-- the canonical JSON of a set with its inverse, which
-- raises where the stored text is no JSON of a set.
pub record TokenHost (V : Type 0) : Type 0 where
  pub token_id : String → String
  pub yes_value : V
  pub is_true : V → Bool
  pub encode : CapabilitySet → V
  pub decode : V → Outcome CapError CapabilitySet

module _ {V : Type 0} ⦃py : Python V⦄ (tokens : TokenHost V) where
  abbrev pub call_at : Datetime → Call V
  call_at now = record { now = now; provenance = []; force_retroactive = false }

  abbrev pub token_fact : String → String → V → Datetime → Fact V
  token_fact e a v now = record {
    e = e;
    a = a;
    v = v;
    valid_from = some (text (py.isoformat now));
    valid_to = none;
    op = none;
  }

  -- The first reading of the clock is `runtime_clock()`, the second the one of `db.transact`.
  unfoldable pub store_token :
      String → CapabilitySet → Datetime → Datetime → List (Datom V) → Outcome Error (List (Datom V))
  unfolding transact
  store_token token_str caps now db_now log =
      transact (call_at db_now)
        (token_fact (tokens.token_id token_str) "repl/cap-set" (tokens.encode caps) now ∷ []) log

  unfoldable pub revoke_token :
      String → Datetime → Datetime → List (Datom V) → Outcome Error (List (Datom V))
  unfolding transact
  revoke_token token_id now db_now log =
      transact (call_at db_now) (token_fact token_id "repl/revoked" tokens.yes_value now ∷ []) log

  -- `entity.get("repl/revoked") is True`
  unfoldable pub is_revoked : Dict String V → Bool
  is_revoked attrs = elim (lookup "repl/revoked" attrs) [ none ↦ false | some v ↦ tokens.is_true v ]

  -- The checks on the entity of a token.
  unfoldable pub admit : Datetime → Dict String V → Outcome CapError (Option CapabilitySet)
  unfolding is_revoked is_expired
  admit now attrs = elim (lookup "repl/cap-set" attrs) [
    | none ↦ ok none
    | some json ↦
        if is_revoked attrs
        then ok none
        else (tokens.decode json >>= λ s. ok (if is_expired s now then none else some s))
  ]

  unfoldable pub validate_token :
      String → Datetime → List (Datom V) → Outcome CapError (Option CapabilitySet)
  unfolding admit
  validate_token token_str now log =
      admit now (entity (tokens.token_id token_str) (as_of now.instant log))
