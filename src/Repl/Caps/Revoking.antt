-- ===== src/Repl/Caps/Revoking.antt =====
-- repl/_caps.py: what `validate_token` says after `revoke_token`.
use persistence_os.Base.{
  ℕ, ◌≤◌, ◌≡◌, refl, String, true, false, none, some, List, [], ◌∷◌, ok, arith, All, keep,
  string_eq,
}
use persistence_os.Base.Dict.{Dict, lookup}
use persistence_os.Base.Text.{lstrip}
use persistence_os.Fact.Datom.{Datetime, Python, Datom}
use persistence_os.Fact.Shape.{coerce_dt, find_prior_assert}
use persistence_os.Fact.View.{as_of, entity}
use persistence_os.Fact.View.Newest.{StartsBefore}
use persistence_os.Fact.Transact.Reading.{entity-transact}
use persistence_os.Fact.Transact.Repeating.{Repeats, repeat_erases}
use persistence_os.Repl.Caps.{
  TokenHost, call_at, token_fact, revoke_token, is_revoked, admit, validate_token,
}

module _ {V : Type 0} ⦃py : Python V⦄ (tokens : TokenHost V) where
  -- A view from an instant that nothing in the log is later than is the log.
  as_of_now : (t : ℕ) (log : List (Datom V)) → All (λ d. d.tx_time ≤ t) log → as_of t log ≡ log
  unfolding as_of keep
  as_of_now t [] h = refl
  as_of_now t (d ∷ log) h = ground (arith, h.0, as_of_now t log h.1)

  admit_revoked :
      (now : Datetime) (attrs : Dict String V) (v : V)
      → lookup "repl/revoked" attrs ≡ some v
      → tokens.is_true v ≡ true
      → admit tokens now attrs ≡ ok none
  unfolding admit is_revoked
  admit_revoked now attrs v found h = ground (arith, found, h)

  -- A token that is revoked at an instant later than all revocations of it in the log is refused by
  -- every later validation that has the whole log in view, where the instant survives its ISO text
  -- and the stored value reads as True.
  pub validate_token-revoke_token :
      (token_str : String) (now db_now read : Datetime) (log log' : List (Datom V))
      → revoke_token tokens (tokens.token_id token_str) now db_now log ≡ ok log'
      → py.fromisoformat (py.isoformat now) ≡ some now
      → tokens.is_true tokens.yes_value ≡ true
      → All (StartsBefore (tokens.token_id token_str) "repl/revoked" now.instant) log
      → All (λ d. d.tx_time ≤ read.instant) log'
      → validate_token tokens token_str read log' ≡ ok none
  unfolding revoke_token validate_token coerce_dt lstrip
  validate_token-revoke_token token_str now db_now read log log' h round true_value before late =
      let e = tokens.token_id token_str in
      let revoked =
        entity-transact (call_at tokens db_now)
          (token_fact tokens e "repl/revoked" tokens.yes_value now) now log log' h refl refl
          (ground (arith, round)) before in
      rw (as_of_now read.instant log' late)
        (admit_revoked read (entity e log') tokens.yes_value revoked true_value)

  -- A revocation that repeats the instant of the open one makes the token read as not revoked,
  -- where every datom that the log has of it is that revocation and the instant survives its ISO
  -- text.
  pub revoke_token_again :
      (token_id : String) (now db_now : Datetime) {p : Datom V} (log log' : List (Datom V))
      → revoke_token tokens token_id now db_now log ≡ ok log'
      → py.fromisoformat (py.isoformat now) ≡ some now
      → find_prior_assert log token_id "repl/revoked" ≡ some p
      → All (Repeats token_id "repl/revoked" tokens.yes_value now.instant) log
      → is_revoked tokens (entity token_id log') ≡ false
  unfolding revoke_token is_revoked coerce_dt lstrip
  revoke_token_again token_id now db_now log log' h round found same =
      let gone =
        repeat_erases (call_at tokens db_now)
          (token_fact tokens token_id "repl/revoked" tokens.yes_value now) now log log' h refl refl
          (ground (arith, round)) found same in
      ground (arith, gone)
