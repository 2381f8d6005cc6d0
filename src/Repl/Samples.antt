-- ===== src/Repl/Samples.antt =====
-- The theorems on repl/ at concrete inputs.
use persistence_os.Base.{
  String, Bool, true, false, none, some, List, [], ◌∷◌, ◌≡◌, refl, Outcome, ok, err, arith,
  string_eq, first, keep,
}
use text.Mathlib.TextEquality.{eq_iff}
use persistence_os.Base.Dict.{lookup, insert}
use persistence_os.Base.Text.{lstrip, take}
use persistence_os.Fact.Datom.{tx, asserted, Datom, Error, Python, with_tx, make, canonicalise}
use persistence_os.Fact.Store.{allocate_and_append, mark_invalidated}
use persistence_os.Fact.Shape.{
  shape, coerce_dt, coerce_end, supersede, companion_of, companion_span, hash_fact,
  find_prior_assert, is_open_at, is_open,
}
use persistence_os.Fact.Transact.{transact, shape_all, add, commit, mark_stored}
use persistence_os.Fact.View.{entity}
use persistence_os.Fact.Samples.{Value, int, str, small_python, at}
use persistence_os.Repl.Caps.{TokenHost, revoke_token, is_revoked, validate_token}
use persistence_os.Repl.Caps.Revoking.{validate_token-revoke_token, revoke_token_again}

-- Python's values, where each text reads as the instant 7.
abbrev dated : Python Value
dated = record small_python { fromisoformat = λ s. some (at 7) }

abbrev reads_true : Value → Bool
reads_true (int t) = true
reads_true (str s) = false

abbrev tokens : TokenHost Value
tokens = record {
  token_id = λ s. s;
  yes_value = int (tx 1);
  is_true = reads_true;
  encode = λ s. str "{}";
  decode = λ v. ok (record { caps = []; expires_at = none; label = "" });
}

abbrev stored : String → Value → Datom Value
stored a v = record {
  e = "token";
  a = a;
  v = v;
  txid = tx 1;
  tx_time = 7;
  valid_from = 7;
  valid_to = none;
  op = asserted;
  provenance = [];
  invalidated_by = none;
}

-- The log that a call returned; its line opens what a call goes through.
after : Outcome Error (List (Datom Value)) → List (Datom Value)
unfolding revoke_token transact shape_all shape coerce_dt coerce_end supersede companion_of
    companion_span find_prior_assert is_open_at is_open make canonicalise hash_fact first add commit
    mark_stored mark_invalidated allocate_and_append with_tx lstrip take lookup insert keep
after (ok log) = log
after (err e) = []

abbrev issued : List (Datom Value)
issued = stored "repl/cap-set" (str "{}") ∷ []

abbrev revoked : List (Datom Value)
revoked = stored "repl/revoked" (int (tx 1)) ∷ []

validate_token-revoke_token_example :
    validate_token ⦃py = dated⦄ tokens "token"
      (at 9)
      (after (revoke_token ⦃py = dated⦄ tokens "token" (at 7) (at 8) issued))
    ≡ ok none
unfolding after
validate_token-revoke_token_example =
    validate_token-revoke_token ⦃py = dated⦄ tokens "token" (at 7) (at 8) (at 9) issued
      (after (revoke_token ⦃py = dated⦄ tokens "token" (at 7) (at 8) issued)) refl refl refl
      ((λ e a. absurd (cc ((eq_iff "repl/cap-set" "repl/revoked").1 a))), tt)
      (omega arith, (omega arith, tt))

revoke_token_again_example :
    is_revoked ⦃py = dated⦄ tokens (
      entity ⦃py = dated⦄ "token"
        (after (revoke_token ⦃py = dated⦄ tokens "token" (at 7) (at 8) revoked)))
    ≡ false
unfolding after
revoke_token_again_example =
    revoke_token_again ⦃py = dated⦄ tokens "token" (at 7) (at 8) revoked
      (after (revoke_token ⦃py = dated⦄ tokens "token" (at 7) (at 8) revoked)) refl refl refl
      ((λ e a. (refl, refl)), tt)
