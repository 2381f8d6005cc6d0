-- ===== src/Fact/Samples.antt =====
-- Tests on a small instance of Python's values, and the theorems on fact/db.py at concrete inputs.
use persistence_os.Base.{
  ℕ, String, Bool, true, false, Option, none, some, List, [], ◌∷◌, map, ◌≡◌, ◌↔◌, refl, Outcome, ok,
  err, arith, string_eq, length, first,
}
use text.Mathlib.TextEquality.{eq_iff}
use persistence_os.Base.Dict.{lookup}
use persistence_os.Base.Text.{lstrip}
use persistence_os.Fact.Datom.{
  TxId, tx_eq, tx_beq, tx_beq_iff, retroactive, Datetime, datetime, Fact, Python, Error, Datom,
  make, canonicalise, with_tx,
}
use persistence_os.Fact.Shape.{
  Call, coerce_dt, coerce_end, find_prior_assert, is_open_at, supersede, companion_of,
  companion_span, hash_fact, shape,
}
use persistence_os.Fact.Transact.{transact, transact_batch, shape_all, add, commit, mark_stored}
use persistence_os.Fact.Transact.Reading.{entity-transact}
use persistence_os.Fact.Store.{allocate_and_append, mark_invalidated}
use persistence_os.Fact.Store.Ids.{content}
use persistence_os.Fact.Transact.Appends.{Appends, transact-Appends, as_of-transact}
use persistence_os.Fact.Transact.Repeating.{repeat_erases}
use persistence_os.Fact.View.Winner.{Describes, lookup-entity-Describes}
use persistence_os.Fact.Transact.Batching.{transact_batch-transact}
use persistence_os.Fact.View.{entity, as_of}

-- Values that are integers or texts.
pub data Value : Type 0 where
  int : TxId → Value
  str : String → Value

abbrev pub value_beq : Value → Value → Bool
value_beq (int a) (int b) = tx_beq a b
value_beq (str s) (str t) = string_eq.equal s t
value_beq (int a) (str t) = false
value_beq (str s) (int b) = false

pub value_beq_iff : (a b : Value) → (value_beq a b ≡ true) ↔ (a ≡ b)
value_beq_iff (int a) (int b) = ground (arith, tx_beq_iff a b)
value_beq_iff (str s) (str t) = ground (arith, eq_iff s t)
value_beq_iff (int a) (str t) = ground arith
value_beq_iff (str s) (int b) = ground arith

abbrev pub text_of : Value → Option String
text_of (int a) = none
text_of (str s) = some s

instance abbrev pub small_python : Python Value
small_python = record {
  eq = record { equal = value_beq; equal_iff = value_beq_iff };
  of_tx = int;
  of_str = str;
  as_str = text_of;
  hashable = λ _. true;
  dumps = λ _. "";
  dumps_fact = λ f. f.e;
  sha256_hex = λ s. s;
  fromisoformat = λ _. none;
  isoformat = λ _. "";
}

abbrev pub at : ℕ → Datetime
at n = record { instant = n; aware = true }

abbrev pub call_at : ℕ → Call Value
call_at n = record { now = at n; provenance = []; force_retroactive = false }

abbrev pub fact : String → String → Value → ℕ → Fact Value
fact e a v n = record {
  e = e;
  a = a;
  v = v;
  valid_from = some (datetime (at n));
  valid_to = none;
  op = none;
}

-- The log that a call returned. Its line opens what a run of the calls goes through.
pub logged : Outcome Error (List (Datom Value)) → List (Datom Value)
unfolding transact shape_all shape coerce_dt coerce_end supersede companion_of companion_span
    find_prior_assert is_open_at make canonicalise hash_fact first add commit mark_stored
    mark_invalidated allocate_and_append with_tx lstrip
logged (ok log) = log
logged (err _) = []

-- A rate that is learned at 10, and corrected upwards at 20.
abbrev old_rate : Fact Value
old_rate = fact "acme" "wacc" (str "8") 5

abbrev new_rate : Fact Value
new_rate = fact "acme" "wacc" (str "9") 15

abbrev first_log : List (Datom Value)
first_log = logged (transact (call_at 10) (old_rate ∷ []) [])

abbrev second_log : List (Datom Value)
second_log = logged (transact (call_at 20) (new_rate ∷ []) first_log)

abbrev repeated_log : List (Datom Value)
repeated_log = logged (transact (call_at 20) (old_rate ∷ []) first_log)

three_datoms : length second_log ≡ 3
unfolding logged
three_datoms = refl

retroactive_call :
    transact (call_at 20) (old_rate ∷ []) (logged (transact (call_at 10) (new_rate ∷ []) []))
    ≡ err retroactive
unfolding logged
retroactive_call = refl

second_call : transact (call_at 20) (new_rate ∷ []) first_log ≡ ok second_log
unfolding logged
second_call = refl

entity-transact_example : lookup "wacc" (entity "acme" second_log) ≡ some (str "9")
unfolding logged
entity-transact_example =
    entity-transact (call_at 20) new_rate (at 15) first_log second_log second_call refl refl refl
      (λ _ _. omega arith, tt)

repeat_erases_example : lookup "wacc" (entity "acme" repeated_log) ≡ none
unfolding logged
repeat_erases_example =
    repeat_erases (call_at 20) old_rate (at 5) first_log repeated_log refl refl refl refl refl
      (λ _ _. (refl, refl), tt)

transact-Appends_example : Appends (call_at 20) 1 first_log second_log
transact-Appends_example =
    transact-Appends (call_at 20) (new_rate ∷ []) first_log second_log second_call

as_of-transact_example : map content (as_of 19 second_log) ≡ map content (as_of 19 first_log)
as_of-transact_example =
    as_of-transact 19 (call_at 20) (new_rate ∷ []) first_log second_log second_call (omega arith)

lookup-entity-Describes_example :
    Describes "acme" "wacc" second_log (lookup "wacc" (entity "acme" second_log))
lookup-entity-Describes_example = lookup-entity-Describes "acme" "wacc" second_log

transact_batch-transact_example :
    transact_batch (call_at 20) (old_rate ∷ new_rate ∷ []) []
    ≡ transact (call_at 20) (old_rate ∷ new_rate ∷ []) []
unfolding logged
transact_batch-transact_example =
    transact_batch-transact (call_at 20) (old_rate ∷ new_rate ∷ []) [] (
      record { bare = refl; open_ended = λ _. refl },
      (record { bare = refl; open_ended = λ _. refl }, tt),
    )
