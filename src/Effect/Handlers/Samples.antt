-- ===== src/Effect/Handlers/Samples.antt =====
-- The theorems on effect/handlers/ at concrete inputs.
use persistence_os.Base.{
  inl, inr, ℕ, zero, suc, ◌+◌, ◌*◌, ◌≤◌, String, true, false, Option, none, some, [], ◌∷◌, ◌≡◌,
  refl, Outcome, ok, err, arith, string_eq,
}
use persistence_os.Base.Dict.{lookup, insert}
use persistence_os.Effect.Action.{Action, Failure, raised, no_result, Cell}
use persistence_os.Effect.Handlers.Retry
use persistence_os.Effect.Handlers.Cache
use persistence_os.Effect.Handlers.RateLimit
use persistence_os.Effect.Handlers.Policy
use persistence_os.Effect.Handlers.Policy.Deciding.{Decides, evaluate-Decides, clause_blocks}
use persistence_os.Effect.Handlers.Redact.{Json, Members, Schema, redact, is_clean, redact_cleans}

abbrev patient : Retry.Settings ℕ String
patient = record {
  max_attempts = 3;
  base_backoff_ms = 200;
  is_retryable = λ e. true;
  jitter = λ s. (ok 7, s);
  sleep = λ n s. (ok tt, s);
}

-- Fails on the first two calls.
abbrev flaky : ℕ → ℕ → Outcome (Failure String) ℕ × ℕ
flaky args zero = (err (raised "busy"), 1)
flaky args (suc zero) = (err (raised "busy"), 2)
flaky args (suc (suc n)) = (ok args, suc (suc (suc n)))

clause-Fails_example : Retry.clause patient 9 flaky 0 ≡ (ok 9, 3)
clause-Fails_example =
    Retry.clause-Fails patient 0 2 flaky 9 0 2 3 (ok 9) refl
      (Retry.Fails.more 0 1 0 1 1 1 2 (raised "busy") 7 refl refl refl refl (
        Retry.Fails.more 1 0 1 2 2 2 2 (raised "busy") 7 refl refl refl refl
          (Retry.Fails.stop 2 2)))
      refl refl

abbrev counting : ℕ → ℕ → Outcome (Failure String) ℕ × ℕ
counting args n = (err (raised "busy"), suc n)

abbrev whole : Cell (Cache.Cache String) (Cache.Cache String)
whole = record { get = λ s. s; set = λ c s. c; get-set = λ c s. refl }

abbrev empty : Cache.Cache String
empty = record { store = []; hits = 0; misses = 0 }

abbrev hash_args : String → ℕ → Outcome (Failure String) String
hash_args op args = ok op

abbrev ask : ℕ → Action (Cache.Cache String) String String
ask args s = (ok "answer", s)

abbrev down : ℕ → Action (Cache.Cache String) String String
down args s = (err no_result, s)

clause_twice_example :
    Cache.clause whole hash_args ":llm/call" 1 down
      (record { store = (":llm/call", "answer") ∷ []; hits = 0; misses = 1 })
    ≡ (
      ok "answer",
      Cache.count_hit whole (record { store = (":llm/call", "answer") ∷ []; hits = 0; misses = 1 }),
    )
unfolding Cache.clause lookup insert
clause_twice_example =
    Cache.clause_twice whole hash_args ":llm/call" 1 ask down "answer" empty
      (record { store = (":llm/call", "answer") ∷ []; hits = 0; misses = 1 }) refl

abbrev texts : Policy.Values String
texts = record {
  as_dict = λ v. none;
  is_none = λ v. false;
  nil = "";
  of_text = λ s. s;
  holds = λ v w. false;
  is_non_empty = λ v. true;
  matches = λ v w. false;
  equals = λ v w. string_eq.equal v w;
}

abbrev rule : String → Option String → Policy.Rule String
rule op verdict = record {
  id = some op;
  when = some (Policy.Predicate.op_is op);
  require = none;
  on_fail = verdict;
}

abbrev strict : Policy.Settings ℕ String String String
strict = record {
  rules = rule ":net/fetch" (some "require-approval") ∷ rule ":tool/call" none ∷ [];
  policy_id = "strict";
  mode = "live";
  principal = "agent";
  approval_fn = some (λ i s. (ok false, suc s));
  exception = λ f. "refused";
  silent_answer = λ v. "";
}

abbrev pass : String → Action ℕ String String
pass args s = (ok args, suc s)

abbrev call : String → Policy.Call String
call op = Policy.call_of strict op "x"

evaluate-Decides_example :
    Decides texts "strict"
      (call ":tool/call")
      (Policy.Settings.rules strict)
      (Policy.fired texts (rule ":tool/call" none) "strict")
unfolding Policy.evaluate Policy.fires Policy.match_when
evaluate-Decides_example =
    evaluate-Decides texts "strict" (call ":tool/call") (Policy.Settings.rules strict)
      (Policy.fired texts (rule ":tool/call" none) "strict") refl

clause_blocks_example :
    (Policy.clause texts strict ":net/fetch" "x" pass 0
      ≡ Policy.clause texts strict ":net/fetch" "x" (λ args s. (err no_result, s)) 0)
    × ((Policy.clause texts strict ":net/fetch" "x" pass 0).1 ≡ 1)
unfolding Policy.evaluate Policy.fires Policy.match_when
clause_blocks_example =
    clause_blocks texts strict ":net/fetch" "x" pass (λ args s. (err no_result, s)) 0 1
      (Policy.fired texts (rule ":net/fetch" (some "require-approval")) "strict") refl
      (inr (refl, inl (unfold Policy.is_approved in refl)))

abbrev schema : Schema
schema = record { fields = "phone" ∷ []; paths = "meta.email" ∷ [] }

abbrev guest : Json ℕ
guest = Json.object (
    Members.member "phone" (Json.text "123") (
      Members.member "meta"
        (Json.object (Members.member "email" (Json.text "a@b") Members.no_member))
        Members.no_member))

redact_cleans_example : is_clean schema "" (redact schema "" guest) ≡ true
redact_cleans_example = redact_cleans schema guest

-- Two tokens, and two more a second; it was last read at 100.
abbrev bucket : RateLimit.Bucket
bucket = record { capacity = 2000; refill_per_sec = 2; tokens = 2000; last = some 100 }

abbrev drained : RateLimit.Bucket
drained = record bucket { tokens = 0 }

passes_bounded_example :
    (1000 * (RateLimit.passes bucket (100 ∷ 150 ∷ 200 ∷ [])).0
        + (RateLimit.passes bucket (100 ∷ 150 ∷ 200 ∷ [])).1.tokens
      ≤ 2000 + RateLimit.ticks (some 100) (100 ∷ 150 ∷ 200 ∷ []) * 2)
    × ((RateLimit.passes bucket (100 ∷ 150 ∷ 200 ∷ [])).1.tokens ≤ 2000)
passes_bounded_example = RateLimit.passes_bounded bucket (100 ∷ 150 ∷ 200 ∷ []) (omega arith)

credited_twice_example :
    ((RateLimit.take_token drained 100).0 ≡ some 500)
    × ((RateLimit.take_token (RateLimit.take_token drained 100).1 600).0 ≡ some 0)
credited_twice_example =
    RateLimit.credited_twice drained 100 500 refl refl (omega arith) (omega arith)
