-- ===== src/Effect/Samples.antt =====
-- Tests of effect/ on a small state, and its theorems at concrete inputs.
use persistence_os.Base.{
  ℕ, suc, ◌+◌, String, true, Option, none, some, List, [], ◌∷◌, ◌++◌, ◌≡◌, refl, ok, err, string_eq,
  keep, inl,
}
use persistence_os.Base.Dict.{Dict, lookup, erase}
use persistence_os.Base.Text.{starts_with_colon, count}
use persistence_os.Effect.Action.{Action, raised, Keeps, pure}
use persistence_os.Effect.Runtime.{Handler, Clause, perform, is_covered, is_well_formed, declares}
use persistence_os.Effect.Runtime.Dispatch.{perform_masked, unmasked, perform_covered}
use persistence_os.Effect.Audit.{
  content_of, Content, AuditEntry, Settings, Log, Calls, clause, verify_chain, last_id,
  canonicalise_content, is_keyword, make_entry,
}
use persistence_os.Effect.Audit.Chain.{verify_chain_unique}
use persistence_os.Effect.Audit.Recording.{IsVerified, clause-Keeps}
use persistence_os.Effect.Audit.Telling.{Tells, clause-Records}

record World : Type 0 where
  entries : List (AuditEntry ℕ)
  now : ℕ

abbrev calls : Calls World String ℕ
calls = record {
  hash_args = λ d. elim d [ [] ↦ ok "none" | _ ∷ _ ↦ ok "some" ];
  hash_result = λ v. ok "result";
  content_hash = λ c. ok c.op;
  text_of = λ v. some "commit";
  describe = λ e. "failed";
  clock_now = λ w. (ok w.now, record w { now = suc (World.now w) });
  emit = λ sink e w. (ok tt, w);
}

abbrev log : Log World ℕ
log = record {
  entries = λ w. w.entries;
  put = λ es w. record w { entries = es };
  entries-put = λ es w. refl;
}

abbrev settings : Settings ℕ
settings = record {
  sink_name = none;
  run_id = none;
  principal = (":user", 1) ∷ [];
  policy_id = some "strict";
  handler_chain = [];
}

abbrev start : World
start = record { entries = []; now = 5 }

abbrev answer : Dict String ℕ → Action World String (Option ℕ)
answer args w = (ok (some 7), w)

abbrev refuse : Dict String ℕ → Action World String (Option ℕ)
refuse args w = (err (raised "denied"), w)

abbrev request : Dict String ℕ
request = ("_txn_commit", 1) ∷ ("prompt", 2) ∷ []

-- A call that returns, and one that raises.
two_calls : World → World
unfolding clause canonicalise_content make_entry is_keyword
two_calls w =
    (clause calls log settings ":tool/call" request refuse
      (clause calls log settings ":llm/call" request answer w).1).1

two_calls_verified : verify_chain calls.content_hash (World.entries (two_calls start)) ≡ ok true
unfolding two_calls verify_chain erase starts_with_colon count
two_calls_verified = refl

clause-Keeps_example :
    Keeps (IsVerified calls log settings) (clause calls log settings ":llm/call" request answer)
clause-Keeps_example =
    clause-Keeps calls log settings (record { at = λ s h. h }) (λ sink e. record { at = λ s h. h })
      ":llm/call" request answer (λ a. record { at = λ s h. h })

clause-Records_example :
    ((clause calls log settings ":tool/call" request refuse start).0 ≡ err (raised "denied"))
    × (e : AuditEntry ℕ) × (World.entries
          (clause calls log settings ":tool/call" request refuse start).1
        ≡ e ∷ [])
    × Tells calls log settings ":tool/call" request "some" 5 6 (err (raised "denied")) [] e
unfolding erase is_keyword starts_with_colon count canonicalise_content content_of
clause-Records_example =
    clause-Records calls log settings ":tool/call" request refuse "some" ":tool/call" 5 6
      (err (raised "denied")) start (record start { now = 6 }) (record start { now = 6 })
      (record start { now = 7 }) refl refl refl refl refl refl refl

abbrev sample : Content ℕ
sample = record {
  prev_hash = none;
  op = ":llm/call";
  args_hash = "some";
  verdict = "ok";
  latency_ms = 1;
  recorded_at = 6;
  result_hash = none;
  error = none;
  policy_id = some "::strict";
  handler_chain = "::audit" ∷ [];
  principal = (":user", 1) ∷ ("user", 2) ∷ [];
  run_id = none;
  parent = none;
  txn_commit = none;
}

abbrev entry : String → Option String → AuditEntry ℕ
entry op prev = record { id = op; content = record sample { op = op; prev_hash = prev } }

abbrev two_entries : List (AuditEntry ℕ)
two_entries = entry ":llm/call" none ∷ entry ":tool/call" (some ":llm/call") ∷ []

verify_chain_unique_example : two_entries ≡ two_entries
unfolding verify_chain last_id
verify_chain_unique_example =
    verify_chain_unique {X = String} (λ c. ok c.op) two_entries two_entries
      (((λ h. refl), ((λ h. absurd (cc h)), tt)), (((λ h. absurd (cc h)), ((λ h. refl), tt)), tt))
      refl refl refl

abbrev echo : Clause ℕ String ℕ ℕ
echo args k = pure args

abbrev plus_one : Clause ℕ String ℕ ℕ
plus_one args k = k (args + 1)

abbrev raw : Handler ℕ String ℕ ℕ
raw = record { name = "raw"; wraps = ":llm/call" ∷ []; clauses = (":llm/call", echo) ∷ [] }

abbrev middle : Handler ℕ String ℕ ℕ
middle = record {
  name = "middle";
  wraps = ":llm/call" ∷ [];
  clauses = (":llm/call", plus_one) ∷ [];
}

perform_masked_example :
    perform (raw ∷ middle ∷ []) (("middle" ∷ []) ∷ []) ":llm/call" 3
    ≡ perform (unmasked (("middle" ∷ []) ∷ []) (raw ∷ middle ∷ [])) [] ":llm/call" 3
perform_masked_example = perform_masked (raw ∷ middle ∷ []) (("middle" ∷ []) ∷ []) ":llm/call" 3

perform_covered_example :
    (inner : List (Handler ℕ String ℕ ℕ)) × (h : Handler ℕ String ℕ ℕ) × (outer : List
      (Handler ℕ String ℕ ℕ))
    × (c : Clause ℕ String ℕ ℕ) × (raw ∷ middle ∷ [] ≡ inner ++ h ∷ outer)
    × (lookup ":llm/call" h.clauses ≡ some c)
    × ((args : ℕ)
        → perform (raw ∷ middle ∷ []) [] ":llm/call" args ≡ c args (perform inner [] ":llm/call"))
unfolding is_well_formed is_covered declares lookup keep
perform_covered_example =
    perform_covered (raw ∷ middle ∷ []) (":llm/call" ∷ []) ":llm/call" refl (inl refl)
