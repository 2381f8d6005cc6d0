-- ===== src/Replay/Samples.antt =====
-- The theorems on replay/effect_handler.py at concrete inputs: an agent that asks a model and fetches
-- what the model names.
use persistence_os.Base.{String, none, some, [], ◌∷◌, ◌≡◌, refl, ok, err, string_eq, ◌⊎◌}
use persistence_os.Base.Dict.{Dict, lookup, insert, erase}
use persistence_os.Fact.Samples.{Value, str, small_python}
use persistence_os.Effect.Action.{Action, Cell, raised, next, pure, ◌>>=◌}
use persistence_os.Replay.{
  Tape, ReplayError, cache_miss, refused_in_replay, prompt_hash_mismatch, ReplayHost, keep_call,
  run_and_keep, miss, serve, serve_or_miss, refusal, clause, is_non_replayable, has_prompt_hash,
  has_drifted, same_dict, is_within,
}
use persistence_os.Replay.Sessions.{
  Program, return, perform_op, run_program, replay-record, clause_refuses, answer,
}

abbrev World : Type 0
World = Tape Value String

abbrev tape : Cell World World
tape = record { get = λ s. s; set = λ c s. c; get-set = λ c s. refl }

abbrev host : ReplayHost Value ReplayError
host = record { args_hash = λ op args. op; of_error = λ e. e }

abbrev blank : World
blank = record { cache = []; calls = [] }

abbrev outside : String → Dict String Value → Action World ReplayError String
outside op args s = (ok "page", s)

abbrev nothing_below : String → Dict String Value → Action World ReplayError String
nothing_below op args s = (err (raised cache_miss), s)

abbrev prompt : String → Dict String Value
prompt h = ("prompt_hash", str h) ∷ ("model", str "m") ∷ []

abbrev agent : Program tape host
agent =
    perform_op ":llm/call" (prompt "p")
      (λ name. perform_op ":net/fetch" (("url", str name) ∷ []) (λ page. return page))

abbrev after : World
after = (run_program tape host "record" outside agent blank).1

replay-record_example :
    run_program tape host "replay" nothing_below agent after ≡ (ok "page", after)
replay-record_example =
    replay-record tape host outside nothing_below (λ op args s. record { same = λ key r h. h })
      agent "page" blank after after
      (unfold run_program serve_or_miss serve miss run_and_keep keep_call ◌>>=◌ next pure lookup
          insert in
        refl)
      (record { same = λ key r h. h })

clause_refuses_example :
    ((r : String) × (answer tape host blank ":net/fetch" [] ≡ some r)
      × (clause tape host "replay" ":net/fetch" [] (outside ":net/fetch") blank ≡ (ok r, blank)))
    ⊎ ((answer tape host blank ":net/fetch" [] ≡ none)
        × (clause tape host "replay" ":net/fetch" [] (outside ":net/fetch") blank
            ≡ (err (raised refused_in_replay), blank)))
clause_refuses_example =
    clause_refuses tape host ":net/fetch" [] (outside ":net/fetch") blank
      (unfold is_non_replayable in refl)

-- A call with another prompt hash, and else the same arguments, is an error in replay.
drift_is_loud :
    refusal {R = String} ":llm/call" (prompt "q") (record {
      cache = ("k", "page") ∷ [];
      calls = record { op = ":llm/call"; args = prompt "p"; key = "k"; result = "page" } ∷ [];
    })
    ≡ some prompt_hash_mismatch
unfolding refusal is_non_replayable has_prompt_hash has_drifted same_dict is_within erase lookup
drift_is_loud = refl
