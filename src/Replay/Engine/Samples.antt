-- ===== src/Replay/Engine/Samples.antt =====
-- The theorem on replay/engine.py at a concrete input: numbers are observed and added up, and the second
-- of three actions is changed.
use persistence_os.Base.{ℕ, suc, ◌+◌, String, none, some, List, [], ◌∷◌, ◌≡◌, refl, ok, false, true}
use persistence_os.Base.Dict.{Dict, lookup, insert}
use persistence_os.Effect.Action.{Action, pure, raise, gets, next, ◌>>=◌}
use persistence_os.Replay.{Tape}
use persistence_os.Replay.Engine.{
  Fact, Trajectory, Intervention, at, EngineError, Session, replay, run_replay, replay_facts,
  fact_at, apply_intervention, draw_both, field_of, set_field, by_step, min_step, check_replay,
  check_steps, is_replayable, extend, extra_facts, open_session,
}
use persistence_os.Replay.Engine.Branching.{Branches, replay-Branches}

-- The tape, the mode, and the next number to be drawn.
record World : Type 0 where
  tape : Tape ℕ ℕ
  mode : String
  random : ℕ

abbrev start_of : Dict String ℕ → ℕ
start_of [] = 0
start_of ((name, n) ∷ _) = n

abbrev session : Session World ℕ ℕ EngineError
session = record {
  tape = record { get = World.tape; set = λ t w. record w { tape = t }; get-set = λ t w. refl };
  set_mode = λ m w. record w { mode = m };
  make_rngs = λ seeds w. record w { random = start_of seeds };
  draw_llm = λ w. (w.random, record w { random = suc w.random });
  draw_env = λ w. (w.random, record w { random = suc w.random });
  draws = λ a b. a + b;
  no_state = 0;
  of_error = λ e. e;
}

abbrev agent : ℕ → ℕ → Action World EngineError (Fact ℕ)
agent now obs w = (
  ok (record {
    step = 0;
    t = 0;
    state = now;
    obs = obs;
    llm_in = 0;
    llm_out = 0;
    action = obs;
    tool_calls = 0;
    random_draws = w.random;
  }),
  record w { random = suc (suc w.random) },
)

abbrev add_up : ℕ → ℕ → ℕ → Action World EngineError ℕ
add_up now obs act w = (ok (now + act), w)

abbrev a_fact : ℕ → ℕ → ℕ → ℕ → ℕ → Fact ℕ
a_fact step now obs act drawn = record {
  step = step;
  t = 0;
  state = now;
  obs = obs;
  llm_in = 0;
  llm_out = 0;
  action = act;
  tool_calls = 0;
  random_draws = drawn;
}

abbrev traj : Trajectory ℕ ℕ
traj = record {
  id = "t";
  parent_id = none;
  branch_point = none;
  seeds = ("llm", 5) ∷ [];
  status = "completed";
  facts = a_fact 0 0 1 1 5 ∷ a_fact 1 1 2 2 7 ∷ a_fact 2 3 3 3 9 ∷ [];
  cache = [];
  call_log = [];
  extrapolated = false;
}

abbrev interventions : List (Intervention ℕ)
interventions = record { step = at 1; field = ":action"; new_value = 7 } ∷ []

abbrev world : World
world = record { tape = record { cache = []; calls = [] }; mode = "record"; random = 0 }

abbrev world_after : World
world_after = record world { random = 13 }

abbrev branched : Trajectory ℕ ℕ
branched = record {
  id = "u";
  parent_id = some "t";
  branch_point = some 1;
  seeds = ("llm", 5) ∷ [];
  status = "counterfactual";
  facts = a_fact 0 0 1 1 5 ∷ a_fact 1 1 2 7 15 ∷ a_fact 2 8 3 3 9 ∷ a_fact 3 11 4 4 11 ∷ [];
  cache = [];
  call_log = [];
  extrapolated = true;
}

replays :
    replay session agent add_up "u" traj interventions (4 ∷ []) world ≡ (ok branched, world_after)
unfolding replay run_replay open_session replay_facts fact_at apply_intervention draw_both field_of
    set_field by_step min_step check_replay check_steps is_replayable extend extra_facts lookup
    insert ◌>>=◌ next pure raise gets
replays = refl

replay-Branches_example :
    Branches session agent add_up traj interventions (4 ∷ []) world branched world_after
replay-Branches_example =
    replay-Branches session agent add_up "u" traj interventions (4 ∷ []) world world_after branched
      replays
