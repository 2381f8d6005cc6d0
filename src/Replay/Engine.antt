-- ===== src/Replay/Engine.antt =====
-- replay/engine.py: `record` runs an agent over observations, and `replay` runs it again from a recorded
-- trajectory, from the first of some interventions on.
pub mod Checking
pub mod Branching
mod Samples
use persistence_os.Base.{
  ℕ, suc, String, Bool, true, false, not, Option, none, some, List, [], ◌∷◌, ◌++◌, ◌==◌, ◌||◌, ltb,
  if◌then◌else◌, Outcome, ok, err, length, string_eq, nat_eq,
}
use persistence_os.Base.Dict.{Dict, lookup, insert}
use persistence_os.Effect.Action.{Action, Cell, raised, pure, raise, gets, ◌>>=◌, ◌>>◌}
use persistence_os.Replay.{Recording, Tape}

-- `Fact` of replay/trajectory.py
pub record Fact (V : Type 0) : Type 0 where
  pub step : ℕ
  pub t : V
  pub state : V
  pub obs : V
  pub llm_in : V
  pub llm_out : V
  pub action : V
  pub tool_calls : V
  pub random_draws : V

-- What `record` and `replay` read and set of a `Trajectory`, but for its outcome and its hash; the rest
-- is copied from the parent.
pub record Trajectory (V R : Type 0) : Type 0 where
  pub id : String
  pub parent_id : Option String
  pub branch_point : Option ℕ
  pub seeds : Dict String ℕ
  pub status : String
  pub facts : List (Fact V)
  pub cache : Dict String R
  pub call_log : List (Recording V R)
  pub extrapolated : Bool

pub data Field : Type 0 where
  action obs llm_out state : Field

-- `_FIELD_MAP.get(key)`
unfoldable pub field_of : String → Option Field
field_of key =
    if key == ":action" || key == "action"
    then some action
    else if key == ":obs" || key == "obs"
    then some obs
    else if key == ":llm-out" || key == "llm-out" || key == "llm_out"
    then some llm_out
    else if key == ":state" || key == "state"
    then some state
    else none

-- An intervention's step, an integer.
pub data Step : Type 0 where
  negative : Step
  at : ℕ → Step

pub record Intervention (V : Type 0) : Type 0 where
  pub step : Step
  pub field : String
  pub new_value : V

pub data EngineError : Type 0 where
  not_replayable no_interventions empty_trajectory out_of_range unknown_field : EngineError

-- The session of the agent: its effect handler, with the tape, and its random generators, with
-- `_mk_rngs` and a draw. Errors are among what may be raised.
pub record Session (S V R X : Type 0) : Type 0 where
  pub tape : Cell S (Tape V R)
  -- `handler.mode = mode`
  pub set_mode : String → S → S
  pub make_rngs : Dict String ℕ → S → S
  pub draw_llm : S → V × S
  pub draw_env : S → V × S
  pub draws : V → V → V
  -- the state that `_initial_state_of` gives for no facts
  pub no_state : V
  pub of_error : EngineError → X

abbrev pub is_empty : {A : Type 0} → List A → Bool
is_empty [] = true
is_empty (_ ∷ _) = false

-- `{i["step"]: i for i in interventions}`, and the least of their steps
unfoldable pub by_step :
    {V : Type 0} → List (ℕ × Intervention V) → Dict ℕ (Intervention V) → Dict ℕ (Intervention V)
by_step [] d = d
by_step ((k, i) ∷ is) d = by_step is (insert k i d)

unfoldable pub min_step : {V : Type 0} → ℕ → List (ℕ × Intervention V) → ℕ
min_step m [] = m
min_step m ((k, i) ∷ is) = min_step (if ltb k m then k else m) is

-- The check of the steps.
unfoldable pub check_steps :
    {V : Type 0} → ℕ → List (Intervention V) → Outcome EngineError (List (ℕ × Intervention V))
check_steps n [] = ok []
check_steps n (i ∷ is) =
    let rest = check_steps n is in
    elim i.step [
      | negative ↦ err out_of_range
      | at k ↦
          if ltb k n
          then elim rest [ ok ks ↦ ok ((k, i) ∷ ks) | err e ↦ err e ]
          else err out_of_range
    ]

unfoldable pub is_replayable : String → Bool
is_replayable status = status == "completed" || status == "failed" || status == "counterfactual"

-- The checks before the replay; both functions are given.
unfoldable pub check_replay :
    {V R : Type 0}
    → Trajectory V R
    → List (Intervention V)
    → Outcome EngineError (List (ℕ × Intervention V))
unfolding is_replayable check_steps
check_replay traj is =
    if not (is_replayable traj.status)
    then err not_replayable
    else if is_empty is
    then err no_interventions
    else if is_empty traj.facts
    then err empty_trajectory
    else check_steps (length traj.facts) is

-- `min(...)` of a list that is not empty
abbrev pub branch_of : {V : Type 0} → List (ℕ × Intervention V) → ℕ
branch_of [] = 0
branch_of ((k, i) ∷ is) = min_step k is

-- `setattr(new_fact, attr, value)`
unfoldable pub set_field : {V : Type 0} → Field → V → Fact V → Fact V
set_field action v f = record f { action = v }
set_field obs v f = record f { obs = v }
set_field llm_out v f = record f { llm_out = v }
set_field state v f = record f { state = v }

module _ {S V R X : Type 0} (session : Session S V R X) where
  -- `EffectHandler(mode=mode, cache=…, calls=…)` and `_mk_rngs(seeds)`
  unfoldable pub open_session : String → Tape V R → Dict String ℕ → Action S X (Unit {0})
  open_session mode t seeds s =
      (ok tt, session.make_rngs seeds (session.set_mode mode (session.tape.set t s)))

  -- A draw of each of the two generators: the dict of both.
  unfoldable pub draw_both : Action S X V
  draw_both s =
      let p = session.draw_llm s in
      let q = session.draw_env p.1 in (ok (session.draws p.0 q.0), q.1)

  abbrev pub intervene : Option Field → Fact V → V → Action S X (Fact V)
  intervene none orig value = raise (raised (session.of_error unknown_field))
  intervene (some field) orig value =
      draw_both >>= λ drawn. pure (record (set_field field value orig) { random_draws = drawn })

  unfoldable pub apply_intervention : Fact V → Intervention V → Action S X (Fact V)
  unfolding field_of draw_both set_field
  apply_intervention orig i = intervene (field_of i.field) orig i.new_value

  module _ (agent_step : V → V → Action S X (Fact V))
      (apply_action : V → V → V → Action S X V) where
    -- The loop of `record`, and the loop over `extra_obs` of `replay`, which also numbers the facts.
    unfoldable pub record_facts : List V → V → Action S X (List (Fact V) × V)
    unfolding ◌>>=◌ pure
    record_facts [] now = pure ([], now)
    record_facts (o ∷ os) now = agent_step now o >>= λ f.
        apply_action now o f.action >>= λ later. record_facts os later >>= λ p. pure (f ∷ p.0, p.1)

    unfoldable pub extra_facts : ℕ → List V → V → Action S X (List (Fact V) × V)
    unfolding ◌>>=◌ pure
    extra_facts k [] now = pure ([], now)
    extra_facts k (o ∷ os) now = agent_step now o >>= λ f. apply_action now o f.action >>= λ later.
        extra_facts (suc k) os later >>= λ p. pure (record f { step = k } ∷ p.0, p.1)

    -- The fact of one step: before the branch point the recorded one, then that of the intervention or
    -- of the agent.
    abbrev pub from_branch : Option (Intervention V) → ℕ → Fact V → V → Action S X (Fact V)
    from_branch (some i) k orig now = apply_intervention orig i
    from_branch none k orig now = agent_step now orig.obs >>= λ f. pure (record f { step = k })

    unfoldable pub fact_at : ℕ → Dict ℕ (Intervention V) → ℕ → Fact V → V → Action S X (Fact V)
    unfolding draw_both ◌>>=◌
    fact_at branch_point is k orig now =
        if ltb k branch_point then draw_both >> pure orig else from_branch (lookup k is) k orig now

    unfoldable pub replay_facts :
        ℕ → Dict ℕ (Intervention V) → ℕ → List (Fact V) → V → Action S X (List (Fact V) × V)
    unfolding fact_at ◌>>=◌ pure
    replay_facts branch_point is k [] now = pure ([], now)
    replay_facts branch_point is k (orig ∷ origs) now = fact_at branch_point is k orig now >>= λ f.
        apply_action now f.obs f.action >>= λ later.
        replay_facts branch_point is (suc k) origs later >>= λ p. pure (f ∷ p.0, p.1)

  abbrev pub or_raise : {A : Type 0} → Outcome EngineError A → Action S X A
  or_raise (ok a) = pure a
  or_raise (err e) = raise (raised (session.of_error e))

  abbrev pub initial_state_of : List (Fact V) → V
  initial_state_of [] = session.no_state
  initial_state_of (f ∷ _) = f.state

  module _ (agent_step : V → V → Action S X (Fact V)) (apply_action : V → V → V → Action S X V)
      (new_id : String) where
    -- A recording starts with an empty tape, and ends with what the handler has on it.
    unfoldable pub record_trajectory : List V → Dict String ℕ → V → Action S X (Trajectory V R)
    unfolding open_session record_facts ◌>>=◌ pure gets
    record_trajectory obs_stream seeds initial_state =
        open_session "record" (record { cache = []; calls = [] }) seeds
        >> record_facts agent_step apply_action obs_stream initial_state
        >>= λ p. gets session.tape.get >>= λ t. pure (record {
          id = new_id;
          parent_id = none;
          branch_point = none;
          seeds = seeds;
          status = "completed";
          facts = p.0;
          cache = t.cache;
          call_log = t.calls;
          extrapolated = false;
        })

    -- The part with `extra_obs`, at the step `k`.
    unfoldable pub extend : ℕ → List V → V → Action S X (List (Fact V) × V)
    unfolding extra_facts
    extend k [] now s = (ok ([], now), s)
    extend k (o ∷ os) now s =
        extra_facts agent_step apply_action k (o ∷ os) now (session.set_mode "record" s)

    -- What follows the checks. The handler has a copy of the recorded tape.
    unfoldable pub run_replay :
        Trajectory V R → List V → List (ℕ × Intervention V) → Action S X (Trajectory V R)
    unfolding open_session replay_facts extend by_step min_step ◌>>=◌ pure
    run_replay traj extra_obs ks =
        open_session "replay" (record { cache = traj.cache; calls = traj.call_log }) traj.seeds
        >> replay_facts agent_step apply_action (branch_of ks) (by_step ks []) 0 traj.facts
            (initial_state_of traj.facts)
        >>= λ p. extend (length traj.facts) extra_obs p.1 >>= λ q. pure (record {
          id = new_id;
          parent_id = some traj.id;
          branch_point = some (branch_of ks);
          seeds = traj.seeds;
          status = "counterfactual";
          facts = p.0 ++ q.0;
          cache = [];
          call_log = [];
          extrapolated = not (is_empty extra_obs);
        })

    unfoldable pub replay :
        Trajectory V R → List (Intervention V) → List V → Action S X (Trajectory V R)
    unfolding check_replay run_replay ◌>>=◌
    replay traj is extra_obs = or_raise (check_replay traj is) >>= run_replay traj extra_obs
