-- ===== src/Replay.antt =====
-- replay/effect_handler.py: effects are recorded on a tape, and served from it in replay. The clause of
-- `make_replay_handler` and `EffectHandler.call` share `_serve_or_miss`.
pub mod Engine
pub mod Sessions
mod Samples
use persistence_os.Base.{
  String, Bool, true, false, not, ◌&&◌, ◌||◌, Option, none, some, List, [], ◌∷◌, ◌++◌, ◌==◌,
  if◌then◌else◌, Outcome, ok, err, length, num_eq, string_eq,
}
use persistence_os.Base.Dict.{Dict, lookup, insert, erase}
use persistence_os.Fact.Datom.{Python, value_eq}
use persistence_os.Effect.Action.{Action, Cell, raised, ◌>>=◌}

-- An entry of the call log: `op`, `args`, `key` and `result`.
pub record Recording (V R : Type 0) : Type 0 where
  pub op : String
  pub args : Dict String V
  pub key : String
  pub result : R

-- What the caller hands to the handler: `cache` and `calls`.
pub record Tape (V R : Type 0) : Type 0 where
  pub cache : Dict String R
  pub calls : List (Recording V R)

pub data ReplayError : Type 0 where
  cache_miss refused_in_replay prompt_hash_mismatch : ReplayError

-- `_args_hash`, and a replay error among what may be raised.
pub record ReplayHost (V X : Type 0) : Type 0 where
  pub args_hash : String → Dict String V → String
  pub of_error : ReplayError → X

unfoldable pub is_non_replayable : String → Bool
is_non_replayable op = op == ":net/fetch" || op == ":tool/call"

unfoldable pub has_prompt_hash : String → Bool
has_prompt_hash op = op == ":llm/call"

-- `d == e` of two dicts
unfoldable pub is_within : {V : Type 0} ⦃py : Python V⦄ → Dict String V → Dict String V → Bool
is_within [] e = true
is_within ((k, v) ∷ d) e = elim (lookup k e) [ none ↦ false | some w ↦ w == v && is_within d e ]

unfoldable pub same_dict : {V : Type 0} ⦃py : Python V⦄ → Dict String V → Dict String V → Bool
unfolding is_within
same_dict d e = num_eq (length d) (length e) && is_within d e

abbrev pub is_empty : {R : Type 0} → Dict String R → Bool
is_empty [] = true
is_empty (_ ∷ _) = false

module _ {V R : Type 0} ⦃py : Python V⦄ where
  -- The loop that looks for a call with the same arguments but for the prompt hash.
  unfoldable pub has_drifted : String → Dict String V → List (Recording V R) → Bool
  unfolding same_dict
  has_drifted op other_args [] = false
  has_drifted op other_args (c ∷ cs) =
      let rest = has_drifted op other_args cs in
      if not (c.op == op)
      then rest
      else if same_dict (erase "prompt_hash" c.args) other_args
      then true
      else rest

  -- What replay raises where the tape lacks a call; `none` if it simulates the call.
  unfoldable pub refusal : String → Dict String V → Tape V R → Option ReplayError
  unfolding is_non_replayable has_prompt_hash has_drifted
  refusal op args tape =
      if is_non_replayable op
      then some refused_in_replay
      else if has_prompt_hash op && has_drifted op (erase "prompt_hash" args) tape.calls
      then some prompt_hash_mismatch
      else if is_empty tape.cache
      then some cache_miss
      else none

module _ {S V R X : Type 0} ⦃py : Python V⦄ (cell : Cell S (Tape V R)) (host : ReplayHost V X) where
  -- `cache[key] = result`, and the entry of the call log
  unfoldable pub keep_call : String → Dict String V → R → S → S
  keep_call op args result s =
      cell.set
        (record {
          cache = insert (host.args_hash op args) result (Tape.cache (cell.get s));
          calls =
              Tape.calls (cell.get s)
              ++ record { op = op; args = args; key = host.args_hash op args; result = result }
                ∷ [];
        })
        s

  unfoldable pub run_and_keep : String → Dict String V → Action S X R → Action S X R
  unfolding ◌>>=◌ keep_call
  run_and_keep op args execute = execute >>= λ result t. (ok result, keep_call op args result t)

  -- What follows a miss.
  unfoldable pub miss : Bool → String → Dict String V → Action S X R → Action S X R
  unfolding run_and_keep refusal
  miss in_replay op args execute s =
      elim (if in_replay then refusal op args (cell.get s) else none) [
        | some e ↦ (err (raised (host.of_error e)), s)
        | none ↦ run_and_keep op args execute s
      ]

  -- What follows `key in cache`.
  unfoldable pub serve : String → String → Dict String V → Action S X R → Option R → Action S X R
  unfolding miss
  serve mode op args execute (some result) s = (ok result, s)
  serve mode op args execute none s = miss (mode == "replay") op args execute s

  unfoldable pub serve_or_miss : String → String → Dict String V → Action S X R → Action S X R
  unfolding serve
  serve_or_miss mode op args execute s =
      serve mode op args execute (lookup (host.args_hash op args) (Tape.cache (cell.get s))) s

  -- `EffectHandler.call`
  unfoldable pub call : String → String → Dict String V → Action S X R → Action S X R
  unfolding serve_or_miss
  call mode op args fn = serve_or_miss mode op args fn

  -- The clause that `make_replay_handler` makes for one operation.
  unfoldable pub clause :
      String → String → Dict String V → (Dict String V → Action S X R) → Action S X R
  unfolding serve_or_miss
  clause mode op args k = serve_or_miss mode op args (k args)

-- The check on the mode in `make_replay_handler`; `EffectHandler` has none.
pub data ModeError : Type 0 where
  bad_mode : ModeError

unfoldable pub check_mode : String → Outcome ModeError String
check_mode mode = if mode == "record" || mode == "replay" then ok mode else err bad_mode
