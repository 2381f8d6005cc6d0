-- ===== src/Effect/Runtime.antt =====
-- effect/runtime.py: `Handler`, `Runtime.perform`, `named_perform`, `mask`, and the coverage test.
-- A clause gets the arguments and its continuation. The `ctx` of the handlers is part of the
-- state `S` that every action passes on. The frames of `_mask_var` are an argument, since a mask
-- holds for the body of a `with` block and is gone after it.
pub mod Dispatch
use persistence_os.Base.{
  String, Bool, true, false, not, ◌&&◌, ◌++◌, Option, none, some, List, [], ◌∷◌, ◌==◌, string_eq,
  if◌then◌else◌, keep,
}
use persistence_os.Base.Text.{contains}
use persistence_os.Base.Dict.{Dict, lookup}
use persistence_os.Effect.Action.{Action, unhandled, raise}

abbrev pub Clause : Type 0 → Type 0 → Type 0 → Type 0 → Type 0
Clause S X A R = A → (A → Action S X R) → Action S X R

pub record Handler (S X A R : Type 0) : Type 0 where
  pub name : String
  pub wraps : List String
  pub clauses : Dict String (Clause S X A R)

-- `_masked_names`: the union of the frames
unfoldable pub is_masked : List (List String) → String → Bool
unfolding contains
is_masked [] n = false
is_masked (frame ∷ frames) n = if contains n frame then true else is_masked frames n

-- `with mask(*names)`
abbrev pub push_mask : List (List String) → List String → List (List String)
push_mask frames names = frames ++ names ∷ []

module _ {S X A R : Type 0} where
  unfoldable pub declares : Handler S X A R → String → Bool
  declares h op = elim (lookup op h.clauses) [ none ↦ false | some _ ↦ true ]

  -- `Handler.__post_init__`: no clause outside `wraps`
  unfoldable pub is_declared : List String → Dict String (Clause S X A R) → Bool
  unfolding contains
  is_declared wraps [] = true
  is_declared wraps ((op, c) ∷ rest) = contains op wraps && is_declared wraps rest

  unfoldable pub make_handler :
      String → List String → Dict String (Clause S X A R) → Option (Handler S X A R)
  unfolding is_declared
  make_handler name wraps clauses =
      if is_declared wraps clauses
      then some (record { name = name; wraps = wraps; clauses = clauses })
      else none

  unfoldable pub is_covered : List (Handler S X A R) → String → Bool
  is_covered [] op = false
  is_covered (h ∷ hs) op = if declares h op then true else is_covered hs op

  unfoldable pub uncovered_ops : List (Handler S X A R) → List String → List String
  uncovered_ops hs catalog = keep (λ op. not (is_covered hs op)) catalog

  unfoldable pub is_well_formed : List (Handler S X A R) → List String → Bool
  unfolding uncovered_ops
  is_well_formed hs catalog = elim (uncovered_ops hs catalog) [ [] ↦ true | _ ∷ _ ↦ false ]

  -- A handler's clause for the operation, in front of the candidates below it.
  unfoldable pub candidate :
      List (List String) → String → Handler S X A R → List (Clause S X A R) → List (Clause S X A R)
  candidate frames op h below = elim (is_masked frames h.name) [
    | true ↦ below
    | false ↦ elim (lookup op h.clauses) [ none ↦ below | some c ↦ c ∷ below ]
  ]

  -- The candidates of a stack that is listed from the innermost handler; they come out from the
  -- outermost.
  unfoldable pub candidates :
      List (List String)
      → String
      → List (Handler S X A R)
      → List (Clause S X A R)
      → List (Clause S X A R)
  candidates frames op [] below = below
  candidates frames op (h ∷ hs) below = candidates frames op hs (candidate frames op h below)

  -- `make_k`: each clause gets the rest as its continuation; at the bottom it is `Unhandled`.
  unfoldable pub run_candidates : List (Clause S X A R) → A → Action S X R
  run_candidates [] args = raise unhandled
  run_candidates (c ∷ cs) args = c args (run_candidates cs)

  unfoldable pub perform : List (Handler S X A R) → List (List String) → String → A → Action S X R
  perform hs frames op args = run_candidates (candidates frames op hs []) args

  -- The target is the innermost handler of that name; below it the masks hold, for it they do not.
  unfoldable pub named_from :
      List (List String)
      → String
      → String
      → List (Handler S X A R)
      → List (Clause S X A R)
      → A
      → Action S X R
  named_from frames name op [] below args = raise unhandled
  named_from frames name op (h ∷ hs) below args = elim (h.name == name) [
    | true ↦ elim (lookup op h.clauses) [
      | none ↦ raise unhandled
      | some c ↦ run_candidates (c ∷ below) args
    ]
    | false ↦ named_from frames name op hs (candidate frames op h below) args
  ]

  unfoldable pub named_perform :
      List (Handler S X A R) → List (List String) → String → String → A → Action S X R
  unfolding named_from
  named_perform hs frames name op args = named_from frames name op hs [] args
