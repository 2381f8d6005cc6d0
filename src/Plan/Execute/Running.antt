-- ===== src/Plan/Execute/Running.antt =====
-- plan/_execute.py: which handlers run, and what they leave.
use persistence_os.Base.{
  String, Bool, true, false, ◌&&◌, ◌++◌, Option, none, some, List, [], ◌∷◌, ◌≡◌, refl, ap, ◌∙◌, sym,
  Outcome, ok, err, string_eq, if◌then◌else◌, map, append_assoc, append-nil, Bool-cases, inl, inr,
}
use persistence_os.Base.Dict.{lookup}
use persistence_os.Plan.Node.{Node, node, PlanHost, tag, node_id, subtrees, children}
use persistence_os.Plan.Walk.{
  WalkError, unimplemented_node_kind, Handler, Dispatcher, is_unimplemented, has_no_children, visit,
  finish_walk,
}
use persistence_os.Plan.Walk.Flat.{visit_all, located, located-subtrees, walk-is-visit_all}
use persistence_os.Plan.Execute.{
  LeafResult, FailureInfo, ExecutionResult, Progress, leaf, failed, after_handler, by_handler,
  visitor, to_result, finish, execute,
}

-- A node that the walk refuses.
abbrev pub is_bare : {V : Type 0} → Node V → Bool
is_bare n = is_unimplemented (tag n) && has_no_children (children n)

unfoldable pub any_bare : {V : Type 0} → List (Node V) → Bool
any_bare [] = false
any_bare (n ∷ ns) = if is_bare n then true else any_bare ns

pub record Ran (V R X : Type 0) : Type 0 where
  pub leaves : List (LeafResult V R)
  pub failure : Option (FailureInfo X)

module _ {V R X E : Type 0} (host : PlanHost V) (default_handler_id : V)
    (handlers : Dispatcher V X R E) where
  abbrev more : LeafResult V R → Ran V R X → Ran V R X
  more l rest = record rest { leaves = l ∷ rest.leaves }

  abbrev on_result : Node V → Outcome X R × E → (E → Ran V R X) → Ran V R X
  on_result n (ok r, env) rest = more (leaf host default_handler_id n r) (rest env)
  on_result n (err x, env) rest = record { leaves = []; failure = some (failed host n x) }

  abbrev on_handler : Option (Handler V X R E) → Node V → E → (E → Ran V R X) → Ran V R X
  on_handler none n env rest = rest env
  on_handler (some h) n env rest = on_result n (h n env) rest

  -- The nodes that have a handler, in order, up to the first that raises.
  unfoldable pub run_nodes : List (Node V) → E → Ran V R X
  run_nodes [] env = record { leaves = []; failure = none }
  run_nodes (n ∷ ns) env = on_handler (lookup (tag n) handlers) n env (run_nodes ns)

  abbrev Rows : Type 0
  Rows = List (Node V × List String)

  abbrev nodes_of : Rows → List (Node V)
  nodes_of rows = map (λ p. p.0) rows

  -- What the walk makes of the visitor's variables.
  abbrev Leaves :
      Bool
      → List (LeafResult V R)
      → Ran V R X
      → Outcome (WalkError X) (Unit {0}) × (Progress V R X E × List String)
      → Type 0
  Leaves true ls ran (r, (q, trace)) = r ≡ err unimplemented_node_kind
  Leaves false ls ran (r, (q, trace)) =
      (r ≡ ok tt) × (q.leaf_results ≡ ls ++ ran.leaves) × (q.failure ≡ ran.failure)

  abbrev start : List (LeafResult V R) → E → Progress V R X E
  start ls env = record { leaf_results = ls; failure = none; env = env }

  abbrev stopped : List (LeafResult V R) → FailureInfo X → E → Progress V R X E
  stopped ls f env = record { leaf_results = ls; failure = some f; env = env }

  abbrev walk_rows :
      Rows
      → Progress V R X E × List String
      → Outcome (WalkError X) (Unit {0}) × (Progress V R X E × List String)
  walk_rows rows = visit_all host (visitor host default_handler_id handlers) rows

  -- After a failure nothing more is written.
  after_failure :
      (rows : Rows) (ls : List (LeafResult V R)) (f : FailureInfo X) (env : E) (trace : List String)
      → Leaves
          (any_bare (nodes_of rows))
          ls
          (record { leaves = []; failure = some f })
          (walk_rows rows (stopped ls f env, trace))
  unfolding visit_all visit visitor any_bare children tag
  after_failure [] ls f env trace = (refl, sym (append-nil ls), refl)
  after_failure ((node t d cs, path) ∷ rows) ls f env trace =
      elim (Bool-cases (is_unimplemented t && has_no_children cs)) [
        | inl bare ↦ rw bare refl
        | inr fine ↦
            rw fine (after_failure rows ls f env (trace ++ node_id host (node t d cs) ∷ []))
      ]

  -- One more leaf in front.
  after_leaf :
      (b : Bool) (ls : List (LeafResult V R)) (l : LeafResult V R) (ran : Ran V R X)
      (r : Outcome (WalkError X) (Unit {0}) × (Progress V R X E × List String))
      → Leaves b (ls ++ l ∷ []) ran r
      → Leaves b ls (more l ran) r
  after_leaf true ls l ran (r, (q, trace)) h = h
  after_leaf false ls l ran (r, (q, trace)) (h, k, m) =
      (h, k ∙ append_assoc ls (l ∷ []) ran.leaves, m)

  module _ (rows : Rows) (run : E → Ran V R X)
      (ih : (ls : List (LeafResult V R)) (env : E) (trace : List String)
        → Leaves
            (any_bare (nodes_of rows))
            ls
            (run env)
            (walk_rows rows (start ls env, trace))) where
    by_result :
        (n : Node V) (o : Outcome X R × E) (ls : List (LeafResult V R)) (env : E)
        (trace : List String)
        → Leaves
            (any_bare (nodes_of rows))
            ls
            (on_result n o run)
            (walk_rows rows (after_handler host default_handler_id n o (start ls env), trace))
    by_result n (ok r, env') ls env trace =
        after_leaf (any_bare (nodes_of rows)) ls (leaf host default_handler_id n r) (run env')
          (walk_rows rows (start (ls ++ leaf host default_handler_id n r ∷ []) env', trace))
          (ih (ls ++ leaf host default_handler_id n r ∷ []) env' trace)
    by_result n (err x, env') ls env trace = after_failure rows ls (failed host n x) env' trace

    by_lookup :
        (n : Node V) (o : Option (Handler V X R E)) (ls : List (LeafResult V R)) (env : E)
        (trace : List String)
        → Leaves
            (any_bare (nodes_of rows))
            ls
            (on_handler o n env run)
            (walk_rows rows (by_handler host default_handler_id o n (start ls env), trace))
    by_lookup n none ls env trace = ih ls env trace
    by_lookup n (some h) ls env trace = by_result n (h n env) ls env trace

  walk_rows-Leaves :
      (rows : Rows) (ls : List (LeafResult V R)) (env : E) (trace : List String)
      → Leaves
          (any_bare (nodes_of rows))
          ls
          (run_nodes (nodes_of rows) env)
          (walk_rows rows (start ls env, trace))
  unfolding visit_all visit visitor any_bare children tag run_nodes
  walk_rows-Leaves [] ls env trace = (refl, sym (append-nil ls), refl)
  walk_rows-Leaves ((node t d cs, path) ∷ rows) ls env trace =
      elim (Bool-cases (is_unimplemented t && has_no_children cs)) [
        | inl bare ↦ rw bare refl
        | inr fine ↦ rw fine (
            by_lookup rows (run_nodes (nodes_of rows)) (walk_rows-Leaves rows) (node t d cs)
              (lookup t handlers) ls env (trace ++ node_id host (node t d cs) ∷ []))
      ]

  -- What `execute` returns for a run.
  abbrev pub ran_result : Node V → Bool → Ran V R X → Outcome (WalkError X) (ExecutionResult V R X)
  ran_result plan bare ran =
      if bare then err unimplemented_node_kind else ok (to_result host plan ran.leaves ran.failure)

  executed :
      (plan : Node V) (bare : Bool) (ran : Ran V R X)
      (r : Outcome (WalkError X) (Unit {0}) × (Progress V R X E × List String))
      → Leaves bare [] ran r
      → (finish host default_handler_id plan
          (finish_walk host (visitor host default_handler_id handlers) r)).0
        ≡ ran_result plan bare ran
  unfolding finish_walk
  executed plan true ran (r, (q, trace)) h = rw h refl
  executed plan false ran (r, (q, trace)) (h, k, m) = rw h (
      ap (λ ls. ok (to_result host plan ls q.failure)) k
      ∙ ap (λ f. ok (to_result host plan ran.leaves f)) m)

  -- execute returns what running the handlers over the nodes in pre-order gives: a leaf result for
  -- each node that has a handler, up to the first handler that raises, which is the failure; where
  -- the walk meets a bare :code or :branch node, execute raises, whatever the handlers did.
  pub execute-run_nodes :
      (plan : Node V) (env : E)
      → (execute host default_handler_id plan handlers env).0
        ≡ ran_result plan (any_bare (subtrees plan)) (run_nodes (subtrees plan) env)
  unfolding execute
  execute-run_nodes plan env =
      ap (λ w. (finish host default_handler_id plan w).0)
        (walk-is-visit_all host (visitor host default_handler_id handlers) plan (start [] env))
      ∙ executed plan (any_bare (nodes_of (located [] plan)))
          (run_nodes (nodes_of (located [] plan)) env)
          (walk_rows (located [] plan) (start [] env, []))
          (walk_rows-Leaves (located [] plan) [] env [])
      ∙ ap (λ ns. ran_result plan (any_bare ns) (run_nodes ns env)) (located-subtrees [] plan)
