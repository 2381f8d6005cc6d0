-- ===== src/Plan/Execute.antt =====
-- plan/_execute.py: `execute` runs the handlers of a dispatcher over a plan.
pub mod Running
use persistence_os.Base.{
  String, Bool, true, false, ◌++◌, Option, none, some, List, [], ◌∷◌, Outcome, ok, err, string_eq,
}
use persistence_os.Base.Dict.{lookup}
use persistence_os.Plan.Node.{Node, PlanHost, tag, attrs, node_id}
use persistence_os.Plan.Walk.{WalkError, Visitor, Handler, Dispatcher, walk}

pub record LeafResult (V R : Type 0) : Type 0 where
  pub leaf_id : String
  pub leaf_tag : String
  pub handler_id : V
  pub result : R

pub record FailureInfo (X : Type 0) : Type 0 where
  pub failed_node_id : String
  pub failed_tag : String
  pub exception : X

pub data Status : Type 0 where
  is_ok is_failed : Status

pub record ExecutionResult (V R X : Type 0) : Type 0 where
  pub plan_id : String
  pub status : Status
  pub leaf_results : List (LeafResult V R)
  pub failure : Option (FailureInfo X)

-- The variables that the visitor changes.
pub record Progress (V R X E : Type 0) : Type 0 where
  pub leaf_results : List (LeafResult V R)
  pub failure : Option (FailureInfo X)
  pub env : E

abbrev pub leaf : {V R : Type 0} → PlanHost V → V → Node V → R → LeafResult V R
leaf host default n r = record {
  leaf_id = node_id host n;
  leaf_tag = tag n;
  handler_id = elim (lookup "handler-id" (attrs n)) [ none ↦ default | some v ↦ v ];
  result = r;
}

abbrev pub failed : {V X : Type 0} → PlanHost V → Node V → X → FailureInfo X
failed host n x = record { failed_node_id = node_id host n; failed_tag = tag n; exception = x }

abbrev pub status_of : {X : Type 0} → Option (FailureInfo X) → Status
status_of none = is_ok
status_of (some _) = is_failed

abbrev pub to_result :
    {V R X : Type 0}
    → PlanHost V
    → Node V
    → List (LeafResult V R)
    → Option (FailureInfo X)
    → ExecutionResult V R X
to_result host plan leaves failure = record {
  plan_id = node_id host plan;
  status = status_of failure;
  leaf_results = leaves;
  failure = failure;
}

module _ {V R X E : Type 0} (host : PlanHost V) (default_handler_id : V) where
  abbrev pub after_handler : Node V → Outcome X R × E → Progress V R X E → Progress V R X E
  after_handler n (ok r, env) p = record p {
    leaf_results = p.leaf_results ++ leaf host default_handler_id n r ∷ [];
    env = env;
  }
  after_handler n (err x, env) p = record p { failure = some (failed host n x); env = env }

  abbrev pub by_handler : Option (Handler V X R E) → Node V → Progress V R X E → Progress V R X E
  by_handler none n p = p
  by_handler (some h) n p = after_handler n (h n p.env) p

  abbrev pub unless_failed :
      Option (FailureInfo X) → Progress V R X E → Progress V R X E → Progress V R X E
  unless_failed (some _) p q = p
  unless_failed none p q = q

  -- `_visitor`
  unfoldable pub visitor : Dispatcher V X R E → Visitor V X (Progress V R X E)
  visitor handlers n path p =
      (ok tt, unless_failed p.failure p (by_handler (lookup (tag n) handlers) n p))

  abbrev pub finish :
      Node V
      → Outcome (WalkError X) (List String) × Progress V R X E
      → Outcome (WalkError X) (ExecutionResult V R X) × E
  finish plan (ok trace, p) = (ok (to_result host plan p.leaf_results p.failure), p.env)
  finish plan (err e, p) = (err e, p.env)

  unfoldable pub execute :
      Node V → Dispatcher V X R E → E → Outcome (WalkError X) (ExecutionResult V R X) × E
  unfolding visitor walk
  execute plan handlers env =
      finish plan (
        walk host (visitor handlers) plan (record { leaf_results = []; failure = none; env = env }))
