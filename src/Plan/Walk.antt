-- ===== src/Plan/Walk.antt =====
-- plan/_walk.py, and `Dispatcher.dispatch` of plan/_dispatch.py: the pre-order walk of a plan. What a
-- visitor writes is a state that it is given and returns; it may raise.
pub mod Flat
use persistence_os.Base.{
  String, Bool, true, false, ◌&&◌, ◌||◌, ◌++◌, Option, none, some, List, [], ◌∷◌, ◌==◌, string_eq,
  if◌then◌else◌, Outcome, ok, err,
}
use persistence_os.Base.Dict.{Dict, lookup, insert}
use persistence_os.Plan.Node.{Node, node, Nodes, nil, cons, PlanHost, tag, node_id}

pub data WalkError (X : Type 0) : Type 0 where
  unimplemented_node_kind : WalkError X
  visitor_raised : X → WalkError X

-- A call that may raise, with the state that it leaves.
abbrev pub Step : Type 0 → Type 0 → Type 0
Step X S = S → Outcome (WalkError X) (Unit {0}) × S

abbrev pub Visitor : Type 0 → Type 0 → Type 0 → Type 0
Visitor V X S = Node V → List String → Step X S

abbrev pub then_ :
    {X S : Type 0}
    → Outcome (WalkError X) (Unit {0}) × S
    → Step X S
    → Outcome (WalkError X) (Unit {0}) × S
then_ (ok _, s) k = k s
then_ (err e, s) k = (err e, s)

-- `_UNIMPLEMENTED_KINDS`
unfoldable pub is_unimplemented : String → Bool
is_unimplemented t = t == ":code" || t == ":branch"

abbrev pub has_no_children : {V : Type 0} → Nodes V → Bool
has_no_children nil = true
has_no_children (cons n ns) = false

module _ {V X S : Type 0} (host : PlanHost V) (visitor : Visitor V X S) where
  -- What happens at one node, before the nodes below it; the trace goes along with the state.
  unfoldable pub visit : Node V → List String → Step X (S × List String)
  unfolding is_unimplemented
  visit (node t d cs) path (s, trace) =
      if is_unimplemented t && has_no_children cs
      then (err unimplemented_node_kind, (s, trace))
      else (let r = visitor (node t d cs) (path ++ t ∷ []) s in
          (r.0, (r.1, trace ++ node_id host (node t d cs) ∷ [])))

unfoldable mutual
  pub walk_recursive :
      {V X S : Type 0}
      → PlanHost V
      → Visitor V X S
      → Node V
      → List String
      → Step X (S × List String)
  walk_recursive host visitor (node t d cs) path s =
      then_ (visit host visitor (node t d cs) path s)
        (walk_children host visitor cs (path ++ t ∷ []))

  pub walk_children :
      {V X S : Type 0}
      → PlanHost V
      → Visitor V X S
      → Nodes V
      → List String
      → Step X (S × List String)
  walk_children host visitor nil path s = (ok tt, s)
  walk_children host visitor (cons n ns) path s =
      then_ (walk_recursive host visitor n path s) (walk_children host visitor ns path)

module _ {V X S : Type 0} (host : PlanHost V) (visitor : Visitor V X S) where
  -- Returns the trace, or what was raised, and the visitor's state.
  unfoldable pub finish_walk :
      Outcome (WalkError X) (Unit {0}) × (S × List String) → Outcome (WalkError X) (List String) × S
  finish_walk (ok _, (s, trace)) = (ok trace, s)
  finish_walk (err e, (s, trace)) = (err e, s)

  unfoldable pub walk : Node V → S → Outcome (WalkError X) (List String) × S
  unfolding walk_recursive finish_walk
  walk n s = finish_walk (walk_recursive host visitor n [] (s, []))

-- A handler gets the node and the `env`, which it may change.
abbrev pub Handler : Type 0 → Type 0 → Type 0 → Type 0 → Type 0
Handler V X R E = Node V → E → Outcome X R × E

abbrev pub Dispatcher : Type 0 → Type 0 → Type 0 → Type 0 → Type 0
Dispatcher V X R E = Dict String (Handler V X R E)

abbrev pub keep_result :
    {X R E : Type 0} → List R → Outcome X R × E → Outcome (WalkError X) (Unit {0}) × (List R × E)
keep_result results (ok r, env) = (ok tt, (results ++ r ∷ [], env))
keep_result results (err x, env) = (err (visitor_raised x), (results, env))

pub data DispatchError : Type 0 where
  already_registered : DispatchError

module _ {V X R E : Type 0} where
  unfoldable pub has_handler : Dispatcher V X R E → String → Bool
  has_handler handlers t = elim (lookup t handlers) [ none ↦ false | some _ ↦ true ]

  unfoldable pub register :
      Dispatcher V X R E
      → String
      → Handler V X R E
      → Bool
      → Outcome DispatchError (Dispatcher V X R E)
  unfolding has_handler
  register handlers t h replace =
      if has_handler handlers t && (if replace then false else true)
      then err already_registered
      else ok (insert t h handlers)

  unfoldable pub dispatch_visitor : Dispatcher V X R E → Visitor V X (List R × E)
  dispatch_visitor handlers n path (results, env) = elim (lookup (tag n) handlers) [
    | none ↦ (ok tt, (results, env))
    | some h ↦ keep_result results (h n env)
  ]

  unfoldable pub dispatch :
      PlanHost V
      → Dispatcher V X R E
      → Node V
      → E
      → Outcome (WalkError X) (List String) × (List R × E)
  unfolding dispatch_visitor walk
  dispatch host handlers n env = walk host (dispatch_visitor handlers) n ([], env)
