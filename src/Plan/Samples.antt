-- ===== src/Plan/Samples.antt =====
-- The theorems on plan/ at concrete inputs: a sequence of two calls, one of them in a nested sequence.
use persistence_os.Base.{
  All, ◌≤◌, arith, ℕ, suc, String, true, some, [], ◌∷◌, ◌++◌, ◌≡◌, refl, ok, err, arith, length,
}
use persistence_os.Base.Text.{take, starts_with_colon}
use persistence_os.Fact.Samples.{Value, str, small_python, at}
use persistence_os.Txn.Transaction.{Values, Transaction, begin, effect}
use persistence_os.Plan.Node.{
  Node, node, nil, cons, PlanHost, node_id, subtrees, rows, bad_attr, make_node, bad_key,
}
use persistence_os.Plan.Edit.{
  edit_step, insert_step_after, insert_step_before, delete_step, splice_first, find_child,
  after_step, without_step, emit_edit_datom,
}
use persistence_os.Plan.Edit.Replacing.{Edited, edit_step-Edited}
use persistence_os.Plan.Edit.Splicing.{SpliceDone, splice_steps-Done}
use persistence_os.Plan.Edit.Rewriting.{Lacks}
use persistence_os.Plan.Edit.Undoing.{delete_step-insert_step_after}
use persistence_os.Plan.Walk.{Dispatcher}
use persistence_os.Plan.Execute.{execute}
use persistence_os.Plan.Execute.Running.{execute-run_nodes, any_bare, run_nodes, ran_result}

-- A leaf is written as its tag, any other node as a bracket.
abbrev spell : Node Value → String
spell (node t d nil) = t
spell (node t d (cons n ns)) = "["

abbrev host : PlanHost Value
host = record { dumps = spell; sha256_hex = λ s. s }

abbrev values : Values Value
values = record { nil = str ""; is_immutable = λ v. true; registry = [] }

abbrev step : String → Node Value
step t = node t [] nil

abbrev plan : Node Value
plan =
    node ":seq" []
      (cons (node ":seq" [] (cons (step ":llm-call") nil)) (cons (step ":tool-call") nil))

abbrev tx0 : Transaction Value
tx0 = begin (at 1) 0

abbrev inserted : Node Value
inserted = node ":seq" [] (
    cons (node ":seq" [] (cons (step ":llm-call") (cons (step ":check") nil)))
      (cons (step ":tool-call") nil))

edit_step-Edited_example :
    Edited values "db" host true plan ":llm-call"
      (step ":check")
      tx0
      (edit_step values "db" host true plan ":llm-call" (step ":check") tx0)
edit_step-Edited_example =
    edit_step-Edited values "db" host true plan ":llm-call" (step ":check") tx0

splice_steps-Done_example :
    SpliceDone values "db" host
      (λ old k. rows k old ++ rows k (step ":check"))
      true
      plan
      ":llm-call"
      tx0
      (insert_step_after values "db" host true plan ":llm-call" (step ":check") tx0)
    × SpliceDone values "db" host
        (λ old k. rows k (step ":check") ++ rows k old)
        true
        plan
        ":llm-call"
        tx0
        (insert_step_before values "db" host true plan ":llm-call" (step ":check") tx0)
    × SpliceDone values "db" host
        (λ old k. [])
        true
        plan
        ":llm-call"
        tx0
        (delete_step values "db" host true plan ":llm-call" tx0)
splice_steps-Done_example =
    splice_steps-Done values "db" host true plan (step ":check") ":llm-call" tx0

after_insert : Transaction Value
unfolding emit_edit_datom effect
after_insert = emit_edit_datom values "db" host "[" ":llm-call" "[" "[" tx0

insert_lem :
    insert_step_after values "db" host true plan ":llm-call" (step ":check") tx0
    ≡ ok (inserted, after_insert)
unfolding insert_step_after after_step splice_first find_child node_id take after_insert
insert_lem = refl

Lacks-check : Lacks host (node_id host (step ":check")) (subtrees plan)
unfolding subtrees node_id take
Lacks-check = (λ e. cc e, (λ e. cc e, (λ e. cc e, (λ e. cc e, tt))))

-- The only node of the new plan that has the id of the new step is the new step.
small_ids :
    All
      (λ m.
        node_id host m ≡ node_id host (step ":check")
        → length (subtrees m) ≤ length (subtrees (step ":check")))
      (subtrees inserted)
unfolding subtrees node_id take
small_ids = (
  λ e. absurd (cc e),
  (λ e. absurd (cc e), (λ e. absurd (cc e), (λ e. omega arith, (λ e. absurd (cc e), tt)))),
)

delete_step-insert_step_after_example :
    delete_step values "db" host true inserted (node_id host (step ":check")) tx0
    ≡ ok (
      plan,
      emit_edit_datom values "db" host
          (node_id host inserted)
          (node_id host (step ":check"))
          (node_id host inserted)
          (node_id host plan)
          tx0,
    )
delete_step-insert_step_after_example =
    delete_step-insert_step_after values "db" host (step ":check") ":llm-call" plan inserted tx0
      after_insert tx0 small_ids Lacks-check insert_lem

-- Of two equal steps the splice takes the one that is nearer to the root, though the other comes first
-- in pre-order.
abbrev doubled : Node Value
doubled = node ":seq" [] (cons (node ":seq" [] (cons (step ":b") nil)) (cons (step ":b") nil))

nearest_first :
    splice_first host ":b" without_step doubled
    ≡ (node ":seq" [] (cons (node ":seq" [] (cons (step ":b") nil)) nil), some (step ":b"))
unfolding splice_first without_step find_child node_id take
nearest_first = refl

id_is_reserved : make_node ":seq" (("id", str "x") ∷ []) nil ≡ err bad_attr
unfolding make_node bad_key starts_with_colon
id_is_reserved = refl

abbrev handlers : Dispatcher Value String ℕ ℕ
handlers =
    (":llm-call", λ n env. (ok env, suc env)) ∷ (":tool-call", λ n env. (err "boom", env)) ∷ []

execute-run_nodes_example :
    (execute host (str "<default>") plan handlers 3).0
    ≡ ran_result host
        (str "<default>")
        handlers
        plan
        (any_bare (subtrees plan))
        (run_nodes host (str "<default>") handlers (subtrees plan) 3)
execute-run_nodes_example = execute-run_nodes host (str "<default>") handlers plan 3
