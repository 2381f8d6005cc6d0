-- ===== src/Plan/Edit.antt =====
-- plan/_edit.py: the edits of a plan inside a transaction.
pub mod Rewriting
pub mod Replacing
pub mod Children
pub mod Splicing
pub mod Missing
pub mod Undoing
use persistence_os.Base.{
  ℕ, zero, suc, String, Bool, not, Option, none, some, [], ◌∷◌, ◌==◌, string_eq, if◌then◌else◌,
  Outcome, ok, err, raise_if, ◌>>◌,
}
use persistence_os.Fact.Datom.{Python}
use persistence_os.Txn.Transaction.{Values, Transaction, effect}
use persistence_os.Plan.Node.{
  Node, node, Nodes, nil, cons, PlanError, step_id_not_found, edit_outside_dosync, PlanHost,
  node_id,
}

unfoldable pub require_dosync : Bool → Outcome PlanError (Unit {0})
require_dosync in_dosync = raise_if (not in_dosync) edit_outside_dosync

module _ {V : Type 0} where
  -- `children[:k]`, `children[k:]` and their concatenation
  unfoldable pub take_nodes : ℕ → Nodes V → Nodes V
  take_nodes zero ns = nil
  take_nodes (suc k) nil = nil
  take_nodes (suc k) (cons n ns) = cons n (take_nodes k ns)

  unfoldable pub drop_nodes : ℕ → Nodes V → Nodes V
  drop_nodes zero ns = ns
  drop_nodes (suc k) nil = nil
  drop_nodes (suc k) (cons n ns) = drop_nodes k ns

  unfoldable pub append_nodes : Nodes V → Nodes V → Nodes V
  append_nodes nil ms = ms
  append_nodes (cons n ns) ms = cons n (append_nodes ns ms)

  -- The splicers of the three operations that rewrite the children of a step's parent.
  unfoldable pub after_step : Node V → Nodes V → ℕ → Nodes V
  unfolding take_nodes drop_nodes append_nodes
  after_step new siblings k =
      append_nodes (take_nodes (suc k) siblings) (cons new (drop_nodes (suc k) siblings))

  unfoldable pub before_step : Node V → Nodes V → ℕ → Nodes V
  unfolding take_nodes drop_nodes append_nodes
  before_step new siblings k =
      append_nodes (take_nodes k siblings) (cons new (drop_nodes k siblings))

  unfoldable pub without_step : Nodes V → ℕ → Nodes V
  unfolding take_nodes drop_nodes append_nodes
  without_step siblings k = append_nodes (take_nodes k siblings) (drop_nodes (suc k) siblings)

module _ {V : Type 0} where
  -- A step, and what the walk leaves of the tree or of the children.
  abbrev pub rebuilt : Node V → Nodes V × Option (Node V) → Node V × Option (Node V)
  rebuilt n (cs, none) = (n, none)
  rebuilt (node t d _) (cs, some old) = (node t d cs, some old)

  abbrev pub next_child :
      Node V × Option (Node V)
      → Node V
      → Nodes V
      → Nodes V × Option (Node V)
      → Nodes V × Option (Node V)
  next_child (n', some old) n ns rest = (cons n' ns, some old)
  next_child (n', none) n ns rest = (cons n rest.0, rest.1)

  -- The splice at the child that the scan found, or else what the walk below left.
  abbrev pub spliced :
      (Nodes V → ℕ → Nodes V)
      → Node V
      → Option (ℕ × Node V)
      → Nodes V × Option (Node V)
      → Node V × Option (Node V)
  spliced splicer (node t d cs) (some (k, old)) rest = (node t d (splicer cs k), some old)
  spliced splicer n none rest = rebuilt n rest

module _ {V : Type 0} (host : PlanHost V) (step_id : String) where
  -- `for idx, child in enumerate(node.children): if child.id == step_id`
  unfoldable pub find_child : Nodes V → Option (ℕ × Node V)
  find_child nil = none
  find_child (cons n ns) =
      if node_id host n == step_id
      then some (0, n)
      else elim (find_child ns) [ none ↦ none | some (k, m) ↦ some (suc k, m) ]

unfoldable mutual
  pub replace_first :
      {V : Type 0} → PlanHost V → String → (Node V → Node V) → Node V → Node V × Option (Node V)
  replace_first host step_id build (node t d cs) =
      let rest = replace_first_all host step_id build cs in
      if node_id host (node t d cs) == step_id
      then (build (node t d cs), some (node t d cs))
      else rebuilt (node t d cs) rest

  pub replace_first_all :
      {V : Type 0} → PlanHost V → String → (Node V → Node V) → Nodes V → Nodes V × Option (Node V)
  replace_first_all host step_id build nil = (nil, none)
  replace_first_all host step_id build (cons n ns) =
      next_child (replace_first host step_id build n) n ns (replace_first_all host step_id build ns)

unfoldable mutual
  -- The scan of the children comes before the walk below them.
  pub splice_first :
      {V : Type 0}
      → PlanHost V
      → String
      → (Nodes V → ℕ → Nodes V)
      → Node V
      → Node V × Option (Node V)
  splice_first host step_id splicer (node t d cs) =
      let rest = splice_first_all host step_id splicer cs in
      spliced splicer (node t d cs) (find_child host step_id cs) rest

  pub splice_first_all :
      {V : Type 0}
      → PlanHost V
      → String
      → (Nodes V → ℕ → Nodes V)
      → Nodes V
      → Nodes V × Option (Node V)
  splice_first_all host step_id splicer nil = (nil, none)
  splice_first_all host step_id splicer (cons n ns) =
      next_child (splice_first host step_id splicer n) n ns
        (splice_first_all host step_id splicer ns)

module _ {V : Type 0} ⦃py : Python V⦄ (values : Values V) (db_id : String) (host : PlanHost V) where
  -- `_emit_edit_datom`
  unfoldable pub emit_edit_datom : String → String → String → String → Transaction V → Transaction V
  unfolding effect
  emit_edit_datom plan_id step_id before_op_hash after_op_hash tx =
      effect values db_id ":plan/edit"
        (("plan_id", py.of_str plan_id)
          ∷ ("step_id", py.of_str step_id)
          ∷ ("before_op_hash", py.of_str before_op_hash)
          ∷ ("after_op_hash", py.of_str after_op_hash)
          ∷ [])
        tx

  unfoldable pub finish_edit :
      Node V
      → Node V
      → String
      → Node V × Option (Node V)
      → Transaction V
      → Outcome PlanError (Node V × Transaction V)
  finish_edit plan new_op step_id (r, none) tx = err step_id_not_found
  finish_edit plan new_op step_id (r, some old) tx =
      ok
        (r, emit_edit_datom (node_id host plan) step_id (node_id host old) (node_id host new_op) tx)

  unfoldable pub edit_step :
      Bool → Node V → String → Node V → Transaction V → Outcome PlanError (Node V × Transaction V)
  unfolding require_dosync finish_edit
  edit_step in_dosync plan step_id new_op tx =
      require_dosync in_dosync
      >> finish_edit plan new_op step_id (replace_first host step_id (λ _. new_op) plan) tx

  unfoldable pub finish_splice :
      Node V
      → String
      → Node V × Option (Node V)
      → Transaction V
      → Outcome PlanError (Node V × Transaction V)
  finish_splice plan step_id (r, none) tx = err step_id_not_found
  finish_splice plan step_id (r, some old) tx =
      ok (r, emit_edit_datom (node_id host plan) step_id (node_id host plan) (node_id host r) tx)

  -- What the three splicing operations share.
  unfoldable pub splice_step :
      (Nodes V → ℕ → Nodes V)
      → Bool
      → Node V
      → String
      → Transaction V
      → Outcome PlanError (Node V × Transaction V)
  unfolding require_dosync finish_splice
  splice_step splicer in_dosync plan step_id tx =
      require_dosync in_dosync
      >> finish_splice plan step_id (splice_first host step_id splicer plan) tx

  unfoldable pub insert_step_after :
      Bool → Node V → String → Node V → Transaction V → Outcome PlanError (Node V × Transaction V)
  unfolding splice_step after_step
  insert_step_after in_dosync plan step_id new_step tx =
      splice_step (after_step new_step) in_dosync plan step_id tx

  unfoldable pub insert_step_before :
      Bool → Node V → String → Node V → Transaction V → Outcome PlanError (Node V × Transaction V)
  unfolding splice_step before_step
  insert_step_before in_dosync plan step_id new_step tx =
      splice_step (before_step new_step) in_dosync plan step_id tx

  unfoldable pub delete_step :
      Bool → Node V → String → Transaction V → Outcome PlanError (Node V × Transaction V)
  unfolding splice_step without_step
  delete_step in_dosync plan step_id tx = splice_step without_step in_dosync plan step_id tx
