-- ===== src/Plan/Edit/Replacing.antt =====
-- plan/_edit.py: what `edit_step` replaces.
use persistence_os.Base.{
  ℕ, suc, String, Bool, true, false, Option, none, some, List, [], ◌∷◌, ◌++◌, ◌≡◌, ◌≢◌, refl, ap,
  ◌==◌, string_eq, Outcome, ok, err, All-append, Bool-cases, inl, inr,
}
use text.Mathlib.TextEquality.{eq_iff}
use persistence_os.Base.Dict.{Dict}
use persistence_os.Fact.Datom.{Python}
use persistence_os.Txn.Transaction.{Values, Transaction}
use persistence_os.Plan.Node.{
  Node, node, Nodes, nil, cons, PlanError, step_id_not_found, edit_outside_dosync, PlanHost,
  node_id, subtrees, subtrees_all, rows, rows_all,
}
use persistence_os.Plan.Edit.{
  rebuilt, next_child, replace_first, replace_first_all, finish_edit, edit_step, emit_edit_datom,
}
use persistence_os.Plan.Edit.Rewriting.{
  Rows, Rewrites, Lacks, Rewrites-here, Rewrites-below, Rewrites-head, Rewrites-tail,
}

module _ {V : Type 0} (host : PlanHost V) (step_id : String) (new : Node V) where
  abbrev Replaces : List (Node V) → Rows V → Rows V → Node V → Type 0
  Replaces trees old_rows new_rows old =
      (before : List (Node V)) × Rewrites host step_id trees old_rows new_rows old (λ k. rows k new)
        before
      × Lacks host step_id before

  abbrev Found : ℕ → Node V → Node V × Option (Node V) → Type 0
  Found depth n (n', some old) = Replaces (subtrees n) (rows depth n) (rows depth n') old
  Found depth n (n', none) = Lacks host step_id (subtrees n)

  abbrev FoundAll : ℕ → Nodes V → Nodes V × Option (Node V) → Type 0
  FoundAll depth ns (ns', some old) =
      Replaces (subtrees_all ns) (rows_all depth ns) (rows_all depth ns') old
  FoundAll depth ns (ns', none) = Lacks host step_id (subtrees_all ns)

  rebuilt-Found :
      (depth : ℕ) (t : String) (d : Dict String V) (cs : Nodes V) (r : Nodes V × Option (Node V))
      → node_id host (node t d cs) ≢ step_id
      → FoundAll (suc depth) cs r
      → Found depth (node t d cs) (rebuilt (node t d cs) r)
  unfolding subtrees
  rebuilt-Found depth t d cs (cs', some old) h (before, r, first) = (
    node t d cs ∷ before,
    Rewrites-below host step_id old (λ k. rows k new) depth t d cs cs' before r,
    (h, first),
  )
  rebuilt-Found depth t d cs (cs', none) h lacks = (h, lacks)

  next_child-Found :
      (depth : ℕ) (n : Node V) (ns : Nodes V) (q : Node V × Option (Node V))
      (r : Nodes V × Option (Node V))
      → Found depth n q
      → FoundAll depth ns r
      → FoundAll depth (cons n ns) (next_child q n ns r)
  unfolding subtrees
  next_child-Found depth n ns (n', some old) r (before, rw_, first) k =
      (before, Rewrites-head host step_id old (λ k. rows k new) depth n n' ns before rw_, first)
  next_child-Found depth n ns (n', none) (ns', some old) h (before, r, first) = (
    subtrees n ++ before,
    Rewrites-tail host step_id old (λ k. rows k new) depth n ns ns' before r,
    All-append (λ m. node_id host m ≢ step_id) (subtrees n) before h first,
  )
  next_child-Found depth n ns (n', none) (ns', none) h k =
      All-append (λ m. node_id host m ≢ step_id) (subtrees n) (subtrees_all ns) h k

  here-Found : (depth : ℕ) (n : Node V) → node_id host n ≡ step_id → Found depth n (new, some n)
  here-Found depth n h = ([], Rewrites-here host step_id n (λ k. rows k new) depth h, tt)

mutual
  unfolding replace_first subtrees

  replace_first-Found :
      {V : Type 0} (host : PlanHost V) (step_id : String) (new : Node V) (depth : ℕ) (n : Node V)
      → Found host step_id new depth n (replace_first host step_id (λ _. new) n)
  replace_first-Found host step_id new depth (node t d cs) =
      elim (Bool-cases (node_id host (node t d cs) == step_id)) [
        | inl same ↦ rw same (here-Found host step_id new depth (node t d cs) ((eq_iff _ _).0 same))
        | inr other ↦ rw other (
            rebuilt-Found host step_id new depth t d cs _ (λ e. cc (other, (eq_iff _ _).1 e))
              (replace_first_all-Found host step_id new (suc depth) cs))
      ]

  replace_first_all-Found :
      {V : Type 0} (host : PlanHost V) (step_id : String) (new : Node V) (depth : ℕ) (ns : Nodes V)
      → FoundAll host step_id new depth ns (replace_first_all host step_id (λ _. new) ns)
  replace_first_all-Found host step_id new depth nil = tt
  replace_first_all-Found host step_id new depth (cons n ns) =
      next_child-Found host step_id new depth n ns _ _
        (replace_first-Found host step_id new depth n)
        (replace_first_all-Found host step_id new depth ns)

module _ {V : Type 0} ⦃py : Python V⦄ (values : Values V) (db_id : String) (host : PlanHost V) where
  -- What an edit of a step has done, or why it was refused.
  pub Edited :
      Bool
      → Node V
      → String
      → Node V
      → Transaction V
      → Outcome PlanError (Node V × Transaction V)
      → Type 0
  Edited in_dosync plan step_id new tx (ok (r, tx')) =
      (in_dosync ≡ true)
      × ((old : Node V) × Replaces host step_id new (subtrees plan) (rows 0 plan) (rows 0 r) old
          × (tx'
              ≡ emit_edit_datom values db_id host (node_id host plan) step_id step_id
                  (node_id host new) tx))
  Edited in_dosync plan step_id new tx (err step_id_not_found) =
      (in_dosync ≡ true) × Lacks host step_id (subtrees plan)
  Edited in_dosync plan step_id new tx (err edit_outside_dosync) = in_dosync ≡ false
  Edited in_dosync plan step_id new tx (err _) = ⊥

  finish_edit-Edited :
      (plan : Node V) (step_id : String) (new : Node V) (tx : Transaction V)
      (q : Node V × Option (Node V))
      → Found host step_id new 0 plan q
      → Edited true plan step_id new tx (finish_edit values db_id host plan new step_id q tx)
  unfolding finish_edit Edited
  finish_edit-Edited plan step_id new tx (r, some old) (before, place, first) = (
    refl,
    (
      old,
      (before, place, first),
      ap
          (λ i.
            emit_edit_datom values db_id host (node_id host plan) step_id i (node_id host new) tx)
          place.here,
    ),
  )
  finish_edit-Edited plan step_id new tx (r, none) lacks = (refl, lacks)

  -- An edit_step that returns has put the rows of the new subtree in place of the rows of the first
  -- node of the pre-order walk that has the id, with all other rows kept, and has queued one
  -- :plan/edit intent; it raises PlanEditOutsideDosync only outside of a dosync, and StepIdNotFound
  -- only where no node of the plan has the id.
  pub edit_step-Edited :
      (in_dosync : Bool) (plan : Node V) (step_id : String) (new : Node V) (tx : Transaction V)
      → Edited in_dosync plan step_id new tx
          (edit_step values db_id host in_dosync plan step_id new tx)
  unfolding edit_step Edited
  edit_step-Edited false plan step_id new tx = refl
  edit_step-Edited true plan step_id new tx =
      finish_edit-Edited plan step_id new tx (replace_first host step_id (λ _. new) plan)
        (replace_first-Found host step_id new 0 plan)
