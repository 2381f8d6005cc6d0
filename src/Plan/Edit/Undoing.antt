-- ===== src/Plan/Edit/Undoing.antt =====
-- plan/_edit.py: deleting a step that was inserted.
use persistence_os.Base.{
  List, All, ℕ, suc, ◌<◌, ◌≤◌, String, true, Option, none, some, ◌≡◌, ◌≢◌, refl, sym, ap, ◌∙◌,
  string_eq, ok, arith, All-split, length, length-append,
}
use mathlib.Core.Path.{subst}
use persistence_os.Base.Dict.{Dict}
use persistence_os.Fact.Datom.{Python}
use persistence_os.Txn.Transaction.{Values, Transaction}
use persistence_os.Plan.Node.{
  Node, node, Nodes, nil, cons, PlanHost, node_id, subtrees, subtrees_all,
}
use persistence_os.Plan.Edit.{
  spliced, next_child, find_child, splice_first, splice_first_all, finish_splice, splice_step,
  emit_edit_datom, drop_nodes, append_nodes, after_step, without_step, insert_step_after,
  delete_step,
}
use persistence_os.Plan.Edit.Rewriting.{Lacks}
use persistence_os.Plan.Edit.Children.{
  IsChild, HeadsLack, append_nodes_assoc, Scanned, find_child-Scanned,
}
use persistence_os.Plan.Edit.Missing.{found_inserted, none_found, heads_lack, Lacks-none}

module _ {V : Type 0} (host : PlanHost V) (step_id : String) (new : Node V)
    (splicer : Nodes V → ℕ → Nodes V) where
  abbrev size : Node V → ℕ
  size n = length (subtrees n)

  -- The splicer puts the new node somewhere among the children.
  abbrev Inserts : Type 0
  Inserts =
      (cs : Nodes V) (k : ℕ) (old : Node V)
      → IsChild host step_id cs k old
      → (left : Nodes V) × (right : Nodes V) × (splicer cs k ≡ append_nodes left (cons new right))
        × (cs ≡ append_nodes left right)

  -- None of the trees that is larger than the new node has its id.
  abbrev Smaller : List (Node V) → Type 0
  Smaller ms = All (λ m. node_id host m ≡ node_id host new → size m ≤ size new) ms

  abbrev Undone : Node V → Node V × Option (Node V) → Type 0
  Undone n (n', some old) =
      (size new < size n')
      × (Smaller (subtrees n')
          → splice_first host (node_id host new) without_step n' ≡ (n, some new))
  Undone n (n', none) = Unit {0}

  abbrev UndoneAll : Nodes V → Nodes V × Option (Node V) → Type 0
  UndoneAll ns (ns', some old) =
      (size new < suc (length (subtrees_all ns')))
      × (Smaller (subtrees_all ns')
          → (splice_first_all host (node_id host new) without_step ns' ≡ (ns, some new))
            × HeadsLack host (node_id host new) ns')
  UndoneAll ns (ns', none) = Unit {0}

  root_lacks :
      (n : Node V) → Smaller (subtrees n) → size new < size n → node_id host n ≢ node_id host new
  unfolding subtrees
  root_lacks (node t d cs) small big = λ e. absurd (omega (arith, small.0 e, big))

  left_lacks :
      (i : String) (left right : Nodes V)
      → HeadsLack host i (append_nodes left right)
      → HeadsLack host i left
  unfolding append_nodes
  left_lacks i nil right h = tt
  left_lacks i (cons n left) right h = (h.0, left_lacks i left right h.1)

  among :
      (left right : Nodes V) → size new ≤ length (subtrees_all (append_nodes left (cons new right)))
  unfolding subtrees append_nodes
  among nil right = omega (arith, length-append {0} (subtrees new) (subtrees_all right))
  among (cons n left) right = omega (
    arith,
    length-append {0} (subtrees n) (subtrees_all (append_nodes left (cons new right))),
    among left right,
  )

  spliced-Undone :
      (inserts : Inserts) (t : String) (d : Dict String V) (cs : Nodes V) (f : Option (ℕ × Node V))
      (r : Nodes V × Option (Node V))
      → Scanned host step_id cs f
      → HeadsLack host (node_id host new) cs
      → UndoneAll cs r
      → Undone (node t d cs) (spliced splicer (node t d cs) f r)
  unfolding splice_first subtrees
  spliced-Undone inserts t d cs (some (k, old)) r c lacks u =
      let (left, right, put, whole) = inserts cs k old c in
      let (j, found, cut) = found_inserted host new left right (
        left_lacks _ left right (subst (λ ms. HeadsLack host (node_id host new) ms) whole lacks)) in
      (
        rw put (omega (arith, among left right)),
        λ small. rw (put, found, cut) (ap (λ ms. (node t d ms, some new)) (sym whole)),
      )
  spliced-Undone inserts t d cs none (cs', some old) c lacks (big, undone) = (
    big,
    λ small. let (again, heads) = undone small.1 in rw (none_found host _ cs' heads, again) refl,
  )
  spliced-Undone inserts t d cs none (cs', none) c lacks u = tt

  next_child-Undone :
      (n : Node V) (ns : Nodes V) (q : Node V × Option (Node V)) (r : Nodes V × Option (Node V))
      → Lacks host (node_id host new) (subtrees_all (cons n ns))
      → Undone n q
      → UndoneAll ns r
      → UndoneAll (cons n ns) (next_child q n ns r)
  unfolding splice_first subtrees
  next_child-Undone n ns (n', some old) r lacks (big, undone) k =
      let (_, rest) =
        All-split (λ m. node_id host m ≢ node_id host new) (subtrees n) (subtrees_all ns) lacks in
      (
        omega (arith, length-append {0} (subtrees n') (subtrees_all ns)),
        λ small.
            let (here, _) =
              All-split (λ m. node_id host m ≡ node_id host new → size m ≤ size new) (subtrees n')
                (subtrees_all ns) small in
            (rw (undone here) refl, (root_lacks n' here big, heads_lack host _ ns rest)),
      )
  next_child-Undone n ns (n', none) (ns', some old) lacks h (big, undone) =
      let (absent, _) =
        All-split (λ m. node_id host m ≢ node_id host new) (subtrees n) (subtrees_all ns) lacks in
      (
        omega (arith, length-append {0} (subtrees n) (subtrees_all ns')),
        λ small.
            let (_, later) =
              All-split (λ m. node_id host m ≡ node_id host new → size m ≤ size new) (subtrees n)
                (subtrees_all ns') small in
            let (again, heads) = undone later in
            (
              rw (Lacks-none host _ without_step n absent, again) refl,
              ((heads_lack host _ (cons n ns) lacks).0, heads),
            ),
      )
  next_child-Undone n ns (n', none) (ns', none) lacks h k = tt

mutual
  unfolding splice_first subtrees

  splice_first-Undone :
      {V : Type 0} (host : PlanHost V) (step_id : String) (new : Node V)
      (splicer : Nodes V → ℕ → Nodes V) (inserts : Inserts host step_id new splicer) (n : Node V)
      → Lacks host (node_id host new) (subtrees n)
      → Undone host step_id new splicer n (splice_first host step_id splicer n)
  splice_first-Undone host step_id new splicer inserts (node t d cs) h =
      spliced-Undone host step_id new splicer inserts t d cs (find_child host step_id cs)
        (splice_first_all host step_id splicer cs) (find_child-Scanned host step_id cs)
        (heads_lack host _ cs h.1) (splice_first_all-Undone host step_id new splicer inserts cs h.1)

  splice_first_all-Undone :
      {V : Type 0} (host : PlanHost V) (step_id : String) (new : Node V)
      (splicer : Nodes V → ℕ → Nodes V) (inserts : Inserts host step_id new splicer) (ns : Nodes V)
      → Lacks host (node_id host new) (subtrees_all ns)
      → UndoneAll host step_id new splicer ns (splice_first_all host step_id splicer ns)
  splice_first_all-Undone host step_id new splicer inserts nil h = tt
  splice_first_all-Undone host step_id new splicer inserts (cons n ns) h =
      let (hn, hs) =
        All-split (λ m. node_id host m ≢ node_id host new) (subtrees n) (subtrees_all ns) h in
      next_child-Undone host step_id new splicer n ns (splice_first host step_id splicer n)
        (splice_first_all host step_id splicer ns) h
        (splice_first-Undone host step_id new splicer inserts n hn)
        (splice_first_all-Undone host step_id new splicer inserts ns hs)

after_step-Inserts :
    {V : Type 0} (host : PlanHost V) (step_id : String) (new : Node V)
    → Inserts host step_id new (after_step new)
unfolding after_step
after_step-Inserts host step_id new cs k old c = (
  append_nodes c.left (cons old nil),
  c.right,
  ap (λ ms. append_nodes ms (cons new (drop_nodes (suc k) cs))) c.taken_with
      ∙ ap (λ ms. append_nodes (append_nodes c.left (cons old nil)) (cons new ms)) c.dropped,
  c.whole ∙ sym (append_nodes_assoc c.left (cons old nil) c.right),
)

module _ {V : Type 0} ⦃py : Python V⦄ (values : Values V) (db_id : String) (host : PlanHost V)
    (new : Node V) (step_id : String) (plan r : Node V) (tx tx' tx0 : Transaction V) where
  -- That a deletion of the new step gives the plan back.
  abbrev DeletesTo : Node V → Type 0
  DeletesTo back =
      delete_step values db_id host true r (node_id host new) tx0
      ≡ ok (
        back,
        emit_edit_datom values db_id host (node_id host r) (node_id host new) (node_id host r)
            (node_id host back) tx0,
      )

  undone_lem :
      (splicer : Nodes V → ℕ → Nodes V) (q : Node V × Option (Node V))
      → Smaller host step_id new splicer (subtrees r)
      → Undone host step_id new splicer plan q
      → finish_splice values db_id host plan step_id q tx ≡ ok (r, tx')
      → DeletesTo plan
  unfolding delete_step splice_step finish_splice
  undone_lem splicer (n', some old) small (_, undone) e =
      let same : n' ≡ r = cc e in
      let there = subst (λ w. Smaller host step_id new splicer (subtrees w)) (sym same) small in
      ap (λ q. finish_splice values db_id host r (node_id host new) q tx0)
        (ap (splice_first host (node_id host new) without_step) (sym same) ∙ undone there)
  undone_lem splicer (n', none) small u e = absurd (cc e)

  -- Deleting a step right after it was inserted gives the plan back, where no node of the plan has
  -- the id of the new step, and no node of the new plan that is larger than the new step has that
  -- id.
  pub delete_step-insert_step_after :
      Smaller host step_id new (after_step new) (subtrees r)
      → Lacks host (node_id host new) (subtrees plan)
      → insert_step_after values db_id host true plan step_id new tx ≡ ok (r, tx')
      → DeletesTo plan
  unfolding insert_step_after
  delete_step-insert_step_after small lacks e =
      undone_lem (after_step new) (splice_first host step_id (after_step new) plan) small
        (splice_first-Undone host step_id new (after_step new) (after_step-Inserts host step_id new)
          plan lacks)
        e
