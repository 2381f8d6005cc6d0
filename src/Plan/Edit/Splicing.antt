-- ===== src/Plan/Edit/Splicing.antt =====
-- plan/_edit.py: what the splicing edits do to a plan.
use persistence_os.Base.{
  ℕ, suc, String, Bool, true, false, Option, none, some, List, [], ◌∷◌, ◌++◌, ◌≡◌, ◌≢◌, refl, ap,
  ◌∙◌, string_eq, Outcome, ok, err, All-append, append_assoc,
}
use persistence_os.Base.Dict.{Dict}
use persistence_os.Fact.Datom.{Python}
use persistence_os.Txn.Transaction.{Values, Transaction}
use persistence_os.Plan.Node.{
  Node, node, Nodes, nil, cons, PlanError, step_id_not_found, edit_outside_dosync, PlanHost,
  node_id, subtrees, subtrees_all, rows, rows_all, children,
}
use persistence_os.Plan.Edit.{
  spliced, next_child, find_child, splice_first, splice_first_all, finish_splice, splice_step,
  emit_edit_datom, drop_nodes, append_nodes, after_step, before_step, without_step,
  insert_step_after, insert_step_before, delete_step,
}
use persistence_os.Plan.Edit.Rewriting.{
  Rows, Rewrites, Lacks, Rewrites-below, Rewrites-head, Rewrites-tail,
}
use persistence_os.Plan.Edit.Children.{
  IsChild, rows-append_nodes, HeadsLack, Scanned, find_child-Scanned, Rewrites-child,
}

module _ {V : Type 0} (host : PlanHost V) (step_id : String) where
  -- Below a node, or below each of a list of nodes, no node has the id.
  abbrev BelowLacks : Node V → Type 0
  BelowLacks n = Lacks host step_id (subtrees_all (children n))

  abbrev AllBelowLack : Nodes V → Type 0
  AllBelowLack nil = Unit
  AllBelowLack (cons n ns) = BelowLacks n × AllBelowLack ns

  all_lack :
      (cs : Nodes V)
      → HeadsLack host step_id cs
      → AllBelowLack cs
      → Lacks host step_id (subtrees_all cs)
  unfolding subtrees children
  all_lack nil h k = tt
  all_lack (cons (node t d cs) ns) h k = (
    h.0,
    All-append (λ m. node_id host m ≢ step_id) (subtrees_all cs) (subtrees_all ns) k.0
        (all_lack ns h.1 k.1),
  )

  -- What a splicer leaves of the rows around the child that was found.
  abbrev Writes : (Nodes V → ℕ → Nodes V) → (Node V → ℕ → Rows V) → Type 0
  Writes splicer written =
      (cs : Nodes V) (k : ℕ) (old : Node V) (c : IsChild host step_id cs k old) (depth : ℕ)
      → rows_all depth (splicer cs k)
        ≡ rows_all depth c.left ++ (written old depth ++ rows_all depth c.right)

  module _ (splicer : Nodes V → ℕ → Nodes V) (written : Node V → ℕ → Rows V)
      (good : Writes splicer written) where
    abbrev Spliced : ℕ → Node V → Node V × Option (Node V) → Type 0
    Spliced depth n (n', some old) =
        (before : List (Node V)) × Rewrites host step_id (subtrees n) (rows depth n) (rows depth n')
          old (written old) (n ∷ before)
    Spliced depth n (n', none) = BelowLacks n

    abbrev SplicedAll : ℕ → Nodes V → Nodes V × Option (Node V) → Type 0
    SplicedAll depth ns (ns', some old) =
        (before : List (Node V)) × Rewrites host step_id (subtrees_all ns) (rows_all depth ns)
          (rows_all depth ns') old (written old) before
    SplicedAll depth ns (ns', none) = AllBelowLack ns

    by_scan :
        (depth : ℕ) (t : String) (d : Dict String V) (cs : Nodes V) (f : Option (ℕ × Node V))
        (r : Nodes V × Option (Node V))
        → Scanned host step_id cs f
        → SplicedAll (suc depth) cs r
        → Spliced depth (node t d cs) (spliced splicer (node t d cs) f r)
    unfolding children
    by_scan depth t d cs (some (k, old)) r c h =
        let (before, place) =
          Rewrites-child host step_id (written old) (suc depth) cs k old _ c
            (good cs k old c (suc depth)) in
        (
          before,
          Rewrites-below host step_id old (written old) depth t d cs (splicer cs k) before place,
        )
    by_scan depth t d cs none (cs', some old) lacks (before, place) =
        (before, Rewrites-below host step_id old (written old) depth t d cs cs' before place)
    by_scan depth t d cs none (cs', none) lacks h = all_lack cs lacks h

    next_child-Spliced :
        (depth : ℕ) (n : Node V) (ns : Nodes V) (q : Node V × Option (Node V))
        (r : Nodes V × Option (Node V))
        → Spliced depth n q
        → SplicedAll depth ns r
        → SplicedAll depth (cons n ns) (next_child q n ns r)
    next_child-Spliced depth n ns (n', some old) r (before, place) k =
        (n ∷ before, Rewrites-head host step_id old (written old) depth n n' ns (n ∷ before) place)
    next_child-Spliced depth n ns (n', none) (ns', some old) h (before, place) = (
      subtrees n ++ before,
      Rewrites-tail host step_id old (written old) depth n ns ns' before place,
    )
    next_child-Spliced depth n ns (n', none) (ns', none) h k = (h, k)

mutual
  unfolding splice_first subtrees

  splice_first-Spliced :
      {V : Type 0} (host : PlanHost V) (step_id : String) (splicer : Nodes V → ℕ → Nodes V)
      (written : Node V → ℕ → Rows V) (good : Writes host step_id splicer written) (depth : ℕ)
      (n : Node V)
      → Spliced host step_id splicer written good depth n (splice_first host step_id splicer n)
  splice_first-Spliced host step_id splicer written good depth (node t d cs) =
      by_scan host step_id splicer written good depth t d cs (find_child host step_id cs) _
        (find_child-Scanned host step_id cs)
        (splice_first_all-Spliced host step_id splicer written good (suc depth) cs)

  splice_first_all-Spliced :
      {V : Type 0} (host : PlanHost V) (step_id : String) (splicer : Nodes V → ℕ → Nodes V)
      (written : Node V → ℕ → Rows V) (good : Writes host step_id splicer written) (depth : ℕ)
      (ns : Nodes V)
      → SplicedAll host step_id splicer written good depth ns
          (splice_first_all host step_id splicer ns)
  splice_first_all-Spliced host step_id splicer written good depth nil = tt
  splice_first_all-Spliced host step_id splicer written good depth (cons n ns) =
      next_child-Spliced host step_id splicer written good depth n ns _ _
        (splice_first-Spliced host step_id splicer written good depth n)
        (splice_first_all-Spliced host step_id splicer written good depth ns)

module _ {V : Type 0} ⦃py : Python V⦄ (values : Values V) (db_id : String) (host : PlanHost V) where
  -- What a splicing edit has done, or why it was refused. The step is below the root; its rows give
  -- way to those of `written`.
  pub SpliceDone :
      (Node V → ℕ → Rows V)
      → Bool
      → Node V
      → String
      → Transaction V
      → Outcome PlanError (Node V × Transaction V)
      → Type 0
  SpliceDone written in_dosync plan step_id tx (ok (r, tx')) =
      (in_dosync ≡ true)
      × ((old : Node V) × (before : List (Node V)) × Rewrites host step_id (subtrees plan)
            (rows 0 plan) (rows 0 r) old (written old) (plan ∷ before)
          × (tx'
              ≡ emit_edit_datom values db_id host (node_id host plan) step_id (node_id host plan)
                  (node_id host r) tx))
  SpliceDone written in_dosync plan step_id tx (err step_id_not_found) =
      (in_dosync ≡ true) × Lacks host step_id (subtrees_all (children plan))
  SpliceDone written in_dosync plan step_id tx (err edit_outside_dosync) = in_dosync ≡ false
  SpliceDone written in_dosync plan step_id tx (err _) = ⊥

  module _ (step_id : String) (splicer : Nodes V → ℕ → Nodes V) (written : Node V → ℕ → Rows V)
      (good : Writes host step_id splicer written) where
    finish_splice-Done :
        (plan : Node V) (tx : Transaction V) (q : Node V × Option (Node V))
        → Spliced host step_id splicer written good 0 plan q
        → SpliceDone written true plan step_id tx
            (finish_splice values db_id host plan step_id q tx)
    unfolding finish_splice SpliceDone
    finish_splice-Done plan tx (r, some old) (before, place) = (refl, (old, before, place, refl))
    finish_splice-Done plan tx (r, none) lacks = (refl, lacks)

    splice_step-Done :
        (in_dosync : Bool) (plan : Node V) (tx : Transaction V)
        → SpliceDone written in_dosync plan step_id tx
            (splice_step values db_id host splicer in_dosync plan step_id tx)
    unfolding splice_step SpliceDone
    splice_step-Done false plan tx = refl
    splice_step-Done true plan tx =
        finish_splice-Done plan tx (splice_first host step_id splicer plan)
          (splice_first-Spliced host step_id splicer written good 0 plan)

  module _ (step_id : String) (new : Node V) where
    after_step-Writes : Writes host step_id (after_step new) (λ old k. rows k old ++ rows k new)
    unfolding after_step rows
    after_step-Writes cs k old c depth =
        ap (λ ms. rows_all depth (append_nodes ms (cons new (drop_nodes (suc k) cs)))) c.taken_with
        ∙ ap
            (λ ms. rows_all depth (append_nodes (append_nodes c.left (cons old nil)) (cons new ms)))
            c.dropped
        ∙ simp (rows-append_nodes, append_assoc)

    before_step-Writes : Writes host step_id (before_step new) (λ old k. rows k new ++ rows k old)
    unfolding before_step rows
    before_step-Writes cs k old c depth =
        ap (λ ms. rows_all depth (append_nodes ms (cons new (drop_nodes k cs)))) c.taken
        ∙ ap (λ ms. rows_all depth (append_nodes c.left (cons new ms))) c.dropped_with
        ∙ simp (rows-append_nodes, append_assoc)

  without_step-Writes : (step_id : String) → Writes host step_id without_step (λ old k. [])
  unfolding without_step rows
  without_step-Writes step_id cs k old c depth =
      ap (λ ms. rows_all depth (append_nodes ms (drop_nodes (suc k) cs))) c.taken
      ∙ ap (λ ms. rows_all depth (append_nodes c.left ms)) c.dropped
      ∙ rows-append_nodes depth c.left c.right

  -- Inside a dosync, an insertion after or before a step, or a deletion of a step, that returns has
  -- put into the pre-order walk of the plan the rows of the step and then the new step, of the new
  -- step and then the step, or nothing, in place of the rows of one step below the root that has
  -- the id, with all other rows kept, and has queued one :plan/edit intent; it is refused exactly
  -- where it is not in a dosync or no step below the root has the id.
  pub splice_steps-Done :
      (in_dosync : Bool) (plan new : Node V) (step_id : String) (tx : Transaction V)
      → SpliceDone
          (λ old k. rows k old ++ rows k new)
          in_dosync
          plan
          step_id
          tx
          (insert_step_after values db_id host in_dosync plan step_id new tx)
        × SpliceDone
            (λ old k. rows k new ++ rows k old)
            in_dosync
            plan
            step_id
            tx
            (insert_step_before values db_id host in_dosync plan step_id new tx)
        × SpliceDone
            (λ old k. [])
            in_dosync
            plan
            step_id
            tx
            (delete_step values db_id host in_dosync plan step_id tx)
  unfolding insert_step_after insert_step_before delete_step
  splice_steps-Done in_dosync plan new step_id tx = (
    splice_step-Done step_id (after_step new) _ (after_step-Writes step_id new) in_dosync plan tx,
    splice_step-Done step_id (before_step new) _ (before_step-Writes step_id new) in_dosync plan tx,
    splice_step-Done step_id without_step _ (without_step-Writes step_id) in_dosync plan tx,
  )
