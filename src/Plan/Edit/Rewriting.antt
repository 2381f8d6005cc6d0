-- ===== src/Plan/Edit/Rewriting.antt =====
-- plan/_edit.py: where an edit rewrites a plan, read off the pre-order walk before it and after it.
use persistence_os.Base.{
  ℕ, suc, String, List, [], ◌∷◌, ◌++◌, ◌≡◌, ◌≢◌, refl, sym, ap, ◌∙◌, arith, All, append-nil,
  append_assoc, length, length-append,
}
use persistence_os.Base.Dict.{Dict}
use persistence_os.Plan.Node.{
  Node, node, Nodes, cons, PlanHost, node_id, subtrees, subtrees_all, rows, rows_all, length-rows,
}

abbrev pub Rows : Type 0 → Type 0
Rows V = List (ℕ × (String × Dict String V))

-- In a list of trees, after those of `before`, stands `old`, which has the id. In the walk after the
-- edit, its rows are those that `written` gives at its depth, and all others stay.
pub record Rewrites {V : Type 0} (host : PlanHost V) (step_id : String) (trees : List (Node V))
    (old_rows new_rows : Rows V) (old : Node V) (written : ℕ → Rows V) (before : List (Node V))
    : Type 0 where
  pub after : List (Node V)
  pub met : trees ≡ before ++ (subtrees old ++ after)
  pub here : node_id host old ≡ step_id
  pub level : ℕ
  pub above : Rows V
  pub below : Rows V
  pub place : length above ≡ length before
  pub old_tree : old_rows ≡ above ++ (rows level old ++ below)
  pub new_tree : new_rows ≡ above ++ (written level ++ below)

abbrev pub Lacks : {V : Type 0} → PlanHost V → String → List (Node V) → Type 0
Lacks host step_id trees = All (λ n. node_id host n ≢ step_id) trees

module _ {V : Type 0} (host : PlanHost V) (step_id : String) (old : Node V)
    (written : ℕ → Rows V) where
  pub Rewrites-here :
      (depth : ℕ)
      → node_id host old ≡ step_id
      → Rewrites host step_id (subtrees old) (rows depth old) (written depth) old written []
  Rewrites-here depth h = record {
    after = [];
    met = sym (append-nil (subtrees old));
    here = h;
    level = depth;
    above = [];
    below = [];
    place = refl;
    old_tree = sym (append-nil (rows depth old));
    new_tree = sym (append-nil (written depth));
  }

  pub Rewrites-below :
      (depth : ℕ) (t : String) (d : Dict String V) (cs cs' : Nodes V) (before : List (Node V))
      → Rewrites host step_id
          (subtrees_all cs)
          (rows_all (suc depth) cs)
          (rows_all (suc depth) cs')
          old
          written
          before
      → Rewrites host step_id
          (subtrees (node t d cs))
          (rows depth (node t d cs))
          (rows depth (node t d cs'))
          old
          written
          (node t d cs ∷ before)
  unfolding subtrees rows
  Rewrites-below depth t d cs cs' before r = record {
    after = r.after;
    met = ap (λ ns. node t d cs ∷ ns) r.met;
    here = r.here;
    level = r.level;
    above = (depth, (t, d)) ∷ r.above;
    below = r.below;
    place = omega (arith, r.place);
    old_tree = ap (λ rs. (depth, (t, d)) ∷ rs) r.old_tree;
    new_tree = ap (λ rs. (depth, (t, d)) ∷ rs) r.new_tree;
  }

  pub Rewrites-head :
      (depth : ℕ) (n n' : Node V) (ns : Nodes V) (before : List (Node V))
      → Rewrites host step_id (subtrees n) (rows depth n) (rows depth n') old written before
      → Rewrites host step_id
          (subtrees_all (cons n ns))
          (rows_all depth (cons n ns))
          (rows_all depth (cons n' ns))
          old
          written
          before
  unfolding subtrees rows
  Rewrites-head depth n n' ns before r = record {
    after = r.after ++ subtrees_all ns;
    met = ap (λ xs. xs ++ subtrees_all ns) r.met ∙ simp append_assoc;
    here = r.here;
    level = r.level;
    above = r.above;
    below = r.below ++ rows_all depth ns;
    place = r.place;
    old_tree = ap (λ xs. xs ++ rows_all depth ns) r.old_tree ∙ simp append_assoc;
    new_tree = ap (λ xs. xs ++ rows_all depth ns) r.new_tree ∙ simp append_assoc;
  }

  pub Rewrites-tail :
      (depth : ℕ) (n : Node V) (ns ns' : Nodes V) (before : List (Node V))
      → Rewrites host step_id
          (subtrees_all ns)
          (rows_all depth ns)
          (rows_all depth ns')
          old
          written
          before
      → Rewrites host step_id
          (subtrees_all (cons n ns))
          (rows_all depth (cons n ns))
          (rows_all depth (cons n ns'))
          old
          written
          (subtrees n ++ before)
  unfolding subtrees rows
  Rewrites-tail depth n ns ns' before r = record {
    after = r.after;
    met = ap (λ xs. subtrees n ++ xs) r.met ∙ sym (append_assoc (subtrees n) before _);
    here = r.here;
    level = r.level;
    above = rows depth n ++ r.above;
    below = r.below;
    place = omega (
      arith,
      length-append {0} (rows depth n) r.above,
      length-append {0} (subtrees n) before,
      length-rows depth n,
      r.place,
    );
    old_tree =
        ap (λ xs. rows depth n ++ xs) r.old_tree ∙ sym (append_assoc (rows depth n) r.above _);
    new_tree =
        ap (λ xs. rows depth n ++ xs) r.new_tree ∙ sym (append_assoc (rows depth n) r.above _);
  }
