-- ===== src/Plan/Edit/Children.antt =====
-- plan/_edit.py: the scan of `_splice_first` over the children of one node.
use persistence_os.Base.{
  ℕ, suc, String, Option, none, some, List, ◌++◌, ◌≡◌, ◌≢◌, refl, sym, ap, ◌∙◌, ◌==◌, string_eq,
  Bool-cases, inl, inr, append_assoc,
}
use text.Mathlib.TextEquality.{eq_iff}
use persistence_os.Plan.Node.{
  Node, Nodes, nil, cons, PlanHost, node_id, subtrees, subtrees_all, rows, rows_all,
  length-rows_all,
}
use persistence_os.Plan.Edit.{find_child, take_nodes, drop_nodes, append_nodes}
use persistence_os.Plan.Edit.Rewriting.{Rows, Rewrites}

-- The child that the scan found, among the children.
pub record IsChild {V : Type 0} (host : PlanHost V) (step_id : String) (cs : Nodes V) (k : ℕ)
    (old : Node V) : Type 0 where
  pub left : Nodes V
  pub right : Nodes V
  pub whole : cs ≡ append_nodes left (cons old right)
  pub taken : take_nodes k cs ≡ left
  pub taken_with : take_nodes (suc k) cs ≡ append_nodes left (cons old nil)
  pub dropped : drop_nodes (suc k) cs ≡ right
  pub dropped_with : drop_nodes k cs ≡ cons old right
  pub here : node_id host old ≡ step_id

module _ {V : Type 0} where
  pub rows-append_nodes :
      (depth : ℕ) (ns ms : Nodes V)
      → rows_all depth (append_nodes ns ms) ≡ rows_all depth ns ++ rows_all depth ms
  unfolding append_nodes rows
  rows-append_nodes depth nil ms = refl
  rows-append_nodes depth (cons n ns) ms =
      ap (λ rs. rows depth n ++ rs) (rows-append_nodes depth ns ms)
      ∙ sym (append_assoc (rows depth n) (rows_all depth ns) (rows_all depth ms))

  subtrees-append_nodes :
      (ns ms : Nodes V) → subtrees_all (append_nodes ns ms) ≡ subtrees_all ns ++ subtrees_all ms
  unfolding append_nodes subtrees
  subtrees-append_nodes nil ms = refl
  subtrees-append_nodes (cons n ns) ms =
      ap (λ xs. subtrees n ++ xs) (subtrees-append_nodes ns ms)
      ∙ sym (append_assoc (subtrees n) (subtrees_all ns) (subtrees_all ms))

  pub append_nodes_assoc :
      (ns ms ls : Nodes V)
      → append_nodes (append_nodes ns ms) ls ≡ append_nodes ns (append_nodes ms ls)
  unfolding append_nodes
  append_nodes_assoc nil ms ls = refl
  append_nodes_assoc (cons n ns) ms ls = ap (λ rest. cons n rest) (append_nodes_assoc ns ms ls)

module _ {V : Type 0} (host : PlanHost V) (step_id : String) where
  first-IsChild :
      (old : Node V) (ns : Nodes V)
      → node_id host old ≡ step_id
      → IsChild host step_id (cons old ns) 0 old
  unfolding take_nodes drop_nodes append_nodes
  first-IsChild old ns h = record {
    left = nil;
    right = ns;
    whole = refl;
    taken = refl;
    taken_with = refl;
    dropped = refl;
    dropped_with = refl;
    here = h;
  }

  later-IsChild :
      (n : Node V) (ns : Nodes V) (k : ℕ) (old : Node V)
      → IsChild host step_id ns k old
      → IsChild host step_id (cons n ns) (suc k) old
  unfolding take_nodes drop_nodes append_nodes
  later-IsChild n ns k old c = record {
    left = cons n c.left;
    right = c.right;
    whole = ap (λ ms. cons n ms) c.whole;
    taken = ap (λ ms. cons n ms) c.taken;
    taken_with = ap (λ ms. cons n ms) c.taken_with;
    dropped = c.dropped;
    dropped_with = c.dropped_with;
    here = c.here;
  }

  -- No child has the id.
  abbrev pub HeadsLack : Nodes V → Type 0
  HeadsLack nil = Unit
  HeadsLack (cons n ns) = (node_id host n ≢ step_id) × HeadsLack ns

  abbrev pub Scanned : Nodes V → Option (ℕ × Node V) → Type 0
  Scanned cs (some (k, old)) = IsChild host step_id cs k old
  Scanned cs none = HeadsLack cs

  find_later :
      (n : Node V) (ns : Nodes V) (r : Option (ℕ × Node V))
      → node_id host n ≢ step_id
      → Scanned ns r
      → Scanned (cons n ns) (elim r [ none ↦ none | some (k, m) ↦ some (suc k, m) ])
  find_later n ns none h lacks = (h, lacks)
  find_later n ns (some (k, old)) h c = later-IsChild n ns k old c

  pub find_child-Scanned : (cs : Nodes V) → Scanned cs (find_child host step_id cs)
  unfolding find_child
  find_child-Scanned nil = tt
  find_child-Scanned (cons n ns) = elim (Bool-cases (node_id host n == step_id)) [
    | inl same ↦ rw same (first-IsChild n ns ((eq_iff _ _).0 same))
    | inr other ↦
        rw other (find_later n ns _ (λ e. cc (other, (eq_iff _ _).1 e)) (find_child-Scanned ns))
  ]

  -- Replacing the rows of the child that was found.
  pub Rewrites-child :
      (written : ℕ → Rows V) (depth : ℕ) (cs : Nodes V) (k : ℕ) (old : Node V) (new_rows : Rows V)
      → (c : IsChild host step_id cs k old)
      → new_rows ≡ rows_all depth c.left ++ (written depth ++ rows_all depth c.right)
      → (before : List (Node V)) × Rewrites host step_id
          (subtrees_all cs)
          (rows_all depth cs)
          new_rows
          old
          written
          before
  unfolding subtrees rows
  Rewrites-child written depth cs k old new_rows c e = (
    subtrees_all c.left,
    record {
      after = subtrees_all c.right;
      met = ap subtrees_all c.whole ∙ subtrees-append_nodes c.left (cons old c.right);
      here = c.here;
      level = depth;
      above = rows_all depth c.left;
      below = rows_all depth c.right;
      place = length-rows_all depth c.left;
      old_tree = ap (rows_all depth) c.whole ∙ rows-append_nodes depth c.left (cons old c.right);
      new_tree = e;
    },
  )
