-- ===== src/Plan/Walk/Flat.antt =====
-- plan/_walk.py: the walk is a loop over the nodes in pre-order.
use persistence_os.Base.{
  String, ◌++◌, List, [], ◌∷◌, ◌≡◌, refl, ap, ◌∙◌, sym, Outcome, ok, err, map, map-append,
}
use mathlib.Core.Path.{fun_ext}
use persistence_os.Plan.Node.{Node, node, Nodes, nil, cons, PlanHost, subtrees, subtrees_all}
use persistence_os.Plan.Walk.{
  WalkError, Step, Visitor, then_, visit, walk_recursive, walk_children, finish_walk, walk,
}

-- The nodes in pre-order, each with the tags above it.
unfoldable mutual
  pub located : {V : Type 0} → List String → Node V → List (Node V × List String)
  located path (node t d cs) = (node t d cs, path) ∷ located_all (path ++ t ∷ []) cs

  pub located_all : {V : Type 0} → List String → Nodes V → List (Node V × List String)
  located_all path nil = []
  located_all path (cons n ns) = located path n ++ located_all path ns

module _ {V X S : Type 0} (host : PlanHost V) (visitor : Visitor V X S) where
  unfoldable pub visit_all : List (Node V × List String) → Step X (S × List String)
  visit_all [] s = (ok tt, s)
  visit_all ((n, path) ∷ rest) s = then_ (visit host visitor n path s) (visit_all rest)

  then_assoc :
      (r : Outcome (WalkError X) (Unit {0}) × (S × List String)) (f g : Step X (S × List String))
      → then_ (then_ r f) g ≡ then_ r (λ s. then_ (f s) g)
  then_assoc (ok _, s) f g = refl
  then_assoc (err e, s) f g = refl

  pub visit_all-append :
      (xs ys : List (Node V × List String)) (s : S × List String)
      → visit_all (xs ++ ys) s ≡ then_ (visit_all xs s) (visit_all ys)
  unfolding visit_all
  visit_all-append [] ys s = refl
  visit_all-append ((n, path) ∷ xs) ys s =
      ap (then_ (visit host visitor n path s)) (fun_ext (visit_all-append xs ys))
      ∙ sym (then_assoc (visit host visitor n path s) (visit_all xs) (visit_all ys))

mutual
  unfolding walk_recursive located visit_all

  walk-visit_all :
      {V X S : Type 0} (host : PlanHost V) (visitor : Visitor V X S) (n : Node V)
      (path : List String) (s : S × List String)
      → walk_recursive host visitor n path s ≡ visit_all host visitor (located path n) s
  walk-visit_all host visitor (node t d cs) path s =
      ap (then_ (visit host visitor (node t d cs) path s))
        (fun_ext (walk_children-visit_all host visitor cs (path ++ t ∷ [])))

  walk_children-visit_all :
      {V X S : Type 0} (host : PlanHost V) (visitor : Visitor V X S) (ns : Nodes V)
      (path : List String) (s : S × List String)
      → walk_children host visitor ns path s ≡ visit_all host visitor (located_all path ns) s
  walk_children-visit_all host visitor nil path s = refl
  walk_children-visit_all host visitor (cons n ns) path s =
      ap (λ r. then_ r (walk_children host visitor ns path)) (walk-visit_all host visitor n path s)
      ∙ ap (then_ (visit_all host visitor (located path n) s))
          (fun_ext (walk_children-visit_all host visitor ns path))
      ∙ sym (visit_all-append host visitor (located path n) (located_all path ns) s)

pub walk-is-visit_all :
    {V X S : Type 0} (host : PlanHost V) (visitor : Visitor V X S) (n : Node V) (s : S)
    → walk host visitor n s
      ≡ finish_walk host visitor (visit_all host visitor (located [] n) (s, []))
unfolding walk
walk-is-visit_all host visitor n s =
    ap (finish_walk host visitor) (walk-visit_all host visitor n [] (s, []))

mutual
  unfolding located subtrees

  pub located-subtrees :
      {V : Type 0} (path : List String) (n : Node V) → map (λ p. p.0) (located path n) ≡ subtrees n
  located-subtrees path (node t d cs) =
      ap (λ ns. node t d cs ∷ ns) (located_all-subtrees (path ++ t ∷ []) cs)

  pub located_all-subtrees :
      {V : Type 0} (path : List String) (ns : Nodes V)
      → map (λ p. p.0) (located_all path ns) ≡ subtrees_all ns
  located_all-subtrees path nil = refl
  located_all-subtrees path (cons n ns) =
      map-append (λ p. p.0) (located path n) (located_all path ns)
      ∙ ap (λ xs. xs ++ map (λ p. p.0) (located_all path ns)) (located-subtrees path n)
      ∙ ap (λ xs. subtrees n ++ xs) (located_all-subtrees path ns)
