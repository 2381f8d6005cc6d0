-- ===== src/Plan/Edit/Missing.antt =====
-- plan/_edit.py: scans that find an inserted node, or find nothing.
use persistence_os.Base.{
  ℕ, suc, String, true, false, none, some, ◌≡◌, ◌≢◌, refl, ap, ◌==◌, string_eq, All-split,
  Bool-cases, inl, inr,
}
use text.Mathlib.TextEquality.{eq_iff}
use persistence_os.Plan.Node.{
  Node, node, Nodes, nil, cons, PlanHost, node_id, subtrees, subtrees_all,
}
use persistence_os.Plan.Edit.{
  find_child, splice_first, splice_first_all, append_nodes, without_step,
}
use persistence_os.Plan.Edit.Rewriting.{Lacks}
use persistence_os.Plan.Edit.Children.{HeadsLack}

module _ {V : Type 0} (host : PlanHost V) where
  miss : (i : String) (n : Node V) → node_id host n ≢ i → (node_id host n == i) ≡ false
  miss i n h = elim (Bool-cases (node_id host n == i)) [
    | inl same ↦ absurd (h ((eq_iff _ _).0 same))
    | inr other ↦ other
  ]

  hit : (n : Node V) → (node_id host n == node_id host n) ≡ true
  hit n = (eq_iff _ _).1 refl

  -- Where the children before it have other ids, the scan finds the inserted node, and cutting it out
  -- leaves the children as they were.
  pub found_inserted :
      (new : Node V) (left right : Nodes V)
      → HeadsLack host (node_id host new) left
      → (k : ℕ) × (find_child host (node_id host new) (append_nodes left (cons new right))
          ≡ some (k, new))
        × (without_step (append_nodes left (cons new right)) k ≡ append_nodes left right)
  unfolding find_child without_step
  found_inserted new nil right h = (0, rw (hit new) refl, refl)
  found_inserted new (cons n left) right h =
      let (k, found, cut) = found_inserted new left right h.1 in
      (suc k, rw (miss _ n h.0, found) refl, ap (λ ms. cons n ms) cut)

  pub none_found : (i : String) (cs : Nodes V) → HeadsLack host i cs → find_child host i cs ≡ none
  unfolding find_child
  none_found i nil h = refl
  none_found i (cons n ns) h = rw (miss i n h.0, none_found i ns h.1) refl

  pub heads_lack :
      (i : String) (cs : Nodes V) → Lacks host i (subtrees_all cs) → HeadsLack host i cs
  unfolding subtrees
  heads_lack i nil h = tt
  heads_lack i (cons (node t d cs) ns) h = (
    h.0,
    heads_lack i ns (All-split (λ m. node_id host m ≢ i) (subtrees_all cs) (subtrees_all ns) h.1).1,
  )

mutual
  unfolding splice_first subtrees

  -- Where no node has the id, nothing is spliced.
  pub Lacks-none :
      {V : Type 0} (host : PlanHost V) (i : String) (splicer : Nodes V → ℕ → Nodes V) (n : Node V)
      → Lacks host i (subtrees n)
      → splice_first host i splicer n ≡ (n, none)
  Lacks-none host i splicer (node t d cs) h =
      rw (none_found host i cs (heads_lack host i cs h.1), Lacks-none_all host i splicer cs h.1)
        refl

  Lacks-none_all :
      {V : Type 0} (host : PlanHost V) (i : String) (splicer : Nodes V → ℕ → Nodes V) (ns : Nodes V)
      → Lacks host i (subtrees_all ns)
      → splice_first_all host i splicer ns ≡ (ns, none)
  Lacks-none_all host i splicer nil h = refl
  Lacks-none_all host i splicer (cons n ns) h =
      let (hn, hs) = All-split (λ m. node_id host m ≢ i) (subtrees n) (subtrees_all ns) h in
      rw (Lacks-none host i splicer n hn, Lacks-none_all host i splicer ns hs) refl
