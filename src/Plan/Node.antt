-- ===== src/Plan/Node.antt =====
-- plan/_ast.py: `Node`, its checks and its content address. Attributes are values that the canonical
-- form accepts: for others `Node.id` raises.
use persistence_os.Base.{
  ℕ, suc, String, Bool, not, ◌||◌, ◌++◌, List, [], ◌∷◌, ◌==◌, string_eq, Outcome, ok, raise_if,
  ◌>>◌, arith, ◌≡◌, refl, length, length-append,
}
use persistence_os.Base.Dict.{Dict}
use persistence_os.Base.Text.{take, starts_with_colon}

mutual
  pub data Node (V : Type 0) : Type 0 where
    node : String → Dict String V → Nodes V → Node V

  pub data Nodes (V : Type 0) : Type 0 where
    nil : Nodes V
    cons : Node V → Nodes V → Nodes V

pub data PlanError : Type 0 where
  bad_tag bad_attr unimplemented step_id_not_found edit_outside_dosync : PlanError

-- What the hash of a node takes: `json.dumps(_canonical_dict(node), sort_keys=True, ...)` and
-- `hashlib.sha256(...).hexdigest()`.
pub record PlanHost (V : Type 0) : Type 0 where
  pub dumps : Node V → String
  pub sha256_hex : String → String

-- The checks on the attributes' keys in `__post_init__`.
unfoldable pub bad_key : String → Bool
bad_key k = k == "" || k == "id" || k == ":id" || starts_with_colon k

module _ {V : Type 0} where
  unfoldable pub tag : Node V → String
  tag (node t d cs) = t

  unfoldable pub attrs : Node V → Dict String V
  attrs (node t d cs) = d

  unfoldable pub children : Node V → Nodes V
  children (node t d cs) = cs

  unfoldable pub check_keys : Dict String V → Outcome PlanError (Unit {0})
  unfolding bad_key
  check_keys [] = ok tt
  check_keys ((k, v) ∷ d) = raise_if (bad_key k) bad_attr >> check_keys d

  -- `Node(tag, attrs, children)`
  unfoldable pub make_node : String → Dict String V → Nodes V → Outcome PlanError (Node V)
  unfolding check_keys
  make_node t d cs =
      raise_if (not (starts_with_colon t)) bad_tag >> check_keys d >> ok (node t d cs)

  unfoldable pub node_id : PlanHost V → Node V → String
  node_id host n = take 32 (host.sha256_hex (host.dumps n))

-- All nodes of a tree, each before the nodes below it: the order of a pre-order walk.
unfoldable mutual
  pub subtrees : {V : Type 0} → Node V → List (Node V)
  subtrees (node t d cs) = node t d cs ∷ subtrees_all cs

  pub subtrees_all : {V : Type 0} → Nodes V → List (Node V)
  subtrees_all nil = []
  subtrees_all (cons n ns) = subtrees n ++ subtrees_all ns

-- One row for each node, in that order: its depth, tag and attributes.
unfoldable mutual
  pub rows : {V : Type 0} → ℕ → Node V → List (ℕ × (String × Dict String V))
  rows depth (node t d cs) = (depth, (t, d)) ∷ rows_all (suc depth) cs

  pub rows_all : {V : Type 0} → ℕ → Nodes V → List (ℕ × (String × Dict String V))
  rows_all depth nil = []
  rows_all depth (cons n ns) = rows depth n ++ rows_all depth ns

mutual
  unfolding subtrees rows

  pub length-rows :
      {V : Type 0} (depth : ℕ) (n : Node V) → length (rows depth n) ≡ length (subtrees n)
  length-rows depth (node t d cs) = omega (arith, length-rows_all (suc depth) cs)

  pub length-rows_all :
      {V : Type 0} (depth : ℕ) (ns : Nodes V)
      → length (rows_all depth ns) ≡ length (subtrees_all ns)
  length-rows_all depth nil = refl
  length-rows_all depth (cons n ns) = omega (
    arith,
    length-append {0} (rows depth n) (rows_all depth ns),
    length-append {0} (subtrees n) (subtrees_all ns),
    length-rows depth n,
    length-rows_all depth ns,
  )
