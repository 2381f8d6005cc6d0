-- ===== src/Effect/Handlers/Policy.antt =====
-- effect/policy_eval.py, and the clause of effect/handlers/policy.py. A predicate has the arguments
-- that its operator takes; a node that is no known operator is `malformed`. What the evaluator asks
-- of Python's values is a parameter.
pub mod Deciding
use Prim.Native.String.{◌++◌ as append}
use persistence_os.Base.{
  String, Bool, true, false, not, ◌&&◌, Option, none, some, List, [], ◌∷◌, string_eq, ◌==◌,
  if◌then◌else◌, Outcome, ok, err, ◌>>=◌,
}
use persistence_os.Base.Dict.{Dict, lookup}
use persistence_os.Effect.Action.{Action, Failure, raise, raised, pure, ◌>>=◌ as bind}
use persistence_os.Base.Text.{contains}

-- `isinstance(v, dict)` with the dict, `needle in value` and `len(value) > 0` or `bool(value)`, both
-- with their TypeError caught, `re.search` on a text, and `==`.
pub record Values (V : Type 0) : Type 0 where
  pub as_dict : V → Option (Dict String V)
  pub is_none : V → Bool
  pub nil : V
  pub of_text : String → V
  pub holds : V → V → Bool
  pub is_non_empty : V → Bool
  pub matches : V → V → Bool
  pub equals : V → V → Bool

-- A PATH form, or a literal.
pub data ValuePath (V : Type 0) : Type 0 where
  in_args in_principal : List String → ValuePath V
  op_name : ValuePath V
  literal : V → ValuePath V

mutual
  pub data Predicate (V : Type 0) : Type 0 where
    op_is mode_is : String → Predicate V
    op_in : List String → Predicate V
    every some_of : Predicates V → Predicate V
    negated : Predicate V → Predicate V
    holds_value matches_text equals_value : ValuePath V → V → Predicate V
    non_empty : ValuePath V → Predicate V
    malformed : Predicate V

  pub data Predicates (V : Type 0) : Type 0 where
    no_more : Predicates V
    also : Predicate V → Predicates V → Predicates V

pub data PolicyError : Type 0 where
  unknown_operator missing_when : PolicyError

-- What a predicate is evaluated against.
pub record Call (V : Type 0) : Type 0 where
  pub principal : V
  pub op : String
  pub args : V
  pub mode : String

module _ {V : Type 0} (values : Values V) where
  -- `cur.get(key)` along the keys; what is no dict ends the walk with `None`.
  unfoldable pub walk : List String → V → V
  walk [] cur = cur
  walk (key ∷ keys) cur = walk keys (elim (values.as_dict cur) [
    | none ↦ values.nil
    | some d ↦ elim (lookup key d) [ none ↦ values.nil | some v ↦ v ]
  ])

  unfoldable pub resolve_path : ValuePath V → Call V → V
  unfolding walk
  resolve_path (ValuePath.in_args keys) c = walk keys c.args
  resolve_path (ValuePath.in_principal keys) c = walk keys c.principal
  resolve_path ValuePath.op_name c = values.of_text c.op
  resolve_path (ValuePath.literal v) c = v

  unfoldable mutual
    unfolding resolve_path

    pub match_when : Predicate V → Call V → Outcome PolicyError Bool
    match_when (Predicate.op_is op) c = ok (c.op == op)
    match_when (Predicate.mode_is mode) c = ok (c.mode == mode)
    match_when (Predicate.op_in ops) c = ok (contains c.op ops)
    match_when (Predicate.every ps) c = match_every ps c
    match_when (Predicate.some_of ps) c = match_some ps c
    match_when (Predicate.negated p) c = match_when p c >>= λ b. ok (not b)
    match_when (Predicate.holds_value path v) c =
        let value = resolve_path path c in ok (not (values.is_none value) && values.holds value v)
    match_when (Predicate.matches_text path v) c = ok (values.matches (resolve_path path c) v)
    match_when (Predicate.equals_value path v) c = ok (values.equals (resolve_path path c) v)
    match_when (Predicate.non_empty path) c =
        let value = resolve_path path c in
        ok (not (values.is_none value) && values.is_non_empty value)
    match_when Predicate.malformed c = err PolicyError.unknown_operator

    -- `all(...)` stops at the first that fails.
    pub match_every : Predicates V → Call V → Outcome PolicyError Bool
    match_every Predicates.no_more c = ok true
    match_every (Predicates.also p ps) c =
        let rest = match_every ps c in match_when p c >>= λ b. if b then rest else ok false

    -- `any(...)` stops at the first that holds.
    pub match_some : Predicates V → Call V → Outcome PolicyError Bool
    match_some Predicates.no_more c = ok false
    match_some (Predicates.also p ps) c =
        let rest = match_some ps c in match_when p c >>= λ b. if b then ok true else rest

pub record Rule (V : Type 0) : Type 0 where
  pub id : Option String
  pub when : Option (Predicate V)
  pub require : Option (Predicate V)
  pub on_fail : Option String

pub record Verdict : Type 0 where
  pub verdict : String
  pub reasons : List String
  pub policy_id : String

-- `d.get(key, default)`
abbrev pub text_or : String → Option String → String
text_or d none = d
text_or d (some s) = s

module _ {V : Type 0} (values : Values V) where
  -- `require_ok` negated; a rule without `require` fires.
  unfoldable pub fails_require : Option (Predicate V) → Call V → Outcome PolicyError Bool
  unfolding match_when
  fails_require none c = ok true
  fails_require (some p) c = match_when values p c >>= λ b. ok (not b)

  unfoldable pub fires : Rule V → Call V → Outcome PolicyError Bool
  unfolding fails_require match_when
  fires rule c = elim rule.when [
    | none ↦ err PolicyError.missing_when
    | some p ↦ match_when values p c >>= λ matched.
        if matched then fails_require rule.require c else ok false
  ]

  abbrev pub fired : Rule V → String → Verdict
  fired rule policy_id =
      let verdict = text_or "deny" rule.on_fail in
      record {
        verdict = verdict;
        reasons = append (text_or "anon" rule.id) (append ": on-fail=" verdict) ∷ [];
        policy_id = policy_id;
      }

  -- The loop of `evaluate`.
  unfoldable pub evaluate : List (Rule V) → String → Call V → Outcome PolicyError Verdict
  unfolding fires
  evaluate [] policy_id c = ok (record { verdict = "allow"; reasons = []; policy_id = policy_id })
  evaluate (rule ∷ rules) policy_id c =
      let rest = evaluate rules policy_id c in
      fires rule c >>= λ b. if b then ok (fired rule policy_id) else rest

-- `{**verdict_info, "op": op_name}`
pub record Info : Type 0 where
  pub op : String
  pub decision : Verdict

pub data PolicyFailure : Type 0 where
  policy_denied approval_required : Info → PolicyFailure
  policy_error : PolicyError → PolicyFailure
  unknown_verdict : PolicyFailure

-- The handler's `ctx`, with how its exceptions and its silent answer look to the caller. The approval
-- function may have effects, and may raise.
pub record Settings (S X R V : Type 0) : Type 0 where
  pub rules : List (Rule V)
  pub policy_id : String
  pub mode : String
  pub principal : V
  pub approval_fn : Option (Info → Action S X Bool)
  pub exception : PolicyFailure → X
  pub silent_answer : Info → R

abbrev pub call_of : {S X R V : Type 0} → Settings S X R V → String → V → Call V
call_of settings op args = record {
  principal = settings.principal;
  op = op;
  args = args;
  mode = settings.mode;
}

-- `af is not None and af(verdict_info)`
unfoldable pub is_approved :
    {S X : Type 0} → Option (Info → Action S X Bool) → Info → Action S X Bool
unfolding pure
is_approved none i = pure false
is_approved (some af) i = af i

module _ {S X R V : Type 0} (values : Values V) (settings : Settings S X R V) where
  -- What follows the evaluation.
  unfoldable pub apply_verdict : V → (V → Action S X R) → Info → Action S X R
  unfolding raise pure is_approved bind
  apply_verdict args k i =
      if i.decision.verdict == "allow"
      then k args
      else if i.decision.verdict == "deny"
      then raise (raised (settings.exception (PolicyFailure.policy_denied i)))
      else if i.decision.verdict == "deny-silently"
      then pure (settings.silent_answer i)
      else if i.decision.verdict == "require-approval"
      then bind (is_approved settings.approval_fn i) (λ approved.
        if approved
        then k args
        else raise (raised (settings.exception (PolicyFailure.approval_required i))))
      else raise (raised (settings.exception PolicyFailure.unknown_verdict))

  unfoldable pub clause : String → V → (V → Action S X R) → Action S X R
  unfolding apply_verdict evaluate raise
  clause op args k =
      elim (evaluate values settings.rules settings.policy_id (call_of settings op args)) [
        | ok v ↦ apply_verdict args k (record { op = op; decision = v })
        | err e ↦ raise (raised (settings.exception (PolicyFailure.policy_error e)))
      ]
