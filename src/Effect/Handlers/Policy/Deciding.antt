-- ===== src/Effect/Handlers/Policy/Deciding.antt =====
-- effect/policy_eval.py and effect/handlers/policy.py: the first rule that fires decides, and an
-- operation that is not allowed does not reach the handlers below.
use persistence_os.Base.{
  ◌≡◌, refl, sym, ap, ◌∙◌, ◌⊎◌, inl, inr, String, Bool, true, false, List, [], ◌∷◌, ◌++◌, string_eq,
  ◌==◌, if◌then◌else◌, Outcome, ok, err, All, arith, Outcome-cases,
}
use mathlib.Core.Path.{subst}
use persistence_os.Effect.Action.{Action, Failure, raise, raised, pure, next, ◌>>=◌ as bind}
use persistence_os.Effect.Handlers.Policy.{
  Values, Call, Rule, Verdict, Info, text_or, fires, fired, evaluate, PolicyFailure, Settings,
  is_approved, apply_verdict, call_of, clause,
}

module _ {V : Type 0} (values : Values V) (policy_id : String) (c : Call V) where
  abbrev pub IsIdle : Rule V → Type 0
  IsIdle rule = fires values rule c ≡ ok false

  -- What the verdict `v` of some rules says of them.
  abbrev pub Decides : List (Rule V) → Verdict → Type 0
  Decides rules v =
      (All IsIdle rules × (v ≡ record { verdict = "allow"; reasons = []; policy_id = policy_id }))
      ⊎ ((before : List (Rule V)) × (rule : Rule V) × (after : List (Rule V)) × (rules
            ≡ before ++ rule ∷ after)
          × All IsIdle before
          × (fires values rule c ≡ ok true)
          × (v ≡ fired values rule policy_id))

  -- A verdict is the one of the first rule that fires, or allow, with no reasons, where no rule
  -- fires.
  pub evaluate-Decides :
      (rules : List (Rule V)) (v : Verdict)
      → evaluate values rules policy_id c ≡ ok v
      → Decides rules v
  unfolding evaluate
  evaluate-Decides [] v h = inl (tt, ground arith)
  evaluate-Decides (rule ∷ rules) v h = elim (Outcome-cases (fires values rule c)) [
    | inr (e, failed) ↦ absurd (ground arith)
    | inl (true, now) ↦ inr ([], rule, rules, refl, tt, now, ground arith)
    | inl (false, idle) ↦ elim (evaluate-Decides rules v (ground arith)) [
      | inl (all, allowed) ↦ inl ((idle, all), allowed)
      | inr (before, r, after, same, idles, fires_now, is) ↦ inr (
        rule ∷ before,
        r,
        after,
        ap (λ (l : List (Rule V)). rule ∷ l) same,
        (idle, idles),
        fires_now,
        is,
      )
    ]
  ]

  evaluate_first :
      (before : List (Rule V)) (rule : Rule V) (after : List (Rule V))
      → All IsIdle before
      → fires values rule c ≡ ok true
      → evaluate values (before ++ rule ∷ after) policy_id c ≡ ok (fired values rule policy_id)
  unfolding evaluate
  evaluate_first [] rule after idle now = rw now refl
  evaluate_first (b ∷ before) rule after idle now =
      rw idle.0 (evaluate_first before rule after idle.1 now)

module _ {S X R V : Type 0} (values : Values V) (settings : Settings S X R V) where
  clause_evaluated :
      (op : String) (args : V) (k : V → Action S X R) (s : S) (v : Verdict)
      → evaluate values settings.rules settings.policy_id (call_of settings op args) ≡ ok v
      → clause values settings op args k s
        ≡ apply_verdict values settings args k (record { op = op; decision = v }) s
  unfolding clause
  clause_evaluated op args k s v e = cc

  denied :
      (args : V) (k : V → Action S X R) (s : S) (i : Info)
      → i.decision.verdict ≡ "deny"
      → apply_verdict values settings args k i s
        ≡ (err (raised (settings.exception (PolicyFailure.policy_denied i))), s)
  unfolding apply_verdict raise
  denied args k s i e =
      let not_allow : (i.decision.verdict == "allow") ≡ false =
        subst (λ (t : String). (t == "allow") ≡ false) (sym e) refl in
      let is_deny : (i.decision.verdict == "deny") ≡ true =
        subst (λ (t : String). (t == "deny") ≡ true) (sym e) refl in
      ground (arith, not_allow, is_deny)

  -- The operation is not let through: the verdict neither allows it nor asks for an approval, and the
  -- state stays; or the approval is refused or raises, and the state is what the approval left.
  abbrev pub Stops : Info → S → S → Type 0
  Stops i s t =
      (((i.decision.verdict == "allow") ≡ false)
        × ((i.decision.verdict == "require-approval") ≡ false)
        × (t ≡ s))
      ⊎ ((i.decision.verdict ≡ "require-approval")
          × ((is_approved settings.approval_fn i s ≡ (ok false, t))
              ⊎ ((e : Failure X) × (is_approved settings.approval_fn i s ≡ (err e, t)))))

  after_approval : V → (V → Action S X R) → Info → Bool → Action S X R
  after_approval args k i approved =
      if approved
      then k args
      else raise (raised (settings.exception (PolicyFailure.approval_required i)))

  asked :
      (args : V) (k : V → Action S X R) (s : S) (i : Info)
      → i.decision.verdict ≡ "require-approval"
      → apply_verdict values settings args k i s
        ≡ next (is_approved settings.approval_fn i s) (after_approval args k i)
  unfolding apply_verdict bind after_approval
  asked args k s i e =
      let not_allow : (i.decision.verdict == "allow") ≡ false =
        subst (λ (t : String). (t == "allow") ≡ false) (sym e) refl in
      let not_deny : (i.decision.verdict == "deny") ≡ false =
        subst (λ (t : String). (t == "deny") ≡ false) (sym e) refl in
      let not_silent : (i.decision.verdict == "deny-silently") ≡ false =
        subst (λ (t : String). (t == "deny-silently") ≡ false) (sym e) refl in
      let is_asked : (i.decision.verdict == "require-approval") ≡ true =
        subst (λ (t : String). (t == "require-approval") ≡ true) (sym e) refl in
      rw (apply_verdict, not_allow, not_deny, not_silent, is_asked) refl

  withheld :
      (args : V) (k k' : V → Action S X R) (t : S) (i : Info) (o : Outcome (Failure X) Bool × S)
      → (o ≡ (ok false, t)) ⊎ ((e : Failure X) × (o ≡ (err e, t)))
      → (next o (after_approval args k i) ≡ next o (after_approval args k' i))
        × ((next o (after_approval args k i)).1 ≡ t)
  unfolding next raise after_approval
  withheld args k k' t i o (inl refused) = rw refused (refl, refl)
  withheld args k k' t i o (inr (e, raises)) = rw raises (refl, refl)

  blocked_lem :
      (args : V) (k k' : V → Action S X R) (s t : S) (i : Info)
      → Stops i s t
      → (apply_verdict values settings args k i s ≡ apply_verdict values settings args k' i s)
        × ((apply_verdict values settings args k i s).1 ≡ t)
  unfolding apply_verdict raise pure
  blocked_lem args k k' s t i (inl (not_allow, not_asked, same)) =
      (ground (arith, not_allow, not_asked), ground (arith, not_allow, not_asked, same))
  blocked_lem args k k' s t i (inr (is_asked, stops)) =
      let (same, still) = withheld args k k' t i (is_approved settings.approval_fn i s) stops in
      let one = asked args k s i is_asked in
      (
        one ∙ same ∙ sym (asked args k' s i is_asked),
        ap (λ (o : Outcome (Failure X) R × S). o.1) one ∙ still,
      )

  -- Where the first rule that fires denies, by its on-fail or for want of one, the policy clause
  -- raises PolicyDenied with the state unchanged, whatever lies below.
  pub clause_denies :
      (op : String) (args : V) (k : V → Action S X R) (s : S) (before : List (Rule V))
      (rule : Rule V) (after : List (Rule V))
      → settings.rules ≡ before ++ rule ∷ after
      → All (IsIdle values settings.policy_id (call_of settings op args)) before
      → fires values rule (call_of settings op args) ≡ ok true
      → text_or "deny" rule.on_fail ≡ "deny"
      → clause values settings op args k s ≡ (
        err (
            raised (
              settings.exception (
                PolicyFailure.policy_denied
                  (record { op = op; decision = fired values rule settings.policy_id })))),
        s,
      )
  clause_denies op args k s before rule after rules idle now deny =
      let v = fired values rule settings.policy_id in
      let e : evaluate values settings.rules settings.policy_id (call_of settings op args) ≡ ok v =
        ap (λ (l : List (Rule V)). evaluate values l settings.policy_id (call_of settings op args))
          rules
        ∙ evaluate_first values settings.policy_id (call_of settings op args) before rule after idle
            now in
      clause_evaluated op args k s v e ∙ denied args k s (record { op = op; decision = v }) deny

  -- Where the verdict neither allows the operation nor asks for an approval, or asks for one that
  -- is refused or raises, the outcome of the policy clause does not depend on what lies below, and
  -- the state is unchanged, but for what the approval function did.
  pub clause_blocks :
      (op : String) (args : V) (k k' : V → Action S X R) (s t : S) (v : Verdict)
      → evaluate values settings.rules settings.policy_id (call_of settings op args) ≡ ok v
      → Stops (record { op = op; decision = v }) s t
      → (clause values settings op args k s ≡ clause values settings op args k' s)
        × ((clause values settings op args k s).1 ≡ t)
  clause_blocks op args k k' s t v evaluated stops =
      let one = clause_evaluated op args k s v evaluated in
      let two = clause_evaluated op args k' s v evaluated in
      let (same, still) = blocked_lem args k k' s t (record { op = op; decision = v }) stops in
      (one ∙ same ∙ sym two, ap (λ (o : Outcome (Failure X) R × S). o.1) one ∙ still)
