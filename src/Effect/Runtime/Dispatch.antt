-- ===== src/Effect/Runtime/Dispatch.antt =====
-- effect/runtime.py: the order of dispatch, what a mask does, and when an operation is unhandled.
use persistence_os.Base.{
  ap, ◌∙◌, Has, All-Has, Option-cases, some, String, Bool, true, false, not, ◌&&◌, ◌++◌, some, List,
  [], ◌∷◌, ◌≡◌, refl, arith, string_eq, err, keep, Bool-cases, inl, inr, All,
}
use persistence_os.Base.Dict.{lookup}
use persistence_os.Effect.Action.{unhandled, raise}
use persistence_os.Effect.Runtime.{
  Clause, Handler, is_masked, declares, is_covered, uncovered_ops, is_well_formed, candidate,
  candidates, run_candidates, perform,
}

-- Whether the handler takes part in the dispatch of the operation.
abbrev pub takes : {S X A R : Type 0} → List (List String) → String → Handler S X A R → Bool
takes frames op h = not (is_masked frames h.name) && declares h op

module _ {S X A R : Type 0} where
  candidates-append :
      (frames : List (List String)) (op : String) (xs ys : List (Handler S X A R))
      (below : List (Clause S X A R))
      → candidates frames op (xs ++ ys) below
        ≡ candidates frames op ys (candidates frames op xs below)
  unfolding candidates
  candidates-append frames op [] ys below = refl
  candidates-append frames op (x ∷ xs) ys below =
      candidates-append frames op xs ys (candidate frames op x below)

  candidate_idle :
      (frames : List (List String)) (op : String) (h : Handler S X A R)
      (below : List (Clause S X A R))
      → takes frames op h ≡ false
      → candidate frames op h below ≡ below
  unfolding candidate declares
  candidate_idle frames op h below k = ground arith

  candidates_idle :
      (frames : List (List String)) (op : String) (hs : List (Handler S X A R))
      (below : List (Clause S X A R))
      → All (λ h. takes frames op h ≡ false) hs
      → candidates frames op hs below ≡ below
  unfolding candidates
  candidates_idle frames op [] below k = refl
  candidates_idle frames op (h ∷ hs) below k =
      rw (candidate_idle frames op h below k.0) (candidates_idle frames op hs below k.1)

  candidate_taken :
      (frames : List (List String)) (op : String) (h : Handler S X A R) (c : Clause S X A R)
      (below : List (Clause S X A R))
      → is_masked frames h.name ≡ false
      → lookup op h.clauses ≡ some c
      → candidate frames op h below ≡ c ∷ below
  unfolding candidate
  candidate_taken frames op h c below open_h found = ground arith

  -- An operation goes to the outermost handler that declares it and is not masked, with the
  -- dispatch on the handlers below it as continuation.
  pub perform_outermost :
      (frames : List (List String)) (op : String) (inner outer : List (Handler S X A R))
      (h : Handler S X A R) (c : Clause S X A R) (args : A)
      → All (λ g. takes frames op g ≡ false) outer
      → is_masked frames h.name ≡ false
      → lookup op h.clauses ≡ some c
      → perform (inner ++ h ∷ outer) frames op args ≡ c args (perform inner frames op)
  unfolding perform run_candidates candidates
  perform_outermost frames op inner outer h c args idle open_h found =
      rw
        (
          candidates-append frames op inner (h ∷ outer) [],
          candidates_idle frames op outer (candidate frames op h (candidates frames op inner []))
              idle,
          candidate_taken frames op h c (candidates frames op inner []) open_h found,
        )
        refl

  -- Where each handler is masked or does not declare the operation, it is unhandled and the state
  -- is unchanged.
  pub perform_idle :
      (hs : List (Handler S X A R)) (frames : List (List String)) (op : String) (args : A) (s : S)
      → All (λ h. takes frames op h ≡ false) hs
      → perform hs frames op args s ≡ (err unhandled, s)
  unfolding perform run_candidates raise
  perform_idle hs frames op args s idle = rw (candidates_idle frames op hs [] idle) refl

  -- What a mask leaves of the stack.
  pub unmasked : List (List String) → List (Handler S X A R) → List (Handler S X A R)
  unmasked frames hs = keep (λ h. not (is_masked frames h.name)) hs

  candidate_unmasked :
      (frames : List (List String)) (op : String) (h : Handler S X A R)
      (below : List (Clause S X A R))
      → is_masked frames h.name ≡ false
      → candidate frames op h below ≡ candidate [] op h below
  unfolding candidate is_masked
  candidate_unmasked frames op h below e = ground arith

  candidate_masked :
      (frames : List (List String)) (op : String) (h : Handler S X A R)
      (below : List (Clause S X A R))
      → is_masked frames h.name ≡ true
      → candidate frames op h below ≡ below
  unfolding candidate
  candidate_masked frames op h below e = ground arith

  candidates_masked :
      (frames : List (List String)) (op : String) (hs : List (Handler S X A R))
      (below : List (Clause S X A R))
      → candidates frames op hs below ≡ candidates [] op (unmasked frames hs) below
  unfolding candidates unmasked keep
  candidates_masked frames op [] below = refl
  candidates_masked frames op (h ∷ hs) below = elim (Bool-cases (is_masked frames h.name)) [
    | inl e ↦
        ground (arith, candidates_masked frames op hs below, candidate_masked frames op h below e)
    | inr e ↦ ground (
      arith,
      candidates_masked frames op hs (candidate [] op h below),
      candidate_unmasked frames op h below e,
    )
  ]

  -- Dispatch under masks is dispatch without masks on the stack of the handlers that are not
  -- masked.
  pub perform_masked :
      (hs : List (Handler S X A R)) (frames : List (List String)) (op : String) (args : A)
      → perform hs frames op args ≡ perform (unmasked frames hs) [] op args
  unfolding perform
  perform_masked hs frames op args = rw (candidates_masked frames op hs []) refl

  uncovered_lem :
      (hs : List (Handler S X A R)) (catalog : List String)
      → uncovered_ops hs catalog ≡ []
      → All (λ op. is_covered hs op ≡ true) catalog
  unfolding uncovered_ops keep
  uncovered_lem hs [] e = tt
  uncovered_lem hs (op ∷ catalog) e = elim (Bool-cases (is_covered hs op)) [
    | inl k ↦ (k, uncovered_lem hs catalog (ground arith))
    | inr k ↦ absurd (ground arith)
  ]

  well_formed_lem :
      (hs : List (Handler S X A R)) (catalog : List String)
      → is_well_formed hs catalog ≡ true
      → uncovered_ops hs catalog ≡ []
  unfolding is_well_formed
  well_formed_lem hs catalog h = ground arith

  takes_uncovered :
      (hs : List (Handler S X A R)) (op : String)
      → is_covered hs op ≡ false
      → All (λ h. takes [] op h ≡ false) hs
  unfolding is_covered is_masked
  takes_uncovered [] op e = tt
  takes_uncovered (h ∷ hs) op e = (ground arith, takes_uncovered hs op (ground arith))

  -- A handler that declares the operation, outside of which no handler does.
  abbrev pub Outermost : List (Handler S X A R) → String → Type 0
  Outermost hs op =
      (inner : List (Handler S X A R)) × (h : Handler S X A R) × (outer : List (Handler S X A R))
      × (c : Clause S X A R) × (hs ≡ inner ++ h ∷ outer)
      × (lookup op h.clauses ≡ some c)
      × All (λ g. takes [] op g ≡ false) outer

  covered-Outermost :
      (hs : List (Handler S X A R)) (op : String) → is_covered hs op ≡ true → Outermost hs op
  unfolding is_covered declares
  covered-Outermost [] op e = absurd (ground arith)
  covered-Outermost (g ∷ hs) op e = elim (Bool-cases (is_covered hs op)) [
    | inl k ↦
        let (inner, h, outer, c, same, found, idle) = covered-Outermost hs op k in
        (g ∷ inner, h, outer, c, ap (λ (l : List (Handler S X A R)). g ∷ l) same, found, idle)
    | inr k ↦ elim (Option-cases (lookup op g.clauses)) [
      | inl gone ↦ absurd (ground arith)
      | inr (c, found) ↦ ([], g, hs, c, refl, found, takes_uncovered hs op k)
    ]
  ]

  -- On a well-formed stack with no mask, each operation of the catalog goes to a handler that
  -- declares it, with the dispatch on the handlers below it as continuation.
  pub perform_covered :
      (hs : List (Handler S X A R)) (catalog : List String) (op : String)
      → is_well_formed hs catalog ≡ true
      → Has op catalog
      → (inner : List (Handler S X A R)) × (h : Handler S X A R) × (outer : List (Handler S X A R))
        × (c : Clause S X A R) × (hs ≡ inner ++ h ∷ outer)
        × (lookup op h.clauses ≡ some c)
        × ((args : A) → perform hs [] op args ≡ c args (perform inner [] op))
  unfolding is_masked
  perform_covered hs catalog op formed has =
      let covered =
        All-Has (λ o. is_covered hs o ≡ true) catalog op
          (uncovered_lem hs catalog (well_formed_lem hs catalog formed)) has in
      let (inner, h, outer, c, same, found, idle) = covered-Outermost hs op covered in
      (
        inner,
        h,
        outer,
        c,
        same,
        found,
        (λ args.
            ap (λ (l : List (Handler S X A R)). perform l [] op args) same
            ∙ perform_outermost [] op inner outer h c args idle refl found),
      )
