-- ===== src/Txn/Fork/Choosing.antt =====
-- What `fork_impl` of fact/_fork.py returns, raises and queues.
use persistence_os.Base.{
  ℕ, zero, suc, ◌<◌, String, Bool, true, false, Option, none, some, List, [], ◌∷◌, ◌++◌, map, ltb,
  ltb→lt, Bool-cases, inl, inr, ◌⊎◌, ◌≡◌, ◌≢◌, refl, sym, ap, ◌∙◌, arith, Outcome, ok, err, ◌>>=◌,
  length, append-nil, append_assoc, not, if◌then◌else◌,
}
use persistence_os.Base.Dict.{Dict}
use persistence_os.Fact.Datom.{Python}
use persistence_os.Txn.Transaction.{Values, EffectIntent, Transaction, effect}
use persistence_os.Txn.Fork.{
  ForkBranchResult, ForkResult, Choice, raised_choose_error, raised_other, not_an_int, negative,
  index, ForkError, outside_dosync, bad_on_error, no_items, fn_raised, choose_error, ForkPolicy,
  stop, continue, other, ForkHost, ForkFn, branch, run_item, run_items, validate_choose_index,
  probe_kwargs, branch_kwargs, score_kwargs, chosen_kwargs, get_elem?, emit_all, emit_tried, pick,
  choose_among, fork_impl, is_bad, is_empty,
}

module _ {V : Type 0} (host : ForkHost V) (fn : ForkFn V) (seed : V) (policy : ForkPolicy) where
  -- The branch of an item: what the callback returned for it, or, under `continue`, the seed.
  abbrev pub Gave : ℕ → V → ForkBranchResult V → Type 0
  Gave idx item b =
      ((state : V) × (fn seed item ≡ ok state) × (b ≡ branch host fn seed idx item state none))
      ⊎ ((message : String) × (fn seed item ≡ err message)
          × (policy ≡ continue)
          × (b ≡ branch host fn seed idx item seed (some message)))

  abbrev pub Tried : ℕ → List V → List (ForkBranchResult V) → Type 0
  Tried idx [] [] = Unit
  Tried idx [] (b ∷ bs) = ⊥
  Tried idx (item ∷ items) [] = ⊥
  Tried idx (item ∷ items) (b ∷ bs) = Gave idx item b × Tried (suc idx) items bs

  -- A raise of the callback that ends the fork.
  abbrev pub Raised : ForkError → Type 0
  Raised e =
      (item : V) × (message : String) × (fn seed item ≡ err message)
      × (policy ≢ continue)
      × (e ≡ fn_raised message)

  abbrev GivesItem : ℕ → V → Outcome ForkError (ForkBranchResult V) → Type 0
  GivesItem idx item (ok b) = Gave idx item b
  GivesItem idx item (err e) = Raised e

  abbrev GivesItems : ℕ → List V → Outcome ForkError (List (ForkBranchResult V)) → Type 0
  GivesItems idx items (ok bs) = Tried idx items bs
  GivesItems idx items (err e) = Raised e

  run_item-Gives : (idx : ℕ) (item : V) → GivesItem idx item (run_item host fn seed policy idx item)
  unfolding run_item
  run_item-Gives idx item = by_fn (fn seed item) refl
    where
      by_policy :
          (message : String)
          → fn seed item ≡ err message
          → (q : ForkPolicy) → q ≡ policy
          → GivesItem idx item (elim q [
            | continue ↦ ok (branch host fn seed idx item seed (some message))
            | _ ↦ err (fn_raised message)
          ])
      by_policy message e continue h = inr (message, e, sym h, refl)
      by_policy message e stop h = (item, message, e, (λ c. cc (h, c)), refl)
      by_policy message e other h = (item, message, e, (λ c. cc (h, c)), refl)

      by_fn :
          (r : Outcome String V)
          → fn seed item ≡ r
          → GivesItem idx item (elim r [
            | ok state ↦ ok (branch host fn seed idx item state none)
            | err message ↦ elim policy [
              | continue ↦ ok (branch host fn seed idx item seed (some message))
              | _ ↦ err (fn_raised message)
            ]
          ])
      by_fn (ok state) e = inl (state, e, refl)
      by_fn (err message) e = by_policy message e policy refl

  join :
      (idx : ℕ) (item : V) (items : List V) (r : Outcome ForkError (ForkBranchResult V))
      (rs : Outcome ForkError (List (ForkBranchResult V)))
      → GivesItem idx item r
      → GivesItems (suc idx) items rs
      → GivesItems idx (item ∷ items) (r >>= λ b. rs >>= λ bs. ok (b ∷ bs))
  join idx item items (ok b) (ok bs) g gs = (g, gs)
  join idx item items (ok b) (err e) g gs = gs
  join idx item items (err e) rs g gs = g

  run_items-Gives :
      (idx : ℕ) (items : List V) → GivesItems idx items (run_items host fn seed policy idx items)
  unfolding run_items
  run_items-Gives idx [] = tt
  run_items-Gives idx (item ∷ items) =
      join idx item items (run_item host fn seed policy idx item)
        (run_items host fn seed policy (suc idx) items) (run_item-Gives idx item)
        (run_items-Gives (suc idx) items)

module _ {V : Type 0} ⦃py : Python V⦄ (values : Values V) (db_id : String) (host : ForkHost V) where
  abbrev intent : String → Dict String V → EffectIntent V
  intent op kwargs = record { op = op; kwargs = kwargs }

  abbrev pub queued : List (EffectIntent V) → Transaction V → Transaction V
  queued is x = record x { effect_intent_log = x.effect_intent_log ++ is }

  -- What a fork has told when its branches and scores are told.
  abbrev pub told : V → List V → List (ForkBranchResult V) → List (EffectIntent V)
  told seed items bs =
      intent ":fork/probe" (probe_kwargs host seed items (length bs))
        ∷ map (intent ":fork/branch") (map (branch_kwargs host) bs)
      ++ map (intent ":fork/score") (map (score_kwargs host) bs)

  queued-queued :
      (is js : List (EffectIntent V)) (x : Transaction V)
      → queued js (queued is x) ≡ queued (is ++ js) x
  queued-queued is js x = rw append_assoc refl

  emit_all-queued :
      (op : String) (ks : List (Dict String V)) (x : Transaction V)
      → emit_all values db_id host op ks x ≡ queued (map (intent op) ks) x
  unfolding emit_all effect
  emit_all-queued op [] x = rw append-nil refl
  emit_all-queued op (k ∷ ks) x =
      emit_all-queued op ks (queued (intent op k ∷ []) x)
      ∙ queued-queued (intent op k ∷ []) (map (intent op) ks) x

  emit_tried-told :
      (seed : V) (items : List V) (bs : List (ForkBranchResult V)) (x : Transaction V)
      → emit_tried values db_id host seed items bs x ≡ queued (told seed items bs) x
  unfolding emit_tried effect
  emit_tried-told seed items bs x =
      let probe = intent ":fork/probe" (probe_kwargs host seed items (length bs)) in
      let branches = map (intent ":fork/branch") (map (branch_kwargs host) bs) in
      let scores = map (intent ":fork/score") (map (score_kwargs host) bs) in
      ap (emit_all values db_id host ":fork/score" (map (score_kwargs host) bs))
        (emit_all-queued ":fork/branch" (map (branch_kwargs host) bs) (queued (probe ∷ []) x))
      ∙ emit_all-queued ":fork/score" (map (score_kwargs host) bs)
          (queued branches (queued (probe ∷ []) x))
      ∙ queued-queued branches scores (queued (probe ∷ []) x)
      ∙ queued-queued (probe ∷ []) (branches ++ scores) x

  module _ (in_dosync : Bool) (items : List V) (fn : ForkFn V)
      (choose : List (ForkBranchResult V) → Choice) (seed : V) (policy : ForkPolicy)
      (x : Transaction V) where
    -- How a fork ends: with the branch that was chosen, and all told; with a choice that names no
    -- branch, and all told but the choice; or with another error, for its reason, and nothing told.
    abbrev pub Ends : Outcome ForkError (ForkResult V) × Transaction V → Type 0
    Ends (ok r, y) =
        Tried host fn seed policy 0 items r.all_branches
        × (choose r.all_branches ≡ index r.chosen_index)
        × ((b : ForkBranchResult V) × (get_elem? r.all_branches r.chosen_index ≡ some b)
            × (r.chosen_state ≡ b.branch_state)
            × (y
                ≡ queued
                    (told seed items r.all_branches
                      ++ intent ":fork/chosen" (chosen_kwargs host r.chosen_index b) ∷ [])
                    x))
    Ends (err choose_error, y) =
        (bs : List (ForkBranchResult V)) × Tried host fn seed policy 0 items bs
        × (¬ ((i : ℕ) × (choose bs ≡ index i) × (i < length bs)))
        × (y ≡ queued (told seed items bs) x)
    Ends (err (fn_raised message), y) =
        ((item : V) × (fn seed item ≡ err message) × (policy ≢ continue)) × (y ≡ x)
    Ends (err outside_dosync, y) = (in_dosync ≡ false) × (y ≡ x)
    Ends (err bad_on_error, y) = (policy ≡ other) × (y ≡ x)
    Ends (err no_items, y) = (items ≡ []) × (y ≡ x)

    found :
        (bs : List (ForkBranchResult V)) (i : ℕ)
        → i < length bs
        → (b : ForkBranchResult V) × (get_elem? bs i ≡ some b)
    unfolding get_elem?
    found [] i h = absurd (omega (arith, h))
    found (b ∷ bs) zero h = (b, refl)
    found (b ∷ bs) (suc i) h = found bs i (omega (arith, h))

    module _ (bs : List (ForkBranchResult V)) (tried : Tried host fn seed policy 0 items bs) where
      abbrev all_told : Transaction V
      all_told = emit_tried values db_id host seed items bs x

      picked :
          (i : ℕ) (e : choose bs ≡ index i) (inside : i < length bs)
          → Ends (pick values db_id host bs (ok i) all_told)
      unfolding pick effect
      picked i e inside = by_found (get_elem? bs i) refl
        where
          by_found :
              (o : Option (ForkBranchResult V))
              → get_elem? bs i ≡ o
              → Ends (elim o [
                | none ↦ (err choose_error, all_told)
                | some b ↦ (
                  ok (record {
                    chosen_index = i;
                    chosen_state = b.branch_state;
                    all_branches = bs;
                  }),
                  queued (intent ":fork/chosen" (chosen_kwargs host i b) ∷ []) all_told,
                )
              ])
          by_found none h = let (b, k) = found bs i inside in absurd (cc (h, k))
          by_found (some b) h =
              let last = intent ":fork/chosen" (chosen_kwargs host i b) ∷ [] in
              let all =
                ap (queued last) (emit_tried-told seed items bs x)
                ∙ queued-queued (told seed items bs) last x in
              (tried, e, (b, h, refl, all))

      refused :
          (¬ ((i : ℕ) × (choose bs ≡ index i) × (i < length bs)))
          → Ends (err choose_error, all_told)
      refused none_named = (bs, tried, none_named, emit_tried-told seed items bs x)

      by_choice :
          (c : Choice)
          → choose bs ≡ c
          → Ends (pick values db_id host bs (validate_choose_index c (length bs)) all_told)
      unfolding validate_choose_index pick
      by_choice raised_choose_error e = refused (λ (i, h, _). cc (e, h))
      by_choice raised_other e = refused (λ (i, h, _). cc (e, h))
      by_choice not_an_int e = refused (λ (i, h, _). cc (e, h))
      by_choice negative e = refused (λ (i, h, _). cc (e, h))
      by_choice (index i) e = elim (Bool-cases (ltb i (length bs))) [
        | inl inside ↦ rw inside (picked i e (ltb→lt i (length bs) inside))
        | inr outside ↦ rw outside (
            refused (λ (j, h, below).
              let same : i ≡ j = cc (e, h) in ground (arith, outside, below, same)))
      ]

    by_items :
        (r : Outcome ForkError (List (ForkBranchResult V)))
        → GivesItems host fn seed policy 0 items r
        → Ends (choose_among values db_id host seed items choose r x)
    unfolding choose_among
    by_items (ok bs) tried = by_choice bs tried (choose bs) refl
    by_items (err e) (item, message, raised, kept, same) = rw same ((item, raised, kept), refl)

    -- A fork ends in one of three ways. It returns the state of the branch that choose named, with
    -- a branch for each item in order, each with the state that the callback returned or, under
    -- continue, the seed and the error, and has queued the probe, the branches, the scores and the
    -- choice. It raises ForkChooseError with the probe, the branches and the scores queued, where
    -- choose names no branch. Or it raises for a raise of the callback under a policy that is not
    -- continue, for want of a dosync, for a bad policy or for want of items, with the transaction
    -- as it was.
    pub fork_impl-Ends : Ends (fork_impl values db_id host in_dosync items fn choose seed policy x)
    unfolding fork_impl
    fork_impl-Ends = by_dosync in_dosync refl
      where
        tried_all : Outcome ForkError (ForkResult V) × Transaction V
        tried_all =
            choose_among values db_id host seed items choose (run_items host fn seed policy 0 items)
              x

        by_list :
            (js : List V)
            → js ≡ items
            → Ends (if is_empty values db_id host js then (err no_items, x) else tried_all)
        by_list [] e = (sym e, refl)
        by_list (_ ∷ _) e =
            by_items (run_items host fn seed policy 0 items)
              (run_items-Gives host fn seed policy 0 items)

        by_policy :
            (q : ForkPolicy)
            → q ≡ policy
            → Ends (
                if is_bad values db_id host q
                then (err bad_on_error, x)
                else if is_empty values db_id host items
                then (err no_items, x)
                else tried_all)
        by_policy other e = (sym e, refl)
        by_policy stop e = by_list items refl
        by_policy continue e = by_list items refl

        by_dosync :
            (b : Bool)
            → b ≡ in_dosync
            → Ends (
                if not b
                then (err outside_dosync, x)
                else if is_bad values db_id host policy
                then (err bad_on_error, x)
                else if is_empty values db_id host items
                then (err no_items, x)
                else tried_all)
        by_dosync false e = (sym e, refl)
        by_dosync true e = by_policy policy refl
