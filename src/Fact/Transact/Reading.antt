-- ===== src/Fact/Transact/Reading.antt =====
-- fact/db.py: what `as_of(...).entity(...)` reads after `transact`.
use persistence_os.Base.{
  All-reverse, ℕ, String, Bool, true, false, ◌<◌, ◌++◌, Option, none, some, List, [], ◌∷◌, map,
  reverse, ◌≡◌, refl, sym, ap, ◌∙◌, arith, All, All-append, All-imp, first, append-nil,
  append_assoc, map-append, ok, bind_ok, string_eq, Bool-cases, inl, inr, some_inj,
}
use mathlib.Core.Path.{subst}
use text.Mathlib.TextEquality.{eq_iff}
use persistence_os.Base.Dict.{lookup}
use persistence_os.Base.Text.{lstrip}
use persistence_os.Fact.Datom.{
  TxId, Datetime, Fact, Python, Datom, is_assert, is_assert_text, with_tx, canonicalise,
}
use persistence_os.Fact.Store.{next_tx, stamp, allocate_and_append}
use persistence_os.Fact.Store.Ids.{content}
use persistence_os.Fact.Shape.{
  Call, Shaped, shape, find_prior_assert, is_open_at, op_or_assert, coerce_dt, start_or,
}
use persistence_os.Fact.Shape.Rounds.{IsShaped, shape-IsShaped, Closes, supersede-Closes}
use persistence_os.Fact.Transact.{
  nothing_pending, companions, add, commit, mark_stored, shape_all, transact,
}
use persistence_os.Fact.Transact.Appends.{map-content-mark_all}
use persistence_os.Fact.View.{entity}
use persistence_os.Fact.View.Pointers.{lookup-entity-content}
use persistence_os.Fact.View.Newest.{StartsBefore, lookup-entity-last}

module _ {V : Type 0} where
  pub All-first :
      (P : Datom V → Type 0) (p : Datom V → Bool) (xs : List (Datom V)) (x : Datom V)
      → All P xs
      → first p xs ≡ some x
      → P x × (p x ≡ true)
  unfolding first
  All-first P p [] x h e = absurd (cc e)
  All-first P p (y ∷ ys) x h e = elim (Bool-cases (p y)) [
    | inl t ↦ let same : y ≡ x = some_inj (rw (t, first) at e) in rw (← same) (h.0, t)
    | inr t ↦ All-first P p ys x h.1 (rw (t, first) at e)
  ]

  All-content :
      (e a : String) (n : ℕ) (xs : List (Datom V))
      → All (StartsBefore e a n) xs
      → All (StartsBefore e a n) (map content xs)
  All-content e a n [] h = tt
  All-content e a n (x ∷ xs) h = (h.0, All-content e a n xs h.1)

module _ {V : Type 0} ⦃py : Python V⦄ where
  one_commit :
      (ds : List (Datom V)) (d : Datom V) (olds : List TxId) (log : List (Datom V))
      → map content (commit (record { new_datoms = ds ++ d ∷ []; invalidations = olds }) log)
        ≡ map content log ++ map content (map (stamp (next_tx log)) (ds ++ d ∷ []))
  unfolding commit mark_stored allocate_and_append
  one_commit [] d olds log =
      map-content-mark_all olds _ _ ∙ map-append content log (map (stamp (next_tx log)) (d ∷ []))
  one_commit (x ∷ ds) d olds log =
      map-content-mark_all olds _ _
      ∙ map-append content log (map (stamp (next_tx log)) (x ∷ ds ++ d ∷ []))

  -- The log after a transaction of one fact, but for the pointers.
  pub one_lem :
      (c : Call V) (f : Fact V) (log log' : List (Datom V))
      → transact c (f ∷ []) log ≡ ok log'
      → (s : Shaped V) × IsShaped c f (find_prior_assert log f.e f.a) s
        × (map content log'
            ≡ map content log
              ++ map content (map (stamp (next_tx log)) (companions s.companion ++ s.datom ∷ [])))
  unfolding transact shape_all add
  one_lem c f log log' h =
      let (p, e1, e2) = bind_ok (shape_all c log (f ∷ []) nothing_pending) _ h in
      let (s, e3, e4) = bind_ok (shape c f (find_prior_assert (log ++ []) f.e f.a)) _ e1 in
      let done : commit p log ≡ log' = cc e2 in
      let pending : add nothing_pending s ≡ p = cc e4 in
      (
        s,
        shape-IsShaped c f (find_prior_assert log f.e f.a)
            (ap (λ ds. shape c f (find_prior_assert ds f.e f.a)) (sym (append-nil log)) ∙ e3),
        ap (map content) (sym done)
            ∙ ap (λ q. map content (commit q log)) (sym pending)
            ∙ one_commit (companions s.companion) s.datom (add nothing_pending s).invalidations log,
      )

  pub found_before :
      (e a : String) (n : ℕ) (log : List (Datom V)) (prior : Datom V)
      → All (StartsBefore e a n) log
      → find_prior_assert log e a ≡ some prior
      → prior.valid_from < n
  unfolding find_prior_assert is_open_at
  found_before e a n log prior h found =
      let (before, here) =
        All-first (StartsBefore e a n) (is_open_at e a) (reverse log) prior
          (All-reverse (StartsBefore e a n) log h) found in
      ground (arith, before, here, eq_iff prior.e e, eq_iff prior.a a)

  companion_before :
      (c : Call V) (vf : Datetime) (b : Bool) (prior : Option (Datom V))
      (comp : Option (Datom V × TxId))
      → Closes c vf b prior comp
      → ((p : Datom V) → prior ≡ some p → p.valid_from < vf.instant)
      → All (λ x. x.valid_from < vf.instant) (companions comp)
  companion_before c vf true (some p) (some (d, t)) k h = (omega (arith, k.start, h p refl), tt)
  companion_before c vf true (some p) none k h = absurd k
  companion_before c vf true none comp k h = rw k tt
  companion_before c vf false prior comp k h = rw k tt

  stamped_before :
      (e a : String) (n : ℕ) (t : TxId) (xs : List (Datom V))
      → All (λ x. x.valid_from < n) xs
      → All (StartsBefore e a n) (map content (map (stamp t) xs))
  unfolding stamp with_tx canonicalise
  stamped_before e a n t [] h = tt
  stamped_before e a n t (x ∷ xs) h = (λ _ _. h.0, stamped_before e a n t xs h.1)

  -- What the log holds of a fact once it is stored.
  pub record IsStored (f : Fact V) (n : ℕ) (d : Datom V) : Type 0 where
    pub entity : d.e ≡ f.e
    pub attribute : d.a ≡ f.a
    pub value : d.v ≡ f.v
    pub start : d.valid_from ≡ n
    pub kind : is_assert d.op ≡ true

  pub stored_lem :
      (c : Call V) (f : Fact V) (prior : Option (Datom V)) (s : Shaped V) (t : TxId)
      → lstrip f.a ≡ f.a
      → is_assert_text (op_or_assert f.op) ≡ true
      → (r : IsShaped c f prior s) → IsStored f r.start.instant (content (stamp t s.datom))
  unfolding stamp with_tx canonicalise
  stored_lem c f prior s t bare asserts r = record {
    entity = r.made.entity;
    attribute = ap lstrip (r.made.attribute ∙ bare) ∙ bare;
    value = r.made.value;
    start = r.made.start;
    kind = r.made.kind ∙ asserts;
  }

  pub layout_lem :
      (t : TxId) (xs ds : List (Datom V)) (d : Datom V)
      → xs ++ map content (map (stamp t) (ds ++ d ∷ []))
        ≡ (xs ++ map content (map (stamp t) ds)) ++ content (stamp t d) ∷ []
  layout_lem t xs ds d = simp (map-append, append_assoc)

  reads_stored :
      (f : Fact V) (n : ℕ) (d : Datom V) (olds : List (Datom V))
      → IsStored f n d
      → All (StartsBefore f.e f.a n) olds
      → lookup f.a (entity f.e (olds ++ d ∷ [])) ≡ some f.v
  reads_stored f n d olds st before =
      rw (← st.entity, ← st.attribute, ← st.value)
        (lookup-entity-last olds d st.kind (
          All-imp (StartsBefore f.e f.a n) (StartsBefore d.e d.a d.valid_from)
            (λ x h e a. omega (arith, st.start, h (e ∙ st.entity) (a ∙ st.attribute))) olds before))

  -- After a transaction of one assert of a bare attribute, which starts later than all that the log
  -- has for it, returns, the attribute reads as the new value.
  pub entity-transact :
      (c : Call V) (f : Fact V) (vf : Datetime) (log log' : List (Datom V))
      → transact c (f ∷ []) log ≡ ok log'
      → is_assert_text (op_or_assert f.op) ≡ true
      → lstrip f.a ≡ f.a
      → coerce_dt py.fromisoformat (start_or c.now f.valid_from) ≡ ok vf
      → All (StartsBefore f.e f.a vf.instant) log
      → lookup f.a (entity f.e log') ≡ some f.v
  entity-transact c f vf log log' h asserts bare coerced before =
      let (s, r, same) = one_lem c f log log' h in
      let vf_same : r.start ≡ vf = cc (r.coerced, coerced) in
      let t = next_tx log in
      let asserts_now = is_assert_text (op_or_assert f.op) in
      let prior = find_prior_assert log f.e f.a in
      let d = content (stamp t s.datom) in
      let comps = map content (map (stamp t) (companions s.companion)) in
      let before_r =
        subst (λ u. All (StartsBefore f.e f.a (Datetime.instant u)) log) (sym vf_same) before in
      let closes = supersede-Closes c r.start asserts_now prior s.companion r.closing in
      let comps_before = stamped_before f.e f.a r.start.instant t (companions s.companion) (
        companion_before c r.start asserts_now prior s.companion closes
          (λ p e. found_before f.e f.a r.start.instant log p before_r e)) in
      let layout : map content log' ≡ (map content log ++ comps) ++ d ∷ [] =
        same ∙ layout_lem t (map content log) (companions s.companion) s.datom in
      sym (lookup-entity-content f.e f.a log')
      ∙ ap (λ ds. lookup f.a (entity f.e ds)) layout
      ∙ reads_stored f r.start.instant d (map content log ++ comps)
          (stored_lem c f prior s t bare asserts r)
          (All-append (StartsBefore f.e f.a r.start.instant) (map content log) comps
            (All-content f.e f.a r.start.instant log before_r) comps_before)
