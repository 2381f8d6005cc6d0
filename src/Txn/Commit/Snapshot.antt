-- ===== src/Txn/Commit/Snapshot.antt =====
-- txn/conflict.py: what the absence of newer datoms gives a transaction that commits.
use persistence_os.Base.{
  ℕ, ◌≡◌, refl, sym, String, Bool, true, false, Option, none, some, List, [], ◌∷◌, ◌==◌, string_eq,
  leb, if◌then◌else◌, arith, All, keep, Outcome, ok, bind_ok, ap, ◌∙◌,
}
use persistence_os.Base.Dict.{Dict}
use text.Mathlib.TextEquality.{eq_iff}
use persistence_os.Fact.Datom.{Python, Datom, Provenance}
use persistence_os.Fact.Store.{since}
use persistence_os.Fact.View.{
  as_of, entity, key_of, retracted_in, is_candidate, update_latest, pick_latest,
}
use persistence_os.Txn.Transaction.{Ref, Transaction, TxnError}
use persistence_os.Txn.Conflict.{has_eid, any_touched, any_datoms_since, touched}
use persistence_os.Txn.Commit.{
  Host, Committed, Readings, commit_attempt, check_gates, locked_commit, committed, write_batch,
}

touched_eid :
    (refs : List Ref) (d e : String) → d ≡ e → has_eid e refs ≡ true → has_eid d refs ≡ true
touched_eid refs d e q h = rw q h

some_of_ok :
    {A : Type 0} {a b : A}
    → ◌≡◌ {A = Outcome TxnError (Option A)} (ok (some a)) (ok (some b))
    → a ≡ b
some_of_ok h = cc

-- Of a test and a result that a passed test forbids.
passed :
    {A : Type 0} (b : Bool) (r : Outcome TxnError (Option A)) (a : A)
    → (if b then ok none else r) ≡ ok (some a)
    → (b ≡ false) × (r ≡ ok (some a))
passed true r a h = absurd (ground arith)
passed false r a h = (refl, h)

module _ {V : Type 0} ⦃py : Python V⦄ where
  -- The test keeps all datoms of the entity.
  abbrev KeepsEntity : String → (Datom V → Bool) → List (Datom V) → Type 0
  KeepsEntity e p ds = All (λ d. (d.e == e) ≡ true → p d ≡ true) ds

  retracted_in-keep :
      (e : String) (p : Datom V → Bool) (key : String × (V × ℕ)) (ds : List (Datom V))
      → KeepsEntity e p ds
      → retracted_in e key (keep p ds) ≡ retracted_in e key ds
  unfolding retracted_in keep
  retracted_in-keep e p key [] h = refl
  retracted_in-keep e p key (d ∷ ds) h = ground (arith, h.0, retracted_in-keep e p key ds h.1)

  pick_latest-keep :
      (e : String) (p : Datom V → Bool) (view ds : List (Datom V)) (latest : Dict String (Datom V))
      → KeepsEntity e p view
      → KeepsEntity e p ds
      → pick_latest e (keep p view) (keep p ds) latest ≡ pick_latest e view ds latest
  unfolding pick_latest keep is_candidate
  pick_latest-keep e p view [] latest hv h = refl
  pick_latest-keep e p view (d ∷ ds) latest hv h = ground (
    arith,
    h.0,
    retracted_in-keep e p (key_of d) view hv,
    pick_latest-keep e p view ds latest hv h.1,
    pick_latest-keep e p view ds (update_latest latest d) hv h.1,
  )

  pub entity-keep :
      (e : String) (p : Datom V → Bool) (view : List (Datom V))
      → KeepsEntity e p view
      → entity e (keep p view) ≡ entity e view
  unfolding entity
  entity-keep e p view h = rw (pick_latest-keep e p view view [] h h) refl

  untouched :
      (refs : List Ref) (t : ℕ) (e : String) (log : List (Datom V))
      → has_eid e refs ≡ true
      → any_touched refs (since t log) ≡ false
      → KeepsEntity e (λ d. leb d.tx_time t) log
  unfolding any_touched since keep
  untouched refs t e [] h k = tt
  untouched refs t e (d ∷ log) h k = (
    (λ q. ground (arith, (eq_iff d.e e).0 q, touched_eid refs d.e e ((eq_iff d.e e).0 q) h)),
    untouched refs t e log h (ground arith),
  )

  -- An entity that no newer datom touches reads the same in the snapshot and in the whole log.
  pub entity-any_datoms_since :
      (log : List (Datom V)) (t : ℕ) (refs : List Ref) (e : String)
      → has_eid e refs ≡ true
      → any_datoms_since log t refs ≡ false
      → entity e (as_of t log) ≡ entity e log
  unfolding any_datoms_since as_of has_eid
  entity-any_datoms_since log t [] e h k = absurd (ground arith)
  entity-any_datoms_since log t (r ∷ refs) e h k =
      entity-keep e (λ d. leb d.tx_time t) log (untouched (r ∷ refs) t e log h k)

  locked_commit-ok :
      (host : Host V) (at : Readings) (commit_id : String) (log : List (Datom V))
      (x : Transaction V) (p : Provenance V) (c : Committed V)
      → locked_commit host at commit_id log x p ≡ ok (some c)
      → (any_datoms_since log x.t_start.instant (touched x) ≡ false)
        × (write_batch host at commit_id p log x ≡ ok c.log)
        × (c.performed ≡ x.effect_intent_log)
  unfolding locked_commit committed
  locked_commit-ok host at commit_id log x p c h =
      let (quiet, h1) = passed (any_datoms_since log x.t_start.instant (touched x)) _ c h in
      let (written, wrote, h2) =
        bind_ok (write_batch host at commit_id p log x)
          (λ w. ok (some (committed host commit_id x w))) h1 in
      let e : committed host commit_id x written ≡ c = some_of_ok h2 in
      (
        quiet,
        wrote ∙ ap (λ (d : Committed V). ok (Committed.log d)) e,
        sym (ap (λ (d : Committed V). d.performed) e),
      )

  -- What a commit has gone through.
  pub commit_attempt-ok :
      (host : Host V) (at : Readings) (commit_id : String) (log : List (Datom V))
      (x : Transaction V) (c : Committed V)
      → commit_attempt host at commit_id log x ≡ ok (some c)
      → (any_datoms_since log x.t_start.instant (touched x) ≡ false)
        × (provenance : Provenance V) × (write_batch host at commit_id provenance log x ≡ ok c.log)
        × (c.performed ≡ x.effect_intent_log)
  unfolding commit_attempt
  commit_attempt-ok host at commit_id log x c h =
      let (p, gate, h1) =
        bind_ok (check_gates host at commit_id x) (λ p. locked_commit host at commit_id log x p)
          h in
      let (quiet, wrote, same) = locked_commit-ok host at commit_id log x p c h1 in
      (quiet, p, wrote, same)

  -- If an attempt commits, then each entity that it has read, written or ensured reads the same in
  -- the view as of its start and in the whole log that it commits to.
  pub commit_attempt-Serial :
      (host : Host V) (at : Readings) (commit_id : String) (log : List (Datom V))
      (x : Transaction V) (c : Committed V) (e : String)
      → commit_attempt host at commit_id log x ≡ ok (some c)
      → has_eid e (touched x) ≡ true
      → entity e (as_of x.t_start.instant log) ≡ entity e log
  commit_attempt-Serial host at commit_id log x c e h k =
      entity-any_datoms_since log x.t_start.instant (touched x) e k
        (commit_attempt-ok host at commit_id log x c h).0
