-- ===== src/Effect/Handlers/Cache.antt =====
-- effect/handlers/cache.py: the clause of `make_cache_handler`. Its `ctx` is a part of the state.
use persistence_os.Base.{
  ℕ, suc, ◌≡◌, refl, ap, ◌∙◌, Option, none, some, String, string_eq, Outcome, ok, err, arith,
  ==_refl, Outcome-cases, inl, inr,
}
use persistence_os.Base.Dict.{Dict, lookup, insert, lookup-insert}
use persistence_os.Effect.Action.{Action, Failure, Cell, lift, next, ◌>>=◌}

pub record Cache (R : Type 0) : Type 0 where
  pub store : Dict String R
  pub hits : ℕ
  pub misses : ℕ

module _ {S R : Type 0} (cell : Cell S (Cache R)) where
  unfoldable pub count_miss : S → S
  count_miss s = cell.set (record (cell.get s) { misses = suc (Cache.misses (cell.get s)) }) s

  unfoldable pub count_hit : S → S
  count_hit s = cell.set (record (cell.get s) { hits = suc (Cache.hits (cell.get s)) }) s

  -- `ctx["store"][key] = result`
  unfoldable pub remember : String → R → S → S
  remember key r s =
      cell.set (record (cell.get s) { store = insert key r (Cache.store (cell.get s)) }) s

module _ {S X R : Type 0} (cell : Cell S (Cache R)) where
  remembered :
      (key : String) (r : R) (s t : S) (o : Outcome (Failure X) R)
      → next (o, s) (λ q u. (ok q, remember cell key q u)) ≡ (ok r, t)
      → lookup key (Cache.store (cell.get t)) ≡ some r
  unfolding next remember
  remembered key r s t (err e) h = absurd (ground arith)
  remembered key r s t (ok q) h =
      let same : q ≡ r = ground arith in
      let there : cell.set (record (cell.get s) { store = insert key q (Cache.store (cell.get s)) })
            s
          ≡ t =
        ap (λ (p : Outcome (Failure X) R × S). p.1) h in
      rw
        (
          ← there,
          cell.get-set (record (cell.get s) { store = insert key q (Cache.store (cell.get s)) }) s,
          lookup-insert key key q (Cache.store (cell.get s)),
          ==_refl key,
        )
        (ap some same)

module _ {S X A R : Type 0} (cell : Cell S (Cache R)) where
  -- What follows `key in ctx["store"]`.
  unfoldable pub serve : String → A → (A → Action S X R) → Option R → Action S X R
  unfolding count_miss count_hit remember ◌>>=◌ next
  serve key args k (some r) s = (ok r, count_hit cell s)
  serve key args k none s = (k args >>= λ r t. (ok r, remember cell key r t)) (count_miss cell s)

  unfoldable pub clause :
      (String → A → Outcome (Failure X) String) → String → A → (A → Action S X R) → Action S X R
  unfolding serve ◌>>=◌ next lift
  clause canonical_hash op args k = lift (canonical_hash op args) >>= λ key s.
      serve key args k (lookup key (Cache.store (cell.get s))) s

  stored_lem :
      (key : String) (args : A) (k : A → Action S X R) (r : R) (s t : S) (o : Option R)
      → lookup key (Cache.store (cell.get s)) ≡ o
      → serve key args k o s ≡ (ok r, t)
      → lookup key (Cache.store (cell.get t)) ≡ some r
  unfolding serve count_hit ◌>>=◌
  stored_lem key args k r s t none new h =
      remembered cell key r (k args (count_miss cell s)).1 t (k args (count_miss cell s)).0 h
  stored_lem key args k r s t (some q) found h =
      let same : q ≡ r = ground arith in
      let there : cell.set (record (cell.get s) { hits = suc (Cache.hits (cell.get s)) }) s ≡ t =
        ap (λ (p : Outcome (Failure X) R × S). p.1) h in
      rw (← there, cell.get-set (record (cell.get s) { hits = suc (Cache.hits (cell.get s)) }) s)
        (found ∙ ap some same)

  run_lem :
      (canonical_hash : String → A → Outcome (Failure X) String) (op : String) (args : A)
      (k : A → Action S X R) (s : S) (key : String)
      → canonical_hash op args ≡ ok key
      → serve key args k (lookup key (Cache.store (cell.get s))) s
        ≡ clause canonical_hash op args k s
  unfolding clause ◌>>=◌ lift next
  run_lem canonical_hash op args k s key hashed = rw hashed refl

  -- A call that returned a result through the cache is answered with that result right after, the
  -- hit is counted, and nothing below is called.
  pub clause_twice :
      (canonical_hash : String → A → Outcome (Failure X) String) (op : String) (args : A)
      (k k' : A → Action S X R) (r : R) (s t : S)
      → clause canonical_hash op args k s ≡ (ok r, t)
      → clause canonical_hash op args k' t ≡ (ok r, count_hit cell t)
  unfolding clause ◌>>=◌ lift next
  clause_twice canonical_hash op args k k' r s t h = elim (Outcome-cases (canonical_hash op args)) [
    | inl (key, hashed) ↦
        let served : serve key args k (lookup key (Cache.store (cell.get s))) s ≡ (ok r, t) =
          run_lem canonical_hash op args k s key hashed ∙ h in
        let found =
          stored_lem key args k r s t (lookup key (Cache.store (cell.get s))) refl served in
        rw (hashed, found) (unfold serve in refl)
    | inr (e, failed) ↦ absurd (ground arith)
  ]
