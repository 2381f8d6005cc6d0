-- ===== src/Fact/Transact/Appends.antt =====
-- fact/db.py: a transaction only appends to the log, under one fresh id, and leaves what is known
-- of the past alone.
use persistence_os.Base.{
  ℕ, Bool, true, false, ◌≤◌, ◌<◌, ◌+◌, ◌++◌, Option, none, some, List, [], ◌∷◌, map, ◌≡◌, refl, sym,
  ap, ◌∙◌, arith, All, All-append, length, length-append, keep, keep-append, append-nil, map-append,
  ok, bind_ok,
}
use persistence_os.Fact.Datom.{
  TxId, Datetime, Fact, Python, Datom, with_tx, canonicalise, is_assert_text,
}
use persistence_os.Fact.Store.{next_tx, mark_invalidated, stamp, allocate_and_append}
use persistence_os.Fact.Store.Ids.{content, map-content-mark_invalidated}
use persistence_os.Fact.Shape.{Call, Shaped, shape, find_prior_assert, op_or_assert}
use persistence_os.Fact.Shape.Rounds.{IsShaped, shape-IsShaped, Closes, supersede-Closes}
use persistence_os.Fact.Transact.{
  Pending, nothing_pending, companions, add, mark_all, mark_stored, commit, shape_all, transact,
}
use persistence_os.Fact.View.{as_of}

-- What a transaction adds: datoms that share the next id and the call's clock reading, behind a
-- log whose datoms have at most a new pointer.
pub record Appends {V : Type 0} ⦃py : Python V⦄ (c : Call V) (n : ℕ) (log log' : List (Datom V))
    : Type 0 where
  pub stored : List (Datom V)
  pub extends : map content log' ≡ map content log ++ map content stored
  pub ids : All (λ d. d.txid ≡ next_tx log) stored
  pub learned : All (λ d. d.tx_time ≡ c.now.instant) stored
  pub enough : n ≤ length stored

module _ {V : Type 0} where
  pub map-content-mark_all :
      (olds : List TxId) (new : TxId) (log : List (Datom V))
      → map content (mark_all olds new log) ≡ map content log
  unfolding mark_all
  map-content-mark_all [] new log = refl
  map-content-mark_all (old ∷ olds) new log =
      map-content-mark_all olds new (mark_invalidated old new log)
      ∙ map-content-mark_invalidated old new log

module _ {V : Type 0} ⦃py : Python V⦄ where
  IsLearned : Call V → Datom V → Type 0
  IsLearned c d = d.tx_time ≡ c.now.instant

  stamp_ids : (t : TxId) (ds : List (Datom V)) → All (λ d. d.txid ≡ t) (map (stamp t) ds)
  unfolding stamp with_tx canonicalise
  stamp_ids t [] = tt
  stamp_ids t (d ∷ ds) = (refl, stamp_ids t ds)

  stamp-IsLearned :
      (c : Call V) (t : TxId) (ds : List (Datom V))
      → All (IsLearned c) ds
      → All (IsLearned c) (map (stamp t) ds)
  unfolding stamp with_tx canonicalise IsLearned
  stamp-IsLearned c t [] h = tt
  stamp-IsLearned c t (d ∷ ds) h = (h.0, stamp-IsLearned c t ds h.1)

  length-map-stamp : (t : TxId) (ds : List (Datom V)) → length (map (stamp t) ds) ≡ length ds
  length-map-stamp t [] = refl
  length-map-stamp t (d ∷ ds) = omega (arith, length-map-stamp t ds)

  companion-IsLearned :
      (c : Call V) (vf : Datetime) (b : Bool) (prior : Option (Datom V))
      (comp : Option (Datom V × TxId))
      → Closes c vf b prior comp
      → All (IsLearned c) (companions comp)
  unfolding IsLearned
  companion-IsLearned c vf true (some prior) (some (d, t)) h = (h.learned, tt)
  companion-IsLearned c vf true (some prior) none h = absurd h
  companion-IsLearned c vf true none comp h = rw h tt
  companion-IsLearned c vf false prior comp h = rw h tt

  as_of-append : (t : ℕ) (xs ys : List (Datom V)) → as_of t (xs ++ ys) ≡ as_of t xs ++ as_of t ys
  unfolding as_of
  as_of-append t xs ys = keep-append _ xs ys

  stored-Appends :
      (c : Call V) (olds : List TxId) (ds log : List (Datom V)) (n : ℕ)
      → All (IsLearned c) ds
      → n ≤ length ds
      → Appends c n log (mark_stored olds (allocate_and_append ds log))
  unfolding mark_stored allocate_and_append
  stored-Appends c olds [] log n h k = record {
    stored = [];
    extends = sym (append-nil (map content log));
    ids = tt;
    learned = tt;
    enough = k;
  }
  stored-Appends c olds (d ∷ ds) log n h k =
      let t = next_tx log in
      let out = map (stamp t) (d ∷ ds) in
      record {
        stored = out;
        extends =
            map-content-mark_all olds (stamp t d).txid (log ++ out) ∙ map-append content log out;
        ids = stamp_ids t (d ∷ ds);
        learned = unfold IsLearned in stamp-IsLearned c t (d ∷ ds) h;
        enough = omega (arith, length-map-stamp t (d ∷ ds));
      }

  -- One round adds a datom, and perhaps a companion, that the clock reading stamps.
  add-IsLearned :
      (c : Call V) (f : Fact V) (prior : Option (Datom V)) (p : Pending V) (s : Shaped V)
      → IsShaped c f prior s
      → All (IsLearned c) p.new_datoms
      → All (IsLearned c) (add p s).new_datoms
        × (length p.new_datoms + 1 ≤ length (add p s).new_datoms)
  unfolding add IsLearned
  add-IsLearned c f prior p s r h =
      let added = companions s.companion ++ s.datom ∷ [] in
      (
        All-append (IsLearned c) p.new_datoms added h (
            All-append (IsLearned c) (companions s.companion) (s.datom ∷ [])
              (companion-IsLearned c r.start (is_assert_text (op_or_assert f.op)) prior s.companion
                (supersede-Closes c r.start _ prior s.companion r.closing))
              (r.made.learned, tt)),
        omega (
          arith,
          length-append {0} p.new_datoms added,
          length-append {0} (companions s.companion) (s.datom ∷ []),
        ),
      )

  shape_all-IsLearned :
      (c : Call V) (log : List (Datom V)) (fs : List (Fact V)) (p : Pending V) {p' : Pending V}
      → shape_all c log fs p ≡ ok p'
      → All (IsLearned c) p.new_datoms
      → All (IsLearned c) p'.new_datoms × (length p.new_datoms + length fs ≤ length p'.new_datoms)
  unfolding shape_all
  shape_all-IsLearned c log [] p {p'} e h = let same : p ≡ p' = cc in rw (← same) (h, omega arith)
  shape_all-IsLearned c log (f ∷ fs) p e h =
      let prior = find_prior_assert (log ++ p.new_datoms) f.e f.a in
      let (s, e1, e2) = bind_ok (shape c f prior) _ e in
      let (h', grown) = add-IsLearned c f prior p s (shape-IsShaped c f prior e1) h in
      let (h'', more) = shape_all-IsLearned c log fs (add p s) e2 h' in (h'', omega arith)

  -- A transaction that returns has appended at least one datom for each fact, all under the next id
  -- and the call's clock reading; of the datoms that were there it has changed at most the
  -- pointers.
  pub transact-Appends :
      (c : Call V) (fs : List (Fact V)) (log log' : List (Datom V))
      → transact c fs log ≡ ok log'
      → Appends c (length fs) log log'
  unfolding transact commit mark_stored allocate_and_append
  transact-Appends c [] log log' h =
      let same : log ≡ log' = cc in rw (← same) (stored-Appends c [] [] log 0 tt (omega arith))
  transact-Appends c (f ∷ fs) log log' h =
      let (p, e1, e2) = bind_ok (shape_all c log (f ∷ fs) nothing_pending) _ h in
      let (learned, enough) = shape_all-IsLearned c log (f ∷ fs) nothing_pending e1 tt in
      let same : commit p log ≡ log' = cc e2 in
      rw (← same) (stored-Appends c p.invalidations p.new_datoms log _ learned (omega arith))

  module _ (t : ℕ) where
    map-content-as_of : (ds : List (Datom V)) → map content (as_of t ds) ≡ as_of t (map content ds)
    unfolding as_of keep
    map-content-as_of [] = refl
    map-content-as_of (d ∷ ds) = ground (arith, map-content-as_of ds)

    as_of_later :
        (c : Call V) (ds : List (Datom V))
        → t < c.now.instant
        → All (λ d. d.tx_time ≡ c.now.instant) ds
        → as_of t (map content ds) ≡ []
    unfolding as_of keep
    as_of_later c [] h k = refl
    as_of_later c (d ∷ ds) h k = ground (arith, as_of_later c ds h k.1)

    -- A transaction changes no view as of an instant before its clock reading, but for the
    -- pointers.
    pub as_of-transact :
        (c : Call V) (fs : List (Fact V)) (log log' : List (Datom V))
        → transact c fs log ≡ ok log'
        → t < c.now.instant
        → map content (as_of t log') ≡ map content (as_of t log)
    as_of-transact c fs log log' h k =
        let r = transact-Appends c fs log log' h in
        map-content-as_of log'
        ∙ ap (as_of t) r.extends
        ∙ as_of-append t (map content log) (map content r.stored)
        ∙ ap (λ ds. as_of t (map content log) ++ ds) (as_of_later c r.stored k r.learned)
        ∙ append-nil (as_of t (map content log))
        ∙ sym (map-content-as_of log)
