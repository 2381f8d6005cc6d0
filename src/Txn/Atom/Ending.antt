-- ===== src/Txn/Atom/Ending.antt =====
-- txn/atom.py: where `_transact_value` leaves the new value in the log.
use persistence_os.Base.{
  Bool, true, false, Option, none, some, List, [], ◌∷◌, ◌++◌, map, reverse, ◌≡◌, refl, sym, ap, ◌∙◌,
  arith, All-reverse, append-nil, append_assoc, map-append, Outcome, ok, err, bind_ok, string_eq,
}
use text.Mathlib.TextEquality.{eq_iff}
use persistence_os.Base.Text.{lstrip}
use persistence_os.Fact.Datom.{
  TxId, Datetime, placeholder, tx, tx_beq, tx_ltb, Error, Fact, Python, value_eq, Datom, with_tx,
  canonicalise,
}
use persistence_os.Fact.Datom.Made.{end_instant}
use persistence_os.Fact.Store.{next_tx, stamp, mark, mark_invalidated, allocate_and_append}
use persistence_os.Fact.Store.Ids.{next_tx-fresh}
use persistence_os.Fact.Shape.{
  Call, Shaped, shape, find_prior_assert, is_open, is_open_at, coerce_end,
}
use persistence_os.Fact.Shape.Rounds.{IsShaped, shape-IsShaped, Closes, supersede-Closes}
use persistence_os.Fact.Transact.{
  nothing_pending, add, commit, mark_stored, mark_all, shape_all, transact,
}
use persistence_os.Fact.Transact.Reading.{All-first}
use persistence_os.Txn.Atom.{
  Atom, Clock, atom_attr, value_fact, default_call, lift_error, transact_value,
}

older : (t u : TxId) → tx_ltb t u ≡ true → tx_beq u t ≡ false
older placeholder placeholder h = ground arith
older placeholder (tx n) h = refl
older (tx m) placeholder h = refl
older (tx m) (tx n) h = ground arith

lift_ok : {A : Type 0} (r : Outcome Error A) {x : A} → lift_error r ≡ ok x → r ≡ ok x
lift_ok (ok y) h = cc h
lift_ok (err e) h = cc h

module _ {V : Type 0} ⦃py : Python V⦄ where
  -- The log after a transaction of one fact ends with its datom, which has no pointer yet.
  one_lem :
      (c : Call V) (f : Fact V) (log log' : List (Datom V))
      → transact c (f ∷ []) log ≡ ok log'
      → (s : Shaped V) × IsShaped c f (find_prior_assert log f.e f.a) s
        × (commit (add nothing_pending s) log ≡ log')
  unfolding transact shape_all
  one_lem c f log log' h =
      let (p, e1, e2) = bind_ok (shape_all c log (f ∷ []) nothing_pending) _ h in
      let (s, e3, e4) = bind_ok (shape c f (find_prior_assert (log ++ []) f.e f.a)) _ e1 in
      let done : commit p log ≡ log' = cc e2 in
      let pending : add nothing_pending s ≡ p = cc e4 in
      (
        s,
        shape-IsShaped c f (find_prior_assert log f.e f.a)
            (ap (λ ds. shape c f (find_prior_assert ds f.e f.a)) (sym (append-nil log)) ∙ e3),
        ap (λ q. commit q log) pending ∙ done,
      )

  superseded_before :
      (c : Call V) (vf : Datetime) (b : Bool) (prior : Option (Datom V))
      (comp : Option (Datom V × TxId)) (t : TxId)
      → Closes c vf b prior comp
      → ((p : Datom V) → prior ≡ some p → tx_ltb p.txid t ≡ true)
      → (d : Datom V) (u : TxId) → comp ≡ some (d, u)
      → tx_beq t u ≡ false
  superseded_before c vf true (some p) (some (d', u')) t k h d u e =
      let same : u' ≡ u = cc e in older u t (rw (← same, k.id) (h p refl))
  superseded_before c vf true (some p) none t k h d u e = absurd k
  superseded_before c vf true none comp t k h d u e = cc (k, e)
  superseded_before c vf false prior comp t k h d u e = cc (k, e)

  -- The superseded transaction is not the new one.
  apart_lem :
      (c : Call V) (f : Fact V) (log : List (Datom V)) (s : Shaped V) (d : Datom V) (u : TxId)
      → IsShaped c f (find_prior_assert log f.e f.a) s
      → s.companion ≡ some (d, u)
      → tx_beq (next_tx log) u ≡ false
  unfolding find_prior_assert
  apart_lem c f log s d u r h =
      superseded_before c r.start _ (find_prior_assert log f.e f.a) s.companion (next_tx log)
        (supersede-Closes c r.start _ _ s.companion r.closing)
        (λ p e.
          (All-first (λ x. tx_ltb x.txid (next_tx log) ≡ true) (is_open_at f.e f.a) (reverse log) p
            (All-reverse (λ x. tx_ltb x.txid (next_tx log) ≡ true) log (next_tx-fresh log)) e).0)
        d u h

  unmarked : (u t : TxId) (d : Datom V) → tx_beq t u ≡ false → mark u t (stamp t d) ≡ stamp t d
  unfolding mark stamp with_tx canonicalise
  unmarked u t d h = rw h refl

  last_lem :
      (log : List (Datom V)) (s : Shaped V)
      → ((d : Datom V) (u : TxId) → s.companion ≡ some (d, u) → tx_beq (next_tx log) u ≡ false)
      → (xs : List (Datom V)) × (commit (add nothing_pending s) log
          ≡ xs ++ stamp (next_tx log) s.datom ∷ [])
  unfolding commit add mark_stored allocate_and_append mark_all mark_invalidated stamp with_tx
      canonicalise
  last_lem log s apart = by_companion s.companion apart
    where
      by_companion :
          (comp : Option (Datom V × TxId))
          → ((d : Datom V) (u : TxId) → comp ≡ some (d, u) → tx_beq (next_tx log) u ≡ false)
          → (xs : List (Datom V)) × (commit
                (add nothing_pending (record { companion = comp; datom = s.datom }))
                log
              ≡ xs ++ stamp (next_tx log) s.datom ∷ [])
      by_companion none h = (log, refl)
      by_companion (some (d, u)) h =
          let t = next_tx log in
          (
            map (mark u t) (log ++ stamp t d ∷ []),
            ap (map (mark u t)) (sym (append_assoc log (stamp t d ∷ []) (stamp t s.datom ∷ [])))
                ∙ map-append (mark u t) (log ++ stamp t d ∷ []) (stamp t s.datom ∷ [])
                ∙ ap (λ x. map (mark u t) (log ++ stamp t d ∷ []) ++ x ∷ [])
                    (unmarked u t s.datom (h d u refl)),
          )

  stamped_open :
      (atom : Atom) (v : V) (clock : Clock) (log : List (Datom V)) (prior : Option (Datom V))
      (s : Shaped V) (t : TxId)
      → IsShaped (default_call clock.at_transact) (value_fact atom v clock.at_write) prior s
      → (is_open_at atom.eid atom_attr (stamp t s.datom) ≡ true) × ((stamp t s.datom).v ≡ v)
  unfolding is_open_at is_open stamp with_tx canonicalise coerce_end lstrip
  stamped_open atom v clock log prior s t r =
      let bare : lstrip s.datom.a ≡ atom_attr = ap lstrip r.made.attribute in
      let no_end : r.stop ≡ none = cc r.ended in
      let open_ended : s.datom.valid_to ≡ none = r.made.stop ∙ ap end_instant no_end in
      (
        rw (bare, open_ended, r.made.kind, r.made.pointer)
            (ground (arith, r.made.entity, eq_iff s.datom.e atom.eid)),
        r.made.value,
      )

  -- `_transact_value` leaves an open datom of the new value at the end of the log.
  pub ends_lem :
      (clock : Clock) (atom : Atom) (v : V) (log log' : List (Datom V))
      → transact_value clock atom v log ≡ ok log'
      → (xs : List (Datom V)) × (d : Datom V) × (log' ≡ xs ++ d ∷ [])
        × (is_open_at atom.eid atom_attr d ≡ true)
        × (d.v ≡ v)
  unfolding transact_value
  ends_lem clock atom v log log' h =
      let c = default_call clock.at_transact in
      let f = value_fact atom v clock.at_write in
      let (s, r, done) = one_lem c f log log' (lift_ok _ h) in
      let (xs, ends) = last_lem log s (λ d u e. apart_lem c f log s d u r e) in
      let (here, value) =
        stamped_open atom v clock log (find_prior_assert log f.e f.a) s (next_tx log) r in
      (xs, stamp (next_tx log) s.datom, sym done ∙ ends, here, value)
