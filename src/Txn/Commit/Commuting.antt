-- ===== src/Txn/Commit/Commuting.antt =====
-- txn/transaction.py: the value that `_build_commute_facts` computes for a ref.
use persistence_os.Base.{
  ◌≡◌, refl, sym, ap, ◌∙◌, String, true, false, Option, none, some, List, [], ◌∷◌, string_eq,
  if◌then◌else◌, arith, Outcome, ok, err, Outcome-cases, ◌>>=◌, bind_ok, Bool-cases, Option-cases,
  inl, inr,
}
use text.Mathlib.TextEquality.{eq_iff}
use persistence_os.Fact.Datom.{Python, Datom, Datetime, Fact}
use persistence_os.Txn.Transaction.{
  Ref, same_ref, TxnError, Values, value_at, set_value, has_ref, snapshot, lookup_commute,
}
use persistence_os.Txn.Transaction.Reads.{value_at-set_value}
use persistence_os.Txn.Commit.{commute_base, build_commute_facts, fact_of, in_front}

not_same :
    (q r : Ref) (explicit : List Ref)
    → has_ref q explicit ≡ true
    → has_ref r explicit ≡ false
    → same_ref q r ≡ false
unfolding has_ref same_ref
not_same q r [] h k = absurd (ground arith)
not_same q r (x ∷ explicit) h k = elim (Bool-cases (same_ref x q)) [
  | inl e ↦ ground (
    arith,
    eq_iff x.eid q.eid,
    eq_iff x.db_id q.db_id,
    eq_iff x.eid r.eid,
    eq_iff x.db_id r.db_id,
    eq_iff q.eid r.eid,
    eq_iff q.db_id r.db_id,
  )
  | inr e ↦ not_same q r explicit (ground arith) (ground arith)
]

value_at-same :
    {V : Type 0} (q r : Ref) (d : List (Ref × V))
    → same_ref q r ≡ true
    → value_at q d ≡ value_at r d
unfolding value_at same_ref
value_at-same q r [] s = refl
value_at-same q r ((x, v) ∷ d) s = ground (
  arith,
  value_at-same q r d s,
  eq_iff x.eid q.eid,
  eq_iff x.db_id q.db_id,
  eq_iff x.eid r.eid,
  eq_iff x.db_id r.db_id,
  eq_iff q.eid r.eid,
  eq_iff q.db_id r.db_id,
)

front_final :
    {V : Type 0} (f : Fact V) (rest : List (Fact V) × List (Ref × V)) (facts : List (Fact V))
    (final : List (Ref × V))
    → ◌≡◌ {A = Outcome TxnError (List (Fact V) × List (Ref × V))}
        (ok (in_front f rest))
        (ok (facts, final))
    → rest.1 ≡ final
front_final f (fs, resolved) facts final h = cc

module _ {V : Type 0} ⦃py : Python V⦄ (values : Values V) (log : List (Datom V)) (now : Datetime)
    (explicit : List Ref) where
  -- The function of an entry; one that the registry lacks, or that raises, stops the commit before.
  abbrev given : V → Outcome TxnError V → V
  given v (ok w) = w
  given v (err e) = v

  abbrev applied : String → V → List V → V
  applied fn_id v args = elim (lookup_commute values fn_id) [
    | none ↦ v
    | some fn ↦ given v (fn v args)
  ]

  abbrev base_or : Ref → Option V → V
  base_or q (some v) = v
  base_or q none = snapshot values log now q

  based :
      (q : Ref) (resolved : List (Ref × V)) (o : Option V)
      → value_at q resolved ≡ o
      → commute_base values log now q resolved ≡ base_or q o
  unfolding commute_base
  based q resolved none e = ground (arith, e)
  based q resolved (some v) e = ground (arith, e)

  applied-ok :
      (fn_id : String) (args : List V) (fn : V → List V → Outcome TxnError V) (b v : V)
      → lookup_commute values fn_id ≡ some fn
      → fn b args ≡ ok v
      → applied fn_id b args ≡ v
  applied-ok fn_id args fn b v known returned = rw (applied, known, returned) refl

  -- The functions of the entries for a ref, one after the other in the order of the body, from the
  -- committed value.
  abbrev pub replayed : Ref → List (Ref × (String × List V)) → Option V → Option V
  replayed r [] acc = acc
  replayed r ((q, (fn_id, args)) ∷ entries) acc =
      replayed r entries (if same_ref q r then some (applied fn_id (base_or q acc) args) else acc)

  replay_round :
      (r q : Ref) (fn_id : String) (args : List V) (fn : V → List V → Outcome TxnError V)
      (resolved : List (Ref × V)) (v : V)
      → lookup_commute values fn_id ≡ some fn
      → fn (commute_base values log now q resolved) args ≡ ok v
      → value_at r (set_value q v resolved) ≡ (
          if same_ref q r
          then some (applied fn_id (base_or q (value_at r resolved)) args)
          else value_at r resolved)
  unfolding commute_base
  replay_round r q fn_id args fn resolved v known returned = elim (Bool-cases (same_ref q r)) [
    | inl s ↦
        let e = value_at-same q r resolved s in
        let base = based q resolved (value_at r resolved) e in
        let same_value =
          applied-ok fn_id args fn (base_or q (value_at r resolved)) v known
            (ap (λ b. fn b args) (sym base) ∙ returned) in
        rw (value_at-set_value q r v resolved, s, same_value) refl
    | inr s ↦ rw (value_at-set_value q r v resolved) (ground arith)
  ]

  -- If the commutes of a transaction are resolved, then for a ref outside the write set the
  -- resolved value comes from applying the functions of its log entries, in the order of the body,
  -- to the committed value.
  pub build_commute_facts-replayed :
      (r : Ref) (entries : List (Ref × (String × List V))) (resolved : List (Ref × V))
      (facts : List (Fact V)) (final : List (Ref × V))
      → has_ref r explicit ≡ false
      → build_commute_facts values log now explicit entries resolved ≡ ok (facts, final)
      → value_at r final ≡ replayed r entries (value_at r resolved)
  unfolding build_commute_facts
  build_commute_facts-replayed r [] resolved facts final k h = ground arith
  build_commute_facts-replayed r ((q, (fn_id, args)) ∷ entries) resolved facts final k h =
      elim (Bool-cases (has_ref q explicit)) [
        | inl e ↦
            let differ = not_same q r explicit e k in
            rw differ (build_commute_facts-replayed r entries resolved facts final k (ground arith))
        | inr e ↦ elim (Option-cases (lookup_commute values fn_id)) [
          | inl gone ↦ absurd (ground arith)
          | inr (fn, known) ↦
              elim (Outcome-cases (fn (commute_base values log now q resolved) args)) [
                | inr (x, raised) ↦ absurd (ground arith)
                | inl (v, returned) ↦ elim (Bool-cases (values.is_immutable v)) [
                  | inr bad ↦ absurd (ground arith)
                  | inl good ↦
                      let h' : (build_commute_facts values log now explicit entries
                              (set_value q v resolved)
                            >>= λ rest. ok (in_front (fact_of q v now) rest))
                          ≡ ok (facts, final) =
                        ground arith in
                      let (rest, done, whole) =
                        bind_ok
                          (build_commute_facts values log now explicit entries
                            (set_value q v resolved))
                          (λ rest. ok (in_front (fact_of q v now) rest)) h' in
                      let last : rest.1 ≡ final =
                        front_final (fact_of q v now) rest facts final whole in
                      sym (ap (value_at r) last)
                      ∙ build_commute_facts-replayed r entries (set_value q v resolved) rest.0
                          rest.1 k done
                      ∙ ap (replayed r entries)
                          (replay_round r q fn_id args fn resolved v known returned)
                ]
              ]
        ]
      ]
