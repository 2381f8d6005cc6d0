-- ===== src/Txn/Transaction/Reads.antt =====
-- txn/transaction.py: what the body reads after its own writes and commutes, and what becomes of two
-- refs that name one entity.
use persistence_os.Base.{
  ◌≡◌, refl, ap, ◌∙◌, String, true, false, ◌++◌, none, some, List, [], ◌∷◌, string_eq,
  if◌then◌else◌, arith, ok, Bool-cases, inl, inr,
}
use text.Mathlib.TextEquality.{eq_iff}
use persistence_os.Fact.Datom.{Python, Datom}
use persistence_os.Txn.Transaction.{
  Ref, same_ref, Transaction, Values, value_at, set_value, read_in_body, assoc, commute,
  check_branch,
}

same_other : (k r q : Ref) → same_ref k r ≡ false → same_ref r q ≡ true → same_ref k q ≡ false
unfolding same_ref
same_other k r q h s = ground (
  arith,
  eq_iff k.eid r.eid,
  eq_iff k.db_id r.db_id,
  eq_iff k.eid q.eid,
  eq_iff k.db_id q.db_id,
  eq_iff r.eid q.eid,
  eq_iff r.db_id q.db_id,
)

module _ {V : Type 0} where
  pub value_at-set_value :
      (r q : Ref) (v : V) (d : List (Ref × V))
      → value_at q (set_value r v d) ≡ (if same_ref r q then some v else value_at q d)
  unfolding value_at set_value same_ref
  value_at-set_value r q v [] = refl
  value_at-set_value r q v ((k, w) ∷ d) = ground (
    arith,
    eq_iff k.eid r.eid,
    eq_iff k.db_id r.db_id,
    eq_iff k.eid q.eid,
    eq_iff k.db_id q.db_id,
    eq_iff r.eid q.eid,
    eq_iff r.db_id q.db_id,
    value_at-set_value r q v d,
  )

  set_value_new :
      (r : Ref) (v : V) (d : List (Ref × V))
      → value_at r d ≡ none
      → set_value r v d ≡ d ++ (r, v) ∷ []
  unfolding value_at set_value
  set_value_new r v [] h = refl
  set_value_new r v ((k, w) ∷ d) h = elim (Bool-cases (same_ref k r)) [
    | inl e ↦ absurd (ground arith)
    | inr e ↦ ground (arith, set_value_new r v d (ground arith))
  ]

  set_value_last :
      (r q : Ref) (v w : V) (d : List (Ref × V))
      → value_at r d ≡ none
      → same_ref r q ≡ true
      → set_value q w (d ++ (r, v) ∷ []) ≡ d ++ (r, w) ∷ []
  unfolding value_at set_value
  set_value_last r q v w [] h s = ground arith
  set_value_last r q v w ((k, u) ∷ d) h s = elim (Bool-cases (same_ref k r)) [
    | inl e ↦ absurd (ground arith)
    | inr e ↦ ground (arith, set_value_last r q v w d (ground arith) s, same_other k r q e s)
  ]

module _ {V : Type 0} ⦃py : Python V⦄ (values : Values V) (db_id : String) where
  assoc-ok :
      (r : Ref) (v : V) (x y : Transaction V)
      → assoc values db_id r v x ≡ ok y
      → y ≡ record x { write_set = set_value r v x.write_set }
  unfolding assoc check_branch
  assoc-ok r v x y h = ground arith

  written :
      (log : List (Datom V)) (r q : Ref) (v : V) (x : Transaction V)
      → read_in_body values db_id log q (record x { write_set = set_value r v x.write_set })
        ≡ (if same_ref r q then v else read_in_body values db_id log q x)
  unfolding read_in_body
  written log r q v x = ground (arith, value_at-set_value r q v x.write_set)

  -- After assoc on a ref, the body reads the new value for each ref that is equal to it, and for
  -- any other what it read before.
  pub read_in_body-assoc :
      (log : List (Datom V)) (r q : Ref) (v : V) (x y : Transaction V)
      → assoc values db_id r v x ≡ ok y
      → read_in_body values db_id log q y
        ≡ (if same_ref r q then v else read_in_body values db_id log q x)
  read_in_body-assoc log r q v x y h = rw (assoc-ok r v x y h) (written log r q v x)

  commute-ok :
      (log : List (Datom V)) (r : Ref) (fn_id : String) (args : List V) (x y : Transaction V)
      (v : V)
      → commute values db_id log r fn_id args x ≡ ok (v, y)
      → y ≡ record x {
        commute_log = x.commute_log ++ (r, (fn_id, args)) ∷ [];
        commute_eager = set_value r v x.commute_eager;
      }
  unfolding commute check_branch
  commute-ok log r fn_id args x y v h = ground arith

  -- After a commute on a ref, the body reads for a ref that it has written the written value, else
  -- the value of the commute for an equal ref, and for any other what it read before; the read set
  -- is unchanged.
  pub read_in_body-commute :
      (log : List (Datom V)) (r q : Ref) (fn_id : String) (args : List V) (x y : Transaction V)
      (v : V)
      → commute values db_id log r fn_id args x ≡ ok (v, y)
      → (read_in_body values db_id log q y ≡ elim (value_at q x.write_set) [
        | some w ↦ w
        | none ↦ if same_ref r q then v else read_in_body values db_id log q x
      ])
        × (y.read_set ≡ x.read_set)
  unfolding read_in_body
  read_in_body-commute log r q fn_id args x y v h =
      let e = commute-ok log r fn_id args x y v h in
      (
        rw e (ground (arith, value_at-set_value r q v x.commute_eager)),
        ap (λ (z : Transaction V). z.read_set) e,
      )

  -- Two assocs on refs of one entity and database, the first of them new to the write set, leave
  -- one entry: the first ref, with its attribute, and the second value.
  pub assoc-same_entity :
      (r q : Ref) (v w : V) (x y z : Transaction V)
      → value_at r x.write_set ≡ none
      → same_ref r q ≡ true
      → assoc values db_id r v x ≡ ok y
      → assoc values db_id q w y ≡ ok z
      → z.write_set ≡ x.write_set ++ (r, w) ∷ []
  assoc-same_entity r q v w x y z new same first_write second_write =
      let one = ap (λ (t : Transaction V). t.write_set) (assoc-ok r v x y first_write) in
      let two = ap (λ (t : Transaction V). t.write_set) (assoc-ok q w y z second_write) in
      two
      ∙ ap (set_value q w) (one ∙ set_value_new r v x.write_set new)
      ∙ set_value_last r q v w x.write_set new same
