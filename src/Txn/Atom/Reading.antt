-- ===== src/Txn/Atom/Reading.antt =====
-- txn/atom.py: what an atom reads after each of its writes.
use persistence_os.Base.{
  ℕ, String, zero, suc, Bool, true, false, some, List, [], ◌∷◌, ◌++◌, reverse, ◌≡◌, refl, sym, ap,
  ◌∙◌, arith, first, Outcome, ok, err, bind_ok, ◌>>=◌, Bool-cases, raise_if, inl, inr, string_eq,
  ◌==◌,
}
use mathlib.Core.List.{reverse-cons}
use persistence_os.Fact.Datom.{Python, value_eq, Datom}
use persistence_os.Fact.Shape.{is_open_at}
use persistence_os.Txn.Atom.{
  AtomError, already_open, any_open, create, Atom, Clock, atom_attr, read_latest_value, deref,
  check_not_in_dosync, value_or, transact_value, swap, compare_and_set, reset,
}
use persistence_os.Txn.Atom.Ending.{ends_lem}

reverse-snoc : {A : Type 0} (xs : List A) (x : A) → reverse (xs ++ x ∷ []) ≡ x ∷ reverse xs
reverse-snoc [] x = refl
reverse-snoc (y ∷ xs) x =
    reverse-cons y (xs ++ x ∷ [])
    ∙ ap (λ zs. zs ++ y ∷ []) (reverse-snoc xs x)
    ∙ ap (λ zs. x ∷ zs) (sym (reverse-cons y xs))

by_ok : {A : Type 0} {x y : A} → ◌≡◌ {A = Outcome AtomError A} (ok x) (ok y) → x ≡ y
by_ok h = cc h

first_here :
    {A : Type 0} (p : A → Bool) (x : A) (xs : List A) → p x ≡ true → first p (x ∷ xs) ≡ some x
unfolding first
first_here p x xs h = rw (first, h) refl

module _ {V : Type 0} ⦃py : Python V⦄ where
  read-transact_value :
      (nil : V) (clock : Clock) (atom : Atom) (v : V) (log log' : List (Datom V))
      → transact_value clock atom v log ≡ ok log'
      → read_latest_value nil atom log' ≡ v
  unfolding read_latest_value
  read-transact_value nil clock atom v log log' h =
      let (xs, d, ends, here, value) = ends_lem clock atom v log log' h in
      let found = is_open_at atom.eid atom_attr in
      ap (λ ds. value_or nil (first found (reverse ds))) ends
      ∙ ap (λ ds. value_or nil (first found ds)) (reverse-snoc xs d)
      ∙ ap (value_or nil) (first_here found d (reverse xs) here)
      ∙ value

  any_open-snoc :
      (eid : String) (xs : List (Datom V)) (d : Datom V)
      → is_open_at eid atom_attr d ≡ true
      → any_open eid (xs ++ d ∷ []) ≡ true
  unfolding any_open
  any_open-snoc eid [] d h = rw h refl
  any_open-snoc eid (x ∷ xs) d h = ground (arith, any_open-snoc eid xs d h)

  -- A reset that returns has returned its argument, and the atom reads as that.
  pub deref-reset :
      (nil : V) (in_dosync : Bool) (clock : Clock) (atom : Atom) (v w : V)
      (log log' : List (Datom V))
      → reset in_dosync clock atom v log ≡ ok (w, log')
      → (w ≡ v) × (deref nil in_dosync atom log' ≡ ok v)
  unfolding reset deref check_not_in_dosync
  deref-reset nil true clock atom v w log log' h = cc h
  deref-reset nil false clock atom v w log log' h =
      let (l, e, h') = bind_ok (transact_value clock atom v log) _ h in
      let same : l ≡ log' = cc h' in
      let value : v ≡ w = cc h' in
      (sym value, ap ok (read-transact_value nil clock atom v log log' (e ∙ ap ok same)))

  -- A swap that returns has returned the function of the value that the atom had, and the atom
  -- reads as that.
  pub deref-swap :
      (nil : V) (in_dosync : Bool) (max_retries : ℕ) (clock : Clock) (atom : Atom)
      (fn : V → Outcome AtomError V) (w : V) (log log' : List (Datom V))
      → swap nil in_dosync max_retries clock atom fn log ≡ ok (w, log')
      → (deref nil in_dosync atom log >>= fn ≡ ok w) × (deref nil in_dosync atom log' ≡ ok w)
  unfolding swap deref check_not_in_dosync
  deref-swap nil true zero clock atom fn w log log' h = cc h
  deref-swap nil true (suc n) clock atom fn w log log' h = cc h
  deref-swap nil false zero clock atom fn w log log' h = cc h
  deref-swap nil false (suc n) clock atom fn w log log' h =
      let (v, e1, h1) = bind_ok (fn (read_latest_value nil atom log)) _ h in
      let (l, e2, h2) = bind_ok (transact_value clock atom v log) _ h1 in
      let value : v ≡ w = cc h2 in
      let same : l ≡ log' = cc h2 in
      (
        e1 ∙ ap ok value,
        ap ok (read-transact_value nil clock atom v log log' (e2 ∙ ap ok same) ∙ value),
      )

  -- What a compare-and-set has done.
  pub Swapped : V → Bool → Atom → V → V → List (Datom V) → Bool → List (Datom V) → Type 0
  Swapped nil in_dosync atom old new log true log' =
      (deref nil in_dosync atom log ≡ ok old) × (deref nil in_dosync atom log' ≡ ok new)
  Swapped nil in_dosync atom old new log false log' =
      (log' ≡ log) × ¬ (deref nil in_dosync atom log ≡ ok old)

  -- A compare-and-set that returns True has found the old value, and the atom reads as the new one;
  -- where it returns False, the atom does not read as the old value and the log is unchanged.
  pub compare_and_set-Swapped :
      (nil : V) (in_dosync : Bool) (clock : Clock) (atom : Atom) (old new : V) (b : Bool)
      (log log' : List (Datom V))
      → compare_and_set nil in_dosync clock atom old new log ≡ ok (b, log')
      → Swapped nil in_dosync atom old new log b log'
  unfolding compare_and_set deref check_not_in_dosync Swapped
  compare_and_set-Swapped nil true clock atom old new b log log' h = cc h
  compare_and_set-Swapped nil false clock atom old new true log log' h =
      let v = read_latest_value nil atom log in
      elim (Bool-cases (v == old)) [
        | inl same ↦
            let (l, e, h') = bind_ok (transact_value clock atom new log) _ (rw same at h) in
            let done : l ≡ log' = cc h' in
            (
              ap ok ((py.eq.equal_iff v old).0 same),
              ap ok (read-transact_value nil clock atom new log log' (e ∙ ap ok done)),
            )
        | inr other ↦ absurd (cc (rw other at h))
      ]
  compare_and_set-Swapped nil false clock atom old new false log log' h =
      let v = read_latest_value nil atom log in
      elim (Bool-cases (v == old)) [
        | inl same ↦
            let (l, e, h') = bind_ok (transact_value clock atom new log) _ (rw same at h) in
            absurd (cc h')
        | inr other ↦
            (cc (rw other at h), λ k. absurd (cc (other, (py.eq.equal_iff v old).1 (by_ok k))))
      ]

  -- A DB.atom that returns gives an atom that reads as its initial value, and a further DB.atom on
  -- its entity, on the log that it left, raises.
  pub create_once :
      (nil : V) (clock later : Clock) (eid db_id : String) (v w : V) (atom : Atom)
      (log log' : List (Datom V))
      → create clock eid db_id v log ≡ ok (atom, log')
      → (deref nil false atom log' ≡ ok v) × (create later eid db_id w log' ≡ err already_open)
  unfolding create deref check_not_in_dosync
  create_once nil clock later eid db_id v w atom log log' h =
      let (u, _, h1) = bind_ok (raise_if (any_open eid log) already_open) _ h in
      let made : Atom = record { eid = eid; db_id = db_id } in
      let (l, e, h2) = bind_ok (transact_value clock made v log) _ h1 in
      let same : l ≡ log' = cc h2 in
      let atom_same : made ≡ atom = cc h2 in
      let (xs, d, ends, here, _) = ends_lem clock made v log l e in
      let taken : any_open eid log' ≡ true =
        ap (any_open eid) (sym same ∙ ends) ∙ any_open-snoc eid xs d here in
      (
        ap ok (
            ap (λ x. read_latest_value nil x log') (sym atom_same)
            ∙ read-transact_value nil clock made v log log' (e ∙ ap ok same)),
        rw taken refl,
      )
