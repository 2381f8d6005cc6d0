-- ===== src/Fact/Transact/Repeating.antt =====
-- fact/db.py: an assert that repeats the value and the start of the attribute's open assert. The
-- companion retract then closes the new datom too.
use persistence_os.Base.{
  All-reverse, String, true, false, Option, none, some, List, [], ◌∷◌, ◌++◌, map, reverse, ◌≡◌,
  refl, sym, ap, ◌∙◌, ℕ, arith, All, All-append, Has, All-Has, Has-append_left, Has-append_right,
  ok, inl, inr, nat_eq, string_eq, pair_eq,
}
use Prim.Native.Nat.{min}
use mathlib.Core.Path.{subst}
use text.Mathlib.TextEquality.{eq_iff}
use persistence_os.Base.Dict.{lookup}
use persistence_os.Base.Text.{lstrip}
use persistence_os.Fact.Datom.{
  TxId, Datetime, Fact, Python, value_eq, Datom, is_assert, is_assert_text, with_tx, canonicalise,
}
use persistence_os.Fact.Store.{next_tx, stamp}
use persistence_os.Fact.Store.Ids.{content}
use persistence_os.Fact.Shape.{
  Call, find_prior_assert, is_open_at, op_or_assert, coerce_dt, start_or,
}
use persistence_os.Fact.Shape.Rounds.{Closes, supersede-Closes}
use persistence_os.Fact.Transact.{companions, transact}
use persistence_os.Fact.Transact.Reading.{one_lem, stored_lem, layout_lem, All-first}
use persistence_os.Fact.View.{freeze, key_of, retracted_in, is_candidate, entity}
use persistence_os.Fact.View.Winner.{competes, Describes, lookup-entity-Describes}
use persistence_os.Fact.View.Pointers.{lookup-entity-content}

-- Every datom of the attribute in the log has this value and this start.
abbrev pub Repeats : {V : Type 0} → String → String → V → ℕ → Datom V → Type 0
Repeats e a v n x = x.e ≡ e → x.a ≡ a → (x.v ≡ v) × (x.valid_from ≡ n)

module _ {V : Type 0} ⦃py : Python V⦄ where
  retracted_in-Has :
      (e a : String) (v : V) (n : ℕ) (x : Datom V) (view : List (Datom V))
      → Has x view
      → x.e ≡ e
      → is_assert x.op ≡ false
      → x.a ≡ a
      → freeze x.v ≡ v
      → x.valid_from ≡ n
      → retracted_in e (a, (v, n)) view ≡ true
  unfolding retracted_in
  retracted_in-Has e a v n x [] h p q r s t = absurd h
  retracted_in-Has e a v n x (y ∷ ys) (inl same) p q r s t =
      rw (← same) (ground (arith, eq_iff x.e e, eq_iff x.a a, py.eq.equal_iff (freeze x.v) v))
  retracted_in-Has e a v n x (y ∷ ys) (inr h) p q r s t =
      ground (arith, retracted_in-Has e a v n x ys h p q r s t)

  -- The companion as it stands in the log.
  companion_Has :
      (c : Call V) (vf : Datetime) (t : TxId) (p : Datom V) (comp : Option (Datom V × TxId))
      → Closes c vf true (some p) comp
      → (x : Datom V) × Has x (map content (map (stamp t) (companions comp)))
        × (x.e ≡ p.e)
        × (x.a ≡ lstrip (lstrip p.a))
        × (x.v ≡ p.v)
        × (is_assert x.op ≡ false)
        × (x.valid_from ≡ min vf.instant p.valid_from)
  unfolding stamp with_tx canonicalise
  companion_Has c vf t p (some (d, u)) k =
      (content (stamp t d), inl refl, k.entity, ap lstrip k.attribute, k.value, k.kind, k.start)
  companion_Has c vf t p none k = absurd k

  competes_facts :
      (e a : String) (view : List (Datom V)) (w : Datom V)
      → competes e a view w ≡ true
      → (w.e ≡ e) × (w.a ≡ a) × (retracted_in e (key_of w) view ≡ false)
  unfolding competes is_candidate
  competes_facts e a view w c = ground (arith, eq_iff w.e e, eq_iff w.a a)

  -- A retract of that value and start leaves no assert of the attribute open.
  none_open :
      (e a : String) (v : V) (n : ℕ) (view : List (Datom V)) (x : Datom V)
      → All (Repeats e a v n) view
      → Has x view
      → x.e ≡ e
      → x.a ≡ a
      → is_assert x.op ≡ false
      → lookup a (entity e view) ≡ none
  none_open e a v n view x same has p q r =
      by_answer (lookup a (entity e view)) (lookup-entity-Describes e a view)
    where
      by_answer : (o : Option V) → Describes e a view o → o ≡ none
      by_answer none d = refl
      by_answer (some u) (w, m, c, _, _) =
          let (we, wa, kept) = competes_facts e a view w c in
          let (xv, xn) = All-Has (Repeats e a v n) view x same has p q in
          let (wv, wn) = All-Has (Repeats e a v n) view w same m we wa in
          let lost =
            retracted_in-Has e w.a (freeze w.v) w.valid_from x view has p r (q ∙ sym wa)
              (ap freeze (xv ∙ sym wv)) (xn ∙ sym wn) in
          absurd (cc (lost, kept))

  All-content-Repeats :
      (e a : String) (v : V) (n : ℕ) (xs : List (Datom V))
      → All (Repeats e a v n) xs
      → All (Repeats e a v n) (map content xs)
  All-content-Repeats e a v n [] h = tt
  All-content-Repeats e a v n (x ∷ xs) h = (h.0, All-content-Repeats e a v n xs h.1)

  comps_repeat :
      (c : Call V) (vf : Datetime) (t : TxId) (p : Datom V) (comp : Option (Datom V × TxId))
      (e a : String) (v : V) (n : ℕ)
      → Closes c vf true (some p) comp
      → p.v ≡ v
      → min vf.instant p.valid_from ≡ n
      → All (Repeats e a v n) (map content (map (stamp t) (companions comp)))
  unfolding stamp with_tx canonicalise
  comps_repeat c vf t p (some (d, u)) e a v n k q r = ((λ _ _. (k.value ∙ q, k.start ∙ r)), tt)
  comps_repeat c vf t p none e a v n k q r = absurd k

  found_lem :
      (e a : String) (v : V) (n : ℕ) (log : List (Datom V)) (p : Datom V)
      → All (Repeats e a v n) log
      → find_prior_assert log e a ≡ some p
      → (p.e ≡ e) × (p.a ≡ a) × (p.v ≡ v) × (p.valid_from ≡ n)
  unfolding find_prior_assert is_open_at
  found_lem e a v n log p h found =
      let (same, here) =
        All-first (Repeats e a v n) (is_open_at e a) (reverse log) p
          (All-reverse (Repeats e a v n) log h) found in
      let pe : p.e ≡ e = ground (arith, here, eq_iff p.e e) in
      let pa : p.a ≡ a = ground (arith, here, eq_iff p.a a, eq_iff p.e e) in
      let both = same pe pa in (pe, pa, both.0, both.1)

  -- An assert that repeats the value and the start of the attribute's open assert makes the
  -- attribute unreadable, where every datom that the log has of it has this value and this start.
  pub repeat_erases :
      (c : Call V) (f : Fact V) (vf : Datetime) {p : Datom V} (log log' : List (Datom V))
      → transact c (f ∷ []) log ≡ ok log'
      → is_assert_text (op_or_assert f.op) ≡ true
      → lstrip f.a ≡ f.a
      → coerce_dt py.fromisoformat (start_or c.now f.valid_from) ≡ ok vf
      → find_prior_assert log f.e f.a ≡ some p
      → All (Repeats f.e f.a f.v vf.instant) log
      → lookup f.a (entity f.e log') ≡ none
  repeat_erases c f vf {p} log log' h asserts bare coerced found same =
      let (s, r, layout) = one_lem c f log log' h in
      let n = vf.instant in
      let t = next_tx log in
      let (pe, pa, pv, pn) = found_lem f.e f.a f.v n log p same found in
      let vf_same : r.start ≡ vf = cc (r.coerced, coerced) in
      let start : r.start.instant ≡ n = ap (λ (u : Datetime). u.instant) vf_same in
      let closes =
        subst (λ o. Closes c r.start true o s.companion) found
          (subst (λ b. Closes c r.start b (find_prior_assert log f.e f.a) s.companion) asserts
            (supersede-Closes c r.start _ _ s.companion r.closing)) in
      let (x, has, xe, xa, xv, xk, xs) = companion_Has c r.start t p s.companion closes in
      let st = stored_lem c f (find_prior_assert log f.e f.a) s t bare asserts r in
      let comps = map content (map (stamp t) (companions s.companion)) in
      let d = content (stamp t s.datom) in
      let view = (map content log ++ comps) ++ d ∷ [] in
      let full : map content log' ≡ view =
        layout ∙ layout_lem t (map content log) (companions s.companion) s.datom in
      sym (lookup-entity-content f.e f.a log')
      ∙ ap (λ ds. lookup f.a (entity f.e ds)) full
      ∙ none_open f.e f.a f.v n view x
          (All-append (Repeats f.e f.a f.v n) (map content log ++ comps) (d ∷ [])
            (All-append (Repeats f.e f.a f.v n) (map content log) comps
              (All-content-Repeats f.e f.a f.v n log same)
              (comps_repeat c r.start t p s.companion f.e f.a f.v n closes pv (omega arith)))
            (λ _ _. (st.value, st.start ∙ start), tt))
          (Has-append_left x (map content log ++ comps) (d ∷ [])
            (Has-append_right x (map content log) comps has))
          (xe ∙ pe) (xa ∙ ap (λ u. lstrip (lstrip u)) pa ∙ ap lstrip bare ∙ bare) xk
