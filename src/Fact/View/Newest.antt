-- ===== src/Fact/View/Newest.antt =====
-- fact/db.py: the datom that starts last decides what `DBView.entity` returns.
use persistence_os.Base.{
  String, true, false, Option, none, some, List, [], ◌∷◌, ◌++◌, ◌≡◌, sym, ap, ◌∙◌, arith, ℕ, ◌<◌,
  ◌⊎◌, inl, inr, All, Has, All-Has, nat_eq, string_eq, pair_eq,
}
use text.Mathlib.TextEquality.{eq_iff}
use persistence_os.Base.Dict.{lookup}
use persistence_os.Fact.Datom.{Python, Datom, is_assert, value_eq}
use persistence_os.Fact.View.{beats, key_of, retracted_in, is_candidate, entity}
use persistence_os.Fact.View.Winner.{competes, IsBeaten, Describes, lookup-entity-Describes}

-- `x` is no datom of this attribute, or starts before `n`.
abbrev pub StartsBefore : {V : Type 0} → String → String → ℕ → Datom V → Type 0
StartsBefore e a n x = x.e ≡ e → x.a ≡ a → x.valid_from < n

module _ {V : Type 0} where
  Has-append :
      (w : Datom V) (xs : List (Datom V)) (d : Datom V) → Has w (xs ++ d ∷ []) → Has w xs ⊎ (w ≡ d)
  Has-append w [] d (inl h) = inr h
  Has-append w [] d (inr h) = absurd h
  Has-append w (x ∷ xs) d (inl h) = inl (inl h)
  Has-append w (x ∷ xs) d (inr h) = elim (Has-append w xs d h) [
    | inl k ↦ inl (inr k)
    | inr k ↦ inr k
  ]

  All-last : (P : Datom V → Type 0) (xs : List (Datom V)) (d : Datom V) → All P (xs ++ d ∷ []) → P d
  All-last P [] d h = h.0
  All-last P (x ∷ xs) d h = All-last P xs d h.1

module _ {V : Type 0} ⦃py : Python V⦄ where
  retracted_in-last :
      (xs : List (Datom V)) (d : Datom V)
      → is_assert d.op ≡ true
      → All (StartsBefore d.e d.a d.valid_from) xs
      → retracted_in d.e (key_of d) (xs ++ d ∷ []) ≡ false
  unfolding retracted_in
  retracted_in-last [] d k h = ground arith
  retracted_in-last (x ∷ xs) d k h =
      ground (arith, retracted_in-last xs d k h.1, eq_iff x.e d.e, eq_iff x.a d.a, h.0)

  competes-last :
      (xs : List (Datom V)) (d : Datom V)
      → is_assert d.op ≡ true
      → All (StartsBefore d.e d.a d.valid_from) xs
      → competes d.e d.a (xs ++ d ∷ []) d ≡ true
  unfolding competes is_candidate
  competes-last xs d k h =
      ground (arith, retracted_in-last xs d k h, eq_iff d.e d.e, eq_iff d.a d.a)

  beaten_lem :
      (e a : String) (view : List (Datom V)) (w d : Datom V)
      → competes e a view w ≡ true
      → StartsBefore e a d.valid_from w
      → beats d w ≡ true
  unfolding competes is_candidate beats
  beaten_lem e a view w d c h = ground (arith, eq_iff w.e e, eq_iff w.a a, h)

  last_wins :
      (xs : List (Datom V)) (d : Datom V) (o : Option V)
      → is_assert d.op ≡ true
      → All (StartsBefore d.e d.a d.valid_from) xs
      → Describes d.e d.a (xs ++ d ∷ []) o
      → o ≡ some d.v
  last_wins xs d none k h idle =
      let lost = All-last (λ x. competes d.e d.a (xs ++ d ∷ []) x ≡ false) xs d idle in
      absurd (cc (lost, competes-last xs d k h))
  last_wins xs d (some v) k h (w, m, c, same, beaten) = elim (Has-append w xs d m) [
    | inr last ↦ ap some (sym same ∙ ap (λ (x : Datom V). x.v) last)
    | inl older ↦
        let view = xs ++ d ∷ [] in
        let lost = All-last (IsBeaten d.e d.a view w) xs d beaten (competes-last xs d k h) in
        let won =
          beaten_lem d.e d.a view w d c
            (All-Has (StartsBefore d.e d.a d.valid_from) xs w h older) in
        absurd (cc (lost, won))
  ]

  -- A last assert that starts after all others of its attribute is what is read.
  pub lookup-entity-last :
      (xs : List (Datom V)) (d : Datom V)
      → is_assert d.op ≡ true
      → All (StartsBefore d.e d.a d.valid_from) xs
      → lookup d.a (entity d.e (xs ++ d ∷ [])) ≡ some d.v
  lookup-entity-last xs d k h =
      last_wins xs d (lookup d.a (entity d.e (xs ++ d ∷ []))) k h
        (lookup-entity-Describes d.e d.a (xs ++ d ∷ []))
