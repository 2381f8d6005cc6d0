-- ===== src/Fact/View/Pointers.antt =====
-- fact/db.py: `DBView.entity` does not look at the pointers `invalidated_by`.
use persistence_os.Base.{
  String, Option, none, some, List, [], ◌∷◌, map, ◌≡◌, refl, sym, ap, ◌∙◌, arith, ℕ, if◌then◌else◌,
  Bool-cases, inl, inr, string_eq,
}
use persistence_os.Base.Dict.{lookup}
use persistence_os.Fact.Datom.{Python, Datom}
use persistence_os.Fact.Store.Ids.{content}
use persistence_os.Fact.View.{beats, retracted_in, is_candidate, entity}
use persistence_os.Fact.View.Winner.{value_of, better, competes, winner, lookup-entity}

abbrev bare_winner : {V : Type 0} → Option (Datom V) → Option (Datom V)
bare_winner none = none
bare_winner (some d) = some (content d)

module _ {V : Type 0} ⦃py : Python V⦄ where
  retracted_in-content :
      (e : String) (key : String × (V × ℕ)) (ds : List (Datom V))
      → retracted_in e key (map content ds) ≡ retracted_in e key ds
  unfolding retracted_in
  retracted_in-content e key [] = refl
  retracted_in-content e key (d ∷ ds) = rw (retracted_in-content e key ds)

  competes-content :
      (e a : String) (view : List (Datom V)) (d : Datom V)
      → competes e a (map content view) (content d) ≡ competes e a view d
  unfolding competes is_candidate
  competes-content e a view d = rw retracted_in-content

  better-content :
      (cur : Option (Datom V)) (d : Datom V)
      → better (bare_winner cur) (content d) ≡ bare_winner (better cur d)
  unfolding beats
  better-content none d = refl
  better-content (some c) d = ground arith

  next-content :
      (e a : String) (view : List (Datom V)) (d : Datom V) (cur : Option (Datom V))
      → (if competes e a (map content view) (content d)
          then better (bare_winner cur) (content d)
          else bare_winner cur)
        ≡ bare_winner (if competes e a view d then better cur d else cur)
  next-content e a view d cur = elim (Bool-cases (competes e a view d)) [
    | inl c ↦ rw (competes-content e a view d, c) (better-content cur d)
    | inr c ↦ rw (competes-content e a view d, c)
  ]

  winner-content :
      (e a : String) (view ds : List (Datom V)) (cur : Option (Datom V))
      → winner e a (map content view) (map content ds) (bare_winner cur)
        ≡ bare_winner (winner e a view ds cur)
  unfolding winner
  winner-content e a view [] cur = refl
  winner-content e a view (d ∷ ds) cur =
      ap (winner e a (map content view) (map content ds)) (next-content e a view d cur)
      ∙ winner-content e a view ds (if competes e a view d then better cur d else cur)

  value_of-bare_winner : (o : Option (Datom V)) → value_of (bare_winner o) ≡ value_of o
  value_of-bare_winner none = refl
  value_of-bare_winner (some d) = refl

  pub lookup-entity-content :
      (e a : String) (view : List (Datom V))
      → lookup a (entity e (map content view)) ≡ lookup a (entity e view)
  lookup-entity-content e a view =
      lookup-entity e a (map content view)
      ∙ ap value_of (winner-content e a view view none)
      ∙ value_of-bare_winner (winner e a view view none)
      ∙ sym (lookup-entity e a view)
