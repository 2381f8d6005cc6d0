-- ===== src/Fact/View/Winner.antt =====
-- fact/db.py: what `DBView.entity` returns for an attribute.
use persistence_os.Base.{
  ℕ, String, Bool, true, false, ◌&&◌, ◌||◌, Option, none, some, List, [], ◌∷◌, ◌==◌, string_eq,
  if◌then◌else◌, ◌≡◌, refl, ap, sym, ◌∙◌, arith, All, Has, ◌⊎◌, ltb, num_eq, inl, inr, Bool-cases,
  some_inj,
}
use mathlib.Core.Path.{subst}
use text.Mathlib.TextEquality.{eq_iff}
use persistence_os.Base.Dict.{Dict, lookup, lookup-insert}
use persistence_os.Fact.Datom.{TxId, placeholder, tx, tx_ltb, Python, Datom}
use persistence_os.Fact.View.{beats, update_latest, is_candidate, pick_latest, values_of, entity}

abbrev pub value_of : {V : Type 0} → Option (Datom V) → Option V
value_of none = none
value_of (some d) = some d.v

-- The better of the winner so far and a datom.
abbrev pub better : {V : Type 0} → Option (Datom V) → Datom V → Option (Datom V)
better none d = some d
better (some cur) d = if beats d cur then some d else some cur

-- The order on pairs of a start and an id.
abbrev pair_ltb : ℕ → TxId → ℕ → TxId → Bool
pair_ltb n t m u = ltb n m || (num_eq m n && tx_ltb t u)

order_lem :
    (a b c : ℕ) (t u v : TxId)
    → pair_ltb b u a t ≡ false
    → pair_ltb c v b u ≡ false
    → pair_ltb c v a t ≡ false
order_lem a b c placeholder placeholder v h k = ground arith
order_lem a b c placeholder (tx m) v h k = ground arith
order_lem a b c (tx n) placeholder placeholder h k = ground arith
order_lem a b c (tx n) placeholder (tx l) h k = ground arith
order_lem a b c (tx n) (tx m) placeholder h k = ground arith
order_lem a b c (tx n) (tx m) (tx l) h k = ground arith

irrefl_lem : (a : ℕ) (t : TxId) → pair_ltb a t a t ≡ false
irrefl_lem a placeholder = ground arith
irrefl_lem a (tx n) = ground arith

asym_lem : (a b : ℕ) (t u : TxId) → pair_ltb b u a t ≡ true → pair_ltb a t b u ≡ false
asym_lem a b placeholder placeholder h = ground arith
asym_lem a b placeholder (tx m) h = ground arith
asym_lem a b (tx n) placeholder h = ground arith
asym_lem a b (tx n) (tx m) h = ground arith

module _ {V : Type 0} ⦃py : Python V⦄ where
  -- The open asserts of one attribute in the view.
  unfoldable pub competes : String → String → List (Datom V) → Datom V → Bool
  competes e a view d = is_candidate e view d && d.a == a

  abbrev pub IsBeaten : String → String → List (Datom V) → Datom V → Datom V → Type 0
  IsBeaten e a view w d = competes e a view d ≡ true → beats d w ≡ false

  -- The winner among them.
  unfoldable pub winner :
      String → String → List (Datom V) → List (Datom V) → Option (Datom V) → Option (Datom V)
  winner e a view [] cur = cur
  winner e a view (d ∷ ds) cur =
      winner e a view ds (if competes e a view d then better cur d else cur)

  lookup-values_of :
      (a : String) (latest : Dict String (Datom V))
      → lookup a (values_of latest) ≡ value_of (lookup a latest)
  unfolding values_of lookup
  lookup-values_of a [] = refl
  lookup-values_of a ((b, d) ∷ rest) = ground (arith, lookup-values_of a rest)

  lookup-update_latest :
      (a : String) (latest : Dict String (Datom V)) (d : Datom V)
      → lookup a (update_latest latest d)
        ≡ (if d.a == a then better (lookup a latest) d else lookup a latest)
  unfolding update_latest
  lookup-update_latest a latest d = ground (arith, lookup-insert d.a a d latest, eq_iff d.a a)

  lookup-pick_latest :
      (e a : String) (view ds : List (Datom V)) (latest : Dict String (Datom V))
      → lookup a (pick_latest e view ds latest) ≡ winner e a view ds (lookup a latest)
  unfolding pick_latest winner competes
  lookup-pick_latest e a view [] latest = refl
  lookup-pick_latest e a view (d ∷ ds) latest = elim (Bool-cases (is_candidate e view d)) [
    | inl c ↦ rw c (
        lookup-pick_latest e a view ds (update_latest latest d)
        ∙ ap (winner e a view ds) (lookup-update_latest a latest d))
    | inr c ↦ rw c (lookup-pick_latest e a view ds latest)
  ]

  -- An attribute of the materialised entity is the value of the winner.
  pub lookup-entity :
      (e a : String) (view : List (Datom V))
      → lookup a (entity e view) ≡ value_of (winner e a view view none)
  unfolding entity lookup
  lookup-entity e a view =
      lookup-values_of a (pick_latest e view view [])
      ∙ ap value_of (lookup-pick_latest e a view view [])

  beats_trans : (x y z : Datom V) → beats x y ≡ false → beats y z ≡ false → beats x z ≡ false
  unfolding beats
  beats_trans x y z h k = order_lem x.valid_from y.valid_from z.valid_from x.txid y.txid z.txid h k

  beats_irrefl : (x : Datom V) → beats x x ≡ false
  unfolding beats
  beats_irrefl x = irrefl_lem x.valid_from x.txid

  beats_asym : (x y : Datom V) → beats x y ≡ true → beats y x ≡ false
  unfolding beats
  beats_asym x y h = asym_lem x.valid_from y.valid_from x.txid y.txid h

  better_lem :
      (cur : Option (Datom V)) (d w : Datom V)
      → ((c : Datom V) → better cur d ≡ some c → beats c w ≡ false)
      → (beats d w ≡ false) × ((c : Datom V) → cur ≡ some c → beats c w ≡ false)
  better_lem none d w h = (h d refl, λ c k. cc)
  better_lem (some c) d w h = elim (Bool-cases (beats d c)) [
    | inl better_d ↦
        let lost = h d (rw better_d) in
        (
          lost,
          λ x same.
              subst (λ y. beats y w ≡ false) (some_inj same)
                (beats_trans c d w (beats_asym d c better_d) lost),
        )
    | inr kept ↦
        let lost = h c (rw kept) in
        (beats_trans d c w kept lost, λ x same. subst (λ y. beats y w ≡ false) (some_inj same) lost)
  ]

  better_cases :
      (cur : Option (Datom V)) (d w : Datom V) → better cur d ≡ some w → (cur ≡ some w) ⊎ (d ≡ w)
  better_cases none d w h = inr (some_inj h)
  better_cases (some c) d w h = elim (Bool-cases (beats d c)) [
    | inl b ↦ inr (some_inj (rw b at h))
    | inr b ↦ inl (rw b at h)
  ]

  better-ne-none : (cur : Option (Datom V)) (d : Datom V) → better cur d ≡ none → ⊥
  better-ne-none none d h = cc
  better-ne-none (some c) d h = ground arith

  winner-max :
      (e a : String) (view ds : List (Datom V)) (cur : Option (Datom V)) (w : Datom V)
      → winner e a view ds cur ≡ some w
      → All (IsBeaten e a view w) ds × ((c : Datom V) → cur ≡ some c → beats c w ≡ false)
  unfolding winner
  winner-max e a view [] cur w h = (tt, λ c k. let same : c ≡ w = cc in rw same (beats_irrefl w))
  winner-max e a view (d ∷ ds) cur w h = elim (Bool-cases (competes e a view d)) [
    | inl c ↦
        let (rest, kept) = winner-max e a view ds (better cur d) w (rw c at h) in
        let (lost, k) = better_lem cur d w kept in ((λ _. lost, rest), k)
    | inr c ↦ let (rest, k) = winner-max e a view ds cur w (rw c at h) in ((λ yes_c. cc, rest), k)
  ]

  winner-Has :
      (e a : String) (view ds : List (Datom V)) (cur : Option (Datom V)) (w : Datom V)
      → winner e a view ds cur ≡ some w
      → (cur ≡ some w) ⊎ (Has w ds × (competes e a view w ≡ true))
  unfolding winner
  winner-Has e a view [] cur w h = inl h
  winner-Has e a view (d ∷ ds) cur w h = elim (Bool-cases (competes e a view d)) [
    | inl c ↦ elim (winner-Has e a view ds (better cur d) w (rw c at h)) [
      | inr (m, k) ↦ inr (inr m, k)
      | inl e' ↦ elim (better_cases cur d w e') [
        | inl same ↦ inl same
        | inr same ↦ inr (inl (sym same), rw (← same) c)
      ]
    ]
    | inr c ↦ elim (winner-Has e a view ds cur w (rw c at h)) [
      | inr (m, k) ↦ inr (inr m, k)
      | inl same ↦ inl same
    ]
  ]

  -- What an answer of `entity` for an attribute means: no assert competes, or the value is that
  -- of a competing assert which no other beats.
  abbrev pub Describes : String → String → List (Datom V) → Option V → Type 0
  Describes e a view none = All (λ d. competes e a view d ≡ false) view
  Describes e a view (some v) =
      (w : Datom V) × Has w view
      × (competes e a view w ≡ true)
      × (w.v ≡ v)
      × All (IsBeaten e a view w) view

  winner-none :
      (e a : String) (view ds : List (Datom V)) (cur : Option (Datom V))
      → winner e a view ds cur ≡ none
      → All (λ d. competes e a view d ≡ false) ds × (cur ≡ none)
  unfolding winner
  winner-none e a view [] cur h = (tt, h)
  winner-none e a view (d ∷ ds) cur h = elim (Bool-cases (competes e a view d)) [
    | inl c ↦
        let (rest, lost) = winner-none e a view ds (better cur d) (rw c at h) in
        absurd (better-ne-none cur d lost)
    | inr c ↦ let (rest, k) = winner-none e a view ds cur (rw c at h) in ((c, rest), k)
  ]

  Describes-winner :
      (e a : String) (view : List (Datom V)) (o : Option (Datom V))
      → winner e a view view none ≡ o
      → Describes e a view (value_of o)
  Describes-winner e a view none h = (winner-none e a view view none h).0
  Describes-winner e a view (some w) h = elim (winner-Has e a view view none w h) [
    | inl same ↦ absurd (cc same)
    | inr (m, k) ↦ (w, m, k, refl, (winner-max e a view view none w h).0)
  ]

  -- Reading an attribute of an entity gives the value of an open assert of the view that no other
  -- open assert beats by (valid_from, tx), and nothing exactly if none is open.
  pub lookup-entity-Describes :
      (e a : String) (view : List (Datom V)) → Describes e a view (lookup a (entity e view))
  lookup-entity-Describes e a view =
      rw lookup-entity (Describes-winner e a view (winner e a view view none) refl)
