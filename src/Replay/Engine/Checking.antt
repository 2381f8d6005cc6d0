-- ===== src/Replay/Engine/Checking.antt =====
-- replay/engine.py: what the checks of a replay leave, and its branch point.
use persistence_os.Base.{
  ℕ, ◌≤◌, Bool, true, false, not, List, [], ◌∷◌, ◌≡◌, ◌≢◌, refl, ◌∙◌, ◌⊎◌, inl, inr, arith, ltb,
  ltb→lt, if◌then◌else◌, Outcome, ok, err, length, All, Has, map, Bool-cases, nat_eq,
}
use persistence_os.Replay.Engine.{
  Trajectory, Step, negative, at, Intervention, EngineError, is_empty, min_step, check_steps,
  check_replay, branch_of, is_replayable, out_of_range, not_replayable, no_interventions,
  empty_trajectory,
}

smaller :
    (k m : ℕ)
    → (((if ltb k m then k else m) ≡ k) ⊎ ((if ltb k m then k else m) ≡ m))
      × ((if ltb k m then k else m) ≤ m)
      × ((if ltb k m then k else m) ≤ k)
smaller k m = elim (Bool-cases (ltb k m)) [
  | inl less ↦ let low = ltb→lt k m less in rw less (inl refl, omega (arith, low), omega arith)
  | inr more ↦ let past : m ≤ k = ground arith in rw more (inr refl, omega arith, past)
]

module _ {V : Type 0} where
  -- The steps of the interventions, none of which is negative.
  abbrev pub Steps : List (Intervention V) → List (ℕ × Intervention V) → Type 0
  Steps [] [] = Unit
  Steps [] (_ ∷ _) = ⊥
  Steps (_ ∷ _) [] = ⊥
  Steps (i ∷ is) ((k, j) ∷ ks) = (i.step ≡ at k) × (j ≡ i) × Steps is ks

  abbrev steps_of : List (ℕ × Intervention V) → List ℕ
  steps_of ks = map (λ p. p.0) ks

  abbrev pub Least : ℕ → List (ℕ × Intervention V) → Type 0
  Least m ks = Has m (steps_of ks) × All (λ p. m ≤ p.0) ks

  Given : List (Intervention V) → Outcome EngineError (List (ℕ × Intervention V)) → Type 0
  Given is (ok ks) = Steps is ks
  Given is (err e) = Unit

  check_steps-Given : (n : ℕ) (is : List (Intervention V)) → Given is (check_steps n is)
  unfolding check_steps Given
  check_steps-Given n [] = tt
  check_steps-Given n (i ∷ is) = by_step_of (check_steps n is) (check_steps-Given n is) i.step refl
    where
      by_rest :
          (k : ℕ) (r : Outcome EngineError (List (ℕ × Intervention V)))
          → i.step ≡ at k
          → Given is r
          → Given (i ∷ is) (elim r [ ok ks ↦ ok ((k, i) ∷ ks) | err e ↦ err e ])
      by_rest k (ok ks) e g = (e, refl, g)
      by_rest k (err x) e g = tt

      by_step_of :
          (rest : Outcome EngineError (List (ℕ × Intervention V))) (g : Given is rest) (s : Step)
          → i.step ≡ s
          → Given (i ∷ is) (elim s [
            | negative ↦ err out_of_range
            | at k ↦
                if ltb k n
                then elim rest [ ok ks ↦ ok ((k, i) ∷ ks) | err e ↦ err e ]
                else err out_of_range
          ])
      by_step_of rest g negative e = tt
      by_step_of rest g (at k) e = elim (Bool-cases (ltb k n)) [
        | inl inside ↦ rw inside (by_rest k rest e g)
        | inr outside ↦ rw outside tt
      ]

  unfoldable pub Checked :
      List (Intervention V) → Outcome EngineError (List (ℕ × Intervention V)) → Type 0
  Checked is (ok ks) = Steps is ks × (is ≢ [])
  Checked is (err e) = Unit

  Checked-if :
      (is : List (Intervention V)) (b : Bool)
      (x y : Outcome EngineError (List (ℕ × Intervention V)))
      → Checked is x
      → Checked is y
      → Checked is (if b then x else y)
  Checked-if is true x y cx cy = cx
  Checked-if is false x y cx cy = cy

  Given-some :
      (is : List (Intervention V)) (r : Outcome EngineError (List (ℕ × Intervention V)))
      → is ≢ []
      → Given is r
      → Checked is r
  unfolding Checked Given
  Given-some is (ok ks) h g = (g, h)
  Given-some is (err e) h g = tt

  pub check_replay-Checked :
      {R : Type 0} (traj : Trajectory V R) (is : List (Intervention V))
      → Checked is (check_replay traj is)
  unfolding check_replay Checked
  check_replay-Checked traj [] =
      Checked-if [] (not (is_replayable traj.status)) (err not_replayable) (err no_interventions) tt
        tt
  check_replay-Checked traj (i ∷ is) =
      let checked = check_steps (length traj.facts) (i ∷ is) in
      Checked-if (i ∷ is) (not (is_replayable traj.status)) (err not_replayable)
        (if is_empty traj.facts then err empty_trajectory else checked) tt
        (Checked-if (i ∷ is) (is_empty traj.facts) (err empty_trajectory) checked tt (
          Given-some (i ∷ is) checked (λ h. cc h) (check_steps-Given (length traj.facts) (i ∷ is))))

  min_step-Least :
      (m : ℕ) (ks : List (ℕ × Intervention V))
      → ((min_step m ks ≡ m) ⊎ Has (min_step m ks) (steps_of ks))
        × (min_step m ks ≤ m)
        × All (λ p. min_step m ks ≤ p.0) ks
  unfolding min_step
  min_step-Least m [] = (inl refl, omega arith, tt)
  min_step-Least m ((k, i) ∷ ks) =
      let (found, below, all) = min_step-Least (if ltb k m then k else m) ks in
      let (is_one, to_m, to_k) = smaller k m in
      (
        elim found [
          | inl same ↦ elim is_one [
            | inl is_k ↦ inr (inl (same ∙ is_k))
            | inr is_m ↦ inl (same ∙ is_m)
          ]
          | inr later ↦ inr (inr later)
        ],
        omega (arith, below, to_m),
        (omega (arith, below, to_k), all),
      )

  pub branch_of-Least :
      (is : List (Intervention V)) (ks : List (ℕ × Intervention V))
      → Steps is ks
      → is ≢ []
      → Least (branch_of ks) ks
  branch_of-Least [] [] g some_given = absurd (some_given refl)
  branch_of-Least [] (_ ∷ ks) g some_given = elim g [ ]
  branch_of-Least (i ∷ is) [] g some_given = elim g [ ]
  branch_of-Least (i ∷ is) ((k, j) ∷ ks) g some_given =
      let (found, below, all) = min_step-Least k ks in (found, (below, all))
