-- ===== src/Replay/Engine/Branching.antt =====
-- replay/engine.py: what a replay keeps of the recorded trajectory, and what it changes.
use persistence_os.Base.{
  ℕ, suc, String, Bool, true, false, Option, none, some, List, [], ◌∷◌, ◌++◌, ◌≡◌, ◌≢◌, refl, sym,
  ap, ◌∙◌, ltb, if◌then◌else◌, Outcome, ok, err, length, nat_eq,
}
use persistence_os.Base.Dict.{Dict, lookup}
use mathlib.Core.Path.{subst}
use persistence_os.Effect.Action.{next, ◌>>=◌, Action, raise, pure, ◌>>◌, >>=-eq-ok, pure-eq-ok}
use persistence_os.Replay.Engine.{
  Fact, Trajectory, Field, field_of, Intervention, EngineError, Session, by_step, check_replay,
  branch_of, set_field, draw_both, intervene, apply_intervention, extra_facts, from_branch, fact_at,
  replay_facts, or_raise, initial_state_of, open_session, extend, replay, run_replay,
}
use persistence_os.Replay.Engine.Checking.{
  Steps, Least, Checked, check_replay-Checked, branch_of-Least,
}

module _ {S V R X : Type 0} (session : Session S V R X) (agent_step : V → V → Action S X (Fact V))
    (apply_action : V → V → V → Action S X V) where
  -- What a draw of both generators gives, and the session after it.
  abbrev pub drawn : S → V
  drawn s = session.draws (session.draw_llm s).0 (session.draw_env (session.draw_llm s).1).0

  abbrev pub after_draw : S → S
  after_draw s = (session.draw_env (session.draw_llm s).1).1

  -- A step at or after the branch point, from the session `s` to `t`: the recorded fact with one field
  -- and the draws replaced, or the fact of the agent for this state and the recorded observation, under
  -- the step's number.
  abbrev pub Replaced : Option (Intervention V) → ℕ → Fact V → V → S → Fact V → S → Type 0
  Replaced (some i) k orig now s f t =
      (field : Field) × (field_of i.field ≡ some field)
      × (f ≡ record (set_field field i.new_value orig) { random_draws = drawn s })
      × (t ≡ after_draw s)
  Replaced none k orig now s f t =
      (g : Fact V) × (agent_step now orig.obs s ≡ (ok g, t)) × (f ≡ record g { step = k })

  abbrev pub FactAt : ℕ → Dict ℕ (Intervention V) → ℕ → Fact V → V → S → Fact V → S → Type 0
  FactAt bp is k orig now s f t =
      if ltb k bp then (f ≡ orig) × (t ≡ after_draw s) else Replaced (lookup k is) k orig now s f t

  -- The facts `fs` in place of recorded ones, each from the state and the session that the one before it
  -- has led to, and where the last leads.
  abbrev pub Follows :
      ℕ → Dict ℕ (Intervention V) → ℕ → List (Fact V) → V → S → List (Fact V) → V → S → Type 0
  Follows bp is k [] now s [] end u = (end ≡ now) × (u ≡ s)
  Follows bp is k [] now s (_ ∷ _) end u = ⊥
  Follows bp is k (_ ∷ _) now s [] end u = ⊥
  Follows bp is k (orig ∷ origs) now s (f ∷ fs) end u =
      (t : S) × (later : V) × (s' : S) × FactAt bp is k orig now s f t
      × (apply_action now f.obs f.action t ≡ (ok later, s'))
      × Follows bp is (suc k) origs later s' fs end u

  -- The facts of the agent for further observations.
  abbrev pub Continues : ℕ → List V → V → S → List (Fact V) → V → S → Type 0
  Continues k [] now s [] end u = (end ≡ now) × (u ≡ s)
  Continues k [] now s (_ ∷ _) end u = ⊥
  Continues k (_ ∷ _) now s [] end u = ⊥
  Continues k (o ∷ os) now s (f ∷ fs) end u =
      (g : Fact V) × (t : S) × (later : V) × (s' : S) × (agent_step now o s ≡ (ok g, t))
      × (f ≡ record g { step = k })
      × (apply_action now o g.action t ≡ (ok later, s'))
      × Continues (suc k) os later s' fs end u

  draw-eq-ok :
      (v : V) (s t : S) → draw_both session s ≡ (ok v, t) → (drawn s ≡ v) × (after_draw s ≡ t)
  unfolding draw_both
  draw-eq-ok v s t h = (cc h, cc h)

  intervene-Replaced :
      (i : Intervention V) (k : ℕ) (orig : Fact V) (now : V) (o : Option Field) (s t : S)
      (f : Fact V)
      → field_of i.field ≡ o
      → intervene session o orig i.new_value s ≡ (ok f, t)
      → Replaced (some i) k orig now s f t
  unfolding raise
  intervene-Replaced i k orig now none s t f e h = absurd (cc h)
  intervene-Replaced i k orig now (some field) s t f e h =
      let (v, s', drew, made) = >>=-eq-ok (draw_both session) _ f s t h in
      let (is_v, is_s') = draw-eq-ok v s s' drew in
      let (is_f, is_t) = pure-eq-ok _ f s' t made in
      (
        field,
        e,
        sym is_f
            ∙ ap (λ w. record (set_field field i.new_value orig) { random_draws = w }) (sym is_v),
        sym (is_s' ∙ is_t),
      )

  from_branch-Replaced :
      (o : Option (Intervention V)) (k : ℕ) (orig : Fact V) (now : V) (s t : S) (f : Fact V)
      → from_branch session agent_step apply_action o k orig now s ≡ (ok f, t)
      → Replaced o k orig now s f t
  unfolding apply_intervention
  from_branch-Replaced none k orig now s t f h =
      let (g, s', ran, made) = >>=-eq-ok (agent_step now orig.obs) _ f s t h in
      let (is_f, is_t) = pure-eq-ok _ f s' t made in (g, ran ∙ ap (λ u. (ok g, u)) is_t, sym is_f)
  from_branch-Replaced (some i) k orig now s t f h =
      intervene-Replaced i k orig now (field_of i.field) s t f refl h

  fact_at-FactAt :
      (bp : ℕ) (is : Dict ℕ (Intervention V)) (k : ℕ) (orig : Fact V) (now : V) (s t : S)
      (f : Fact V)
      → fact_at session agent_step apply_action bp is k orig now s ≡ (ok f, t)
      → FactAt bp is k orig now s f t
  unfolding fact_at
  fact_at-FactAt bp is k orig now s t f h = by_test (ltb k bp) h
    where
      by_test :
          (before : Bool)
          → (if before
                then draw_both session >> pure orig
                else from_branch session agent_step apply_action (lookup k is) k orig now)
              s
            ≡ (ok f, t)
          → (if before
              then (f ≡ orig) × (t ≡ after_draw s)
              else Replaced (lookup k is) k orig now s f t)
      by_test true e =
          let (v, s', drew, made) = >>=-eq-ok (draw_both session) (λ _. pure orig) f s t e in
          let (is_v, is_s') = draw-eq-ok v s s' drew in
          let (is_f, is_t) = pure-eq-ok orig f s' t made in (sym is_f, sym (is_s' ∙ is_t))
      by_test false e = from_branch-Replaced (lookup k is) k orig now s t f e

  replay_facts-Follows :
      (bp : ℕ) (is : Dict ℕ (Intervention V)) (k : ℕ) (origs : List (Fact V)) (now : V) (s u : S)
      (p : List (Fact V) × V)
      → replay_facts session agent_step apply_action bp is k origs now s ≡ (ok p, u)
      → Follows bp is k origs now s p.0 p.1 u
  unfolding replay_facts
  replay_facts-Follows bp is k [] now s u p h =
      let (is_p, is_u) = pure-eq-ok ([], now) p s u h in
      subst (λ (w : List (Fact V) × V). Follows bp is k [] now s w.0 w.1 u) is_p (refl, sym is_u)
  replay_facts-Follows bp is k (orig ∷ origs) now s u p h =
      let (f, t, here, h1) =
        >>=-eq-ok (fact_at session agent_step apply_action bp is k orig now) _ p s u h in
      let (later, s', acted, h2) = >>=-eq-ok (apply_action now f.obs f.action) _ p t u h1 in
      let (q, v, rest, h3) =
        >>=-eq-ok (replay_facts session agent_step apply_action bp is (suc k) origs later) _ p s' u
          h2 in
      let (is_p, is_u) = pure-eq-ok (f ∷ q.0, q.1) p v u h3 in
      subst (λ (w : List (Fact V) × V). Follows bp is k (orig ∷ origs) now s w.0 w.1 u) is_p
        (
          t,
          later,
          s',
          fact_at-FactAt bp is k orig now s t f here,
          acted,
          subst (λ w. Follows bp is (suc k) origs later s' q.0 q.1 w) is_u
              (replay_facts-Follows bp is (suc k) origs later s' v q rest),
        )

  extra_facts-Continues :
      (k : ℕ) (os : List V) (now : V) (s u : S) (p : List (Fact V) × V)
      → extra_facts session agent_step apply_action k os now s ≡ (ok p, u)
      → Continues k os now s p.0 p.1 u
  unfolding extra_facts
  extra_facts-Continues k [] now s u p h =
      let (is_p, is_u) = pure-eq-ok ([], now) p s u h in
      subst (λ (w : List (Fact V) × V). Continues k [] now s w.0 w.1 u) is_p (refl, sym is_u)
  extra_facts-Continues k (o ∷ os) now s u p h =
      let (g, t, ran, h1) = >>=-eq-ok (agent_step now o) _ p s u h in
      let (later, s', acted, h2) = >>=-eq-ok (apply_action now o g.action) _ p t u h1 in
      let (q, v, rest, h3) =
        >>=-eq-ok (extra_facts session agent_step apply_action (suc k) os later) _ p s' u h2 in
      let (is_p, is_u) = pure-eq-ok (record g { step = k } ∷ q.0, q.1) p v u h3 in
      subst (λ (w : List (Fact V) × V). Continues k (o ∷ os) now s w.0 w.1 u) is_p
        (
          g,
          t,
          later,
          s',
          ran,
          refl,
          acted,
          subst (λ w. Continues (suc k) os later s' q.0 q.1 w) is_u
              (extra_facts-Continues (suc k) os later s' v q rest),
        )

  -- The session that the replay opens, and the one that the further observations start from.
  abbrev pub opened : Trajectory V R → S → S
  opened traj s = session.make_rngs traj.seeds (
      session.set_mode "replay"
        (session.tape.set (record { cache = traj.cache; calls = traj.call_log }) s))

  abbrev pub resumed : List V → S → S
  resumed [] s = s
  resumed (_ ∷ _) s = session.set_mode "record" s

  extend-Continues :
      (new_id : String) (k : ℕ) (os : List V) (now : V) (s u : S) (p : List (Fact V) × V)
      → extend session agent_step apply_action new_id k os now s ≡ (ok p, u)
      → Continues k os now (resumed os s) p.0 p.1 u
  unfolding extend pure
  extend-Continues new_id k [] now s u p h =
      let (is_p, is_u) = pure-eq-ok ([], now) p s u h in
      subst (λ (w : List (Fact V) × V). Continues k [] now s w.0 w.1 u) is_p (refl, sym is_u)
  extend-Continues new_id k (o ∷ os) now s u p h =
      extra_facts-Continues k (o ∷ os) now (session.set_mode "record" s) u p h

  -- A replay that returned: its branch point is the least step of an intervention, the recorded
  -- facts have been followed, and the further observations after them.
  abbrev pub Branches :
      Trajectory V R → List (Intervention V) → List V → S → Trajectory V R → S → Type 0
  Branches traj is extra_obs s new u =
      (new.parent_id ≡ some traj.id)
      × (new.seeds ≡ traj.seeds)
      × (ks : List (ℕ × Intervention V)) × (bp : ℕ) × (kept : List (Fact V)) × (more : List
          (Fact V))
      × (mid : V) × (end : V) × (t : S) × Steps is ks
      × Least bp ks
      × (new.branch_point ≡ some bp)
      × (new.facts ≡ kept ++ more)
      × Follows bp (by_step ks []) 0 traj.facts (initial_state_of session traj.facts)
          (opened traj s) kept mid t
      × Continues (length traj.facts) extra_obs mid (resumed extra_obs t) more end u

  or_raise-eq-ok :
      (is : List (Intervention V)) (r : Outcome EngineError (List (ℕ × Intervention V)))
      (ks : List (ℕ × Intervention V)) (s t : S)
      → Checked is r
      → or_raise session r s ≡ (ok ks, t)
      → Steps is ks × (is ≢ []) × (s ≡ t)
  unfolding Checked raise
  or_raise-eq-ok is (ok js) ks s t c h =
      let (is_ks, is_t) = pure-eq-ok js ks s t h in (subst (λ w. Steps is w) is_ks c.0, c.1, is_t)
  or_raise-eq-ok is (err e) ks s t c h = absurd (cc h)

  run_replay-Branches :
      (new_id : String) (traj : Trajectory V R) (is : List (Intervention V)) (extra_obs : List V)
      (ks : List (ℕ × Intervention V)) (s u : S) (new : Trajectory V R)
      → Steps is ks
      → Least (branch_of ks) ks
      → run_replay session agent_step apply_action new_id traj extra_obs ks s ≡ (ok new, u)
      → Branches traj is extra_obs s new u
  unfolding run_replay open_session ◌>>=◌ next
  run_replay-Branches new_id traj is extra_obs ks s u new steps least h =
      let (p, t, followed, h2) =
        >>=-eq-ok
          (replay_facts session agent_step apply_action (branch_of ks) (by_step ks []) 0 traj.facts
            (initial_state_of session traj.facts))
          _ new (opened traj s) u h in
      let (q, v, extended, h3) =
        >>=-eq-ok (extend session agent_step apply_action new_id (length traj.facts) extra_obs p.1)
          _ new t u h2 in
      let (is_new, is_u) = pure-eq-ok _ new v u h3 in
      subst (λ w. Branches traj is extra_obs s w u) is_new
        (
          refl,
          refl,
          ks,
          branch_of ks,
          p.0,
          q.0,
          p.1,
          q.1,
          t,
          steps,
          least,
          refl,
          refl,
          replay_facts-Follows (branch_of ks) (by_step ks []) 0 traj.facts _ (opened traj s) t p
              followed,
          subst (λ w. Continues (length traj.facts) extra_obs p.1 (resumed extra_obs t) q.0 q.1 w)
              is_u (extend-Continues new_id (length traj.facts) extra_obs p.1 t v q extended),
        )

  -- A replay that returns has the recorded trajectory as its parent, its seeds, and the least step
  -- of the interventions as its branch point. It starts from the recorded tape in replay mode and
  -- from generators made of the seeds. Its facts are first those of the recorded trajectory up to
  -- the branch point, with a draw of both generators for each; then one for each recorded fact,
  -- which is, where the last intervention for its step names a known field, the recorded fact with
  -- that field and the draws replaced, and otherwise the fact that the agent returns for the state
  -- so far and the recorded observation, under its number; then, in record mode, the fact that the
  -- agent returns for the state so far and each extra observation, numbered on from there. The
  -- state of each step is what apply_action returns for the fact before it.
  pub replay-Branches :
      (new_id : String) (traj : Trajectory V R) (is : List (Intervention V)) (extra_obs : List V)
      (s u : S) (new : Trajectory V R)
      → replay session agent_step apply_action new_id traj is extra_obs s ≡ (ok new, u)
      → Branches traj is extra_obs s new u
  unfolding replay
  replay-Branches new_id traj is extra_obs s u new h =
      let (ks, t, checked, run) = >>=-eq-ok (or_raise session (check_replay traj is)) _ new s u h in
      let (steps, given, same) =
        or_raise-eq-ok is (check_replay traj is) ks s t (check_replay-Checked traj is) checked in
      run_replay-Branches new_id traj is extra_obs ks s u new steps
        (branch_of-Least is ks steps given)
        (subst
          (λ w. run_replay session agent_step apply_action new_id traj extra_obs ks w ≡ (ok new, u))
          (sym same) run)
