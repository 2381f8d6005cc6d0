-- ===== src/Replay/Sessions.antt =====
-- replay/effect_handler.py: a recorded session, replayed.
use persistence_os.Base.{
  String, true, Option, none, some, [], ◌∷◌, ◌≡◌, refl, ap, ◌∙◌, Outcome, ok, err, ◌==◌, ==_refl,
  string_eq, Option-cases, Bool-cases, ◌++◌, inl, inr, ◌⊎◌,
}
use persistence_os.Base.Dict.{Dict, lookup, insert, lookup-insert}
use persistence_os.Fact.Datom.{Python}
use persistence_os.Effect.Action.{Action, Cell, Failure, raised, pure, next, ◌>>=◌}
use persistence_os.Replay.{
  Tape, ReplayHost, refusal, keep_call, run_and_keep, miss, serve, serve_or_miss, is_non_replayable,
  refused_in_replay, clause,
}

module _ {S V R X : Type 0} ⦃py : Python V⦄ (cell : Cell S (Tape V R)) (host : ReplayHost V X) where
  abbrev pub answer : S → String → Dict String V → Option R
  answer s op args = lookup (host.args_hash op args) (Tape.cache (cell.get s))

  -- What the tape of `s` answers, that of `t` answers alike.
  pub record Extends (s t : S) : Type 0 where
    pub same :
        (key : String) (r : R)
        → lookup key (Tape.cache (cell.get s)) ≡ some r
        → lookup key (Tape.cache (cell.get t)) ≡ some r

  -- A program that calls effects one after the other: each call may depend on the results so far.
  pub data Program : Type 0 where
    return : R → Program
    perform_op : String → Dict String V → (R → Program) → Program

  -- The program under the handler, with `below` for the rest of the stack.
  unfoldable pub run_program :
      String → (String → Dict String V → Action S X R) → Program → Action S X R
  unfolding ◌>>=◌ pure
  run_program mode below (return r) = pure r
  run_program mode below (perform_op op args rest) =
      serve_or_miss cell host mode op args (below op args) >>= λ r. run_program mode below (rest r)

  -- A call that is kept is answered so from then on, and what was answered before still is.
  keep_call-Extends :
      (op : String) (args : Dict String V) (r : R) (s t : S)
      → answer s op args ≡ none
      → Extends s t
      → Extends s (keep_call cell host op args r t)
  unfolding keep_call
  keep_call-Extends op args r s t missing e = record {
    same = λ key q h.
        rw
          (
            cell.get-set
                (record {
                  cache = insert (host.args_hash op args) r (Tape.cache (cell.get t));
                  calls =
                      Tape.calls (cell.get t)
                      ++ record { op = op; args = args; key = host.args_hash op args; result = r }
                        ∷ [];
                })
                t,
            lookup-insert (host.args_hash op args) key r (Tape.cache (cell.get t)),
          )
          (elim (Bool-cases (host.args_hash op args == key)) [
            | inl same ↦
                let here : host.args_hash op args ≡ key =
                  (string_eq.equal_iff (host.args_hash op args) key).0 same in
                absurd (cc (missing, h, here))
            | inr other ↦ rw other (e.same key q h)
          ]);
  }

  answer-keep_call :
      (op : String) (args : Dict String V) (r : R) (t : S)
      → answer (keep_call cell host op args r t) op args ≡ some r
  unfolding keep_call
  answer-keep_call op args r t =
      rw
        (
          cell.get-set
              (record {
                cache = insert (host.args_hash op args) r (Tape.cache (cell.get t));
                calls =
                    Tape.calls (cell.get t)
                    ++ record { op = op; args = args; key = host.args_hash op args; result = r }
                      ∷ [];
              })
              t,
          lookup-insert (host.args_hash op args) (host.args_hash op args) r
              (Tape.cache (cell.get t)),
          ==_refl (host.args_hash op args),
        )
        refl

  Extends-refl : (s : S) → Extends s s
  Extends-refl s = record { same = λ key r h. h }

  Extends-trans : (s t u : S) → Extends s t → Extends t u → Extends s u
  Extends-trans s t u d e = record { same = λ key r h. e.same key r (d.same key r h) }

  kept :
      (op : String) (args : Dict String V) (r : R) (s t : S) (x : Outcome (Failure X) R × S)
      → answer s op args ≡ none
      → Extends s x.1
      → next x (λ q u. (ok q, keep_call cell host op args q u)) ≡ (ok r, t)
      → Extends s t × (answer t op args ≡ some r)
  unfolding next
  kept op args r s t (err f, u) missing e h = absurd (cc h)
  kept op args r s t (ok q, u) missing e h =
      let same : q ≡ r = cc h in
      let there : keep_call cell host op args q u ≡ t =
        ap (λ (p : Outcome (Failure X) R × S). p.1) h in
      rw (← there, ← same) (keep_call-Extends op args q s u missing e, answer-keep_call op args q u)

  recorded :
      (op : String) (args : Dict String V) (execute : Action S X R) (r : R) (s t : S) (o : Option R)
      → answer s op args ≡ o
      → Extends s (execute s).1
      → serve cell host "record" op args execute o s ≡ (ok r, t)
      → Extends s t × (answer t op args ≡ some r)
  unfolding serve miss run_and_keep ◌>>=◌
  recorded op args execute r s t none missing e h = kept op args r s t (execute s) missing e h
  recorded op args execute r s t (some q) found e h =
      let same : q ≡ r = cc h in
      let there : s ≡ t = ap (λ (p : Outcome (Failure X) R × S). p.1) h in
      rw (← there) (Extends-refl s, found ∙ ap some same)

  -- Calls below leave what the tape answers.
  abbrev pub Keeping : (String → Dict String V → Action S X R) → Type 0
  Keeping below = (op : String) (args : Dict String V) (s : S) → Extends s (below op args s).1

  served :
      (op : String) (args : Dict String V) (execute : Action S X R) (r : R) (u : S) (o : Option R)
      → answer u op args ≡ o
      → o ≡ some r
      → serve_or_miss cell host "replay" op args execute u ≡ (ok r, u)
  unfolding serve_or_miss serve
  served op args execute r u o found is_r = rw (found, is_r) refl

  module _ (below below' : String → Dict String V → Action S X R) (keeping : Keeping below) where
    Replays : Program → R → S → S → S → Type 0
    Replays p r s t u = Extends s t × (run_program "replay" below' p u ≡ (ok r, u))

    after_op :
        (op : String) (args : Dict String V) (rest : R → Program) (r : R) (s t u : S)
        (more : (q : R) (s1 : S)
          → run_program "record" below (rest q) s1 ≡ (ok r, t)
          → Replays (rest q) r s1 t u)
        (e : Extends t u) (x : Outcome (Failure X) R × S)
        → serve_or_miss cell host "record" op args (below op args) s ≡ x
        → next x (λ q. run_program "record" below (rest q)) ≡ (ok r, t)
        → Replays (perform_op op args rest) r s t u
    unfolding Replays run_program ◌>>=◌ next serve_or_miss
    after_op op args rest r s t u more e (err f, s1) now h = absurd (cc h)
    after_op op args rest r s t u more e (ok q, s1) now h =
        let (kept_s, told) =
          recorded op args (below op args) q s s1 (answer s op args) refl (keeping op args s) now in
        let (kept_1, again) = more q s1 h in
        let now_told =
          e.same (host.args_hash op args) q (kept_1.same (host.args_hash op args) q told) in
        (
          Extends-trans s s1 t kept_s kept_1,
          ap (λ y. next y (λ q. run_program "replay" below' (rest q)))
                (served op args (below' op args) q u (answer u op args) refl now_told)
              ∙ again,
        )

    replays :
        (p : Program) (r : R) (s t u : S)
        → run_program "record" below p s ≡ (ok r, t)
        → Extends t u
        → Replays p r s t u
    unfolding Replays run_program ◌>>=◌ pure
    replays (return q) r s t u h e =
        let same : q ≡ r = cc h in
        let there : s ≡ t = ap (λ (x : Outcome (Failure X) R × S). x.1) h in
        rw (← there, ← same) (Extends-refl s, refl)
    replays (perform_op op args rest) r s t u h e =
        after_op op args rest r s t u (λ q s1 k. replays (rest q) r s1 t u k e) e
          (serve_or_miss cell host "record" op args (below op args) s) refl h

    -- A program of effects that returns under the record mode, where what lies below leaves the
    -- answers of the tape, returns the same under the replay mode from any state whose tape has
    -- these answers, whatever lies below then, and leaves that state as it is.
    pub replay-record :
        (p : Program) (r : R) (s t u : S)
        → run_program "record" below p s ≡ (ok r, t)
        → Extends t u
        → run_program "replay" below' p u ≡ (ok r, u)
    unfolding Replays
    replay-record p r s t u h e = (replays p r s t u h e).1

  refusal-refused :
      (op : String) (args : Dict String V) (tape : Tape V R)
      → is_non_replayable op ≡ true
      → refusal op args tape ≡ some refused_in_replay
  unfolding refusal
  refusal-refused op args tape h = rw h refl

  refused_miss :
      (op : String) (args : Dict String V) (execute : Action S X R) (s : S)
      → is_non_replayable op ≡ true
      → miss cell host true op args execute s ≡ (err (raised (host.of_error refused_in_replay)), s)
  unfolding miss
  refused_miss op args execute s h = rw (miss, refusal-refused op args (cell.get s) h) refl

  -- In replay, a call of :net/fetch or :tool/call is answered from the tape, or raises
  -- RefusedInReplay where the tape does not have it; either way the state is unchanged, whatever
  -- lies below.
  pub clause_refuses :
      (op : String) (args : Dict String V) (k : Dict String V → Action S X R) (s : S)
      → is_non_replayable op ≡ true
      → ((r : R) × (answer s op args ≡ some r)
          × (clause cell host "replay" op args k s ≡ (ok r, s)))
        ⊎ ((answer s op args ≡ none)
            × (clause cell host "replay" op args k s
                ≡ (err (raised (host.of_error refused_in_replay)), s)))
  unfolding clause serve_or_miss serve
  clause_refuses op args k s h = elim (Option-cases (answer s op args)) [
    | inl missing ↦ inr (missing, rw missing (refused_miss op args (k args) s h))
    | inr (r, found) ↦ inl (r, found, rw found refl)
  ]
