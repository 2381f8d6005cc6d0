-- ===== src/Effect/Audit/Recording.antt =====
-- effect/handlers/audit.py: the clause keeps the log verified, on a result and on an exception, and
-- what it leaves in the log.
use persistence_os.Base.{
  ℕ, ◌≡◌, refl, sym, ap, ◌∙◌, String, true, ◌++◌, Option, none, [], ◌∷◌, ◌==◌, string_eq, arith,
  Outcome, ok, err, inl, inr, Bool-cases, Option-cases,
}
use persistence_os.Base.Dict.{Dict, erase}
use persistence_os.Effect.Action.{
  Action, Failure, Keeps, Keeps-pure, Keeps-lift, Keeps-bind, Keeps-if, ◌>>=◌, ◌>>◌, next, pure,
  lift, gets,
}
use persistence_os.Effect.Audit.{
  Content, AuditEntry, canonicalise_content, is_keyword, make_entry, last_id, verify_chain,
  Settings, Log, Calls, hash_of, try_body, content_of, drain, append_entry, finish, try_finally,
  popped_commit, clause,
}
use persistence_os.Effect.Audit.Rebuild.{canonicalise_content_idem}
use persistence_os.Effect.Audit.Chain.{verify_chain-append}

make_entry-ok :
    {V X : Type 0} (id : String) (c : Content V) (e : AuditEntry V)
    → make_entry {V = V} {X = X} id c ≡ ok e
    → (e.id ≡ id) × (e.content ≡ canonicalise_content c)
unfolding make_entry
make_entry-ok {V} {X} id c e h = elim (Bool-cases (is_keyword c.op)) [
  | inl k ↦ ground arith
  | inr k ↦ absurd (ground arith)
]

module _ {S X V : Type 0} (calls : Calls S X V) (log : Log S V) (settings : Settings V) where
  abbrev pub IsVerified : S → Type 0
  IsVerified s = verify_chain calls.content_hash (log.entries s) ≡ ok true

  stored-Keeps :
      (drained : AuditEntry V → Action S X (Unit {0}))
      → ((e : AuditEntry V) → Keeps IsVerified (drained e))
      → (r : Outcome (Failure X) (AuditEntry V)) (s : S) → IsVerified s
      → ((e : AuditEntry V)
          → r ≡ ok e
          → (calls.content_hash e.content ≡ ok e.id)
            × (e.content.prev_hash ≡ last_id none (log.entries s)))
      → IsVerified (next (r, s) (λ e. append_entry calls log settings e >> drained e)).1
  unfolding next append_entry ◌>>=◌
  stored-Keeps drained kd (err f) s h w = h
  stored-Keeps drained kd (ok e) s h w = (kd e).at _ (
      rw (log.entries-put (log.entries s ++ e ∷ []) s)
        (verify_chain-append calls.content_hash (log.entries s) e h (w e refl).0 (w e refl).1))

  entry_hashed :
      (id : String) (c : Content V) (e : AuditEntry V)
      → calls.content_hash (canonicalise_content c) ≡ ok id
      → make_entry {V = V} {X = X} id (canonicalise_content c) ≡ ok e
      → (calls.content_hash e.content ≡ ok e.id) × (e.content ≡ canonicalise_content c)
  entry_hashed id c e hashed h =
      let made = make_entry-ok id (canonicalise_content c) e h in
      let same : e.content ≡ canonicalise_content c = made.1 ∙ canonicalise_content_idem c in
      (ap calls.content_hash same ∙ (hashed ∙ ap (λ w. ok w) (sym made.0)), same)

  drain-Keeps :
      ((sink : String) (e : AuditEntry V) → Keeps IsVerified (calls.emit sink e))
      → (e : AuditEntry V) → Keeps IsVerified (drain calls log settings e)
  unfolding drain
  drain-Keeps ke e = elim (Option-cases settings.sink_name) [
    | inl q ↦ rw q (Keeps-pure tt)
    | inr (sink, q) ↦
        rw q (Keeps-if (sink == "") (pure tt) (calls.emit sink e) (Keeps-pure tt) (ke sink e))
  ]

  hashed-Keeps :
      ((sink : String) (e : AuditEntry V) → Keeps IsVerified (calls.emit sink e))
      → (c : Content V) (o : Outcome (Failure X) String) (s : S)
      → calls.content_hash (canonicalise_content c) ≡ o
      → c.prev_hash ≡ last_id none (log.entries s)
      → IsVerified s
      → IsVerified
          (next
            (o, s)
            (λ id. lift (make_entry id (canonicalise_content c)) >>= λ entry.
              append_entry calls log settings entry >> drain calls log settings entry)).1
  unfolding next lift ◌>>=◌ canonicalise_content
  hashed-Keeps ke c (err x) s hashed prev h = h
  hashed-Keeps ke c (ok id) s hashed prev h =
      stored-Keeps (drain calls log settings) (drain-Keeps ke)
        (make_entry id (canonicalise_content c)) s h
        (λ e q.
          let made = entry_hashed id c e hashed q in
          (made.0, ap (λ (d : Content V). d.prev_hash) made.1 ∙ prev))

  finish-Keeps :
      Keeps IsVerified calls.clock_now
      → ((sink : String) (e : AuditEntry V) → Keeps IsVerified (calls.emit sink e))
      → (op : String) (txn_commit : Option String) (args_hash : String) (t0 : ℕ)
        (r : Outcome (Failure X) (Option V × Option String))
      → Keeps IsVerified (finish calls log settings op txn_commit args_hash t0 r)
  unfolding finish ◌>>=◌ gets lift next
  finish-Keeps kc ke op txn_commit args_hash t0 r = Keeps-bind calls.clock_now _ kc (λ t1. record {
    at = λ s h.
        let c =
          content_of calls log settings op txn_commit args_hash t0 t1 (last_id none (log.entries s))
            r in
        hashed-Keeps ke c (calls.content_hash (canonicalise_content c)) s refl refl h;
  })

  try_body-Keeps :
      (k : Dict String V → Action S X (Option V)) (args : Dict String V)
      → Keeps IsVerified (k args)
      → Keeps IsVerified (try_body calls log settings k args)
  unfolding try_body
  try_body-Keeps k args kk = Keeps-bind (k args) _ kk (λ result.
      Keeps-bind (lift (hash_of calls log settings result)) _
        (Keeps-lift (hash_of calls log settings result)) (λ g. Keeps-pure (result, g)))

  try_finally-Keeps :
      (body : Action S X (Option V × Option String))
      (final : Outcome (Failure X) (Option V × Option String) → Action S X (Unit {0}))
      → Keeps IsVerified body
      → ((r : Outcome (Failure X) (Option V × Option String)) → Keeps IsVerified (final r))
      → Keeps IsVerified (try_finally calls log settings body final)
  unfolding try_finally
  try_finally-Keeps body final kb kf = record {
    at = λ s h.
        let r = (body s).0 in
        (Keeps-bind (final r) _ (kf r)
            (λ u. Keeps-bind (lift r) _ (Keeps-lift r) (λ p. Keeps-pure p.0))).at
          (body s).1 (kb.at s h);
  }

  -- The audit clause keeps a log that verify_chain accepts, whether the call below returns or
  -- raises, where the clock, the sink and the call below keep it.
  pub clause-Keeps :
      Keeps IsVerified calls.clock_now
      → ((sink : String) (e : AuditEntry V) → Keeps IsVerified (calls.emit sink e))
      → (op : String) (args : Dict String V) (k : Dict String V → Action S X (Option V))
      → ((a : Dict String V) → Keeps IsVerified (k a))
      → Keeps IsVerified (clause calls log settings op args k)
  unfolding clause
  clause-Keeps kc ke op args k kk =
      let clean = erase "_txn_commit" args in
      Keeps-bind _ _ (Keeps-lift (calls.hash_args clean)) (λ args_hash. Keeps-bind _ _ kc (λ t0.
        try_finally-Keeps _ _ (try_body-Keeps k clean (kk clean))
          (λ r. finish-Keeps kc ke op (popped_commit calls log settings args) args_hash t0 r)))
