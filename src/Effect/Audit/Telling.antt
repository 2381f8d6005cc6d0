-- ===== src/Effect/Audit/Telling.antt =====
-- effect/handlers/audit.py: what the clause returns, and the entry that it leaves in the log.
use persistence_os.Base.{
  ℕ, ◌-◌, ◌≡◌, refl, ap, ◌∙◌, String, true, ◌++◌, Option, none, some, List, [], ◌∷◌, string_eq,
  Outcome, ok, err,
}
use persistence_os.Base.Dict.{Dict, erase}
use persistence_os.Effect.Action.{Action, Failure, ◌>>=◌, next, pure, lift, gets}
use persistence_os.Effect.Audit.{
  hash_of, Content, AuditEntry, canonicalise_content, is_keyword, make_entry, last_id, Settings,
  Log, Calls, try_body, content_of, drain, append_entry, finish, try_finally, popped_commit, clause,
}
use persistence_os.Effect.Audit.Rebuild.{canonicalise_content_idem}

module _ {S X V : Type 0} (calls : Calls S X V) (log : Log S V) (settings : Settings V) where
  abbrev pub outcome_of :
      Outcome (Failure X) (Option V × Option String) → Outcome (Failure X) (Option V)
  outcome_of (ok p) = ok p.0
  outcome_of (err e) = err e

  make_entry_canonical :
      (id : String) (c : Content V)
      → is_keyword c.op ≡ true
      → make_entry {V = V} {X = X} id (canonicalise_content c)
        ≡ ok (record { id = id; content = canonicalise_content c })
  unfolding make_entry
  make_entry_canonical id c h = rw (h, canonicalise_content_idem c) refl

  -- The content of the entry of a call, before the entry is made.
  abbrev pub told :
      String
      → Option String
      → String
      → ℕ
      → ℕ
      → Outcome (Failure X) (Option V × Option String)
      → S
      → Content V
  told op txn_commit args_hash t0 t1 r s =
      canonicalise_content (
        content_of calls log settings op txn_commit args_hash t0 t1 (last_id none (log.entries s))
          r)

  finish-Records :
      (op : String) (txn_commit : Option String) (args_hash id : String) (t0 t1 : ℕ)
      (r : Outcome (Failure X) (Option V × Option String)) (s t : S)
      → is_keyword op ≡ true
      → settings.sink_name ≡ none
      → calls.clock_now s ≡ (ok t1, t)
      → calls.content_hash (told op txn_commit args_hash t0 t1 r t) ≡ ok id
      → finish calls log settings op txn_commit args_hash t0 r s ≡ (
        ok tt,
        log.put
            (log.entries t
              ++ record { id = id; content = told op txn_commit args_hash t0 t1 r t } ∷ [])
            t,
      )
  unfolding finish ◌>>=◌ gets lift next drain append_entry pure
  finish-Records op txn_commit args_hash id t0 t1 r s t keyword sinkless tick hashed =
      let c =
        content_of calls log settings op txn_commit args_hash t0 t1 (last_id none (log.entries t))
          r in
      rw (tick, hashed, make_entry_canonical id c keyword, sinkless) refl

  -- What the `try` makes of the outcome of the call below: the result with its digest, or what was
  -- raised, by the call or for want of a digest.
  abbrev pub read_result :
      Outcome (Failure X) (Option V) → Outcome (Failure X) (Option V × Option String)
  read_result (ok none) = ok (none, none)
  read_result (ok (some v)) = elim (calls.hash_result v) [
    | ok h ↦ ok (some v, some h)
    | err e ↦ err e
  ]
  read_result (err e) = err e

  try_body-read_result :
      (k : Dict String V → Action S X (Option V)) (args : Dict String V)
      (q : Outcome (Failure X) (Option V)) (s t : S)
      → k args s ≡ (q, t)
      → try_body calls log settings k args s ≡ (read_result q, t)
  unfolding try_body hash_of ◌>>=◌ next lift pure
  try_body-read_result k args (err e) s t ran = rw ran refl
  try_body-read_result k args (ok none) s t ran = rw ran refl
  try_body-read_result k args (ok (some v)) s t ran = rw ran (by_digest (calls.hash_result v))
    where
      by_digest :
          (h : Outcome (Failure X) String)
          → next {A = Option String} {B = Option V × Option String}
              (elim h [ ok g ↦ ok (some g) | err e ↦ err e ], t)
              (λ g. pure (some v, g))
            ≡ (elim h [ ok g ↦ ok (some v, some g) | err e ↦ err e ], t)
      by_digest (ok g) = refl
      by_digest (err e) = refl

  returned :
      (r : Outcome (Failure X) (Option V × Option String)) (s : S)
      → (lift r >>= λ p. pure p.0) s ≡ (outcome_of r, s)
  unfolding ◌>>=◌ next lift pure
  returned (ok p) s = refl
  returned (err e) s = refl

  -- What the entry of a call says.
  abbrev pub Tells :
      String
      → Dict String V
      → String
      → ℕ
      → ℕ
      → Outcome (Failure X) (Option V × Option String)
      → List (AuditEntry V)
      → AuditEntry V
      → Type 0
  Tells op args args_hash t0 t1 r earlier e =
      (calls.content_hash e.content ≡ ok e.id)
      × (e.content.prev_hash ≡ last_id none earlier)
      × (e.content.op ≡ op)
      × (e.content.args_hash ≡ args_hash)
      × (e.content.verdict ≡ elim r [ ok _ ↦ "ok" | err _ ↦ "error" ])
      × (e.content.result_hash ≡ elim r [ ok (v, h) ↦ h | err _ ↦ none ])
      × (e.content.error ≡ elim r [ ok _ ↦ none | err x ↦ some (calls.describe x) ])
      × (e.content.latency_ms ≡ t1 - t0)
      × (e.content.recorded_at ≡ t1)
      × (e.content.txn_commit ≡ popped_commit calls log settings args)

  -- With no sink, an op that is a keyword, arguments and a clock that can be read, and an entry
  -- that has a digest, the audit clause raises what the call below raised, or returns its result,
  -- or raises what the digest of that result raises; and it appends one entry to the log, whose id
  -- is the digest of its content, whose prev_hash is the last id, and which tells the op, the
  -- arguments without the commit id, the verdict, the digest of the result, the error, the latency,
  -- the time and the commit id.
  pub clause-Records :
      (op : String) (args : Dict String V) (k : Dict String V → Action S X (Option V))
      (args_hash id : String) (t0 t1 : ℕ) (q : Outcome (Failure X) (Option V)) (s s1 s2 s3 : S)
      → is_keyword op ≡ true
      → settings.sink_name ≡ none
      → calls.hash_args (erase "_txn_commit" args) ≡ ok args_hash
      → calls.clock_now s ≡ (ok t0, s1)
      → k (erase "_txn_commit" args) s1 ≡ (q, s2)
      → calls.clock_now s2 ≡ (ok t1, s3)
      → calls.content_hash
          (told op (popped_commit calls log settings args) args_hash t0 t1 (read_result q) s3)
        ≡ ok id
      → ((clause calls log settings op args k s).0 ≡ outcome_of (read_result q))
        × (e : AuditEntry V) × (log.entries (clause calls log settings op args k s).1
            ≡ log.entries s3 ++ e ∷ [])
        × Tells op args args_hash t0 t1 (read_result q) (log.entries s3) e
  unfolding clause ◌>>=◌ lift next try_finally pure popped_commit content_of canonicalise_content
  clause-Records op args k args_hash id t0 t1 q s s1 s2 s3 keyword sinkless hashed tick ran tock
        signed =
      let r = read_result q in
      let commit = popped_commit calls log settings args in
      let e : AuditEntry V = record { id = id; content = told op commit args_hash t0 t1 r s3 } in
      let run : clause calls log settings op args k s
          ≡ (outcome_of r, log.put (log.entries s3 ++ e ∷ []) s3) =
        rw
          (
            hashed,
            tick,
            try_body-read_result k (erase "_txn_commit" args) q s1 s2 ran,
            finish-Records op commit args_hash id t0 t1 r s2 s3 keyword sinkless tock signed,
          )
          (returned r (log.put (log.entries s3 ++ e ∷ []) s3)) in
      (
        ap (λ (o : Outcome (Failure X) (Option V) × S). o.0) run,
        e,
        ap (λ (o : Outcome (Failure X) (Option V) × S). log.entries o.1) run
            ∙ log.entries-put (log.entries s3 ++ e ∷ []) s3,
        (signed, refl, refl, refl, refl, refl, refl, refl, refl, refl),
      )
