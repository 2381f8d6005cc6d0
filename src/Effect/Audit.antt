-- ===== src/Effect/Audit.antt =====
-- effect/handlers/audit.py: `AuditEntry`, `_canonicalise_content`, `verify_chain`, and the clause of
-- `make_audit_handler`. A content is an entry without its id; where `txn_commit` is missing it
-- stands for the dict that lacks this key. Times are whole milliseconds. The digest
-- (`canonical_hash`, SHA-256 of canonical JSON) is a parameter.
pub mod Rebuild
pub mod Chain
pub mod Recording
pub mod Telling
use persistence_os.Base.{
  ℕ, ◌+◌, ◌-◌, ◌≡◌, String, Bool, true, false, ◌&&◌, ◌++◌, Option, none, some, List, [], ◌∷◌, ◌==◌,
  string_eq, if◌then◌else◌, num_eq, ltb, map, Outcome, ok, err,
}
use persistence_os.Base.Dict.{Dict, lookup, insert, erase}
use persistence_os.Base.Text.{lstrip, with_colon, starts_with_colon, count}
use persistence_os.Effect.Action.{Action, Failure, bad_entry, pure, lift, gets, next, ◌>>=◌, ◌>>◌}

pub record Content (V : Type 0) : Type 0 where
  pub prev_hash : Option String
  pub op : String
  pub args_hash : String
  pub verdict : String
  pub latency_ms : ℕ
  pub recorded_at : ℕ
  pub result_hash : Option String
  pub error : Option String
  pub policy_id : Option String
  pub handler_chain : List String
  pub principal : Dict String V
  pub run_id : Option String
  pub parent : Option String
  pub txn_commit : Option String

pub record AuditEntry (V : Type 0) : Type 0 where
  pub id : String
  pub content : Content V

unfoldable pub canonical_policy : Option String → Option String
canonical_policy none = none
canonical_policy (some p) = some (with_colon (lstrip p))

-- `{k.lstrip(":"): v for k, v in principal.items()}`, from left to right
unfoldable pub rebuild : {V : Type 0} → Dict String V → Dict String V → Dict String V
rebuild d [] = d
rebuild d ((k, v) ∷ rest) = rebuild (insert (lstrip k) v d) rest

-- What `__post_init__` wants of `op`: a leading colon, at most one slash, no dot.
unfoldable pub is_keyword : String → Bool
is_keyword op = starts_with_colon op && (ltb (count b'/' op) 2 && num_eq (count b'.' op) 0)

unfoldable pub same_hash : Option String → Option String → Bool
same_hash none none = true
same_hash (some h) (some k) = h == k
same_hash none (some k) = false
same_hash (some h) none = false

module _ {V : Type 0} where
  unfoldable pub canonicalise_content : Content V → Content V
  unfolding canonical_policy rebuild
  canonicalise_content c = record {
    prev_hash = c.prev_hash;
    op = c.op;
    args_hash = c.args_hash;
    verdict = c.verdict;
    latency_ms = c.latency_ms;
    recorded_at = c.recorded_at;
    result_hash = c.result_hash;
    error = c.error;
    policy_id = canonical_policy c.policy_id;
    handler_chain = map lstrip c.handler_chain;
    principal = rebuild [] c.principal;
    run_id = c.run_id;
    parent = c.parent;
    txn_commit = c.txn_commit;
  }

  -- `AuditEntry(id=…, **content)` with `__post_init__`
  unfoldable pub make_entry : {X : Type 0} → String → Content V → Outcome (Failure X) (AuditEntry V)
  unfolding is_keyword canonicalise_content
  make_entry id c =
      if is_keyword c.op
      then ok (record { id = id; content = canonicalise_content c })
      else err bad_entry

  -- `entries[-1].id if entries else None`
  unfoldable pub last_id : Option String → List (AuditEntry V) → Option String
  last_id p [] = p
  last_id p (e ∷ es) = last_id (some e.id) es

  unfoldable pub verify_from :
      {X : Type 0}
      → (Content V → Outcome (Failure X) String)
      → Option String
      → List (AuditEntry V)
      → Outcome (Failure X) Bool
  unfolding same_hash
  verify_from content_hash prev [] = ok true
  verify_from content_hash prev (e ∷ es) =
      let rest = verify_from content_hash (some e.id) es in
      elim (content_hash e.content) [
        | ok h ↦ if e.id == h && same_hash e.content.prev_hash prev then rest else ok false
        | err x ↦ err x
      ]

  unfoldable pub verify_chain :
      {X : Type 0}
      → (Content V → Outcome (Failure X) String)
      → List (AuditEntry V)
      → Outcome (Failure X) Bool
  unfolding verify_from
  verify_chain content_hash es = verify_from content_hash none es

-- The handler's `ctx`, apart from `entries`.
pub record Settings (V : Type 0) : Type 0 where
  pub sink_name : Option String
  pub run_id : Option String
  pub principal : Dict String V
  pub policy_id : Option String
  pub handler_chain : List String

-- Where the state holds `ctx["entries"]`, and that writing the list there changes just this.
pub record Log (S V : Type 0) : Type 0 where
  pub entries : S → List (AuditEntry V)
  pub put : List (AuditEntry V) → S → S
  pub entries-put : (es : List (AuditEntry V)) (s : S) → entries (put es s) ≡ es

-- What the clause calls: the digests, the text of an exception, `:clock/now` and the sink, both
-- under `mask("audit")`.
pub record Calls (S X V : Type 0) : Type 0 where
  pub hash_args : Dict String V → Outcome (Failure X) String
  pub hash_result : V → Outcome (Failure X) String
  pub content_hash : Content V → Outcome (Failure X) String
  pub text_of : V → Option String
  pub describe : Failure X → String
  pub clock_now : Action S X ℕ
  pub emit : String → AuditEntry V → Action S X (Unit {0})

module _ {S X V : Type 0} (calls : Calls S X V) (log : Log S V) (settings : Settings V) where
  -- `if result is not None: result_hash = canonical_hash(result)`
  unfoldable pub hash_of : Option V → Outcome (Failure X) (Option String)
  hash_of none = ok none
  hash_of (some v) = elim (calls.hash_result v) [ ok h ↦ ok (some h) | err e ↦ err e ]

  -- The body of the `try`: the result with its hash, or what was raised.
  unfoldable pub try_body :
      (Dict String V → Action S X (Option V))
      → Dict String V
      → Action S X (Option V × Option String)
  unfolding hash_of ◌>>=◌ next lift pure
  try_body k args = do result ← k args; h ← lift (hash_of result); pure (result, h)

  unfoldable pub content_of :
      String
      → Option String
      → String
      → ℕ
      → ℕ
      → Option String
      → Outcome (Failure X) (Option V × Option String)
      → Content V
  content_of op txn_commit args_hash t0 t1 prev r = record {
    prev_hash = prev;
    op = op;
    args_hash = args_hash;
    verdict = elim r [ ok _ ↦ "ok" | err _ ↦ "error" ];
    latency_ms = t1 - t0;
    recorded_at = t1;
    result_hash = elim r [ ok (v, h) ↦ h | err _ ↦ none ];
    error = elim r [ ok _ ↦ none | err e ↦ some (calls.describe e) ];
    policy_id = settings.policy_id;
    handler_chain = settings.handler_chain;
    principal = settings.principal;
    run_id = settings.run_id;
    parent = prev;
    txn_commit = txn_commit;
  }

  -- `if sink: … named(sink, ":audit/emit", …)`
  unfoldable pub drain : AuditEntry V → Action S X (Unit {0})
  unfolding pure
  drain e = elim settings.sink_name [
    | none ↦ pure tt
    | some sink ↦ if sink == "" then pure tt else calls.emit sink e
  ]

  -- `ctx["entries"].append(entry)`
  unfoldable pub append_entry : AuditEntry V → Action S X (Unit {0})
  append_entry e s = (ok tt, log.put (log.entries s ++ e ∷ []) s)

  -- The body of the `finally`.
  unfoldable pub finish :
      String
      → Option String
      → String
      → ℕ
      → Outcome (Failure X) (Option V × Option String)
      → Action S X (Unit {0})
  unfolding content_of drain append_entry last_id make_entry canonicalise_content ◌>>=◌ next gets
      lift
  finish op txn_commit args_hash t0 r = do
    t1 ← calls.clock_now
    prev ← gets (λ s. last_id none (log.entries s))
    let canonical = canonicalise_content (content_of op txn_commit args_hash t0 t1 prev r)
    id ← lift (calls.content_hash canonical)
    entry ← lift (make_entry id canonical)
    append_entry entry
    drain entry

  -- `try … finally`: what the `finally` raises replaces the result.
  unfoldable pub try_finally :
      Action S X (Option V × Option String)
      → (Outcome (Failure X) (Option V × Option String) → Action S X (Unit {0}))
      → Action S X (Option V)
  unfolding ◌>>=◌ next lift pure
  try_finally body final s =
      let outcome = body s in (final outcome.0 >> (lift outcome.0 >>= λ p. pure p.0)) outcome.1

  -- `args.pop("_txn_commit", None)`, what it returns
  unfoldable pub popped_commit : Dict String V → Option String
  popped_commit args = elim (lookup "_txn_commit" args) [ none ↦ none | some v ↦ calls.text_of v ]

  unfoldable pub clause :
      String → Dict String V → (Dict String V → Action S X (Option V)) → Action S X (Option V)
  unfolding popped_commit try_finally try_body finish ◌>>=◌ next lift
  clause op args k =
      let txn_commit = popped_commit args in
      let clean = erase "_txn_commit" args in
      lift (calls.hash_args clean) >>= λ args_hash.
      calls.clock_now >>= λ t0. try_finally (try_body k clean) (finish op txn_commit args_hash t0)
