-- ===== src/Lib.antt =====
-- persistence-os: a substrate for agents that keeps facts, effects and transactions in append-only
-- logs. This library models the core of its Python package.
--
-- The parts, and how they interact
--
--   Fact     src/persistence/fact: the bitemporal log. `DB.transact` and `DB.transact_batch` shape fact
--            dicts into datoms, close the open assert of the attribute with a companion retract, and
--            append under one id; `DBView.entity` reads.
--   Effect   src/persistence/effect: a stack of handlers with continuations (`Runtime.perform`), and
--            the handlers audit, retry, cache, policy, rate-limit, pii-redact and dry-run.
--   Txn      src/persistence/txn: transactions over the log of Fact. A body reads a snapshot and queues
--            writes; the commit checks for newer datoms, resolves commutes and calls
--            `DB.transact_batch`; `_run` tries again on a conflict. Atoms write
--            through `DB.transact`. A fork tries branches and queues intents on the transaction.
--   Plan     src/persistence/plan: plan trees whose nodes are named by their content. The walk visits
--            them in order, execute runs a handler per tag, and the edits rewrite a tree inside a
--            dosync and queue an intent.
--   Replay   src/persistence/replay/effect_handler.py: a handler that records what the effects below it
--            return, and in replay serves it from the tape. src/persistence/replay/engine.py runs an agent
--            over observations, and again from an intervention on.
--   Repl     src/persistence/repl/_caps.py: capability tokens that are kept as facts.
--   Base     what the others share: tests, results, lists, dicts, texts.
--
-- Where the code stands
--
--   fact/datom.py, and `with_tx` of store/_codec.py          Fact/Datom
--   fact/store.py (`InMemoryStore`)                          Fact/Store
--   fact/db.py, one fact of a call                           Fact/Shape
--   fact/db.py (`DB.transact`, `DB.transact_batch`)          Fact/Transact
--   fact/db.py (`DB.fold`)                                   Fact/Fold
--   fact/db.py (`DB.as_of`, `history`, `DBView.entity`)      Fact/View
--   effect/runtime.py                                        Effect/Runtime
--   effect/handlers/audit.py                                 Effect/Audit
--   effect/handlers/retry.py, cache.py                       Effect/Handlers/Retry, Cache
--   effect/policy_eval.py, effect/handlers/policy.py         Effect/Handlers/Policy
--   effect/handlers/rate_limit.py                            Effect/Handlers/RateLimit
--   effect/handlers/pii_redact.py, dry_run.py                Effect/Handlers/Redact
--   txn/transaction.py (`Transaction`), txn/ref.py           Txn/Transaction
--   txn/conflict.py                                          Txn/Conflict
--   txn/transaction.py (commit)                              Txn/Commit
--   txn/transaction.py (`_run`)                              Txn/Run
--   txn/atom.py, txn/_db_extension.py (`_atom`)              Txn/Atom
--   fact/_fork.py                                            Txn/Fork
--   plan/_ast.py                                             Plan/Node
--   plan/_edit.py                                            Plan/Edit
--   plan/_walk.py, plan/_dispatch.py                         Plan/Walk
--   plan/_execute.py (`execute`)                             Plan/Execute
--   replay/effect_handler.py                                 Replay
--   replay/engine.py (`record`, `replay`)                    Replay/Engine
--   repl/_caps.py                                            Repl/Caps
--
-- The modules below these hold the proofs; modules called Samples hold tests and concrete inputs.
--
-- How the code is modelled
--
--   * A store is its log, a list of datoms in insertion order; its lock makes each call one step. A
--     function that writes goes from the log to the new log, and what it raises is an `Outcome`.
--   * A handler's clause is an action on a state that may raise and keeps what it has written
--     (Effect/Action). A `with mask(...)` block is an argument, the frames of the mask.
--   * A handler's `ctx` is a part of that state, which the clause reaches by a record of accessors with
--     their law (`Log`, `Cell`).
--   * Values of type `Any` are an abstract type. What the code asks of them (equality, hashing, JSON,
--     SHA-256, ISO texts, `re.search`) is the interface `Python`, or a record of the handler.
--   * Clock readings are arguments or actions. Instants are natural numbers: microseconds in Fact, whole
--     milliseconds in Effect, where the source has floats.
--   * The rate limiter counts thousandths of a token, `refill_per_sec` of them a millisecond, so that its
--     arithmetic is exact where the source has floats; a rate is a natural number.
--   * A plan is a tree with its own type of child lists, so the edits and the walk are structural. The id
--     of a node is the digest of its canonical text, both parameters; the attributes are values that have
--     such a text.
--   * The agent of the replay engine is an action on its session, that is the effect handler with its tape
--     and the random generators, which record and replay open first. The outcome and the hash of a
--     trajectory, and what else is copied from the parent than the seeds, are left out.
--   * The approval function of a policy, the digest of an audit entry, its sink, the function of a commute
--     or an alter, and the decoding of a token may raise; the approval function and the sink may also
--     change the state.
--   * A reducer of a fold and the callback of a fork return or raise; they do not write to the database
--     themselves.
--   * A transaction id is the placeholder -1 or a natural number.
--   * A ref is compared by entity and database only, as in the source, so sets and dicts of refs are
--     lists with that test and not `Dict`.
--   * The loops are structural: over facts, datoms, handlers and rules, and for `_run` and the retry
--     handler over the attempts that are left, `max_retries + 1` and `max_attempts`. What other
--     transactions commit between an attempt's reads and its commit is part of the attempt.
--
-- What is not modelled
--
--   SQLite and Postgres stores (SQL), wire forms, `DB.branch`, projections, the datom form of audit
--   entries, the replay of queued intents through the runtime after a commit, of the plan package the
--   parser, the attribute coercions, the optimizer, the tree search and the promotion gates, of the
--   replay package the wire forms of trajectories and their comparison, the spec and sdk packages,
--   and the repl beside its tokens. Aliasing of dicts that the source mutates in place (`args.pop`,
--   `principal.update`) is left out: callees get the changed dict.
pub mod Base
pub mod Fact
pub mod Effect
pub mod Txn
pub mod Plan
pub mod Repl
pub mod Replay
