-- ===== src/Effect/Handlers/Retry.antt =====
-- effect/handlers/retry.py: the clause of `make_retry_handler`. `:random` and `:sleep` are actions
-- that the clause is given; jitter and backoff are whole milliseconds.
use persistence_os.Base.{
  ℕ, zero, suc, ◌+◌, ◌*◌, ◌^◌, ◌≤◌, ◌≡◌, refl, ◌∙◌, Bool, true, false, Outcome, ok, err,
  if◌then◌else◌, arith, num_eq, Bool-cases, inl, inr,
}
use persistence_os.Effect.Action.{Action, Failure, no_result, raise, next, ◌>>=◌, ◌>>◌}

pub record Settings (S X : Type 0) : Type 0 where
  pub max_attempts : ℕ
  pub base_backoff_ms : ℕ
  pub is_retryable : Failure X → Bool
  pub jitter : Action S X ℕ
  pub sleep : ℕ → Action S X (Unit {0})

unfoldable pub backoff : {S X : Type 0} → Settings S X → ℕ → ℕ → ℕ
backoff settings attempt jitter = settings.base_backoff_ms * 2 ^ attempt + jitter

module _ {S X R : Type 0} (settings : Settings S X) where
  -- `except ctx["retryable"]`: on the last attempt, and for another exception, it is raised again.
  unfoldable pub handle : ℕ → ℕ → Action S X R → Outcome (Failure X) R → Action S X R
  unfolding backoff ◌>>=◌ next
  handle left attempt again (ok r) s = (ok r, s)
  handle left attempt again (err e) s =
      if settings.is_retryable e
      then if num_eq left 0
        then (err e, s)
        else ((settings.jitter >>= λ j. settings.sleep (backoff settings attempt j)) >> again) s
      else (err e, s)

  -- Whether the loop ends with a result when so many attempts are left.
  abbrev pub is_final : ℕ → Outcome (Failure X) R → Bool
  is_final left (ok r) = true
  is_final left (err e) = if settings.is_retryable e then num_eq left 0 else true

  final_lem :
      (left attempt : ℕ) (again : Action S X R) (r : Outcome (Failure X) R) (s : S)
      → is_final left r ≡ true
      → handle left attempt again r s ≡ (r, s)
  unfolding handle
  final_lem left attempt again (ok r) s h = refl
  final_lem left attempt again (err e) s h = ground arith

  again_lem :
      (left attempt j : ℕ) (again : Action S X R) (e : Failure X) (s1 s2 s3 : S)
      → settings.is_retryable e ≡ true
      → settings.jitter s1 ≡ (ok j, s2)
      → settings.sleep (backoff settings attempt j) s2 ≡ (ok tt, s3)
      → handle (suc left) attempt again (err e) s1 ≡ again s3
  unfolding handle ◌>>=◌ next
  again_lem left attempt j again e s1 s2 s3 retry rolled slept =
      let early : num_eq (suc left) 0 ≡ false = ground arith in
      rw (retry, rolled, slept, early) refl

module _ {S X R : Type 0} (settings : Settings S X) (calls : S → ℕ) (left attempt : ℕ)
    (again : Action S X R) where
  after_sleep :
      ((s : S) → calls (again s).1 ≤ calls s + left)
      → (o : Outcome (Failure X) (Unit {0})) (s : S)
      → calls (next (o, s) (λ _. again)).1 ≤ calls s + left
  unfolding next
  after_sleep bound (ok tt) s = bound s
  after_sleep bound (err e) s = omega arith

  after_jitter :
      ((n : ℕ) (s : S) → calls (settings.sleep n s).1 ≡ calls s)
      → ((s : S) → calls (again s).1 ≤ calls s + left)
      → (o : Outcome (Failure X) ℕ) (s : S)
      → calls (next (next (o, s) (λ j. settings.sleep (backoff settings attempt j))) (λ _. again)).1
        ≤ calls s + left
  unfolding next
  after_jitter silent bound (ok j) s =
      let slept = settings.sleep (backoff settings attempt j) s in
      omega (arith, after_sleep bound slept.0 slept.1, silent (backoff settings attempt j) s)
  after_jitter silent bound (err e) s = omega arith

  calls-handle :
      ((s : S) → calls (settings.jitter s).1 ≡ calls s)
      → ((n : ℕ) (s : S) → calls (settings.sleep n s).1 ≡ calls s)
      → ((s : S) → calls (again s).1 ≤ calls s + left)
      → {s0 : S} (r : Outcome (Failure X) R) (s : S) → calls s ≤ suc (calls s0)
      → calls (handle settings left attempt again r s).1 ≤ calls s0 + suc left
  unfolding handle ◌>>=◌
  calls-handle still silent bound (ok r) s one = omega arith
  calls-handle still silent bound (err e) s one =
      let rolled = settings.jitter s in
      let waited = after_jitter silent bound rolled.0 rolled.1 in
      elim (Bool-cases (settings.is_retryable e)) [
        | inr f ↦ rw f (omega arith)
        | inl f ↦ elim (Bool-cases (num_eq left 0)) [
          | inl g ↦ rw (f, g) (omega arith)
          | inr g ↦ rw (f, g) (omega (arith, waited, still s))
        ]
      ]

module _ {S X A R : Type 0} (settings : Settings S X) where
  -- The loop, with the number of attempts that are left.
  unfoldable pub attempts : ℕ → ℕ → A → (A → Action S X R) → Action S X R
  unfolding handle raise
  attempts zero attempt args k s = raise no_result s
  attempts (suc left) attempt args k s =
      let again = attempts left (suc attempt) args k in
      handle settings left attempt again (k args s).0 (k args s).1

  unfoldable pub clause : A → (A → Action S X R) → Action S X R
  unfolding attempts
  clause args k = attempts settings.max_attempts 0 args k

  -- A number of failed attempts in a row, each with its backoff, from the attempt of a number on.
  pub data Fails (k : A → Action S X R) (args : A) : ℕ → ℕ → S → S → Type 0 where
    stop : (a : ℕ) (s : S) → Fails k args a 0 s s
    more :
        (a n : ℕ) (s s1 s2 s3 t : S) (e : Failure X) (j : ℕ)
        → k args s ≡ (err e, s1)
        → settings.is_retryable e ≡ true
        → settings.jitter s1 ≡ (ok j, s2)
        → settings.sleep (backoff settings a j) s2 ≡ (ok tt, s3)
        → Fails k args (suc a) n s3 t
        → Fails k args a (suc n) s t

  attempts_lem :
      (total left : ℕ) (k : A → Action S X R) (args : A) (a n : ℕ) (s t u : S)
      (r : Outcome (Failure X) R)
      → total ≡ suc (left + n)
      → Fails k args a n s t
      → k args t ≡ (r, u)
      → is_final settings left r ≡ true
      → attempts total a args k s ≡ (r, u)
  unfolding attempts
  attempts_lem zero left k args a n s t u r most fails run final = absurd (omega arith)
  attempts_lem (suc m) left k args a zero s t u r most (Fails.stop b w) run final =
      let same : left ≡ m = omega arith in
      rw (run, ← same) (final_lem settings left a (attempts left (suc a) args k) r u final)
  attempts_lem (suc zero) left k args a (suc n) s t u r most fails run final = absurd (omega arith)
  attempts_lem (suc (suc m)) left k args a (suc n) s t u r most
        (Fails.more b q w s1 s2 s3 z e j failed retry rolled slept rest) run final =
      rw failed (
        again_lem settings m a j (attempts (suc m) (suc a) args k) e s1 s2 s3 retry rolled slept
        ∙ attempts_lem (suc m) left k args (suc a) n s3 t u r (omega arith) rest run final)

  -- After a number of failed attempts below max_attempts, each with its backoff, the retry clause
  -- ends with the outcome of the next attempt if that is a result, an exception that is not
  -- retryable, or the exception of the last attempt.
  pub clause-Fails :
      (left n : ℕ) (k : A → Action S X R) (args : A) (s t u : S) (r : Outcome (Failure X) R)
      → settings.max_attempts ≡ suc (left + n)
      → Fails k args 0 n s t
      → k args t ≡ (r, u)
      → is_final settings left r ≡ true
      → clause args k s ≡ (r, u)
  unfolding clause
  clause-Fails left n k args s t u r most fails run final =
      attempts_lem settings.max_attempts left k args 0 n s t u r most fails run final

  -- If a call below raises a counter by at most one, and jitter and sleep leave it, then the retry
  -- loop raises it by at most the number of attempts that are left.
  pub attempts_bounded :
      (calls : S → ℕ) (k : A → Action S X R) (args : A)
      → ((s : S) → calls (k args s).1 ≤ suc (calls s))
      → ((s : S) → calls (settings.jitter s).1 ≡ calls s)
      → ((n : ℕ) (s : S) → calls (settings.sleep n s).1 ≡ calls s)
      → (left attempt : ℕ) (s : S) → calls (attempts left attempt args k s).1 ≤ calls s + left
  unfolding attempts raise
  attempts_bounded calls k args one still silent zero attempt s = omega arith
  attempts_bounded calls k args one still silent (suc left) attempt s =
      calls-handle settings calls left attempt (attempts left (suc attempt) args k) still silent
        (attempts_bounded calls k args one still silent left (suc attempt)) (k args s).0
        (k args s).1 (one s)
