-- ===== src/Effect/Action.antt =====
-- Python code that changes state and may raise: the state comes back after a raise too, since what
-- was written stays written.
use persistence_os.Base.{◌≡◌, refl, ap, Bool, true, false, Outcome, ok, err, if◌then◌else◌}

-- What escapes: `Unhandled`, the `ValueError` and `RuntimeError` that the handlers raise, or an
-- exception of the code that they call.
pub data Failure (X : Type 0) : Type 0 where
  unhandled : Failure X
  bad_entry : Failure X
  no_result : Failure X
  raised : X → Failure X

abbrev pub Action : Type 0 → Type 0 → Type 0 → Type 0
Action S X A = S → Outcome (Failure X) A × S

module _ {S X A : Type 0} where
  unfoldable pub pure : A → Action S X A
  pure a s = (ok a, s)

  unfoldable pub raise : Failure X → Action S X A
  raise e s = (err e, s)

  unfoldable pub lift : Outcome (Failure X) A → Action S X A
  lift r s = (r, s)

  unfoldable pub gets : (S → A) → Action S X A
  gets f s = (ok (f s), s)

  -- The invariant `P` is kept, whether the action returns or raises.
  pub record Keeps (P : S → Type 0) (m : Action S X A) : Type 0 where
    pub at : (s : S) → P s → P (m s).1

  pub Keeps-gets : {P : S → Type 0} (f : S → A) → Keeps P (gets f)
  unfolding gets
  Keeps-gets f = record { at = λ t kept. kept }

  pub Keeps-lift : {P : S → Type 0} (r : Outcome (Failure X) A) → Keeps P (lift r)
  unfolding lift
  Keeps-lift r = record { at = λ t kept. kept }

  pub Keeps-raise : {P : S → Type 0} (e : Failure X) → Keeps P (raise e)
  unfolding raise
  Keeps-raise e = record { at = λ t kept. kept }

  pub Keeps-pure : {P : S → Type 0} (a : A) → Keeps P (pure a)
  unfolding pure
  Keeps-pure a = record { at = λ t kept. kept }

  pub Keeps-if :
      {P : S → Type 0} (b : Bool) (m n : Action S X A)
      → Keeps P m
      → Keeps P n
      → Keeps P (if b then m else n)
  Keeps-if true m n km kn = km
  Keeps-if false m n km kn = kn

module _ {S X A B : Type 0} where
  unfoldable pub next : Outcome (Failure X) A × S → (A → Action S X B) → Outcome (Failure X) B × S
  next (ok a, s) f = f a s
  next (err e, s) f = (err e, s)

  infixl 5 ◌>>=◌ ◌>>◌
  unfoldable pub ◌>>=◌ : Action S X A → (A → Action S X B) → Action S X B
  unfolding next pure raise lift gets
  ◌>>=◌ m f s = next (m s) f

  abbrev pub ◌>>◌ : Action S X A → Action S X B → Action S X B
  m >> k = m >>= λ _. k

  next_keeps :
      (P : S → Type 0) (f : A → Action S X B)
      → ((a : A) → Keeps P (f a))
      → (r : Outcome (Failure X) A) (s : S) → P s
      → P (next (r, s) f).1
  unfolding next
  next_keeps P f kf (ok a) s h = (kf a).at s h
  next_keeps P f kf (err e) s h = h

  pub Keeps-bind :
      {P : S → Type 0} (m : Action S X A) (f : A → Action S X B)
      → Keeps P m
      → ((a : A) → Keeps P (f a))
      → Keeps P (m >>= f)
  unfolding ◌>>=◌
  Keeps-bind {P} m f km kf = record { at = λ s h. next_keeps P f kf (m s).0 (m s).1 (km.at s h) }

module _ {S X A B : Type 0} where
  next-eq-ok :
      (r : Outcome (Failure X) A) (t : S) (f : A → Action S X B) (b : B) (u : S)
      → next (r, t) f ≡ (ok b, u)
      → (a : A) × (r ≡ ok a) × (f a t ≡ (ok b, u))
  unfolding next
  next-eq-ok (ok a) t f b u h = (a, refl, h)
  next-eq-ok (err e) t f b u h = absurd (cc h)

  -- Where a bind returned, its parts did.
  pub >>=-eq-ok :
      (m : Action S X A) (f : A → Action S X B) (b : B) (s u : S)
      → (m >>= f) s ≡ (ok b, u)
      → (a : A) × (t : S) × (m s ≡ (ok a, t)) × (f a t ≡ (ok b, u))
  unfolding ◌>>=◌
  >>=-eq-ok m f b s u h =
      let (a, returned, rest) = next-eq-ok (m s).0 (m s).1 f b u h in
      (a, (m s).1, ap (λ (r : Outcome (Failure X) A). (r, (m s).1)) returned, rest)

pub pure-eq-ok :
    {S X A : Type 0} (a b : A) (s u : S) → pure {S = S} {X = X} a s ≡ (ok b, u) → (a ≡ b) × (s ≡ u)
unfolding pure
pure-eq-ok a b s u h = (cc h, cc h)

pub ruleset keeps_rules = (Keeps-pure, Keeps-raise, Keeps-lift, Keeps-gets, Keeps-if, Keeps-bind)

-- A part of the state, `ctx` of a handler, and that writing it there is read back.
pub record Cell (S C : Type 0) : Type 0 where
  pub get : S → C
  pub set : C → S → S
  pub get-set : (c : C) (s : S) → get (set c s) ≡ c
