-- ===== src/Effect/Audit/Chain.antt =====
-- effect/handlers/audit.py: what `verify_chain` accepts, and that an accepted log is determined by
-- its last id.
use persistence_os.Base.{
  ◌≡◌, refl, sym, ap, ◌∙◌, ◌↔◌, String, true, ◌++◌, Option, none, some, List, [], ◌∷◌, string_eq,
  Outcome, ok, err, Bool, false, ◌==◌, ◌&&◌, if◌then◌else◌, arith, reverse, some_inj, All, All-imp,
  All-reverse,
}
use persistence_os.Effect.Audit.{Content, AuditEntry, last_id, same_hash, verify_from, verify_chain}
use persistence_os.Effect.Action.{Failure}
use mathlib.Core.List.{reverse_aux, reverse-reverse}

if_passed :
    {X : Type 0} (b : Bool) (rest : Outcome (Failure X) Bool)
    → (if b then rest else ok false) ≡ ok true
    → (b ≡ true) × (rest ≡ ok true)
if_passed true rest e = (refl, e)
if_passed false rest e = absurd (cc e)

-- Where one step of the check and the rest end in True, all of its tests have passed.
verified_step :
    {X : Type 0} (o : Outcome (Failure X) String) (id : String) (linked : Bool)
    (rest : Outcome (Failure X) Bool)
    → elim o [ ok h ↦ if id == h && linked then rest else ok false | err x ↦ err x ] ≡ ok true
    → (o ≡ ok id) × (linked ≡ true) × (rest ≡ ok true)
verified_step (err x) id linked rest e = absurd (cc e)
verified_step (ok h) id linked rest e =
    let (good, passed) = if_passed (id == h && linked) rest e in
    (ap (λ w. ok w) (sym ((string_eq.equal_iff id h).0 (ground arith))), ground arith, passed)

pub same_hash_iff : (h k : Option String) → (same_hash h k ≡ true) ↔ (h ≡ k)
unfolding same_hash
same_hash_iff none none = ground arith
same_hash_iff (some h) (some k) = ground (arith, string_eq.equal_iff h k)
same_hash_iff none (some k) = ground arith
same_hash_iff (some h) none = ground arith

module _ {V X : Type 0} (content_hash : Content V → Outcome (Failure X) String) where
  -- The id of the newest entry, of a log that is listed from the newest.
  abbrev pub newest_id : List (AuditEntry V) → Option String
  newest_id [] = none
  newest_id (e ∷ es) = some e.id

  -- Each id is the digest of its content, and each `prev_hash` the id below it.
  abbrev pub IsLinked : List (AuditEntry V) → Type 0
  IsLinked [] = Unit
  IsLinked (e ∷ es) =
      (content_hash e.content ≡ ok e.id) × (e.content.prev_hash ≡ newest_id es) × IsLinked es

  -- No two different contents of the logs have one digest.
  abbrev pub AreApart : List (AuditEntry V) → List (AuditEntry V) → Type 0
  AreApart xs ys =
      All
        (λ x. All (λ y. content_hash x.content ≡ content_hash y.content → x.content ≡ y.content) ys)
        xs

  apart-reverse :
      (xs ys : List (AuditEntry V)) → AreApart xs ys → AreApart (reverse xs) (reverse ys)
  apart-reverse xs ys h =
      All-reverse
        (λ x.
          All (λ y. content_hash x.content ≡ content_hash y.content → x.content ≡ y.content)
            (reverse ys))
        xs
        (All-imp
          (λ x.
            All (λ y. content_hash x.content ≡ content_hash y.content → x.content ≡ y.content) ys)
          (λ x.
            All (λ y. content_hash x.content ≡ content_hash y.content → x.content ≡ y.content)
              (reverse ys))
          (λ x k.
            All-reverse
              (λ y. content_hash x.content ≡ content_hash y.content → x.content ≡ y.content) ys k)
          xs h)

  apart-rest :
      (x y : AuditEntry V) (xs ys : List (AuditEntry V))
      → AreApart (x ∷ xs) (y ∷ ys)
      → AreApart xs ys
  apart-rest x y xs ys h =
      All-imp
        (λ a.
          All (λ b. content_hash a.content ≡ content_hash b.content → a.content ≡ b.content)
            (y ∷ ys))
        (λ a. All (λ b. content_hash a.content ≡ content_hash b.content → a.content ≡ b.content) ys)
        (λ a k. k.1) xs h.1

  linked_unique :
      (xs ys : List (AuditEntry V))
      → AreApart xs ys
      → IsLinked xs
      → IsLinked ys
      → newest_id xs ≡ newest_id ys
      → xs ≡ ys
  linked_unique [] [] apart p q e = refl
  linked_unique [] (y ∷ ys) apart p q e = cc
  linked_unique (x ∷ xs) [] apart p q e = cc
  linked_unique (x ∷ xs) (y ∷ ys) apart p q e =
      let heads : x.content ≡ y.content = apart.0.0 (cc) in
      let tails : xs ≡ ys = linked_unique xs ys (apart-rest x y xs ys apart) p.2 q.2 (cc) in
      let ids : x.id ≡ y.id = some_inj e in λ i. record { id = ids i; content = heads i } ∷ tails i

  verify_from_iff :
      (xs below : List (AuditEntry V))
      → IsLinked below
      → verify_from content_hash (newest_id below) xs ≡ ok true
      → IsLinked (reverse_aux xs below)
        × (newest_id (reverse_aux xs below) ≡ last_id (newest_id below) xs)
  unfolding verify_from last_id
  verify_from_iff [] below p h = (p, refl)
  verify_from_iff (x ∷ xs) below p h =
      let (hashed, linked, rest) =
        verified_step (content_hash x.content) x.id
          (same_hash x.content.prev_hash (newest_id below))
          (verify_from content_hash (some x.id) xs) h in
      verify_from_iff xs (x ∷ below)
        (hashed, (same_hash_iff x.content.prev_hash (newest_id below)).0 linked, p) rest

  verify_from-append :
      (prev : Option String) (xs : List (AuditEntry V)) (e : AuditEntry V)
      → verify_from content_hash prev xs ≡ ok true
      → content_hash e.content ≡ ok e.id
      → e.content.prev_hash ≡ last_id prev xs
      → verify_from content_hash prev (xs ++ e ∷ []) ≡ ok true
  unfolding verify_from last_id
  verify_from-append prev [] e v i p =
      rw (i, (string_eq.equal_iff e.id e.id).1 refl, (same_hash_iff e.content.prev_hash prev).1 p)
        refl
  verify_from-append prev (x ∷ xs) e v i p =
      let (hashed, linked, rest) =
        verified_step (content_hash x.content) x.id (same_hash x.content.prev_hash prev)
          (verify_from content_hash (some x.id) xs) v in
      rw
        (
          hashed,
          (string_eq.equal_iff x.id x.id).1 refl,
          linked,
          verify_from-append (some x.id) xs e rest i p,
        )
        refl

  pub verify_chain-append :
      (xs : List (AuditEntry V)) (e : AuditEntry V)
      → verify_chain content_hash xs ≡ ok true
      → content_hash e.content ≡ ok e.id
      → e.content.prev_hash ≡ last_id none xs
      → verify_chain content_hash (xs ++ e ∷ []) ≡ ok true
  unfolding verify_chain
  verify_chain-append xs e v i p = verify_from-append none xs e v i p

  -- Two logs that verify_chain accepts and that end in the same id are equal, where no two
  -- different contents of the two have one digest.
  pub verify_chain_unique :
      (xs ys : List (AuditEntry V))
      → AreApart xs ys
      → verify_chain content_hash xs ≡ ok true
      → verify_chain content_hash ys ≡ ok true
      → last_id none xs ≡ last_id none ys
      → xs ≡ ys
  verify_chain_unique xs ys apart p q e =
      let a = verify_from_iff xs [] tt (unfold verify_chain in p) in
      let b = verify_from_iff ys [] tt (unfold verify_chain in q) in
      let same : reverse xs ≡ reverse ys =
        linked_unique (reverse xs) (reverse ys) (apart-reverse xs ys apart) a.0 b.0
          (a.1 ∙ (e ∙ sym b.1)) in
      sym (reverse-reverse xs) ∙ (ap reverse same ∙ reverse-reverse ys)
