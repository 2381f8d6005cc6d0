-- ===== src/Effect/Audit/Rebuild.antt =====
-- effect/handlers/audit.py: canonical contents are fixed by `_canonicalise_content`, so the id that
-- is computed before `AuditEntry.__post_init__` is the id that `verify_chain` computes after it.
use persistence_os.Base.{
  ◌≡◌, refl, sym, String, false, ◌++◌, Option, none, some, List, [], ◌∷◌, ◌==◌, string_eq, arith,
  All, append-nil, append_assoc, map, Bool-cases, inl, inr,
}
use persistence_os.Base.Dict.{Dict, lookup, insert, lookup-insert}
use persistence_os.Base.Text.{lstrip, lstrip_idem, lstrip-with_colon}
use persistence_os.Effect.Audit.{Content, canonical_policy, rebuild, canonicalise_content}

-- No key stands twice.
abbrev pub IsUnique : {V : Type 0} → Dict String V → Type 0
IsUnique [] = Unit
IsUnique ((k, v) ∷ d) = (lookup k d ≡ none) × IsUnique d

abbrev pub IsBare : {V : Type 0} → Dict String V → Type 0
IsBare [] = Unit
IsBare ((k, v) ∷ d) = (lstrip k ≡ k) × IsBare d

canonical_policy_idem :
    (p : Option String) → canonical_policy (canonical_policy p) ≡ canonical_policy p
unfolding canonical_policy
canonical_policy_idem none = refl
canonical_policy_idem (some p) = rw (lstrip-with_colon (lstrip p), lstrip_idem p) refl

map-lstrip_idem : (l : List String) → map lstrip (map lstrip l) ≡ map lstrip l
map-lstrip_idem [] = refl
map-lstrip_idem (x ∷ l) = rw (lstrip_idem x, map-lstrip_idem l) refl

module _ {V : Type 0} where
  insert_new :
      (k : String) (v : V) (d : Dict String V) → lookup k d ≡ none → insert k v d ≡ d ++ (k, v) ∷ []
  unfolding lookup insert
  insert_new k v [] h = refl
  insert_new k v ((j, w) ∷ d) h = elim (Bool-cases (j == k)) [
    | inl e ↦ absurd (ground arith)
    | inr e ↦ ground (arith, insert_new k v d (ground arith))
  ]

  still_new :
      (k : String) (v : V) (j : String) (d : Dict String V)
      → (j == k) ≡ false
      → lookup j d ≡ none
      → lookup j (insert k v d) ≡ none
  still_new k v j d e h =
      ground (arith, lookup-insert k j v d, string_eq.equal_iff k j, string_eq.equal_iff j k)

  insert-IsUnique : (k : String) (v : V) (d : Dict String V) → IsUnique d → IsUnique (insert k v d)
  unfolding insert lookup
  insert-IsUnique k v [] u = (refl, tt)
  insert-IsUnique k v ((j, w) ∷ d) u = elim (Bool-cases (j == k)) [
    | inl e ↦ rw e (u.0, u.1)
    | inr e ↦ rw e (still_new k v j d e u.0, insert-IsUnique k v d u.1)
  ]

  insert-IsBare :
      (k : String) (v : V) (d : Dict String V) → lstrip k ≡ k → IsBare d → IsBare (insert k v d)
  unfolding insert
  insert-IsBare k v [] e h = (e, tt)
  insert-IsBare k v ((j, w) ∷ d) e h = elim (Bool-cases (j == k)) [
    | inl q ↦ rw q (h.0, h.1)
    | inr q ↦ rw q (h.0, insert-IsBare k v d e h.1)
  ]

  rebuild-IsUnique : (d p : Dict String V) → IsUnique d → IsUnique (rebuild d p)
  unfolding rebuild
  rebuild-IsUnique d [] u = u
  rebuild-IsUnique d ((k, v) ∷ p) u =
      rebuild-IsUnique (insert (lstrip k) v d) p (insert-IsUnique (lstrip k) v d u)

  rebuild-IsBare : (d p : Dict String V) → IsBare d → IsBare (rebuild d p)
  unfolding rebuild
  rebuild-IsBare d [] h = h
  rebuild-IsBare d ((k, v) ∷ p) h =
      rebuild-IsBare (insert (lstrip k) v d) p (insert-IsBare (lstrip k) v d (lstrip_idem k) h)

  -- None of the keys of `p` stands in `d`.
  abbrev IsApart : Dict String V → Dict String V → Type 0
  IsApart d p = All (λ e. lookup e.0 d ≡ none) p

  insert-IsApart :
      (k : String) (v : V) (d p : Dict String V)
      → lookup k p ≡ none
      → IsApart d p
      → IsApart (insert k v d) p
  unfolding lookup
  insert-IsApart k v d [] h a = tt
  insert-IsApart k v d ((j, w) ∷ p) h a = elim (Bool-cases (j == k)) [
    | inl e ↦ absurd (ground arith)
    | inr e ↦ (still_new k v j d e a.0, insert-IsApart k v d p (ground arith) a.1)
  ]

  IsApart-next :
      (k : String) (v : V) (d p : Dict String V)
      → IsUnique ((k, v) ∷ p)
      → IsApart d ((k, v) ∷ p)
      → IsApart (d ++ (k, v) ∷ []) p
  IsApart-next k v d p u a = rw (sym (insert_new k v d a.0)) (insert-IsApart k v d p u.0 a.1)

  all_new : (p : Dict String V) → IsApart [] p
  unfolding lookup
  all_new [] = tt
  all_new (e ∷ p) = (refl, all_new p)

  rebuild_bare : (d p : Dict String V) → IsBare p → IsUnique p → IsApart d p → rebuild d p ≡ d ++ p
  unfolding rebuild
  rebuild_bare d [] b u a = sym (append-nil d)
  rebuild_bare d ((k, v) ∷ p) b u a =
      rw
        (
          b.0,
          insert_new k v d a.0,
          rebuild_bare (d ++ (k, v) ∷ []) p b.1 u.1 (IsApart-next k v d p u a),
        )
        (append_assoc d ((k, v) ∷ []) p)

  rebuild_idem : (p : Dict String V) → rebuild [] (rebuild [] p) ≡ rebuild [] p
  rebuild_idem p =
      rebuild_bare [] (rebuild [] p) (rebuild-IsBare [] p tt) (rebuild-IsUnique [] p tt)
        (all_new (rebuild [] p))

  -- Canonicalising a content a second time changes nothing.
  pub canonicalise_content_idem :
      (c : Content V) → canonicalise_content (canonicalise_content c) ≡ canonicalise_content c
  unfolding canonicalise_content
  canonicalise_content_idem c =
      simp (
        canonical_policy_idem c.policy_id,
        map-lstrip_idem c.handler_chain,
        rebuild_idem c.principal,
      )
