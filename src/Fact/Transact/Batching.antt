-- ===== src/Fact/Transact/Batching.antt =====
-- fact/db.py: the indexed loop of `transact_batch` against the scanning loop of `transact`.
use persistence_os.Base.{
  String, Bool, true, false, ◌++◌, Option, none, some, List, [], ◌∷◌, reverse, ◌≡◌, refl, ◌∙◌, inl,
  inr, Outcome-cases, string_eq, pair_eq, if◌then◌else◌, first, first-append, or_else, ok, arith,
  All,
}
use mathlib.Core.List.{reverse-append}
use text.Mathlib.TextEquality.{eq_iff}
use persistence_os.Base.Dict.{lookup, erase, lookup-insert, lookup-erase}
use persistence_os.Base.Text.{lstrip}
use persistence_os.Fact.Datom.{TxId, Datetime, is_assert, is_assert_text, Fact, Python, Datom}
use persistence_os.Fact.Shape.{
  is_open, is_open_at, find_prior_assert, op_or_assert, coerce_end, Call, Shaped, shape,
}
use persistence_os.Fact.Shape.Rounds.{
  IsShaped, shape-IsShaped, Closes, AreRetracts, Closes-AreRetracts, supersede-Closes,
}
use persistence_os.Fact.Transact.{
  Index, Pending, nothing_pending, companions, add, index_datom, build_index, update_open,
  shape_all, shape_batch, transact, transact_batch,
}

module _ {V : Type 0} where
  find-append :
      (xs ys : List (Datom V)) (e a : String)
      → find_prior_assert (xs ++ ys) e a
        ≡ or_else (find_prior_assert ys e a) (find_prior_assert xs e a)
  unfolding find_prior_assert
  find-append xs ys e a =
      rw reverse-append (first-append (is_open_at e a) (reverse ys) (reverse xs))

  find-one :
      (d : Datom V) (e a : String)
      → find_prior_assert (d ∷ []) e a ≡ (if is_open_at e a d then some d else none)
  unfolding find_prior_assert first
  find-one d e a = ground arith

  lookup-index_datom :
      (e a : String) (index : Index V) (d : Datom V)
      → lookup (e, a) (index_datom index d)
        ≡ or_else (lookup (e, a) index) (if is_open_at e a d then some d else none)
  unfolding index_datom is_open_at
  lookup-index_datom e a index d =
      ground (arith, lookup-insert (d.e, d.a) (e, a) d index, eq_iff d.e e, eq_iff d.a a)

  -- The index answers as the scan from the newest datom does.
  lookup-build_index :
      (e a : String) (index : Index V) (ds : List (Datom V))
      → lookup (e, a) (build_index index ds)
        ≡ or_else (lookup (e, a) index) (first (is_open_at e a) ds)
  unfolding build_index first
  lookup-build_index e a index [] = ground arith
  lookup-build_index e a index (d ∷ ds) =
      ground
        (arith, lookup-build_index e a (index_datom index d) ds, lookup-index_datom e a index d)

  -- A retract is no prior assert, so a companion changes no later scan.
  find-companions :
      (comp : Option (Datom V × TxId)) (e a : String)
      → AreRetracts comp
      → find_prior_assert (companions comp) e a ≡ none
  unfolding find_prior_assert is_open_at is_open first
  find-companions none e a h = refl
  find-companions (some (d, t)) e a h = ground arith

  find-add :
      (p : Pending V) (s : Shaped V) (e a : String)
      → AreRetracts s.companion
      → find_prior_assert (add p s).new_datoms e a
        ≡ (if is_open_at e a s.datom then some s.datom else find_prior_assert p.new_datoms e a)
  unfolding add
  find-add p s e a h = ground (
    arith,
    find-append p.new_datoms (companions s.companion ++ s.datom ∷ []) e a,
    find-append (companions s.companion) (s.datom ∷ []) e a,
    find-companions s.companion e a h,
    find-one s.datom e a,
  )

-- A fact that the two loops treat alike: a bare attribute, and no end if it asserts.
pub record IsPlain {V : Type 0} ⦃py : Python V⦄ (f : Fact V) : Type 0 where
  pub bare : lstrip f.a ≡ f.a
  pub open_ended :
      is_assert_text (op_or_assert f.op) ≡ true → coerce_end py.fromisoformat f.valid_to ≡ ok none

-- The in-batch index answers as a scan of the datoms built so far.
abbrev Tracks : {V : Type 0} → Index V → Pending V → Type 0
Tracks opened p = (e a : String) → lookup (e, a) opened ≡ find_prior_assert p.new_datoms e a

-- What the step needs of the datom that a fact became.
record IsEntry {V : Type 0} (f : Fact V) (asserts : Bool) (s : Shaped V) : Type 0 where
  entity : s.datom.e ≡ f.e
  attribute : s.datom.a ≡ f.a
  kind : is_assert s.datom.op ≡ asserts
  pointer : s.datom.invalidated_by ≡ none
  open_ended : asserts ≡ true → s.datom.valid_to ≡ none
  closed : asserts ≡ false → s.companion ≡ none

module _ {V : Type 0} where
  lookup-update_open :
      (f : Fact V) (asserts : Bool) (s : Shaped V) (opened : Index V) (e a : String)
      → IsEntry f asserts s
      → lookup (e, a) (update_open f asserts s opened)
        ≡ (if is_open_at e a s.datom then some s.datom else lookup (e, a) opened)
  unfolding update_open is_open_at
  lookup-update_open f true s opened e a h = ground (
    arith,
    h.entity,
    h.attribute,
    h.kind,
    h.pointer,
    h.open_ended refl,
    lookup-insert (f.e, f.a) (e, a) s.datom opened,
    lookup-insert (f.e, f.a) (e, a) s.datom (erase (f.e, f.a) opened),
    lookup-erase (f.e, f.a) (e, a) opened,
  )
  lookup-update_open f false s opened e a h = ground (arith, h.kind, h.closed refl)

  update_open-Tracks :
      (f : Fact V) (asserts : Bool) (s : Shaped V) (opened : Index V) (p : Pending V)
      → IsEntry f asserts s
      → AreRetracts s.companion
      → Tracks opened p
      → Tracks (update_open f asserts s opened) (add p s)
  update_open-Tracks f asserts s opened p entry retracts tracks e a =
      rw (lookup-update_open f asserts s opened e a entry, find-add p s e a retracts, tracks e a)

  closed_lem :
      (c : Call V) (vf : Datetime) (b : Bool) (prior : Option (Datom V))
      (comp : Option (Datom V × TxId))
      → Closes c vf b prior comp
      → b ≡ false
      → comp ≡ none
  closed_lem c vf true prior comp h e = cc
  closed_lem c vf false prior comp h e = h

  lookup-prior_index :
      (log : List (Datom V)) (e a : String)
      → lookup (e, a) (build_index [] (reverse log)) ≡ find_prior_assert log e a
  unfolding find_prior_assert lookup
  lookup-prior_index log e a = lookup-build_index e a [] (reverse log)

  same_prior :
      (log : List (Datom V)) (e a : String) (opened : Index V) (p : Pending V)
      → Tracks opened p
      → or_else (lookup (e, a) opened) (lookup (e, a) (build_index [] (reverse log)))
        ≡ find_prior_assert (log ++ p.new_datoms) e a
  same_prior log e a opened p tracks =
      rw (tracks e a, lookup-prior_index log e a, find-append log p.new_datoms e a)

  no_entry : Tracks {V = V} [] nothing_pending
  unfolding find_prior_assert lookup first
  no_entry e a = refl

module _ {V : Type 0} ⦃py : Python V⦄ (c : Call V) where
  shaped-IsEntry :
      (f : Fact V) (prior : Option (Datom V)) (s : Shaped V)
      → IsPlain f
      → IsShaped c f prior s
      → IsEntry f (is_assert_text (op_or_assert f.op)) s × AreRetracts s.companion
  shaped-IsEntry f prior s plain r =
      let asserts = is_assert_text (op_or_assert f.op) in
      let closes = supersede-Closes c r.start asserts prior s.companion r.closing in
      (
        record {
          entity = r.made.entity;
          attribute = r.made.attribute ∙ plain.bare;
          kind = r.made.kind;
          pointer = r.made.pointer;
          open_ended = λ h. ground (arith, r.made.stop, r.ended, plain.open_ended h);
          closed = closed_lem c r.start asserts prior s.companion closes;
        },
        Closes-AreRetracts c r.start asserts prior s.companion closes,
      )

  shape_batch-shape_all :
      (log : List (Datom V)) (fs : List (Fact V)) (opened : Index V) (p : Pending V)
      → All IsPlain fs
      → Tracks opened p
      → shape_batch c (build_index [] (reverse log)) fs opened p ≡ shape_all c log fs p
  unfolding shape_batch shape_all
  shape_batch-shape_all log [] opened p plain tracks = refl
  shape_batch-shape_all log (f ∷ fs) opened p plain tracks =
      rw (same_prior log f.e f.a opened p tracks) (
        let prior = find_prior_assert (log ++ p.new_datoms) f.e f.a in
        elim (Outcome-cases (shape c f prior)) [
          | inr (x, e) ↦ rw e
          | inl (s, e) ↦
              let (entry, retracts) =
                shaped-IsEntry f prior s plain.0 (shape-IsShaped c f prior e) in
              rw e (
                shape_batch-shape_all log fs
                  (update_open f (is_assert_text (op_or_assert f.op)) s opened) (add p s) plain.1
                  (update_open-Tracks f _ s opened p entry retracts tracks))
        ])

  -- On facts with bare attributes whose asserts have no end, transact_batch returns the log or
  -- raises the error that transact does.
  pub transact_batch-transact :
      (fs : List (Fact V)) (log : List (Datom V))
      → All IsPlain fs
      → transact_batch c fs log ≡ transact c fs log
  unfolding transact_batch transact
  transact_batch-transact [] log plain = refl
  transact_batch-transact (f ∷ fs) log plain =
      rw (shape_batch-shape_all log (f ∷ fs) [] nothing_pending plain no_entry)
