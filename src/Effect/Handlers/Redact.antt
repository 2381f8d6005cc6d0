-- ===== src/Effect/Handlers/Redact.antt =====
-- effect/handlers/pii_redact.py: `_redact_in_place` on the copy that the clause makes, as a function
-- from the arguments to the cleaned arguments, and effect/handlers/dry_run.py: the clause.
use Prim.Native.String.{◌++◌ as append}
use persistence_os.Base.{
  ◌≡◌, refl, String, Bool, true, false, not, ◌&&◌, ◌||◌, none, some, List, string_eq, ◌==◌,
  if◌then◌else◌, arith, Bool-cases, inl, inr,
}
use persistence_os.Base.Dict.{Dict, lookup}
use persistence_os.Effect.Action.{Action, pure}
use persistence_os.Base.Text.{contains}

-- Values as the traversal sees them: dicts, lists, and the rest.
mutual
  pub data Json (P : Type 0) : Type 0 where
    object : Members P → Json P
    array : Items P → Json P
    text : String → Json P
    primitive : P → Json P

  pub data Members (P : Type 0) : Type 0 where
    no_member : Members P
    member : String → Json P → Members P → Members P

  pub data Items (P : Type 0) : Type 0 where
    no_item : Items P
    item : Json P → Items P → Items P

-- `f"{prefix}.{key}" if prefix else key`
unfoldable pub full_path : String → String → String
full_path prefix key = if prefix == "" then key else append prefix (append "." key)

-- The schema: field names anywhere, and dotted paths.
pub record Schema : Type 0 where
  pub fields : List String
  pub paths : List String

unfoldable pub is_private : Schema → String → String → Bool
unfolding full_path contains
is_private schema prefix key =
    contains key schema.fields || contains (full_path prefix key) schema.paths

abbrev pub redacted : {P : Type 0} → Json P
redacted = Json.text "<REDACTED>"

module _ {P : Type 0} (schema : Schema) where
  unfoldable mutual
    pub redact : String → Json P → Json P
    redact prefix (Json.object ms) = Json.object (redact_members prefix ms)
    redact prefix (Json.array xs) = Json.array (redact_items prefix xs)
    redact prefix (Json.text s) = Json.text s
    redact prefix (Json.primitive p) = Json.primitive p

    pub redact_members : String → Members P → Members P
    redact_members prefix Members.no_member = Members.no_member
    redact_members prefix (Members.member key v ms) =
        let cleaned = redact (full_path prefix key) v in
        Members.member key (if is_private schema prefix key then redacted else cleaned)
          (redact_members prefix ms)

    pub redact_items : String → Items P → Items P
    redact_items prefix Items.no_item = Items.no_item
    redact_items prefix (Items.item v xs) = Items.item (redact prefix v) (redact_items prefix xs)

  -- What leaks: a private key that holds anything but the sentinel.
  abbrev is_sentinel : Json P → Bool
  is_sentinel (Json.text s) = s == "<REDACTED>"
  is_sentinel (Json.object _) = false
  is_sentinel (Json.array _) = false
  is_sentinel (Json.primitive _) = false

  unfoldable mutual
    pub is_clean : String → Json P → Bool
    is_clean prefix (Json.object ms) = members_clean prefix ms
    is_clean prefix (Json.array xs) = items_clean prefix xs
    is_clean prefix (Json.text s) = true
    is_clean prefix (Json.primitive p) = true

    pub members_clean : String → Members P → Bool
    members_clean prefix Members.no_member = true
    members_clean prefix (Members.member key v ms) =
        let inside = is_clean (full_path prefix key) v in
        (if is_private schema prefix key then is_sentinel v else inside) && members_clean prefix ms

    pub items_clean : String → Items P → Bool
    items_clean prefix Items.no_item = true
    items_clean prefix (Items.item v xs) = is_clean prefix v && items_clean prefix xs

  mutual
    unfolding redact redact_members redact_items is_clean members_clean items_clean

    redact-is_clean : (prefix : String) (v : Json P) → is_clean prefix (redact prefix v) ≡ true
    redact-is_clean prefix (Json.object ms) = members_lem prefix ms
    redact-is_clean prefix (Json.array xs) = items_lem prefix xs
    redact-is_clean prefix (Json.text s) = refl
    redact-is_clean prefix (Json.primitive p) = refl

    members_lem :
        (prefix : String) (ms : Members P) → members_clean prefix (redact_members prefix ms) ≡ true
    members_lem prefix Members.no_member = refl
    members_lem prefix (Members.member key v ms) =
        elim (Bool-cases (is_private schema prefix key)) [
          | inl e ↦ rw e (members_lem prefix ms)
          | inr e ↦ rw (e, redact-is_clean (full_path prefix key) v) (members_lem prefix ms)
        ]

    items_lem :
        (prefix : String) (xs : Items P) → items_clean prefix (redact_items prefix xs) ≡ true
    items_lem prefix Items.no_item = refl
    items_lem prefix (Items.item v xs) =
        ground (arith, redact-is_clean prefix v, items_lem prefix xs)

  -- After redaction each key that the schema names, by its name or its dotted path, holds the
  -- sentinel, at every depth.
  pub redact_cleans : (args : Json P) → is_clean "" (redact "" args) ≡ true
  redact_cleans args = redact-is_clean "" args

module _ {S X P R : Type 0} where
  unfoldable pub clause : Schema → Json P → (Json P → Action S X R) → Action S X R
  unfolding redact
  clause schema args k = k (redact schema "" args)

-- effect/handlers/dry_run.py: a mock is a value or a function of the arguments.
pub data Mock (A R : Type 0) : Type 0 where
  value : R → Mock A R
  callable : (A → R) → Mock A R

pub record DryRun (A R : Type 0) : Type 0 where
  pub mode : String
  pub mocks : Dict String (Mock A R)
  pub allow_live : List String

module _ {S X A R : Type 0} where
  unfoldable pub dry_run_clause : DryRun A R → String → A → (A → Action S X R) → Action S X R
  unfolding pure contains
  dry_run_clause ctx op args k =
      if not (ctx.mode == "dry-run") || contains op ctx.allow_live
      then k args
      else elim (lookup op ctx.mocks) [
        | none ↦ k args
        | some (Mock.value r) ↦ pure r
        | some (Mock.callable f) ↦ pure (f args)
      ]
