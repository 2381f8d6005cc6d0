-- ===== src/Base/Text.antt =====
-- What the source does with texts: `s.lstrip(":")`, `s[:n]`, and a leading colon put in front.
use Prim.Native.Nat.{ℕ, zero, suc}
use Prim.Native.Char.{code}
use Prim.Native.String.{String}
use mathlib.Core.Path.{◌≡◌, refl}
use mathlib.Core.Bool.{Bool, true, false}
use native.Mathlib.Omega.{arith}
use mathlib.Core.List.{List, [], ◌∷◌}
use persistence_os.Base.Tests.{num_eq, ltb, if◌then◌else◌, ◌==◌, string_eq}

-- `s.lstrip(":")`
unfoldable pub lstrip : String → String
lstrip String.[] = String.[]
lstrip (String.◌∷◌ c s) = elim (num_eq (code c) b':') [ true ↦ lstrip s | false ↦ String.◌∷◌ c s ]

pub lstrip_idem : (s : String) → lstrip (lstrip s) ≡ lstrip s
unfolding lstrip
lstrip_idem String.[] = refl
lstrip_idem (String.◌∷◌ c s) = ground (arith, lstrip_idem s)

-- `s[:n]`
unfoldable pub take : ℕ → String → String
take zero s = String.[]
take (suc n) String.[] = String.[]
take (suc n) (String.◌∷◌ c s) = String.◌∷◌ c (take n s)

-- `s.startswith(":")`
unfoldable pub starts_with_colon : String → Bool
starts_with_colon String.[] = false
starts_with_colon (String.◌∷◌ c s) = num_eq (code c) b':'

-- `s.count(c)` of a character
unfoldable pub count : ℕ → String → ℕ
count n String.[] = 0
count n (String.◌∷◌ c s) = let rest = count n s in if num_eq (code c) n then suc rest else rest

-- `":" + s`
unfoldable pub with_colon : String → String
with_colon s = String.◌∷◌ ":" s

pub lstrip-with_colon : (s : String) → lstrip (with_colon s) ≡ lstrip s
unfolding lstrip with_colon
lstrip-with_colon s = refl

-- `s < t`
unfoldable pub text_ltb : String → String → Bool
text_ltb String.[] String.[] = false
text_ltb String.[] (String.◌∷◌ d t) = true
text_ltb (String.◌∷◌ c s) String.[] = false
text_ltb (String.◌∷◌ c s) (String.◌∷◌ d t) =
    let rest = text_ltb s t in if num_eq (code c) (code d) then rest else ltb (code c) (code d)

-- `s in texts`
unfoldable pub contains : String → List String → Bool
contains n [] = false
contains n (m ∷ ms) = if m == n then true else contains n ms
