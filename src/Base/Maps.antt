-- ===== src/Base/Maps.antt =====
-- Go maps from strings to strings, as association lists with one entry to a key. `none` stands for
-- the nil map where the program tells it from the empty one.
use Prim.Native.Nat.{suc}
use Prim.Native.String.{String}
use mathlib.Core.Path.{◌≡◌, refl}
use mathlib.Core.Option.{Option, none, some}
use mathlib.Core.List.{List, [], ◌∷◌}
use native.Mathlib.Omega.{arith}
use live_pod_migration.Base.Tests.{◌==◌, ==_iff, if◌then◌else◌, length}

abbrev pub StringMap : Type 0
StringMap = List (String × String)

-- `images[name]`, with its second result
unfoldable pub lookup : String → StringMap → Option String
lookup name [] = none
lookup name ((other, image) ∷ images) = if other == name then some image else lookup name images

-- `images[name] = image`
unfoldable pub insert : String → String → StringMap → StringMap
insert name image [] = (name, image) ∷ []
insert name image ((other, old) ∷ images) =
    if other == name then (other, image) ∷ images else (other, old) ∷ insert name image images

-- A write is read back at its own key, and at no other.
pub lookup-insert :
    (name asked image : String) (images : StringMap)
    → lookup asked (insert name image images)
      ≡ (if name == asked then some image else lookup asked images)
unfolding lookup insert
lookup-insert name asked image [] = refl
lookup-insert name asked image ((other, old) ∷ images) =
    let rest = lookup-insert name asked image images in
    ground (arith, ==_iff other asked, ==_iff other name, ==_iff name asked, rest)

-- A write at a new key adds one entry.
pub length-insert :
    (name image : String) (images : StringMap)
    → lookup name images ≡ none
    → length (insert name image images) ≡ suc (length images)
unfolding lookup insert
length-insert name image [] absent = refl
length-insert name image ((other, old) ∷ images) absent =
    ground (arith, length-insert name image images)
