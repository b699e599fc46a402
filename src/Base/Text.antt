-- ===== src/Base/Text.antt =====
-- The functions of Go's package `strings` that the program calls, on native texts.
pub mod Laws
use Prim.Native.Nat.{◌-◌}
use Prim.Native.String.{String, len, slice}
use mathlib.Core.Bool.{Bool, ◌&&◌, ◌||◌}
use text.Mathlib.Text.{starts_with}
use live_pod_migration.Base.Tests.{leb, ◌==◌, if◌then◌else◌}

-- `strings.HasPrefix(s, prefix)`
unfoldable pub has_prefix : String → String → Bool
has_prefix s prefix = starts_with s prefix

-- `strings.TrimPrefix(s, prefix)`
unfoldable pub trim_prefix : String → String → String
unfolding has_prefix
trim_prefix s prefix = if has_prefix s prefix then slice s (len prefix) (len s) else s

-- `strings.HasSuffix(s, suffix)`
unfoldable pub has_suffix : String → String → Bool
unfolding ◌==◌
has_suffix s suffix = leb (len suffix) (len s) && slice s (len s - len suffix) (len s) == suffix

-- `strings.TrimSuffix(s, suffix)`
unfoldable pub trim_suffix : String → String → String
unfolding has_suffix
trim_suffix s suffix = if has_suffix s suffix then slice s 0 (len s - len suffix) else s

-- `strings.Contains(s, part)`
unfoldable pub contains : String → String → Bool
contains String.[] part = starts_with String.[] part
contains (String.◌∷◌ c s) part = starts_with (String.◌∷◌ c s) part || contains s part
