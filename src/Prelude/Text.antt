-- ===== src/Prelude/Text.antt =====
-- What the program uses of Go's `strings`, over the native texts.
use Prim.Native.Char.{code}
use Prim.Native.String.{String}
use mathlib.Core.Path.{◌≡◌, refl}
use matchmaking_function_grp.Prelude.Tests.{if◌then◌else◌, ◌==◌}
pub use text.Mathlib.Text.{◌==◌ as str_eq, starts_with}
pub use text.Mathlib.TextEquality.{eq_iff}

-- strings.ReplaceAll(s, "-", "")
unfoldable pub remove_hyphens : String → String
remove_hyphens String.[] = String.[]
remove_hyphens (String.◌∷◌ c s) =
    if code c == b'-' then remove_hyphens s else String.◌∷◌ c (remove_hyphens s)

hyphens_gone : remove_hyphens "a-b--c" ≡ "abc"
unfolding remove_hyphens
hyphens_gone = refl
