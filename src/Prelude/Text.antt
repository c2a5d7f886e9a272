-- ===== src/Prelude/Text.antt =====
-- Python's `str.strip`.
use Prim.Native.Char.{Char, code}
use Prim.Native.String.{String}
use mathlib.Core.Bool.{Bool, ◌&&◌, ◌||◌}
use mathlib.Core.List.{[], ◌∷◌}
use spark_pulse.Prelude.Tests.{leb, str_eq, if◌then◌else◌}
use spark_pulse.Prelude.Lists.{member}
use mathlib.Core.Path.{◌≡◌, refl}

-- The code points that `str.isspace` accepts.
unfoldable pub is_space : Char → Bool
is_space c =
    (leb 9 (code c) && leb (code c) 13)
    || (leb 28 (code c) && leb (code c) 32)
    || (leb 8192 (code c) && leb (code c) 8202)
    || member (code c) (133 ∷ 160 ∷ 5760 ∷ 8232 ∷ 8233 ∷ 8239 ∷ 8287 ∷ 12288 ∷ [])

lstrip : String → String
lstrip String.[] = String.[]
lstrip (String.◌∷◌ c s) = if is_space c then lstrip s else String.◌∷◌ c s

rstrip : String → String
rstrip String.[] = String.[]
rstrip (String.◌∷◌ c s) =
    let r = rstrip s in if is_space c && str_eq r "" then String.[] else String.◌∷◌ c r

unfoldable pub strip : String → String
unfolding lstrip rstrip is_space
strip s = rstrip (lstrip s)

strip_both : strip " a b\n" ≡ "a b"
unfolding strip
strip_both = refl
