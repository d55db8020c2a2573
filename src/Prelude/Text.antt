-- ===== src/Prelude/Text.antt =====
-- Go's strings, compared as whole texts, as keys of maps.
use Prim.Native.Nat.{ℕ, ◌+◌, ◌/◌, ◌%◌}
use Prim.Native.Char.{code}
use Prim.Native.String.{String, ◌++◌ as ◌+++◌}
use mathlib.Core.Path.{◌≡◌}
use mathlib.Core.Bool.{Bool, true}
use mathlib.Core.List.{List, [], ◌∷◌, ◌++◌}
use text.Mathlib.Text.{◌==◌}
use text.Mathlib.TextEquality.{eq_iff}
use text.Mathlib.TextPositions.{eq_refl}
use gemot.Prelude.Maps.{Key}
use gemot.Prelude.Tests.{ltb, if◌then◌else◌}
use gemot.Prelude.Lists.{length}

abbrev pub str_eq : String → String → Bool
str_eq s t = s == t

-- s + t
abbrev pub join : String → String → String
join s t = s +++ t

pub str_eq_refl : (s : String) → str_eq s s ≡ true
str_eq_refl s = eq_refl s

instance abbrev pub string_key : Key String
string_key = record { same = str_eq; same_iff = eq_iff }

-- The runes of a string: its bytes, if it is ASCII.
abbrev pub runes : String → List ℕ
runes String.[] = []
runes (String.◌∷◌ c s) = code c ∷ runes s

-- The bytes of a rune in UTF-8, and of a string.
unfoldable pub utf8 : ℕ → List ℕ
utf8 r =
    if ltb r 0x80
    then r ∷ []
    else if ltb r 0x800
    then (0xC0 + r / 64) ∷ ((0x80 + r % 64) ∷ [])
    else if ltb r 0x10000
    then (0xE0 + r / 4096) ∷ ((0x80 + r / 64 % 64) ∷ ((0x80 + r % 64) ∷ []))
    else (0xF0 + r / 262144)
      ∷ ((0x80 + r / 4096 % 64) ∷ ((0x80 + r / 64 % 64) ∷ ((0x80 + r % 64) ∷ [])))

unfoldable pub bytes_of : List ℕ → List ℕ
unfolding utf8
bytes_of [] = []
bytes_of (r ∷ s) = utf8 r ++ bytes_of s

unfoldable pub bytes : String → List ℕ
unfolding bytes_of
bytes s = bytes_of (runes s)

-- len(s)
unfoldable pub len : String → ℕ
unfolding bytes
len s = length (bytes s)
