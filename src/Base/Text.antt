-- ===== src/Base/Text.antt =====
-- Python's text methods that the program calls: strip, upper, lower, startswith, endswith. The case
-- methods are those of ASCII letters; other letters are left alone.
use Prim.Native.Nat.{◌-◌}
use Prim.Native.Char.{Char, code}
use Prim.Native.String
use Prim.Native.String.{String}
use mathlib.Core.Path.{◌≡◌, refl}
use mathlib.Core.Bool.{Bool, true, false, ◌||◌, ◌&&◌}
use text.Mathlib.Text
use meshonator.Base.Equality.{if◌then◌else◌, leb, ◌==◌, nat_eq}

-- str.isspace, for one character
is_space : Char → Bool
is_space c =
    (leb 9 (code c) && leb (code c) 13)
    || (leb 28 (code c) && leb (code c) 32)
    || code c == 133
    || code c == 160
    || code c == 5760
    || (leb 8192 (code c) && leb (code c) 8202)
    || code c == 8232
    || code c == 8233
    || code c == 8239
    || code c == 8287
    || code c == 12288

-- the truth value of a text
unfoldable pub is_empty : String → Bool
is_empty String.[] = true
is_empty (String.◌∷◌ c s) = false

lstrip : String → String
lstrip String.[] = String.[]
lstrip (String.◌∷◌ c s) = if is_space c then lstrip s else String.◌∷◌ c s

rstrip : String → String
rstrip String.[] = String.[]
rstrip (String.◌∷◌ c s) =
    let rest = rstrip s in if is_space c && is_empty rest then String.[] else String.◌∷◌ c rest

unfoldable pub strip : String → String
unfolding lstrip rstrip is_space is_empty nat_eq
strip s = rstrip (lstrip s)

to_upper : Char → Char
to_upper c =
    if leb 97 (code c) && leb (code c) 122
    then String.char_at "ABCDEFGHIJKLMNOPQRSTUVWXYZ" (code c - 97)
    else c

to_lower : Char → Char
to_lower c =
    if leb 65 (code c) && leb (code c) 90
    then String.char_at "abcdefghijklmnopqrstuvwxyz" (code c - 65)
    else c

unfoldable pub upper : String → String
unfolding to_upper
upper String.[] = String.[]
upper (String.◌∷◌ c s) = String.◌∷◌ (to_upper c) (upper s)

unfoldable pub lower : String → String
unfolding to_lower
lower String.[] = String.[]
lower (String.◌∷◌ c s) = String.◌∷◌ (to_lower c) (lower s)

abbrev pub starts_with : String → String → Bool
starts_with = Text.starts_with

unfoldable pub ends_with : String → String → Bool
ends_with String.[] t = Text.◌==◌ String.[] t
ends_with (String.◌∷◌ c s) t = Text.◌==◌ (String.◌∷◌ c s) t || ends_with s t

upper-strip : upper (strip "\t client mute \n") ≡ "CLIENT MUTE"
unfolding strip upper
upper-strip = refl

-- the order of texts, by code point
unfoldable pub text_leb : String → String → Bool
text_leb s t = Text.is_le (String.compare s t)
