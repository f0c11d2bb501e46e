-- ===== src/Base/Text.antt =====
-- The text functions of Go's standard library that the code uses: strings.TrimSpace over all its
-- space characters, strings.ToLower over ASCII, and messages built by fmt.Sprintf and `+`.
use Prim.Native.Nat.{ℕ}
use Prim.Native.Char.{Char, code}
use Prim.Native.String.{String}
use mathlib.Core.Bool.{Bool, true, false, ◌||◌, ◌&&◌}
use mathlib.Core.List.{List}
use thism.Base.Tests.{◌==◌, leb, if◌then◌else◌, nat_eq, string_eq}

-- unicode.IsSpace
is_space : ℕ → Bool
is_space c =
    (leb 9 c && leb c 13)
    || c == 32
    || c == 0x85
    || c == 0xa0
    || c == 0x1680
    || (leb 0x2000 c && leb c 0x200a)
    || c == 0x2028
    || c == 0x2029
    || c == 0x202f
    || c == 0x205f
    || c == 0x3000

reverse_onto : String → String → String
reverse_onto String.[] acc = acc
reverse_onto (String.◌∷◌ c s) acc = reverse_onto s (String.◌∷◌ c acc)

trim_left : String → String
trim_left String.[] = String.[]
trim_left (String.◌∷◌ c s) =
    let rest = trim_left s in if is_space (code c) then rest else String.◌∷◌ c s

unfoldable pub trim_space : String → String
unfolding reverse_onto trim_left is_space
trim_space s = reverse_onto (trim_left (reverse_onto (trim_left s) String.[])) String.[]

translate : String → String → Char → Char
translate String.[] _ c = c
translate (String.◌∷◌ u us) String.[] c = c
translate (String.◌∷◌ u us) (String.◌∷◌ l ls) c =
    let rest = translate us ls c in if code u == code c then l else rest

unfoldable pub to_lower : String → String
unfolding translate
to_lower String.[] = String.[]
to_lower (String.◌∷◌ c s) =
    String.◌∷◌ (translate "ABCDEFGHIJKLMNOPQRSTUVWXYZ" "abcdefghijklmnopqrstuvwxyz" c) (to_lower s)

-- strings.EqualFold, over ASCII.
unfoldable pub equal_fold : String → String → Bool
unfolding to_lower
equal_fold s t = to_lower s == to_lower t

-- A formatted message: its literal and textual parts, and the numbers that `%d` prints.
pub data Piece : Type 0 where
  lit : String → Piece
  num : ℕ → Piece

abbrev pub Message : Type 0
Message = List Piece

-- SQLite's order on text, by code points.
unfoldable pub text_leb : String → String → Bool
text_leb String.[] t = true
text_leb (String.◌∷◌ c s) String.[] = false
text_leb (String.◌∷◌ c s) (String.◌∷◌ d t) =
    let rest = text_leb s t in if code c == code d then rest else leb (code c) (code d)

-- `+` on strings, by its first operand.
unfoldable pub text_append : String → String → String
text_append String.[] t = t
text_append (String.◌∷◌ c s) t = String.◌∷◌ c (text_append s t)

-- Whether strings.TrimSpace leaves nothing: every character is a space.
unfoldable pub is_blank_text : String → Bool
unfolding is_space
is_blank_text String.[] = true
is_blank_text (String.◌∷◌ c s) = is_space (code c) && is_blank_text s
