-- ===== src/Prelude/Texts.antt =====
-- Text as its list of code points, and what the program asks of `str`: lower case, search, trim,
-- and the printing of numbers.
use Prim.Native.Nat.{ℕ, zero, suc, ◌+◌, ◌/◌, ◌%◌}
use Prim.Native.Char.{code}
use Prim.Native.String.{String}
use mathlib.Core.Bool.{Bool, true, false, ◌&&◌, ◌||◌}
use mathlib.Core.List.{List, [], ◌∷◌, map, reverse}
use secure_tunnel.Prelude.Tests.{leb, ◌==◌, if◌then◌else◌}

abbrev pub Text : Type 0
Text = List ℕ

abbrev pub codes : String → Text
codes String.[] = []
codes (String.◌∷◌ c s) = code c ∷ codes s

-- `to_ascii_lowercase`
abbrev pub lower_code : ℕ → ℕ
lower_code c = if leb b'A' c && leb c b'Z' then c + 32 else c

abbrev pub to_ascii_lowercase : Text → Text
to_ascii_lowercase = map lower_code

abbrev pub starts_with : Text → Text → Bool
starts_with [] t = true
starts_with (p ∷ ps) [] = false
starts_with (p ∷ ps) (c ∷ cs) = p == c && starts_with ps cs

-- `text.contains(piece)`
abbrev pub contains : Text → Text → Bool
contains piece [] = starts_with piece []
contains piece (c ∷ cs) = starts_with piece (c ∷ cs) || contains piece cs

-- `char::is_whitespace`: the Unicode property White_Space.
abbrev pub is_whitespace : ℕ → Bool
is_whitespace c =
    (leb 9 c && leb c 13)
    || c == 32
    || c == 0x85
    || c == 0xa0
    || c == 0x1680
    || (leb 0x2000 c && leb c 0x200a)
    || c == 0x2028
    || c == 0x2029
    || c == 0x202f
    || c == 0x205f
    || c == 0x3000

abbrev pub trim_start : Text → Text
trim_start [] = []
trim_start (c ∷ cs) = if is_whitespace c then trim_start cs else c ∷ cs

unfoldable pub trim : Text → Text
trim t = reverse (trim_start (reverse (trim_start t)))

-- The digits of a number in a base, most significant first; a number has at most `fuel` digits.
digits : ℕ → ℕ → ℕ → Text → Text
digits base zero n acc = acc
digits base (suc fuel) n acc =
    let acc' = (b'0' + n % base) ∷ acc in
    let more = digits base fuel (n / base) acc' in if n / base == 0 then acc' else more

-- `{n}` and `{n:o}` of a number of at most 128 bits: 128 digits are enough in every base from 2 on.
unfoldable pub decimal : ℕ → Text
unfolding digits
decimal n = digits 10 128 n []

unfoldable pub octal : ℕ → Text
unfolding digits
octal n = digits 8 128 n []
