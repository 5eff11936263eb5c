-- ===== src/Common/Text.antt =====
-- Texts: `str::trim`, `str::is_empty`, counting, ASCII case and decimal printing.
use Prim.Native.Nat.{ℕ, zero, suc, ◌+◌, ◌/◌, ◌%◌}
use Prim.Native.Char.{Char, code}
use Prim.Native.String
use Prim.Native.String.{String, [], ◌∷◌}
use mathlib.Core.Bool.{Bool, true, false, ◌&&◌, ◌||◌}
use animus_queue_default.Common.Bools.{leb, ltb, eqb, if◌then◌else◌}

-- Rust's `char::is_whitespace`: the Unicode property `White_Space`.
unfoldable pub is_whitespace : Char → Bool
is_whitespace c =
    let n = code c in
    (leb 9 n && leb n 13)
    || eqb n 32
    || eqb n 0x85
    || eqb n 0xa0
    || eqb n 0x1680
    || (leb 0x2000 n && leb n 0x200a)
    || eqb n 0x2028
    || eqb n 0x2029
    || eqb n 0x202f
    || eqb n 0x205f
    || eqb n 0x3000

unfoldable pub trim_start : String → String
trim_start [] = []
trim_start (c ∷ s) = if is_whitespace c then trim_start s else c ∷ s

abbrev pub is_blank : String → Bool
is_blank [] = true
is_blank (c ∷ s) = false

-- A text is trimmed at its end by dropping a character that has nothing after it.
unfoldable pub cons_unless_blank : Char → String → String
cons_unless_blank c [] = if is_whitespace c then [] else c ∷ []
cons_unless_blank c (d ∷ s) = c ∷ d ∷ s

unfoldable pub trim_end : String → String
unfolding cons_unless_blank
trim_end [] = []
trim_end (c ∷ s) = cons_unless_blank c (trim_end s)

unfoldable pub trim : String → String
unfolding trim_start trim_end
trim s = trim_end (trim_start s)

-- `s.chars().count()`.
abbrev pub chars_count : String → ℕ
chars_count s = String.count s

-- The code of a character with ASCII capitals made small.
abbrev pub ascii_lower : Char → ℕ
ascii_lower c = let n = code c in if leb b'A' n && leb n b'Z' then n + 32 else n

-- `str::eq_ignore_ascii_case`.
unfoldable pub eq_ignore_ascii_case : String → String → Bool
eq_ignore_ascii_case [] [] = true
eq_ignore_ascii_case [] (d ∷ t) = false
eq_ignore_ascii_case (c ∷ s) [] = false
eq_ignore_ascii_case (c ∷ s) (d ∷ t) =
    eqb (ascii_lower c) (ascii_lower d) && eq_ignore_ascii_case s t

digits_from : ℕ → ℕ → String → String
digits_from zero n rest = rest
digits_from (suc fuel) n rest =
    let digit = String.slice "0123456789" (n % 10) (n % 10 + 1) in
    let more = digits_from fuel (n / 10) (String.◌++◌ digit rest) in
    if ltb n 10 then String.◌++◌ digit rest else more

-- `{n}` in a format string. A number has at most as many digits as it is large, and one more.
unfoldable pub show_nat : ℕ → String
unfolding digits_from
show_nat n = digits_from (suc n) n ""

infixl 65 ◌<>◌
abbrev pub ◌<>◌ : String → String → String
s <> t = String.◌++◌ s t

-- The order of `String`, which is by bytes and so by the codes of the characters: at most.
unfoldable pub precedes : String → String → Bool
precedes [] t = true
precedes (c ∷ s) [] = false
precedes (c ∷ s) (d ∷ t) = ltb (code c) (code d) || (eqb (code c) (code d) && precedes s t)
