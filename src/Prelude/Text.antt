-- ===== src/Prelude/Text.antt =====
-- Text as a list of code points, and the `str` methods of Rust's standard library that the program
-- calls. A byte offset of the program is a code-point offset here: both cut a text at the same place.
use Prim.Native.Nat.{ℕ, suc, ◌+◌, ◌-◌, ◌*◌, ◌^◌}
use Prim.Native.Char.{code}
use Prim.Native.String.{String}
use native.Mathlib.Omega.{arith}
use mathlib.Core.Path.{◌≡◌, refl}
use mathlib.Core.Bool.{Bool, true, false, not, ◌&&◌, ◌||◌}
use mathlib.Core.Option
use mathlib.Core.Option.{Option, none, some}
use mathlib.Core.List.{List, [], ◌∷◌, ◌++◌, map, reverse}
use rustmail.Prelude.Tests.{leb, ltb, ◌==◌, ==_iff, if◌then◌else◌}

abbrev pub Text : Type 0
Text = List ℕ

-- A literal of the source.
abbrev pub codes : String → Text
codes String.[] = []
codes (String.◌∷◌ c s) = code c ∷ codes s

-- `==` on two texts
unfoldable pub same : Text → Text → Bool
same [] [] = true
same (x ∷ xs) (y ∷ ys) = x == y && same xs ys
same _ _ = false

-- `s.starts_with(prefix)`
unfoldable pub starts_with : Text → Text → Bool
starts_with [] s = true
starts_with (p ∷ ps) [] = false
starts_with (p ∷ ps) (c ∷ s) = p == c && starts_with ps s

-- `char::to_ascii_uppercase`
unfoldable pub upper_char : ℕ → ℕ
upper_char c = if leb b'a' c && leb c b'z' then c - 32 else c

unfoldable pub lower_char : ℕ → ℕ
lower_char c = if leb b'A' c && leb c b'Z' then c + 32 else c

unfoldable pub to_ascii_uppercase : Text → Text
unfolding upper_char
to_ascii_uppercase = map upper_char

unfoldable pub to_ascii_lowercase : Text → Text
unfolding lower_char
to_ascii_lowercase = map lower_char

-- `char::is_whitespace`: the code points with Unicode's White_Space property.
unfoldable pub is_whitespace : ℕ → Bool
is_whitespace c =
    (leb 9 c && leb c 13)
    || c == 32
    || c == 133
    || c == 160
    || c == 5760
    || (leb 8192 c && leb c 8202)
    || c == 8232
    || c == 8233
    || c == 8239
    || c == 8287
    || c == 12288

-- `char::is_ascii_whitespace`: space, tab, line feed, form feed and carriage return.
unfoldable pub is_ascii_whitespace : ℕ → Bool
is_ascii_whitespace c = c == 32 || c == 9 || c == 10 || c == 12 || c == 13

unfoldable pub trim_start : Text → Text
unfolding is_whitespace
trim_start [] = []
trim_start (c ∷ s) = if is_whitespace c then trim_start s else c ∷ s

-- `s.trim()`
unfoldable pub trim : Text → Text
unfolding trim_start
trim s = reverse (trim_start (reverse (trim_start s)))

-- `s.find(c)`
unfoldable pub find : ℕ → Text → Option ℕ
find c [] = none
find c (x ∷ s) = if x == c then some 0 else Option.map suc (find c s)

-- `s.split_once(c)`
unfoldable pub split_once : ℕ → Text → Option (Text × Text)
split_once c [] = none
split_once c (x ∷ s) =
    if x == c then some ([], s) else Option.map (λ p. (x ∷ p.0, p.1)) (split_once c s)

-- The words of `s.split_ascii_whitespace()`; `word` is the one being read.
abbrev close : Text → List Text → List Text
close [] rest = rest
close (c ∷ word) rest = (c ∷ word) ∷ rest

unfoldable pub words_from : Text → Text → List Text
unfolding is_ascii_whitespace
words_from word [] = close word []
words_from word (c ∷ s) = elim (is_ascii_whitespace c) [
  | true ↦ close word (words_from [] s)
  | false ↦ words_from (word ++ c ∷ []) s
]

unfoldable pub split_ascii_whitespace : Text → List Text
unfolding words_from
split_ascii_whitespace s = words_from [] s

-- `s.parse::<u64>()`, one digit at a time, with the error that the first bad step gives.
pub data ParseInt : Type 0 where
  parsed : ℕ → ParseInt
  empty invalid_digit pos_overflow : ParseInt

unfoldable pub parse_digits : ℕ → ℕ → Text → ParseInt
parse_digits most n [] = parsed n
parse_digits most n (c ∷ s) =
    let rest = parse_digits most (n * 10 + (c - 48)) s in
    if not (leb b'0' c && leb c b'9')
    then invalid_digit
    else if ltb most (n * 10)
    then pos_overflow
    else if ltb most (n * 10 + (c - 48))
    then pos_overflow
    else rest

-- A single leading `+` is allowed.
unfoldable pub parse_unsigned : ℕ → Text → ParseInt
unfolding parse_digits
parse_unsigned most [] = empty
parse_unsigned most (c ∷ []) =
    if c == b'+' || c == b'-' then invalid_digit else parse_digits most 0 (c ∷ [])
parse_unsigned most (c ∷ d ∷ s) =
    if c == b'+' then parse_digits most 0 (d ∷ s) else parse_digits most 0 (c ∷ d ∷ s)

abbrev pub u64_max : ℕ
u64_max = 2 ^ 64 - 1

-- `s.len()`: the bytes of the UTF-8 encoding.
unfoldable pub utf8_len : Text → ℕ
utf8_len [] = 0
utf8_len (c ∷ s) =
    (if ltb c 0x80 then 1 else if ltb c 0x800 then 2 else if ltb c 0x10000 then 3 else 4)
    + utf8_len s

and_true : (a b : Bool) → (a && b) ≡ true → (a ≡ true) × (b ≡ true)
and_true true b e = (refl, e)
and_true false b e = cc

pub same-true : (s t : Text) → same s t ≡ true → s ≡ t
unfolding same
same-true [] [] e = refl
same-true [] (y ∷ t) e = cc
same-true (x ∷ s) [] e = cc
same-true (x ∷ s) (y ∷ t) e =
    let (h, t_h) = and_true (x == y) (same s t) e in rw ((==_iff x y).0 h, same-true s t t_h) refl

pub same_self : (t : Text) → same t t ≡ true
unfolding same
same_self [] = refl
same_self (c ∷ t) = rw ((==_iff c c).1 refl, same_self t) refl

==_comm : (a b : ℕ) → (a == b) ≡ (b == a)
==_comm a b = ground arith

pub same_comm : (s t : Text) → same s t ≡ same t s
unfolding same
same_comm [] [] = refl
same_comm [] (y ∷ t) = refl
same_comm (x ∷ s) [] = refl
same_comm (x ∷ s) (y ∷ t) = rw (==_comm x y, same_comm s t) refl
