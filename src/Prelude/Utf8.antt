-- ===== src/Prelude/Utf8.antt =====
-- `String::from_utf8_lossy`: each maximal part of an invalid sequence becomes U+FFFD.
use Prim.Native.Nat.{ℕ, ◌+◌, ◌-◌, ◌*◌}
use mathlib.Core.Bool.{◌&&◌}
use mathlib.Core.List.{List, [], ◌∷◌}
use mathlib.Core.Path.{◌≡◌, refl}
use rustmail.Prelude.Tests.{leb, ltb, ◌==◌, if◌then◌else◌}
use rustmail.Prelude.Text.{Text}

-- Between two characters, or inside one: the next byte's range, the bits so far, and the bytes that
-- still follow the next.
pub data Decoder : Type 0 where
  start : Decoder
  inside : (low high value left : ℕ) → Decoder

-- The state behind a byte that begins a character, and the characters that it yields at once.
pub record Decoded : Type 0 where
  pub text : Text
  pub decoder : Decoder

abbrev pub replacement : ℕ
replacement = 0xfffd

abbrev lead : ℕ → ℕ → ℕ → ℕ → Decoded
lead low high value left = record { text = []; decoder = inside low high value left }

unfoldable pub begin : ℕ → Decoded
begin b =
    if ltb b 0x80
    then record { text = b ∷ []; decoder = start }
    else if leb 0xc2 b && leb b 0xdf
    then lead 0x80 0xbf (b - 0xc0) 0
    else if b == 0xe0
    then lead 0xa0 0xbf (b - 0xe0) 1
    else if b == 0xed
    then lead 0x80 0x9f (b - 0xe0) 1
    else if leb 0xe1 b && leb b 0xef
    then lead 0x80 0xbf (b - 0xe0) 1
    else if b == 0xf0
    then lead 0x90 0xbf (b - 0xf0) 2
    else if leb 0xf1 b && leb b 0xf3
    then lead 0x80 0xbf (b - 0xf0) 2
    else if b == 0xf4
    then lead 0x80 0x8f (b - 0xf0) 2
    else record { text = replacement ∷ []; decoder = start }

abbrev emit : ℕ → Decoded → Decoded
emit c d = record d { text = c ∷ d.text }

-- A byte out of range ends the character before it, which is replaced, and begins the next.
unfoldable pub feed : Decoder → ℕ → Decoded
unfolding begin
feed start b = begin b
feed (inside low high value left) b =
    if leb low b && leb b high
    then (if left == 0
        then record { text = (value * 64 + (b - 0x80)) ∷ []; decoder = start }
        else lead 0x80 0xbf (value * 64 + (b - 0x80)) (left - 1))
    else emit replacement (begin b)

abbrev flush : Decoder → Text
flush start = []
flush (inside low high value left) = replacement ∷ []

abbrev append : Text → Text → Text
append [] rest = rest
append (c ∷ cs) rest = c ∷ append cs rest

unfoldable pub decode : Decoder → List ℕ → Text
unfolding feed
decode d [] = flush d
decode d (b ∷ bs) = let r = feed d b in append r.text (decode r.decoder bs)

unfoldable pub from_utf8_lossy : List ℕ → Text
unfolding decode
from_utf8_lossy bytes = decode start bytes

lossy_tests :
    from_utf8_lossy
      (b'a' ∷ 0xc3 ∷ 0xa9 ∷ 0xe2 ∷ 0x82 ∷ b'b' ∷ 0xff ∷ 0xf0 ∷ 0x9f ∷ 0x98 ∷ 0x80 ∷ [])
    ≡ b'a' ∷ 0xe9 ∷ replacement ∷ b'b' ∷ replacement ∷ 0x1f600 ∷ []
unfolding from_utf8_lossy
lossy_tests = refl
