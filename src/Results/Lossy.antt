-- ===== src/Results/Lossy.antt =====
-- src/result.rs, line 497: `String::from_utf8_lossy`, as `BytesResult.diagnostic` uses it. The
-- decoder reads one byte at a time; a text is its code points.
pub mod Utf8
use processkit_py.Common.{
  ℕ, ◌+◌, ◌-◌, ◌*◌, ◌&&◌, ◌==◌, List, [], ◌∷◌, ◌++◌, ltb, leb, if◌then◌else◌, Text,
}

-- What the decoder has read of a character: nothing, or a lead and perhaps more, which leaves the value
-- so far, the range of the next byte, and how many bytes follow after that.
pub data Decoder : Type 0 where
  between : Decoder
  inside : (value lowest highest later : ℕ) → Decoder

abbrev pub replacement : ℕ
replacement = 0xfffd

-- The first byte of a character.
unfoldable pub lead : ℕ → Text × Decoder
lead b =
    if ltb b 0x80
    then (b ∷ [], between)
    else if ltb b 0xc2
    then (replacement ∷ [], between)
    else if ltb b 0xe0
    then ([], inside (b - 0xc0) 0x80 0xbf 0)
    else if b == 0xe0
    then ([], inside 0 0xa0 0xbf 1)
    else if b == 0xed
    then ([], inside 0xd 0x80 0x9f 1)
    else if ltb b 0xf0
    then ([], inside (b - 0xe0) 0x80 0xbf 1)
    else if b == 0xf0
    then ([], inside 0 0x90 0xbf 2)
    else if ltb b 0xf4
    then ([], inside (b - 0xf0) 0x80 0xbf 2)
    else if b == 0xf4
    then ([], inside 4 0x80 0x8f 2)
    else (replacement ∷ [], between)

after : ℕ → ℕ → Text × Decoder
after value ℕ.zero = (value ∷ [], between)
after value (ℕ.suc later) = ([], inside value 0x80 0xbf later)

-- A byte that does not continue the character ends it as one replacement, and is read again.
unfoldable pub feed : Decoder → ℕ → Text × Decoder
unfolding lead after
feed between b = lead b
feed (inside value lowest highest later) b =
    if leb lowest b && leb b highest
    then after (value * 64 + (b - 0x80)) later
    else (replacement ∷ (lead b).0, (lead b).1)

flushed : Decoder → Text
flushed between = []
flushed (inside value lowest highest later) = replacement ∷ []

unfoldable pub decode : Decoder → List ℕ → Text
unfolding feed flushed
decode d [] = flushed d
decode d (b ∷ bytes) = let (text, d') = feed d b in text ++ decode d' bytes

unfoldable pub from_utf8_lossy : List ℕ → Text
unfolding decode
from_utf8_lossy bytes = decode between bytes
