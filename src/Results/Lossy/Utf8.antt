-- ===== src/Results/Lossy/Utf8.antt =====
-- src/result.rs: the lossy decoder on text that is UTF-8.
use processkit_py.Common.{
  ℕ, suc, ◌+◌, ◌*◌, ◌/◌, ◌%◌, ◌≤◌, ◌<◌, ◌≡◌, ◌⊎◌, ◌∙◌, ap, refl, List, [], ◌∷◌, ◌++◌, ◌==◌,
  if◌then◌else◌, Text, arith, All, dec_lt,
}
use processkit_py.Errors.Json.{utf8_char, utf8}
use processkit_py.Results.Lossy.{between, inside, lead, feed, decode, from_utf8_lossy}

-- A Unicode scalar value.
abbrev pub Scalar : ℕ → Type 0
Scalar c = (c < 0x110000) × ((c < 0xd800) ⊎ (0xdfff < c))

lead-two : (a : ℕ) → 2 ≤ a → a < 32 → lead (0xc0 + a) ≡ ([], inside a 0x80 0xbf 0)
unfolding lead
lead-two a low high = ground arith

abbrev lowest_three : ℕ → ℕ
lowest_three a = if a == 0 then 0xa0 else 0x80

abbrev highest_three : ℕ → ℕ
highest_three a = if a == 13 then 0x9f else 0xbf

lead-three :
    (a : ℕ) → a < 16 → lead (0xe0 + a) ≡ ([], inside a (lowest_three a) (highest_three a) 1)
unfolding lead
lead-three a h = ground arith

abbrev lowest_four : ℕ → ℕ
lowest_four a = if a == 0 then 0x90 else 0x80

abbrev highest_four : ℕ → ℕ
highest_four a = if a == 4 then 0x8f else 0xbf

lead-four : (a : ℕ) → a < 5 → lead (0xf0 + a) ≡ ([], inside a (lowest_four a) (highest_four a) 2)
unfolding lead
lead-four a h = ground arith

feed-last :
    (value lowest highest b : ℕ)
    → lowest ≤ 0x80 + b
    → 0x80 + b ≤ highest
    → feed (inside value lowest highest 0) (0x80 + b) ≡ ((value * 64 + b) ∷ [], between)
unfolding feed
feed-last value lowest highest b low high = ground arith

feed-more :
    (value lowest highest later b : ℕ)
    → lowest ≤ 0x80 + b
    → 0x80 + b ≤ highest
    → feed (inside value lowest highest (suc later)) (0x80 + b)
      ≡ ([], inside (value * 64 + b) 0x80 0xbf later)
unfolding feed
feed-more value lowest highest later b low high = ground arith

decode-one :
    (c : ℕ) (bytes : List ℕ) → c < 0x80 → decode between (c ∷ bytes) ≡ c ∷ decode between bytes
unfolding decode feed lead
decode-one c bytes h = ground arith

module _ (c : ℕ) (bytes : List ℕ) where
  decode-two :
      0x80 ≤ c
      → c < 0x800
      → decode between ((0xc0 + c / 64) ∷ (0x80 + c % 64) ∷ bytes) ≡ c ∷ decode between bytes
  unfolding decode feed
  decode-two low high =
      let first = lead-two (c / 64) (omega arith) (omega arith) in
      let second = feed-last (c / 64) 0x80 0xbf (c % 64) (omega arith) (omega arith) in
      let whole : c / 64 * 64 + c % 64 ≡ c = omega arith in rw (first, second, whole) refl

  decode-three :
      0x800 ≤ c
      → c < 0x10000
      → Scalar c
      → decode between ((0xe0 + c / 4096) ∷ (0x80 + c / 64 % 64) ∷ (0x80 + c % 64) ∷ bytes)
        ≡ c ∷ decode between bytes
  unfolding decode feed
  decode-three low high scalar =
      let a = c / 4096 in
      let b = c / 64 % 64 in
      let first = lead-three a (omega arith) in
      let second =
        feed-more a (lowest_three a) (highest_three a) 0 b (ground arith) (ground arith) in
      let third = feed-last (a * 64 + b) 0x80 0xbf (c % 64) (omega arith) (omega arith) in
      let whole : (a * 64 + b) * 64 + c % 64 ≡ c = omega arith in
      rw (first, second, third, whole) refl

  decode-four :
      0x10000 ≤ c
      → Scalar c
      → decode between (
          (0xf0 + c / 262144)
          ∷ (0x80 + c / 4096 % 64)
          ∷ (0x80 + c / 64 % 64)
          ∷ (0x80 + c % 64)
          ∷ bytes)
        ≡ c ∷ decode between bytes
  unfolding decode feed
  decode-four low scalar =
      let a = c / 262144 in
      let b = c / 4096 % 64 in
      let d = c / 64 % 64 in
      let first = lead-four a (omega (arith, scalar.0)) in
      let second = feed-more a (lowest_four a) (highest_four a) 1 b (ground arith) (ground arith) in
      let third = feed-more (a * 64 + b) 0x80 0xbf 0 d (omega arith) (omega arith) in
      let fourth =
        feed-last ((a * 64 + b) * 64 + d) 0x80 0xbf (c % 64) (omega arith) (omega arith) in
      let whole : ((a * 64 + b) * 64 + d) * 64 + c % 64 ≡ c = omega arith in
      rw (first, second, third, fourth, whole) refl

decode-char :
    (c : ℕ) (bytes : List ℕ)
    → Scalar c
    → decode between (utf8_char c ++ bytes) ≡ c ∷ decode between bytes
unfolding utf8_char
decode-char c bytes scalar = elim (dec_lt c 0x80) [
  | yes one ↦ ground (arith, decode-one c bytes one)
  | no more ↦ elim (dec_lt c 0x800) [
    | yes two ↦ ground (arith, decode-two c bytes (omega arith) two)
    | no still ↦ elim (dec_lt c 0x10000) [
      | yes three ↦ ground (arith, decode-three c bytes (omega arith) three scalar)
      | no four ↦ ground (arith, decode-four c bytes (omega arith) scalar)
    ]
  ]
]

decode-utf8 : (text : Text) → All Scalar text → decode between (utf8 text) ≡ text
unfolding utf8 decode
decode-utf8 [] h = refl
decode-utf8 (c ∷ s) (scalar, rest) =
    decode-char c (utf8 s) scalar ∙ ap (λ (t : Text). c ∷ t) (decode-utf8 s rest)

-- Text that is encoded is decoded as it was.
pub from_utf8_lossy-utf8 : (text : Text) → All Scalar text → from_utf8_lossy (utf8 text) ≡ text
unfolding from_utf8_lossy
from_utf8_lossy-utf8 text h = decode-utf8 text h
