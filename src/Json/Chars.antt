-- ===== src/Json/Chars.antt =====
-- Characters from their numbers, and the escapes of JSON's strings.
use Prim.Native.Char.{Char, char}
use Prim.Native.Nat.{compare, Ordering}
use bosh_esxi_cpi_release.Prelude.{
  ℕ, ◌+◌, ◌-◌, ◌*◌, ◌≡◌, refl, ◌⊎◌, inl, inr, Bool, ◌&&◌, ◌||◌, Option, none, some, leb, ltb, ◌==◌,
  if◌then◌else◌,
}

lt-cases : (o : Ordering) → (o ≡ Ordering.lt) ⊎ Unit {0}
lt-cases Ordering.lt = inl refl
lt-cases _ = inr tt

gt-cases : (o : Ordering) → (o ≡ Ordering.gt) ⊎ Unit {0}
gt-cases Ordering.gt = inl refl
gt-cases _ = inr tt

-- U+FFFD, which stands for what is no character.
replacement : Char
replacement = char 0xFFFD tt

high_char : (n : ℕ) → compare n 0xD800 ≡ Ordering.gt → Char
unfolding lt-cases replacement
high_char n beyond = elim (lt-cases (compare 0xDFFF n)) [
  | inr _ ↦ replacement
  | inl above ↦ elim (lt-cases (compare n 0x110000)) [
    | inl e ↦ char n (rw (beyond, above, e) tt)
    | inr _ ↦ replacement
  ]
]

-- The character with a number, or U+FFFD if there is none.
unfoldable pub to_char : ℕ → Char
unfolding lt-cases gt-cases replacement high_char
to_char n = elim (lt-cases (compare n 0xD800)) [
  | inl e ↦ char n (rw e tt)
  | inr _ ↦ elim (gt-cases (compare n 0xD800)) [ inl e ↦ high_char n e | inr _ ↦ replacement ]
]

-- The value of a hexadecimal digit.
unfoldable pub hex_value : ℕ → Option ℕ
hex_value c =
    if leb b'0' c && leb c b'9'
    then some (c - b'0')
    else if leb b'a' c && leb c b'f'
    then some (c - b'a' + 10)
    else if leb b'A' c && leb c b'F'
    then some (c - b'A' + 10)
    else none

-- The character that a one-letter escape stands for.
unfoldable pub unescape : ℕ → Option Char
unfolding to_char
unescape c =
    if c == b'"' || c == b'\\' || c == b'/'
    then some (to_char c)
    else if c == b'b'
    then some (to_char 8)
    else if c == b'f'
    then some (to_char 12)
    else if c == b'n'
    then some (to_char 10)
    else if c == b'r'
    then some (to_char 13)
    else if c == b't'
    then some (to_char 9)
    else none

-- The halves of a character beyond U+FFFF, and the character that a pair of them stands for.
unfoldable pub is_high : ℕ → Bool
is_high c = leb 0xD800 c && ltb c 0xDC00

unfoldable pub is_low : ℕ → Bool
is_low c = leb 0xDC00 c && ltb c 0xE000

unfoldable pub joined : ℕ → ℕ → ℕ
joined hi lo = (hi - 0xD800) * 0x400 + (lo - 0xDC00) + 0x10000
