-- ===== src/Config/Url/Ascii.antt =====
-- The bytes of a text, and the text of bytes.
use Prim.Native.Char.{Char, char, code, IsScalar}
use Prim.Native.Nat.{compare, Ordering}
use bosh_esxi_cpi_release.Prelude.{
  ℕ, ◌/◌, ◌%◌, ◌<◌, String, true, false, ◌||◌, [], ◌∷◌, ◌++◌, All, ◌≡◌, refl, arith, ltb, ◌==◌, inl,
  inr, Bool-cases, ◌⊎◌,
}
use bosh_esxi_cpi_release.Prelude.Table.{passes, passes_lem}
use bosh_esxi_cpi_release.Json.Chars.{to_char}
use bosh_esxi_cpi_release.Config.Url.{
  Bytes, Mode, user_password, host, utf8, bytes_of, should_escape, upper_hex, escape_byte, escape,
}
use bosh_esxi_cpi_release.Config.Url.RoundTrip.{AreBytes}

-- What the proof that a number is a character's says of it above the surrogates.
Both : Ordering → Ordering → Type 0
Both Ordering.lt Ordering.lt = Unit
Both _ _ = ⊥

lt-cases : (o : Ordering) → (o ≡ Ordering.lt) ⊎ ((o ≡ Ordering.eq) ⊎ (o ≡ Ordering.gt))
lt-cases Ordering.lt = inl refl
lt-cases Ordering.eq = inr (inl refl)
lt-cases Ordering.gt = inr (inr refl)

below_limit :
    (n : ℕ) (b c : Ordering)
    → IsScalar n
    → compare 57343 n ≡ b
    → compare n 0x110000 ≡ c
    → (compare n 55296 ≡ Ordering.lt) ⊎ (c ≡ Ordering.lt)
unfolding Both
below_limit n b c p q r = elim (lt-cases (compare n 55296)) [
  | inl e ↦ inl e
  | inr (inl e) ↦ inr (high b c (rw (e, q, r) at p))
  | inr (inr e) ↦ inr (high b c (rw (e, q, r) at p))
]
  where
    high : (b c : Ordering) → Both b c → c ≡ Ordering.lt
    high Ordering.lt Ordering.lt h = refl
    high Ordering.lt Ordering.eq h = absurd h
    high Ordering.lt Ordering.gt h = absurd h
    high Ordering.eq c h = absurd h
    high Ordering.gt c h = absurd h

code_bound : (c : Char) → code c < 0x110000
code_bound (char n p) = elim (below_limit n _ _ p refl refl) [
  | inl e ↦ ground arith
  | inr e ↦ ground arith
]

utf8-AreBytes : (n : ℕ) → n < 0x110000 → AreBytes (utf8 n)
unfolding utf8
utf8-AreBytes n h = elim (Bool-cases (ltb n 0x80)) [
  | inl a ↦ rw a (ground arith, tt)
  | inr a ↦ elim (Bool-cases (ltb n 0x800)) [
    | inl b ↦ rw (a, b) (ground arith, (omega arith, tt))
    | inr b ↦ elim (Bool-cases (ltb n 0x10000)) [
      | inl c ↦ rw (a, b, c) (ground arith, (omega arith, (omega arith, tt)))
      | inr c ↦ rw (a, b, c) (omega arith, (omega arith, (omega arith, (omega arith, tt))))
    ]
  ]
]

All-append : (P : ℕ → Type 0) (s t : Bytes) → All P s → All P t → All P (s ++ t)
All-append P [] t hs ht = ht
All-append P (c ∷ s) t (p, hs) ht = (p, All-append P s t hs ht)

pub bytes_of-AreBytes : (s : String) → AreBytes (bytes_of s)
unfolding bytes_of
bytes_of-AreBytes String.[] = tt
bytes_of-AreBytes (String.◌∷◌ c s) =
    All-append (λ b. b < 256) (utf8 (code c)) (bytes_of s) (utf8-AreBytes (code c) (code_bound c))
      (bytes_of-AreBytes s)

abbrev pub AreAscii : Bytes → Type 0
AreAscii = All (λ c. c < 128)

kept_table : (m : Mode) → passes (λ c. should_escape m c || ltb c 128) 0 256 ≡ true
unfolding passes should_escape
kept_table user_password = refl
kept_table host = refl

hex_table : passes (λ d. ltb (upper_hex d) 128) 0 16 ≡ true
unfolding passes upper_hex
hex_table = refl

kept_ascii : (m : Mode) (c : ℕ) → c < 256 → should_escape m c ≡ false → c < 128
kept_ascii m c h e =
    let p : should_escape m c || ltb c 128 ≡ true =
      passes_lem (λ c. should_escape m c || ltb c 128) 0 256 (kept_table m) c (omega arith)
        (omega arith) in
    ground (arith, e, p)

hex_ascii : (d : ℕ) → d < 16 → upper_hex d < 128
hex_ascii d h =
    let p : ltb (upper_hex d) 128 ≡ true =
      passes_lem (λ d. ltb (upper_hex d) 128) 0 16 hex_table d (omega arith) (omega arith) in
    ground (arith, p)

escape_byte-AreAscii : (m : Mode) (c : ℕ) → c < 256 → AreAscii (escape_byte m c)
unfolding escape_byte
escape_byte-AreAscii m c h = elim (Bool-cases (should_escape m c)) [
  | inr kept ↦ rw kept (kept_ascii m c h kept, tt)
  | inl escaped ↦
      rw escaped
        (omega arith, (hex_ascii (c / 16) (omega arith), (hex_ascii (c % 16) (omega arith), tt)))
]

pub escape-AreAscii : (m : Mode) (s : Bytes) → AreBytes s → AreAscii (escape m s)
unfolding escape
escape-AreAscii m [] h = tt
escape-AreAscii m (c ∷ s) (b, h) =
    All-append (λ c. c < 128) (escape_byte m c) (escape m s) (escape_byte-AreAscii m c b)
      (escape-AreAscii m s h)

pub AreAscii-append : (s t : Bytes) → AreAscii s → AreAscii t → AreAscii (s ++ t)
AreAscii-append s t = All-append (λ c. c < 128) s t

to_char_table : passes (λ b. code (to_char b) == b) 0 128 ≡ true
unfolding passes to_char
to_char_table = refl

-- A character below 128 is its own byte.
pub utf8-to_char : (b : ℕ) → b < 128 → utf8 (code (to_char b)) ≡ b ∷ []
unfolding utf8
utf8-to_char b h =
    let p : (code (to_char b) == b) ≡ true =
      passes_lem (λ b. code (to_char b) == b) 0 128 to_char_table b (omega arith) (omega arith) in
    let q : code (to_char b) ≡ b = ground (arith, p) in rw q (ground arith)
