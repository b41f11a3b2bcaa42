-- ===== src/Json/Scan.antt =====
-- Readers of a text, and those that need no fuel: space, words and numbers.
pub mod Shrinking
use Prim.Native.Char.{code}
use bosh_esxi_cpi_release.Prelude.{
  ℕ, String, ◌<>◌, Bool, ◌&&◌, ◌||◌, Option, none, some, leb, ◌==◌, if◌then◌else◌,
}
use bosh_esxi_cpi_release.Json.Syntax.{Json, num}

-- A reader gives a value and the rest of its input, or `none` for a syntax error.
abbrev pub Reader : Type 0 → Type 0
Reader A = String → Option (A × String)

abbrev pub done : {A : Type 0} → A → Reader A
done a s = some (a, s)

infixl 5 ◌>>=◌ ◌>>◌
abbrev pub ◌>>=◌ : {A B : Type 0} → Reader A → (A → Reader B) → Reader B
◌>>=◌ p f s = elim (p s) [ none ↦ none | some (a, rest) ↦ f a rest ]

abbrev pub ◌>>◌ : {B : Type 0} → Reader (Unit {0}) → Reader B → Reader B
p >> q = p >>= λ _. q

unfoldable pub is_space : ℕ → Bool
is_space c = c == 32 || c == 9 || c == 13 || c == 10

unfoldable pub is_digit : ℕ → Bool
is_digit c = leb b'0' c && leb c b'9'

unfoldable pub skip_space : String → String
unfolding is_space
skip_space String.[] = String.[]
skip_space (String.◌∷◌ c s) =
    let rest = skip_space s in if is_space (code c) then rest else String.◌∷◌ c s

-- The first character, or 0 at the end of the text.
unfoldable pub peek : String → ℕ
peek String.[] = 0
peek (String.◌∷◌ c s) = code c

unfoldable pub drop_one : String → String
drop_one String.[] = String.[]
drop_one (String.◌∷◌ c s) = s

-- `word` character by character.
unfoldable pub expect : String → Reader (Unit {0})
expect String.[] s = some (tt, s)
expect (String.◌∷◌ c w) String.[] = none
expect (String.◌∷◌ c w) (String.◌∷◌ d s) = if code c == code d then expect w s else none

-- The longest run of digits.
unfoldable pub digits : String → String × String
unfolding is_digit
digits String.[] = (String.[], String.[])
digits (String.◌∷◌ c s) =
    let rest = digits s in
    if is_digit (code c) then (String.◌∷◌ c rest.0, rest.1) else (String.[], String.◌∷◌ c s)

-- One digit or more.
unfoldable pub digits1 : Reader String
unfolding digits
digits1 s = if is_digit (peek s) then some (digits s) else none

unfoldable pub integer_part : Reader String
unfolding digits1 peek drop_one
integer_part s = if peek s == b'0' then some ("0", drop_one s) else digits1 s

unfoldable pub fraction : Reader String
unfolding digits1 peek drop_one
fraction s =
    if peek s == b'.'
    then elim (digits1 (drop_one s)) [ none ↦ none | some (ds, rest) ↦ some ("." <> ds, rest) ]
    else some ("", s)

unfoldable pub exponent_sign : String → String × String
unfolding peek drop_one
exponent_sign s =
    if peek s == b'+'
    then ("+", drop_one s)
    else if peek s == b'-'
    then ("-", drop_one s)
    else ("", s)

unfoldable pub exponent : Reader String
unfolding digits1 exponent_sign
exponent s =
    if peek s == b'e' || peek s == b'E'
    then (let (sign, t) = exponent_sign (drop_one s) in
        elim (digits1 t) [ none ↦ none | some (ds, rest) ↦ some ("e" <> (sign <> ds), rest) ])
    else some ("", s)

unfoldable pub number : Reader Json
unfolding integer_part fraction exponent
number s =
    let (sign, t) =
      let r : String × String = if peek s == b'-' then ("-", drop_one s) else ("", s) in r in
    (do i ← integer_part; f ← fraction; e ← exponent; done (num (sign <> (i <> (f <> e))))) t
