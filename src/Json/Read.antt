-- ===== src/Json/Read.antt =====
-- The reader. What a call leaves of its input is no structural part of it, so each call costs a
-- unit of fuel, and a text is read with more fuel than it has characters.
pub mod Texts
pub mod Shrinking
pub mod Steps
pub mod Enough
pub mod Printed
use Prim.Native.Char.{Char, code}
use bosh_esxi_cpi_release.Prelude.{
  ℕ, zero, suc, ◌+◌, ◌*◌, String, ◌≡◌, refl, Bool, true, false, ◌||◌, Option, none, some, ltb, ◌==◌,
  if◌then◌else◌,
}
use bosh_esxi_cpi_release.Json.Chars.{to_char, hex_value, unescape, is_high, is_low, joined}
use bosh_esxi_cpi_release.Json.Syntax.{
  Json, null, bool, num, str, array, object, Items, nil, item, Fields, end, field,
}
use bosh_esxi_cpi_release.Json.Scan.Shrinking.{size}
use bosh_esxi_cpi_release.Json.Scan.{
  Reader, done, ◌>>=◌, ◌>>◌, skip_space, expect, peek, drop_one, number,
}

-- Four hexadecimal digits.
hex4 : Reader ℕ
hex4 (String.◌∷◌ a (String.◌∷◌ b (String.◌∷◌ c (String.◌∷◌ d s)))) = elim (hex_value (code a)) [
  | none ↦ none
  | some w ↦ elim (hex_value (code b)) [
    | none ↦ none
    | some x ↦ elim (hex_value (code c)) [
      | none ↦ none
      | some y ↦ elim (hex_value (code d)) [
        | none ↦ none
        | some z ↦ some (w * 4096 + x * 256 + y * 16 + z, s)
      ]
    ]
  ]
]
hex4 _ = none

-- The low half after a high one, if the text goes on with it.
low_half : String → Option (ℕ × String)
low_half s = elim (expect "\\u" s) [
  | none ↦ none
  | some (_, t) ↦ elim (hex4 t) [
    | none ↦ none
    | some (n, rest) ↦ if is_low n then some (n, rest) else none
  ]
]

-- The character of an escape `\u`, whose digits come next. A half without its other half is U+FFFD.
unicode : Reader Char
unicode s = elim (hex4 s) [
  | none ↦ none
  | some (n, t) ↦
      if is_high n
      then elim (low_half t) [
        | none ↦ some (to_char 0xFFFD, t)
        | some (m, rest) ↦ some (to_char (joined n m), rest)
      ]
      else some (to_char n, t)
]

-- An escape, after its backslash.
pub escape : Reader Char
escape s =
    if peek s == b'u'
    then unicode (drop_one s)
    else elim (unescape (peek s)) [ none ↦ none | some c ↦ some (c, drop_one s) ]

pub data Mark : Type 0 where
  quote_mark escape_mark control_mark plain_mark : Mark

pub mark : ℕ → Mark
mark c =
    if c == b'"'
    then quote_mark
    else if c == b'\\'
    then escape_mark
    else if ltb c 32
    then control_mark
    else plain_mark

-- The rest of a string, after its opening quote.
pub text : ℕ → Reader String
text zero s = none
text (suc f) String.[] = none
text (suc f) (String.◌∷◌ c s) = elim (mark (code c)) [
  | quote_mark ↦ some (String.[], s)
  | control_mark ↦ none
  | escape_mark ↦ elim (escape s) [
    | none ↦ none
    | some (d, t) ↦ elim (text f t) [ none ↦ none | some (r, u) ↦ some (String.◌∷◌ d r, u) ]
  ]
  | plain_mark ↦ elim (text f s) [ none ↦ none | some (r, u) ↦ some (String.◌∷◌ c r, u) ]
]

pub data Kind : Type 0 where
  null_kind true_kind false_kind string_kind array_kind object_kind number_kind : Kind

pub kind : ℕ → Kind
kind c =
    if c == b'n'
    then null_kind
    else if c == b't'
    then true_kind
    else if c == b'f'
    then false_kind
    else if c == b'"'
    then string_kind
    else if c == b'['
    then array_kind
    else if c == b'{'
    then object_kind
    else number_kind

pub data Mid : Type 0 where
  closes goes_on breaks : Mid

-- What stands where a member may begin: the closing bracket; a member, behind a comma unless it is
-- the first; or an error.
pub mid : ℕ → Bool → ℕ → Mid
mid closing first c =
    if c == closing then closes else if first || c == b',' then goes_on else breaks

pub after_comma : Bool → String → String
after_comma first s = if first then s else skip_space (drop_one s)

mutual
  pub value : ℕ → Reader Json
  value zero s = none
  value (suc f) s = elim (kind (peek s)) [
    | null_kind ↦ (do expect "null"; done null) s
    | true_kind ↦ (do expect "true"; done (bool true)) s
    | false_kind ↦ (do expect "false"; done (bool false)) s
    | string_kind ↦ (do t ← text f; done (str t)) (drop_one s)
    | array_kind ↦ (do js ← items f true; done (array js)) (skip_space (drop_one s))
    | object_kind ↦ (do fs ← fields f true; done (object fs)) (skip_space (drop_one s))
    | number_kind ↦ number s
  ]

  pub items : ℕ → Bool → Reader Items
  items zero first s = none
  items (suc f) first s = elim (mid b']' first (peek s)) [
    | closes ↦ some (nil, drop_one s)
    | breaks ↦ none
    | goes_on ↦ elim (value f (after_comma first s)) [
      | none ↦ none
      | some (j, t) ↦ elim (items f false (skip_space t)) [
        | none ↦ none
        | some (js, u) ↦ some (item j js, u)
      ]
    ]
  ]

  pub fields : ℕ → Bool → Reader Fields
  fields zero first s = none
  fields (suc f) first s = elim (mid b'}' first (peek s)) [
    | closes ↦ some (end, drop_one s)
    | breaks ↦ none
    | goes_on ↦ elim (expect "\"" (after_comma first s)) [
      | none ↦ none
      | some (_, t) ↦ elim (text f t) [
        | none ↦ none
        | some (k, u) ↦ elim (expect ":" (skip_space u)) [
          | none ↦ none
          | some (_, v) ↦ elim (value f (skip_space v)) [
            | none ↦ none
            | some (j, w) ↦ elim (fields f false (skip_space w)) [
              | none ↦ none
              | some (fs, x) ↦ some (field k j fs, x)
            ]
          ]
        ]
      ]
    ]
  ]

-- A whole text: one value, with nothing but space around it.
unfoldable pub read : String → Option Json
unfolding value text number peek drop_one kind mid after_comma mark escape unicode low_half hex4
    hex_value unescape is_high is_low joined to_char skip_space expect
read s = elim (value (suc (size s + size s)) (skip_space s)) [
  | none ↦ none
  | some (j, rest) ↦ elim (skip_space rest) [ String.[] ↦ some j | String.◌∷◌ c t ↦ none ]
]

read_example :
    read " {\"a\" : [1.5e3, null,true], \"b\\u0041\":\"x\\n\"}"
    ≡ some (
        object (
          field "a"
            (array (item (num "1.5e3") (item null (item (bool true) nil))))
            (field "bA" (str "x\n") end)))
unfolding read
read_example = refl

read_errors :
    (read "[1,]" ≡ none) × (read "{\"a\" 1}" ≡ none) × (read "1 2" ≡ none) × (read "01" ≡ none)
unfolding read
read_errors = (refl, refl, refl, refl)
