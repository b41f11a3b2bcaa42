-- ===== src/Json/Decode.antt =====
-- Decoding into Go values. A decoder takes the variable's old value and gives its new one, or
-- `none` for an `UnmarshalTypeError`. A `null` sets an interface or a slice to `nil`, and leaves
-- any other variable as it is.
use Prim.Native.Char.{code}
use bosh_esxi_cpi_release.Prelude.{
  ℕ, ◌+◌, String, Bool, true, false, ◌&&◌, Option, none, some, List, [], ◌∷◌, leb, ◌==◌, str_eq,
  if◌then◌else◌,
}
use bosh_esxi_cpi_release.Json.Syntax.{
  Json, null, str, array, object, Items, nil, item, Fields, end, field,
}

-- `bytes.EqualFold` on a field's name: letters without regard to case, and the two characters
-- outside ASCII that fold to `k` and to `s`.
fold : ℕ → ℕ
fold c =
    if leb b'A' c && leb c b'Z'
    then c + 32
    else if c == 0x212A
    then b'k'
    else if c == 0x17F
    then b's'
    else c

unfoldable pub equal_fold : String → String → Bool
unfolding fold
equal_fold String.[] String.[] = true
equal_fold String.[] (String.◌∷◌ d t) = false
equal_fold (String.◌∷◌ c s) String.[] = false
equal_fold (String.◌∷◌ c s) (String.◌∷◌ d t) = fold (code c) == fold (code d) && equal_fold s t

abbrev pub Decoder : Type 0 → Type 0
Decoder A = Json → A → Option A

infixl 5 ◌>>=◌
abbrev ◌>>=◌ : {A B : Type 0} → Option A → (A → Option B) → Option B
none >>= f = none
some a >>= f = f a

-- A `string`.
unfoldable pub decode_string : Decoder String
decode_string null old = some old
decode_string (str s) old = some s
decode_string _ old = none

-- An `interface{}`, of which the program reads only whether it is `nil`: true if it is not.
unfoldable pub decode_any : Decoder Bool
decode_any null old = some false
decode_any _ old = some true

module _ {A : Type 0} where
  unfoldable pub decode_items : Decoder A → A → Items → Option (List A)
  decode_items d zero_value nil = some []
  decode_items d zero_value (item j js) = do
    a ← d j zero_value
    rest ← decode_items d zero_value js
    some (a ∷ rest)

  -- A slice, whose elements start from their type's zero value.
  unfoldable pub decode_slice : Decoder A → A → Decoder (List A)
  unfolding decode_items
  decode_slice d zero_value null old = some []
  decode_slice d zero_value (array js) old = decode_items d zero_value js
  decode_slice d zero_value _ old = none

  -- The field of the struct that a key names: one spelled alike, or else the first that folds alike.
  unfoldable pub find_exact : String → List (String × Decoder A) → Option (Decoder A)
  find_exact k [] = none
  find_exact k ((name, d) ∷ fs) = if str_eq k name then some d else find_exact k fs

  unfoldable pub find_fold : String → List (String × Decoder A) → Option (Decoder A)
  find_fold k [] = none
  find_fold k ((name, d) ∷ fs) = if equal_fold k name then some d else find_fold k fs

  unfoldable pub find_field : String → List (String × Decoder A) → Option (Decoder A)
  unfolding find_exact find_fold equal_fold
  find_field k fs = elim (find_exact k fs) [ some d ↦ some d | none ↦ find_fold k fs ]

  -- One member of the object. A key that names no field is skipped.
  unfoldable pub decode_member : List (String × Decoder A) → String → Decoder A
  unfolding find_field
  decode_member fs k j old = elim (find_field k fs) [ some d ↦ d j old | none ↦ some old ]

  unfoldable pub decode_members : List (String × Decoder A) → Fields → A → Option A
  unfolding decode_member
  decode_members fs end old = some old
  decode_members fs (field k j more) old = do
    new ← decode_member fs k j old
    decode_members fs more new

  unfoldable pub decode_struct : List (String × Decoder A) → Decoder A
  unfolding decode_members
  decode_struct fs null old = some old
  decode_struct fs (object members) old = decode_members fs members old
  decode_struct fs _ old = none

-- A field: its decoder works on the field alone.
abbrev pub within : {R A : Type 0} → (R → A) → (A → R → R) → Decoder A → Decoder R
within get set d j r = elim (d j (get r)) [ none ↦ none | some a ↦ some (set a r) ]
