-- ===== src/Json/Print.antt =====
-- JSON printed without space. A text that is printed stands before the text that follows it.
use Prim.Native.Char.{Char, code}
use bosh_esxi_cpi_release.Prelude.{String, Bool, true, false, ◌&&◌, not, ltb, ◌==◌, if◌then◌else◌}
use bosh_esxi_cpi_release.Json.Syntax.{
  Json, null, bool, num, str, array, object, Items, nil, item, Fields, end, field,
}

-- A character of a string, with a backslash where it needs one.
unfoldable pub print_char : Char → String → String
print_char c rest =
    if code c == b'"'
    then String.◌∷◌ "\\" (String.◌∷◌ "\"" rest)
    else if code c == b'\\'
    then String.◌∷◌ "\\" (String.◌∷◌ "\\" rest)
    else String.◌∷◌ c rest

-- The rest of a string, after its opening quote.
unfoldable pub print_text : String → String → String
unfolding print_char
print_text String.[] rest = String.◌∷◌ "\"" rest
print_text (String.◌∷◌ c s) rest = print_char c (print_text s rest)

unfoldable pub print_word : String → String → String
print_word String.[] rest = rest
print_word (String.◌∷◌ c w) rest = String.◌∷◌ c (print_word w rest)

unfoldable pub print_comma : Bool → String → String
print_comma true rest = rest
print_comma false rest = String.◌∷◌ "," rest

unfoldable mutual
  unfolding print_text print_word print_comma

  pub print : Json → String → String
  print null rest = print_word "null" rest
  print (bool true) rest = print_word "true" rest
  print (bool false) rest = print_word "false" rest
  print (num t) rest = print_word t rest
  print (str s) rest = String.◌∷◌ "\"" (print_text s rest)
  print (array js) rest = String.◌∷◌ "[" (print_items true js rest)
  print (object fs) rest = String.◌∷◌ "{" (print_fields true fs rest)

  pub print_items : Bool → Items → String → String
  print_items first nil rest = String.◌∷◌ "]" rest
  print_items first (item j js) rest = print_comma first (print j (print_items false js rest))

  pub print_fields : Bool → Fields → String → String
  print_fields first end rest = String.◌∷◌ "}" rest
  print_fields first (field k j fs) rest =
      print_comma first
        (String.◌∷◌ "\"" (print_text k (String.◌∷◌ ":" (print j (print_fields false fs rest)))))

-- No control character.
abbrev pub is_plain_text : String → Bool
is_plain_text String.[] = true
is_plain_text (String.◌∷◌ c s) = not (ltb (code c) 32) && is_plain_text s

-- Values without numbers, and without control characters in their texts.
abbrev mutual
  pub is_plain : Json → Bool
  is_plain null = true
  is_plain (bool b) = true
  is_plain (num t) = false
  is_plain (str s) = is_plain_text s
  is_plain (array js) = are_plain js
  is_plain (object fs) = are_plain_fields fs

  pub are_plain : Items → Bool
  are_plain nil = true
  are_plain (item j js) = is_plain j && are_plain js

  pub are_plain_fields : Fields → Bool
  are_plain_fields end = true
  are_plain_fields (field k j fs) = is_plain_text k && (is_plain j && are_plain_fields fs)
