-- ===== src/Json/Read/Printed/Texts.antt =====
-- The reader at a printed string.
use Prim.Native.Char.{Char, code}
use package.text.Mathlib.TextEquality.{Char-path}
use bosh_esxi_cpi_release.Prelude.{
  ℕ, zero, suc, ◌<◌, String, true, false, none, some, ◌≡◌, refl, ◌∙◌, arith, ltb, ◌==◌, Bool-cases,
  inl, inr,
}
use bosh_esxi_cpi_release.Json.Chars.{unescape, to_char}
use bosh_esxi_cpi_release.Json.Syntax.{}
use bosh_esxi_cpi_release.Json.Scan.{peek, drop_one}
use bosh_esxi_cpi_release.Json.Scan.Shrinking.{size}
use bosh_esxi_cpi_release.Json.Read.{escape, text, mark}
use bosh_esxi_cpi_release.Json.Print.{print_char, print_text, is_plain_text}

text_escaped :
    (d : Char) (rest : String) (f : ℕ)
    → text (suc f) (String.◌∷◌ "\\" (String.◌∷◌ d rest)) ≡ elim (escape (String.◌∷◌ d rest)) [
      | none ↦ none
      | some x ↦ elim (text f x.1) [ none ↦ none | some y ↦ some (String.◌∷◌ x.0 y.0, y.1) ]
    ]
unfolding text mark
text_escaped d rest f = refl

text_plain :
    (c : Char) (s : String) (f : ℕ)
    → (code c == b'"') ≡ false
    → (code c == b'\\') ≡ false
    → ltb (code c) 32 ≡ false
    → text (suc f) (String.◌∷◌ c s)
      ≡ elim (text f s) [ none ↦ none | some y ↦ some (String.◌∷◌ c y.0, y.1) ]
unfolding text mark
text_plain c s f p q r = rw (text, mark, p, q, r) refl

escaped_quote : (rest : String) → escape (String.◌∷◌ "\"" rest) ≡ some ("\"", rest)
unfolding escape peek drop_one unescape to_char
escaped_quote rest = refl

escaped_backslash : (rest : String) → escape (String.◌∷◌ "\\" rest) ≡ some ("\\", rest)
unfolding escape peek drop_one unescape to_char
escaped_backslash rest = refl

pub text-print_text :
    (s rest : String) (f : ℕ)
    → is_plain_text s ≡ true
    → size s < f
    → text f (print_text s rest) ≡ some (s, rest)
unfolding print_text print_char text mark
text-print_text s rest zero p lt = absurd (omega arith)
text-print_text String.[] rest (suc f) p lt = refl
text-print_text (String.◌∷◌ c s) rest (suc f) p lt =
    go (text-print_text s rest f (ground (arith, p)) (omega arith))
  where
    go :
        text f (print_text s rest) ≡ some (s, rest)
        → text (suc f) (print_char c (print_text s rest)) ≡ some (String.◌∷◌ c s, rest)
    go ih = elim (Bool-cases (code c == b'"')) [
      | inl a ↦
          let same : "\"" ≡ c = Char-path "\"" c (ground (arith, a)) in
          rw (a, print_char)
            (text_escaped "\"" (print_text s rest) f
              ∙ rw (escaped_quote (print_text s rest), ih, same) refl)
      | inr a ↦ elim (Bool-cases (code c == b'\\')) [
        | inl b ↦
            let same : "\\" ≡ c = Char-path "\\" c (ground (arith, b)) in
            rw (a, b, print_char)
              (text_escaped "\\" (print_text s rest) f
                ∙ rw (escaped_backslash (print_text s rest), ih, same) refl)
        | inr b ↦
            rw (a, b, print_char)
              (text_plain c (print_text s rest) f a b (ground (arith, p)) ∙ rw ih refl)
      ]
    ]
