-- ===== src/Json/Read/Printed.antt =====
-- The reader reads back what was printed.
pub mod Texts
pub mod Steps
use Prim.Native.Char.{Char, code}
use package.text.Mathlib.TextEquality.{Char-path}
use bosh_esxi_cpi_release.Prelude.{
  ℕ, zero, suc, ◌+◌, ◌<◌, String, Bool, true, false, ◌&&◌, not, Option, none, some, ◌≡◌, refl, sym,
  ap, ◌∙◌, arith, ltb, ◌==◌, if◌then◌else◌, Bool-cases, inl, inr,
}
use bosh_esxi_cpi_release.Json.Chars.{unescape, to_char}
use bosh_esxi_cpi_release.Json.Syntax.{
  Json, null, bool, num, str, array, object, Items, nil, item, Fields, end, field,
}
use bosh_esxi_cpi_release.Json.Scan.{
  expect, peek, drop_one, skip_space, done, number, ◌>>=◌, ◌>>◌, is_space,
}
use bosh_esxi_cpi_release.Json.Scan.Shrinking.{size}
use bosh_esxi_cpi_release.Json.Read.{
  escape, text, mark, Mark, escape_mark, quote_mark, plain_mark, control_mark, value, items, fields,
  mid, after_comma, kind, goes_on, read,
}
use bosh_esxi_cpi_release.Json.Read.Enough.{whole, read_with-read}
use bosh_esxi_cpi_release.Json.Print.{
  print_char, print_text, print_word, print_comma, print, print_items, print_fields, is_plain_text,
  is_plain, are_plain, are_plain_fields,
}
use bosh_esxi_cpi_release.Json.Read.Printed.Texts.{text-print_text}
use bosh_esxi_cpi_release.Json.Read.Printed.Steps.{
  skip_space-print, skip_space-print_items, skip_space-print_fields, goes_on_at, after_comma-print,
  value_str_step, value_array_step, value_object_step, items_step_at, fields_step_at,
}

-- The fuel that the reader needs for a printed value.
abbrev mutual
  cost : Json → ℕ
  cost null = 1
  cost (bool b) = 1
  cost (num t) = 1
  cost (str s) = suc (suc (size s))
  cost (array js) = suc (cost_items js)
  cost (object fs) = suc (cost_fields fs)

  cost_items : Items → ℕ
  cost_items nil = 1
  cost_items (item j js) = suc (cost j + cost_items js)

  cost_fields : Fields → ℕ
  cost_fields end = 1
  cost_fields (field k j fs) = suc (suc (size k) + (cost j + cost_fields fs))

abbrev ReadsValue : Json → Type 0
ReadsValue j =
    (f : ℕ) (rest : String)
    → is_plain j ≡ true
    → cost j < suc f
    → value f (print j rest) ≡ some (j, rest)

abbrev ReadsItems : Items → Type 0
ReadsItems js =
    (f : ℕ) (first : Bool) (rest : String)
    → are_plain js ≡ true
    → cost_items js < suc f
    → items f first (print_items first js rest) ≡ some (js, rest)

abbrev ReadsFields : Fields → Type 0
ReadsFields fs =
    (f : ℕ) (first : Bool) (rest : String)
    → are_plain_fields fs ≡ true
    → cost_fields fs < suc f
    → fields f first (print_fields first fs rest) ≡ some (fs, rest)

-- Fuel beyond what is needed is at least one.
with_fuel :
    {n : ℕ} (P : ℕ → Type 0)
    → ((f : ℕ) → suc n < suc (suc f) → P (suc f))
    → (f : ℕ) → suc n < suc f
    → P f
with_fuel P step zero lt = absurd (omega arith)
with_fuel P step (suc f) lt = step f lt

-- With enough fuel the reader reads a printed value off the front of any text.
value-print : (j : Json) → ReadsValue j
unfolding value print expect kind peek drop_one mid
value-print j = elim j as ReadsValue ReadsItems ReadsFields [
  | null ↦
      λ f rest p. with_fuel (λ g. value g (print null rest) ≡ some (null, rest)) (λ g lt. refl) f
  | bool true ↦ λ f rest p.
      with_fuel (λ g. value g (print (bool true) rest) ≡ some (bool true, rest)) (λ g lt. refl) f
  | bool false ↦ λ f rest p.
      with_fuel (λ g. value g (print (bool false) rest) ≡ some (bool false, rest)) (λ g lt. refl) f
  | num t ↦ λ f rest p lt. ground (arith, p)
  | str s ↦ λ f rest p.
      with_fuel (λ g. value g (print (str s) rest) ≡ some (str s, rest))
        (λ g lt. value_str_step s rest g (text-print_text s rest g p (omega arith))) f
  | array (js → ih) ↦ λ f rest p.
      with_fuel (λ g. value g (print (array js) rest) ≡ some (array js, rest))
        (λ g lt.
          value_array_step js rest (print_items true js rest) g
            (skip_space-print_items true js rest p) (ih g true rest p (omega arith)))
        f
  | object (fs → ih) ↦ λ f rest p.
      with_fuel (λ g. value g (print (object fs) rest) ≡ some (object fs, rest))
        (λ g lt.
          value_object_step fs rest (print_fields true fs rest) g
            (skip_space-print_fields true fs rest) (ih g true rest p (omega arith)))
        f
  | nil ↦ λ f first rest p.
      with_fuel (λ g. items g first (print_items first nil rest) ≡ some (nil, rest)) (λ g lt. refl)
        f
  | item (j → ih) (js → ihs) ↦ λ f first rest p.
      with_fuel (λ g. items g first (print_items first (item j js) rest) ≡ some (item j js, rest))
        (λ g lt.
          let t = print_items false js rest in
          let pj : is_plain j ≡ true = ground (arith, p) in
          let pjs : are_plain js ≡ true = ground (arith, p) in
          items_step_at first (print_comma first (print j t)) t rest g j js
            (goes_on_at first j t pj)
            (ap (value g) (after_comma-print first j t pj) ∙ ih g t pj (omega arith))
            (skip_space-print_items false js rest pjs) (ihs g false rest pjs (omega arith)))
        f
  | end ↦ λ f first rest p.
      with_fuel (λ g. fields g first (print_fields first end rest) ≡ some (end, rest))
        (λ g lt. refl) f
  | field k (j → ih) (fs → ihs) ↦ λ f first rest p.
      with_fuel
        (λ g. fields g first (print_fields first (field k j fs) rest) ≡ some (field k j fs, rest))
        (λ g lt.
          let u = print_fields false fs rest in
          let t = print j u in
          let pk : is_plain_text k ≡ true = ground (arith, p) in
          let pj : is_plain j ≡ true = ground (arith, p) in
          let pfs : are_plain_fields fs ≡ true = ground (arith, p) in
          fields_step_at first k (print_text k (String.◌∷◌ ":" t)) t u rest g j fs
            (text-print_text k (String.◌∷◌ ":" t) g pk (omega arith)) (skip_space-print j u pj)
            (ih g u pj (omega arith)) (skip_space-print_fields false fs rest)
            (ihs g false rest pfs (omega arith)))
        f
]

-- A value without numbers, whose texts have no control characters, is read back from the text that is
-- printed for it.
pub read-print : (j : Json) → is_plain j ≡ true → read (print j "") ≡ some j
unfolding skip_space
read-print j p =
    let s = print j "" in
    let f = cost j + suc (size s + size s) in
    sym (read_with-read f s (omega arith))
    ∙ ap whole (ap (value f) (skip_space-print j "" p) ∙ value-print j f "" p (omega arith))
