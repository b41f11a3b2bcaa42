-- ===== src/Json/Read/Enough.antt =====
-- The fuel of the reader is enough: more of it changes nothing.
use bosh_esxi_cpi_release.Prelude.{
  ℕ, zero, suc, ◌+◌, ◌-◌, ◌≤◌, ◌<◌, String, Bool, true, false, Option, none, some, ◌≡◌, sym, ap,
  ◌∙◌, arith,
}
use bosh_esxi_cpi_release.Json.Syntax.{Json}
use bosh_esxi_cpi_release.Json.Scan.{skip_space}
use bosh_esxi_cpi_release.Json.Scan.Shrinking.{size, skip_space-size}
use bosh_esxi_cpi_release.Json.Read.{text, value, items, fields, after_comma, read}
use bosh_esxi_cpi_release.Json.Read.Texts.{text_more, text-size}
use bosh_esxi_cpi_release.Json.Read.Shrinking.{all-Shrinks, after_comma-size}
use bosh_esxi_cpi_release.Json.Read.Steps.{
  items_step_lem, items_step_eq, fields_step_lem, fields_step_eq, value_step_lem, value_step_eq,
}

-- One unit more of fuel changes nothing where there is enough for the text.
record Settles (f : ℕ) : Type 0 where
  value_settles : (s : String) → size s + size s < f → value (suc f) s ≡ value f s
  items_settles :
      (first : Bool) (s : String)
      → suc (size s + size s) < f
      → items (suc f) first s ≡ items f first s
  fields_settles :
      (first : Bool) (s : String)
      → suc (size s + size s) < f
      → fields (suc f) first s ≡ fields f first s

more : (f : ℕ) → Settles f → Settles (suc f)
more f settles = record {
  value_settles = λ s lt.
      value_step_lem (suc f) s
      ∙ value_step_eq (text (suc f)) (text f) (items (suc f)) (items f) (fields (suc f)) (fields f)
          s (λ t lt'. text_more f t (omega arith))
          (λ t lt'. settles.items_settles true t (omega arith))
          (λ t lt'. settles.fields_settles true t (omega arith))
      ∙ sym (value_step_lem f s);
  items_settles = λ first s lt.
      items_step_lem (suc f) first s
      ∙ items_step_eq (value (suc f)) (value f) (items (suc f)) (items f) first s
          (settles.value_settles (after_comma first s) (omega (arith, after_comma-size first s)))
          (λ x r.
            let p1 = (all-Shrinks f).value_shrinks (after_comma first s) x r in
            let p2 = after_comma-size first s in
            let p3 = skip_space-size x.1 in
            settles.items_settles false (skip_space x.1) (omega arith))
      ∙ sym (items_step_lem f first s);
  fields_settles = λ first s lt.
      fields_step_lem (suc f) first s
      ∙ fields_step_eq (text (suc f)) (text f) (value (suc f)) (value f) (fields (suc f)) (fields f)
          first s (λ t lt'. text_more f t (omega arith))
          (λ t lt'. settles.value_settles t (omega arith))
          (λ t lt'. settles.fields_settles false t (omega arith)) (text-size f)
          (all-Shrinks f).value_shrinks
      ∙ sym (fields_step_lem f first s);
}

all-Settles : (f : ℕ) → Settles f
all-Settles zero = record {
  value_settles = λ s lt. absurd (omega arith);
  items_settles = λ first s lt. absurd (omega arith);
  fields_settles = λ first s lt. absurd (omega arith);
}
all-Settles (suc f) = more f (all-Settles f)

-- What is left must be space.
abbrev pub whole : Option (Json × String) → Option Json
whole none = none
whole (some (j, rest)) = elim (skip_space rest) [ String.[] ↦ some j | String.◌∷◌ c t ↦ none ]

-- The reader with the fuel `f` in the place of its own.
abbrev pub read_with : ℕ → String → Option Json
read_with f s = whole (value f (skip_space s))

value_any :
    (k : ℕ) (s t : String)
    → size t ≤ size s
    → value (k + suc (size s + size s)) t ≡ value (suc (size s + size s)) t
value_any zero s t le = ap (λ f. value f t) (omega arith)
value_any (suc k) s t le =
    ap (λ f. value f t) (omega arith)
    ∙ (all-Settles (k + suc (size s + size s))).value_settles t (omega arith)
    ∙ value_any k s t le

-- The reader's fuel, one more than twice the length of the text, is enough: with any fuel beyond
-- twice the length the reader reads the same, whether that is a value or an error.
pub read_with-read : (f : ℕ) (s : String) → size s + size s < f → read_with f s ≡ read s
unfolding read
read_with-read f s lt = ap whole (
    ap (λ g. value g (skip_space s)) (omega arith)
    ∙ value_any (f - suc (size s + size s)) s (skip_space s) (skip_space-size s))
