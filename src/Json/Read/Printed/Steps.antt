-- ===== src/Json/Read/Printed/Steps.antt =====
-- The steps of the reader at what is printed.
use bosh_esxi_cpi_release.Prelude.{
  ℕ, suc, String, Bool, true, false, Option, none, some, ◌≡◌, refl, ap, ◌∙◌, arith,
}
use bosh_esxi_cpi_release.Json.Syntax.{
  Json, null, bool, num, str, array, object, Items, nil, item, Fields, end, field,
}
use bosh_esxi_cpi_release.Json.Scan.{expect, peek, drop_one, skip_space, done, ◌>>=◌, is_space}
use bosh_esxi_cpi_release.Json.Read.{text, value, items, fields, mid, after_comma, kind, goes_on}
use bosh_esxi_cpi_release.Json.Print.{
  print_text, print_comma, print, print_items, print_fields, is_plain, are_plain,
}

-- What is printed begins with no space.
pub skip_space-print :
    (j : Json) (rest : String) → is_plain j ≡ true → skip_space (print j rest) ≡ print j rest
unfolding skip_space print is_space
skip_space-print null rest p = refl
skip_space-print (bool true) rest p = refl
skip_space-print (bool false) rest p = refl
skip_space-print (num t) rest p = ground (arith, p)
skip_space-print (str s) rest p = refl
skip_space-print (array js) rest p = refl
skip_space-print (object fs) rest p = refl

pub skip_space-print_items :
    (first : Bool) (js : Items) (rest : String)
    → are_plain js ≡ true
    → skip_space (print_items first js rest) ≡ print_items first js rest
unfolding skip_space print is_space
skip_space-print_items first nil rest p = refl
skip_space-print_items false (item j js) rest p = refl
skip_space-print_items true (item j js) rest p = skip_space-print j _ (ground (arith, p))

pub skip_space-print_fields :
    (first : Bool) (fs : Fields) (rest : String)
    → skip_space (print_fields first fs rest) ≡ print_fields first fs rest
unfolding skip_space print is_space
skip_space-print_fields first end rest = refl
skip_space-print_fields true (field k j fs) rest = refl
skip_space-print_fields false (field k j fs) rest = refl

pub goes_on_at :
    (first : Bool) (j : Json) (rest : String)
    → is_plain j ≡ true
    → mid b']' first (peek (print_comma first (print j rest))) ≡ goes_on
unfolding mid peek print
goes_on_at false j rest p = refl
goes_on_at true null rest p = refl
goes_on_at true (bool true) rest p = refl
goes_on_at true (bool false) rest p = refl
goes_on_at true (num t) rest p = ground (arith, p)
goes_on_at true (str s) rest p = refl
goes_on_at true (array js) rest p = refl
goes_on_at true (object fs) rest p = refl

pub after_comma-print :
    (first : Bool) (j : Json) (rest : String)
    → is_plain j ≡ true
    → after_comma first (print_comma first (print j rest)) ≡ print j rest
unfolding after_comma drop_one print_comma
after_comma-print true j rest p = refl
after_comma-print false j rest p = skip_space-print j rest p

pub value_str_step :
    (s rest : String) (f : ℕ)
    → text f (print_text s rest) ≡ some (s, rest)
    → value (suc f) (String.◌∷◌ "\"" (print_text s rest)) ≡ some (str s, rest)
unfolding value kind peek drop_one
value_str_step s rest f e =
    ap (λ (o : Option (String × String)). elim o [ none ↦ none | some x ↦ some (str x.0, x.1) ]) e

pub value_array_step :
    (js : Items) (rest t : String) (f : ℕ)
    → skip_space t ≡ t
    → items f true t ≡ some (js, rest)
    → value (suc f) (String.◌∷◌ "[" t) ≡ some (array js, rest)
unfolding value kind peek drop_one
value_array_step js rest t f q e =
    ap (λ u. (items f true >>= λ x. done (array x)) u) q
    ∙ ap (λ (o : Option (Items × String)). elim o [ none ↦ none | some x ↦ some (array x.0, x.1) ])
        e

pub value_object_step :
    (fs : Fields) (rest t : String) (f : ℕ)
    → skip_space t ≡ t
    → fields f true t ≡ some (fs, rest)
    → value (suc f) (String.◌∷◌ "{" t) ≡ some (object fs, rest)
unfolding value kind peek drop_one
value_object_step fs rest t f q e =
    ap (λ u. (fields f true >>= λ x. done (object x)) u) q
    ∙ ap
        (λ (o : Option (Fields × String)). elim o [ none ↦ none | some x ↦ some (object x.0, x.1) ])
        e

pub items_step_at :
    (first : Bool) (s t rest : String) (f : ℕ) (j : Json) (js : Items)
    → mid b']' first (peek s) ≡ goes_on
    → value f (after_comma first s) ≡ some (j, t)
    → skip_space t ≡ t
    → items f false t ≡ some (js, rest)
    → items (suc f) first s ≡ some (item j js, rest)
unfolding items
items_step_at first s t rest f j js a b c d = rw (items, a, b, c, d) refl

pub fields_step_at :
    (first : Bool) (k : String) (s t u rest : String) (f : ℕ) (j : Json) (fs : Fields)
    → text f s ≡ some (k, String.◌∷◌ ":" t)
    → skip_space t ≡ t
    → value f t ≡ some (j, u)
    → skip_space u ≡ u
    → fields f false u ≡ some (fs, rest)
    → fields (suc f) first (print_comma first (String.◌∷◌ "\"" s)) ≡ some (field k j fs, rest)
unfolding fields print_comma mid peek after_comma drop_one skip_space is_space expect
fields_step_at true k s t u rest f j fs a b c d e = rw (fields, a, b, c, d, e) refl
fields_step_at false k s t u rest f j fs a b c d e = rw (fields, a, b, c, d, e) refl
