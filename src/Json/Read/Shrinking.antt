-- ===== src/Json/Read/Shrinking.antt =====
-- How much of its input the reader of values takes.
use Prim.Native.Char.{Char}
use bosh_esxi_cpi_release.Prelude.{
  ℕ, zero, suc, ◌≤◌, ◌<◌, String, Bool, true, false, Option, none, some, ◌≡◌, refl, sym, arith,
}
use bosh_esxi_cpi_release.Json.Syntax.{
  Json, Items, Fields, item, field, array, object, str, null, bool,
}
use bosh_esxi_cpi_release.Json.Scan.{done, ◌>>◌, expect, peek, drop_one, skip_space}
use bosh_esxi_cpi_release.Json.Scan.Shrinking.{size, skip_space-size, drop_one-size, number-size}
use bosh_esxi_cpi_release.Json.Read.{
  text, value, items, fields, mid, Mid, closes, goes_on, breaks, after_comma, Kind, kind, null_kind,
  true_kind, false_kind, string_kind, array_kind, object_kind, number_kind,
}
use bosh_esxi_cpi_release.Json.Read.Texts.{expect-shorter, both-size, text-size}

-- What an array, an object and a value take, with some fuel.
pub record Shrinks (f : ℕ) : Type 0 where
  pub value_shrinks : (s : String) (x : Json × String) → value f s ≡ some x → size x.1 < size s
  pub items_shrinks :
      (first : Bool) (s : String) (x : Items × String)
      → items f first s ≡ some x
      → size x.1 < size s
  pub fields_shrinks :
      (first : Bool) (s : String) (x : Fields × String)
      → fields f first s ≡ some x
      → size x.1 < size s

pub after_comma-size : (first : Bool) (s : String) → size (after_comma first s) ≤ size s
unfolding after_comma
after_comma-size first s = ground (arith, drop_one-size s, skip_space-size (drop_one s))

closes-size :
    (c : ℕ) (first : Bool) (s : String)
    → mid (suc c) first (peek s) ≡ closes
    → size (drop_one s) < size s
unfolding mid peek drop_one
closes-size c first String.[] e = ground (arith, e)
closes-size c first (String.◌∷◌ d s) e = omega arith

items-size :
    (f : ℕ)
    → Shrinks f
    → (first : Bool) (s : String) (x : Items × String) → items (suc f) first s ≡ some x
    → size x.1 < size s
unfolding items
items-size f shrinks first s x e = go (mid b']' first (peek s)) refl
  where
    go : (m : Mid) → mid b']' first (peek s) ≡ m → size x.1 < size s
    go breaks q = ground (arith, e, q)
    go closes q = ground (arith, e, q, closes-size 92 first s q)
    go goes_on q =
        both-size (size s) (value f (after_comma first s))
          (λ y. elim (items f false (skip_space y.1)) [
            | none ↦ none
            | some z ↦ some (item y.0 z.0, z.1)
          ])
          x
          (λ y r.
            let p = shrinks.value_shrinks _ y r in let p' = after_comma-size first s in omega arith)
          (λ y r.
            let p =
              both-size (size (skip_space y.1)) (items f false (skip_space y.1))
                (λ z. some (item y.0 z.0, z.1)) x (shrinks.items_shrinks false (skip_space y.1))
                (λ z r'. ground (arith, r')) r in
            let p' = skip_space-size y.1 in omega arith)
          (rw (q, items) at e)

fields-size :
    (f : ℕ)
    → Shrinks f
    → (first : Bool) (s : String) (x : Fields × String) → fields (suc f) first s ≡ some x
    → size x.1 < size s
unfolding fields
fields-size f shrinks first s x e = go (mid b'}' first (peek s)) refl
  where
    put : String → Json → Fields × String → Option (Fields × String)
    put k j z = some (field k j z.0, z.1)

    -- What follows a name, a colon and a value.
    others : String → Json × String → Option (Fields × String)
    others k y = elim (fields f false (skip_space y.1)) [ none ↦ none | some z ↦ put k y.0 z ]

    others-size : (k : String) (y : Json × String) → others k y ≡ some x → size x.1 ≤ size y.1
    others-size k y r =
        let p =
          both-size (size (skip_space y.1)) (fields f false (skip_space y.1)) (put k y.0) x
            (shrinks.fields_shrinks false (skip_space y.1)) (λ z r'. ground (arith, r')) r in
        let p' = skip_space-size y.1 in omega arith

    after_colon : String → Unit {0} × String → Option (Fields × String)
    after_colon k y = elim (value f (skip_space y.1)) [ none ↦ none | some z ↦ others k z ]

    after_colon-size :
        (k : String) (y : Unit {0} × String) → after_colon k y ≡ some x → size x.1 ≤ size y.1
    after_colon-size k y r =
        let p =
          both-size (size (skip_space y.1)) (value f (skip_space y.1)) (others k) x
            (shrinks.value_shrinks (skip_space y.1)) (others-size k) r in
        let p' = skip_space-size y.1 in omega arith

    after_name : String × String → Option (Fields × String)
    after_name y = elim (expect ":" (skip_space y.1)) [ none ↦ none | some z ↦ after_colon y.0 z ]

    after_name-size : (y : String × String) → after_name y ≡ some x → size x.1 ≤ size y.1
    after_name-size y r =
        let p =
          both-size (size (skip_space y.1)) (expect ":" (skip_space y.1)) (after_colon y.0) x
            (expect-shorter ":" "" (skip_space y.1)) (after_colon-size y.0) r in
        let p' = skip_space-size y.1 in omega arith

    after_quote : Unit {0} × String → Option (Fields × String)
    after_quote y = elim (text f y.1) [ none ↦ none | some z ↦ after_name z ]

    after_quote-size : (y : Unit {0} × String) → after_quote y ≡ some x → size x.1 ≤ size y.1
    after_quote-size y r =
        let p =
          both-size (size y.1) (text f y.1) after_name x (text-size f y.1) after_name-size r in
        omega arith

    go : (m : Mid) → mid b'}' first (peek s) ≡ m → size x.1 < size s
    go breaks q = ground (arith, e, q)
    go closes q = ground (arith, e, q, closes-size 124 first s q)
    go goes_on q =
        let p =
          both-size (size (after_comma first s)) (expect "\"" (after_comma first s)) after_quote x
            (expect-shorter "\"" "" (after_comma first s)) after_quote-size (rw (q, fields) at e) in
        let p' = after_comma-size first s in omega arith

pub kind-size :
    (k : Kind) (s : String) → kind (peek s) ≡ k → ¬ (k ≡ number_kind) → size (drop_one s) < size s
unfolding kind peek drop_one
kind-size k String.[] e other = absurd (other (sym e))
kind-size k (String.◌∷◌ c s) e other = omega arith

value-size :
    (f : ℕ)
    → Shrinks f
    → (s : String) (x : Json × String) → value (suc f) s ≡ some x
    → size x.1 < size s
unfolding value
value-size f shrinks s x e = go (kind (peek s)) refl
  where
    word :
        (c : Char) (w : String) (j : Json)
        → (do expect (String.◌∷◌ c w); done j) s ≡ some x
        → size x.1 < size s
    word c w j r =
        both-size (size s) (expect (String.◌∷◌ c w) s) (λ y. some (j, y.1)) x (expect-shorter c w s)
          (λ y r'. ground (arith, r')) r

    go : (k : Kind) → kind (peek s) ≡ k → size x.1 < size s
    go null_kind q = word "n" "ull" null (rw (q, value) at e)
    go true_kind q = word "t" "rue" (bool true) (rw (q, value) at e)
    go false_kind q = word "f" "alse" (bool false) (rw (q, value) at e)
    go number_kind q = number-size s x.0 x.1 (rw (q, value) at e)
    go string_kind q =
        let p =
          both-size (size (drop_one s)) (text f (drop_one s)) (λ y. some (str y.0, y.1)) x
            (text-size f (drop_one s)) (λ y r. ground (arith, r)) (rw (q, value) at e) in
        let p' = drop_one-size s in omega arith
    go array_kind q =
        let t = skip_space (drop_one s) in
        let p =
          both-size (size t) (items f true t) (λ y. some (array y.0, y.1)) x
            (shrinks.items_shrinks true t) (λ y r. ground (arith, r)) (rw (q, value) at e) in
        let p' = skip_space-size (drop_one s) in let p'' = drop_one-size s in omega arith
    go object_kind q =
        let t = skip_space (drop_one s) in
        let p =
          both-size (size t) (fields f true t) (λ y. some (object y.0, y.1)) x
            (shrinks.fields_shrinks true t) (λ y r. ground (arith, r)) (rw (q, value) at e) in
        let p' = skip_space-size (drop_one s) in let p'' = drop_one-size s in omega arith

pub all-Shrinks : (f : ℕ) → Shrinks f
unfolding value items fields
all-Shrinks zero = record {
  value_shrinks = λ s x e. ground (arith, e);
  items_shrinks = λ first s x e. ground (arith, e);
  fields_shrinks = λ first s x e. ground (arith, e);
}
all-Shrinks (suc f) = record {
  value_shrinks = value-size f (all-Shrinks f);
  items_shrinks = items-size f (all-Shrinks f);
  fields_shrinks = fields-size f (all-Shrinks f);
}
