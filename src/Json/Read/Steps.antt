-- ===== src/Json/Read/Steps.antt =====
-- The reader step by step: what a step does depends on what the readers of the parts do with shorter
-- texts.
use bosh_esxi_cpi_release.Prelude.{
  ℕ, suc, ◌<◌, String, Bool, true, false, Option, none, some, ◌≡◌, refl, arith,
}
use bosh_esxi_cpi_release.Json.Syntax.{
  Json, Items, Fields, nil, end, item, field, array, object, str, null, bool,
}
use bosh_esxi_cpi_release.Json.Scan.{
  expect, peek, drop_one, skip_space, done, Reader, number, ◌>>=◌, ◌>>◌,
}
use bosh_esxi_cpi_release.Json.Scan.Shrinking.{size, skip_space-size}
use bosh_esxi_cpi_release.Json.Read.{
  text, value, items, fields, mid, Mid, closes, goes_on, breaks, after_comma, Kind, kind, null_kind,
  true_kind, false_kind, string_kind, array_kind, object_kind, number_kind,
}
use bosh_esxi_cpi_release.Json.Read.Shrinking.{kind-size, after_comma-size}
use bosh_esxi_cpi_release.Json.Read.Texts.{both_eq, expect-shorter}

-- One step of an array's members.
pub items_step : Reader Json → (Bool → Reader Items) → Bool → Reader Items
items_step value rest first s = elim (mid b']' first (peek s)) [
  | closes ↦ some (nil, drop_one s)
  | breaks ↦ none
  | goes_on ↦ elim (value (after_comma first s)) [
    | none ↦ none
    | some x ↦ elim (rest false (skip_space x.1)) [
      | none ↦ none
      | some y ↦ some (item x.0 y.0, y.1)
    ]
  ]
]

pub items_step_eq :
    (v v' : Reader Json) (p q : Bool → Reader Items) (first : Bool) (s : String)
    → (v (after_comma first s) ≡ v' (after_comma first s))
    → ((x : Json × String)
        → v' (after_comma first s) ≡ some x
        → p false (skip_space x.1) ≡ q false (skip_space x.1))
    → items_step v p first s ≡ items_step v' q first s
unfolding items_step
items_step_eq v v' p q first s same others = go (mid b']' first (peek s)) refl
  where
    go : (m : Mid) → mid b']' first (peek s) ≡ m → items_step v p first s ≡ items_step v' q first s
    go closes e = rw (e, items_step) refl
    go breaks e = rw (e, items_step) refl
    go goes_on e =
        rw (e, items_step)
          (rw same (
            both_eq (v' (after_comma first s))
              (λ x. elim (p false (skip_space x.1)) [
                | none ↦ none
                | some y ↦ some (item x.0 y.0, y.1)
              ])
              (λ x. elim (q false (skip_space x.1)) [
                | none ↦ none
                | some y ↦ some (item x.0 y.0, y.1)
              ])
              (λ x r. rw (others x r) refl)))

pub items_step_lem :
    (f : ℕ) (first : Bool) (s : String)
    → items (suc f) first s ≡ items_step (value f) (items f) first s
unfolding items items_step
items_step_lem f first s = refl

-- One step of an object's members.
pub fields_step : Reader String → Reader Json → (Bool → Reader Fields) → Bool → Reader Fields
fields_step name value rest first s = elim (mid b'}' first (peek s)) [
  | closes ↦ some (end, drop_one s)
  | breaks ↦ none
  | goes_on ↦ elim (expect "\"" (after_comma first s)) [
    | none ↦ none
    | some x ↦ elim (name x.1) [
      | none ↦ none
      | some k ↦ elim (expect ":" (skip_space k.1)) [
        | none ↦ none
        | some y ↦ elim (value (skip_space y.1)) [
          | none ↦ none
          | some j ↦ elim (rest false (skip_space j.1)) [
            | none ↦ none
            | some z ↦ some (field k.0 j.0 z.0, z.1)
          ]
        ]
      ]
    ]
  ]
]

pub fields_step_lem :
    (f : ℕ) (first : Bool) (s : String)
    → fields (suc f) first s ≡ fields_step (text f) (value f) (fields f) first s
unfolding fields fields_step
fields_step_lem f first s = refl

pub fields_step_eq :
    (n n' : Reader String) (v v' : Reader Json) (p q : Bool → Reader Fields) (first : Bool)
    (s : String)
    → ((t : String) → size t < size s → n t ≡ n' t)
    → ((t : String) → size t < size s → v t ≡ v' t)
    → ((t : String) → size t < size s → p false t ≡ q false t)
    → ((t : String) (x : String × String) → n' t ≡ some x → size x.1 < size t)
    → ((t : String) (x : Json × String) → v' t ≡ some x → size x.1 < size t)
    → fields_step n v p first s ≡ fields_step n' v' q first s
unfolding fields_step
fields_step_eq n n' v v' p q first s names values others name_size value_size =
    go (mid b'}' first (peek s)) refl
  where
    last :
        (k : String × String) (x : Json × String)
        → size x.1 < size s
        → ◌≡◌ {A = Option (Fields × String)}
            (elim (p false (skip_space x.1)) [
              | none ↦ none
              | some z ↦ some (field k.0 x.0 z.0, z.1)
            ])
            (elim (q false (skip_space x.1)) [
              | none ↦ none
              | some z ↦ some (field k.0 x.0 z.0, z.1)
            ])
    last k x lt = rw (others (skip_space x.1) (omega (arith, skip_space-size x.1))) refl

    go :
        (m : Mid)
        → mid b'}' first (peek s) ≡ m
        → fields_step n v p first s ≡ fields_step n' v' q first s
    go closes e = rw (e, fields_step) refl
    go breaks e = rw (e, fields_step) refl
    go goes_on e =
        rw (e, fields_step)
          (both_eq (expect "\"" (after_comma first s)) _ _ λ x r.
            let p1 = expect-shorter "\"" "" (after_comma first s) x r in
            let p2 = after_comma-size first s in
            rw (names x.1 (omega arith)) (
              both_eq (n' x.1) _ _ λ k r2.
                let p3 = name_size x.1 k r2 in
                let p4 = skip_space-size k.1 in
                both_eq (expect ":" (skip_space k.1)) _ _ λ y r3.
                  let p5 = expect-shorter ":" "" (skip_space k.1) y r3 in
                  let p6 = skip_space-size y.1 in
                  rw (values (skip_space y.1) (omega arith)) (
                    both_eq (v' (skip_space y.1)) _ _
                      λ j r4. let p7 = value_size (skip_space y.1) j r4 in last k j (omega arith))))

-- One step of a value.
pub value_step : Reader String → (Bool → Reader Items) → (Bool → Reader Fields) → Reader Json
value_step name members others s = elim (kind (peek s)) [
  | null_kind ↦ (do expect "null"; done null) s
  | true_kind ↦ (do expect "true"; done (bool true)) s
  | false_kind ↦ (do expect "false"; done (bool false)) s
  | string_kind ↦ (do t ← name; done (str t)) (drop_one s)
  | array_kind ↦ (do js ← members true; done (array js)) (skip_space (drop_one s))
  | object_kind ↦ (do fs ← others true; done (object fs)) (skip_space (drop_one s))
  | number_kind ↦ number s
]

pub value_step_lem :
    (f : ℕ) (s : String) → value (suc f) s ≡ value_step (text f) (items f) (fields f) s
unfolding value value_step
value_step_lem f s = refl

pub value_step_eq :
    (n n' : Reader String) (p p' : Bool → Reader Items) (q q' : Bool → Reader Fields) (s : String)
    → ((t : String) → size t < size s → n t ≡ n' t)
    → ((t : String) → size t < size s → p true t ≡ p' true t)
    → ((t : String) → size t < size s → q true t ≡ q' true t)
    → value_step n p q s ≡ value_step n' p' q' s
unfolding value_step
value_step_eq n n' p p' q q' s names members others = go (kind (peek s)) refl
  where
    go : (k : Kind) → kind (peek s) ≡ k → value_step n p q s ≡ value_step n' p' q' s
    go null_kind e = rw (e, value_step) refl
    go true_kind e = rw (e, value_step) refl
    go false_kind e = rw (e, value_step) refl
    go number_kind e = rw (e, value_step) refl
    go string_kind e =
        let lt = kind-size string_kind s e (λ r. ground (arith, r)) in
        rw (e, value_step) (rw (names (drop_one s) lt, ◌>>=◌) refl)
    go array_kind e =
        let lt = kind-size array_kind s e (λ r. ground (arith, r)) in
        let shorter = skip_space-size (drop_one s) in
        rw (e, value_step) (rw (members (skip_space (drop_one s)) (omega arith), ◌>>=◌) refl)
    go object_kind e =
        let lt = kind-size object_kind s e (λ r. ground (arith, r)) in
        let shorter = skip_space-size (drop_one s) in
        rw (e, value_step) (rw (others (skip_space (drop_one s)) (omega arith), ◌>>=◌) refl)
