-- ===== src/Prelude/Text.antt =====
-- Tests on the native texts, and the search for a text in a text.
use Prim.Native.Char.{Char, code}
use Prim.Native.String.{String, ◌++◌ as ◌<>◌}
use mathlib.Core.Path.{◌≡◌, ◌∙◌, ap, sym}
use mathlib.Core.Logic.{◌↔◌, inl, inr}
use mathlib.Core.Bool.{Bool, true, false, ◌||◌}
use native.Mathlib.Omega.{arith}
use text.Mathlib.Text.{◌==◌, starts_with}
use text.Mathlib.TextEquality.{eq_iff, starts_with_iff}
use text.Mathlib.TextPositions.{starts_with-append}
use text.Mathlib.TextLemmas.{nil-append, cons-append, append_cancel_left, head-eq_of_cons-eq}
use bosh_esxi_cpi_release.Prelude.Tests.{Bool-cases}

abbrev pub str_eq : String → String → Bool
str_eq s t = s == t

pub str_eq_iff : (s t : String) → (str_eq s t ≡ true) ↔ (s ≡ t)
str_eq_iff s t = eq_iff s t

-- `strings.Contains`.
unfoldable pub contains : String → String → Bool
contains String.[] sub = starts_with String.[] sub
contains (String.◌∷◌ c s) sub = starts_with (String.◌∷◌ c s) sub || contains s sub

-- The occurrence that the search finds, with the text before it and the text after it.
abbrev pub Occurs : String → String → Type 0
Occurs sub s = (u : String) × (v : String) × (u <> (sub <> v) ≡ s)

here : (s sub : String) → starts_with s sub ≡ true → Occurs sub s
here s sub h = let (v, e) = (starts_with_iff s sub).0 h in (String.[], v, nil-append _ ∙ e)

further : (c : Char) (s sub : String) → Occurs sub s → Occurs sub (String.◌∷◌ c s)
further c s sub (u, v, e) = (String.◌∷◌ c u, v, cons-append c u (sub <> v) ∙ ap (String.◌∷◌ c) e)

contains→Occurs : (s sub : String) → contains s sub ≡ true → Occurs sub s
unfolding contains
contains→Occurs String.[] sub h = here _ sub h
contains→Occurs (String.◌∷◌ c s) sub h = elim (Bool-cases (starts_with (String.◌∷◌ c s) sub)) [
  | inl e ↦ here _ sub e
  | inr e ↦ further c s sub (contains→Occurs s sub (ground arith))
]

contains_of_start : (s sub : String) → starts_with s sub ≡ true → contains s sub ≡ true
unfolding contains
contains_of_start String.[] sub h = h
contains_of_start (String.◌∷◌ c s) sub h = rw h

contains_of_tail :
    (c : Char) (s sub : String) → contains s sub ≡ true → contains (String.◌∷◌ c s) sub ≡ true
unfolding contains
contains_of_tail c s sub h = elim (Bool-cases (starts_with (String.◌∷◌ c s) sub)) [
  | inl e ↦ rw e
  | inr e ↦ rw (e, h)
]

contains-append : (u sub v : String) → contains (u <> (sub <> v)) sub ≡ true
contains-append String.[] sub v =
    rw nil-append (contains_of_start (sub <> v) sub (starts_with-append sub v))
contains-append (String.◌∷◌ c u) sub v =
    rw cons-append (contains_of_tail c (u <> (sub <> v)) sub (contains-append u sub v))

-- The search finds a text exactly if it occurs.
pub contains_iff : (s sub : String) → (contains s sub ≡ true) ↔ Occurs sub s
contains_iff s sub = (contains→Occurs s sub, λ (u, v, e). rw e at (contains-append u sub v))

pub str_eq_sym : (s t : String) → str_eq s t ≡ str_eq t s
str_eq_sym s t = ground (arith, eq_iff s t, eq_iff t s)

-- Texts with the same beginning are compared by the rest, and texts with different first characters
-- are different.
pub str_eq-append_left : (p s t : String) → str_eq (p <> s) (p <> t) ≡ str_eq s t
str_eq-append_left p s t = ground (
  arith,
  eq_iff (p <> s) (p <> t),
  eq_iff s t,
  append_cancel_left p s t,
  λ (e : s ≡ t). ap (λ k. p <> k) e,
)

pub str_eq-heads :
    (c d : Char) (p q s t : String)
    → ¬ (code c ≡ code d)
    → str_eq (String.◌∷◌ c p <> s) (String.◌∷◌ d q <> t) ≡ false
str_eq-heads c d p q s t other =
    elim (Bool-cases (str_eq (String.◌∷◌ c p <> s) (String.◌∷◌ d q <> t))) [
      | inr e ↦ e
      | inl e ↦
          let same : String.◌∷◌ c (p <> s) ≡ String.◌∷◌ d (q <> t) =
            sym (cons-append c p s) ∙ (eq_iff _ _).0 e ∙ cons-append d q t in
          absurd (other (ap code (head-eq_of_cons-eq same)))
    ]
