-- ===== src/Json/Read/Texts.antt =====
-- How much of its input the reader of a string takes, and how much fuel it needs.
use Prim.Native.Char.{Char, code}
use bosh_esxi_cpi_release.Prelude.{
  ℕ, zero, suc, ◌≤◌, ◌<◌, String, Bool, Option, none, some, ◌≡◌, refl, sym, arith, if◌then◌else◌,
}
use bosh_esxi_cpi_release.Json.Chars.{is_high, is_low, joined, to_char}
use bosh_esxi_cpi_release.Json.Syntax.{}
use bosh_esxi_cpi_release.Json.Scan.{expect, drop_one}
use bosh_esxi_cpi_release.Json.Scan.Shrinking.{size, drop_one-size, expect-size}
use bosh_esxi_cpi_release.Json.Read.{
  hex4, low_half, unicode, escape, text, Mark, quote_mark, escape_mark, control_mark, plain_mark,
  mark,
}
use Prim.Native.Char.{code}
use bosh_esxi_cpi_release.Prelude.{
  ℕ, zero, suc, ◌<◌, String, Bool, Option, none, some, ◌≡◌, refl, sym, ◌∙◌, arith,
}
use bosh_esxi_cpi_release.Json.Syntax.{}
use bosh_esxi_cpi_release.Json.Scan.{expect, drop_one, Reader}
use bosh_esxi_cpi_release.Json.Scan.Shrinking.{size}
use bosh_esxi_cpi_release.Json.Read.{
  escape, text, Mark, quote_mark, escape_mark, control_mark, plain_mark, mark,
}

pub expect-shorter :
    (c : Char) (w s : String) (x : Unit {0} × String)
    → expect (String.◌∷◌ c w) s ≡ some x
    → size x.1 < size s
expect-shorter c w s (tt, t) e = let q = expect-size (String.◌∷◌ c w) s t e in omega arith

hex4-size : (s : String) (x : ℕ × String) → hex4 s ≡ some x → size x.1 < size s
unfolding hex4
hex4-size (String.◌∷◌ a (String.◌∷◌ b (String.◌∷◌ c (String.◌∷◌ d s)))) x e = ground (arith, e)
hex4-size _ x e = ground (arith, e)

-- Two readings in a row, each of which leaves less than `n` characters, or no more than it was given.
pub both-size :
    {A B : Type 0} (n : ℕ) (o : Option (A × String)) (k : A × String → Option (B × String))
    (y : B × String)
    → ((x : A × String) → o ≡ some x → size x.1 < n)
    → ((x : A × String) → k x ≡ some y → size y.1 ≤ size x.1)
    → elim o [ none ↦ none | some x ↦ k x ] ≡ some y
    → size y.1 < n
both-size n none k y first second e = ground (arith, e)
both-size n (some x) k y first second e = ground (arith, first x refl, second x e)

low_half-size : (s : String) (x : ℕ × String) → low_half s ≡ some x → size x.1 < size s
unfolding low_half
low_half-size s x e =
    both-size (size s) (expect "\\u" s)
      (λ y. elim (hex4 y.1) [ none ↦ none | some z ↦ if is_low z.0 then some z else none ]) x
      (expect-shorter "\\" "u" s)
      (λ y q.
        let shorter =
          both-size (size y.1) (hex4 y.1) (λ z. if is_low z.0 then some z else none) x
            (hex4-size y.1) (λ z r. ground (arith, r)) q in
        omega arith)
      e

unicode-size : (s : String) (x : Char × String) → unicode s ≡ some x → size x.1 < size s
unfolding unicode
unicode-size s x e =
    both-size (size s) (hex4 s)
      (λ y.
        if is_high y.0
        then elim (low_half y.1) [
          | none ↦ some (to_char 0xFFFD, y.1)
          | some z ↦ some (to_char (joined y.0 z.0), z.1)
        ]
        else some (to_char y.0, y.1))
      x (hex4-size s) (λ y q. second y (low_half y.1) refl (is_high y.0) q) e
  where
    second :
        (y : ℕ × String) (o : Option (ℕ × String))
        → low_half y.1 ≡ o
        → (high : Bool)
        → (if high
            then elim o [
              | none ↦ some (to_char 0xFFFD, y.1)
              | some z ↦ some (to_char (joined y.0 z.0), z.1)
            ]
            else some (to_char y.0, y.1))
          ≡ some x
        → size x.1 ≤ size y.1
    second y none r high q = ground (arith, q)
    second y (some z) r high q = ground (arith, q, low_half-size y.1 z r)

pub escape-size : (s : String) (x : Char × String) → escape s ≡ some x → size x.1 ≤ size s
unfolding escape
escape-size s x e = ground (arith, e, unicode-size (drop_one s) x, drop_one-size s)

pub text-size : (f : ℕ) (s : String) (x : String × String) → text f s ≡ some x → size x.1 < size s
unfolding text
text-size zero s x e = ground (arith, e)
text-size (suc f) String.[] x e = ground (arith, e)
text-size (suc f) (String.◌∷◌ c s) x e = go (text-size f) (mark (code c)) refl
  where
    Earlier : Type 0
    Earlier = (t : String) (y : String × String) → text f t ≡ some y → size y.1 < size t

    put : Char → String × String → Option (String × String)
    put d y = some (String.◌∷◌ d y.0, y.1)

    put-size : (d : Char) (y : String × String) → put d y ≡ some x → size x.1 ≤ size y.1
    put-size d y r = ground (arith, r)

    go : Earlier → (m : Mark) → mark (code c) ≡ m → size x.1 < suc (size s)
    go earlier quote_mark q = ground (arith, e, q)
    go earlier control_mark q = ground (arith, e, q)
    go earlier plain_mark q =
        both-size (suc (size s)) (text f s) (put c) x (λ y r. let p = earlier s y r in omega arith)
          (put-size c) (rw (q, text) at e)
    go earlier escape_mark q =
        both-size (suc (size s)) (escape s)
          (λ y. elim (text f y.1) [ none ↦ none | some z ↦ put y.0 z ]) x
          (λ y r. let p = escape-size s y r in omega arith)
          (λ y r.
            let p = both-size (size y.1) (text f y.1) (put y.0) x (earlier y.1) (put-size y.0) r in
            omega arith)
          (rw (q, text) at e)

-- The same readings, followed by what agrees on all that they may leave.
pub both_eq :
    {A B : Type 0} (o : Option (A × String)) (k k' : A × String → Option (B × String))
    → ((x : A × String) → o ≡ some x → k x ≡ k' x)
    → ◌≡◌ {A = Option (B × String)}
        (elim o [ none ↦ none | some x ↦ k x ])
        (elim o [ none ↦ none | some x ↦ k' x ])
both_eq none k k' same = refl
both_eq (some x) k k' same = same x refl

-- One step of a string, from the reader of what follows.
text_step : Reader String → Reader String
text_step rest String.[] = none
text_step rest (String.◌∷◌ c s) = elim (mark (code c)) [
  | quote_mark ↦ some (String.[], s)
  | control_mark ↦ none
  | escape_mark ↦ elim (escape s) [
    | none ↦ none
    | some x ↦ elim (rest x.1) [ none ↦ none | some y ↦ some (String.◌∷◌ x.0 y.0, y.1) ]
  ]
  | plain_mark ↦ elim (rest s) [ none ↦ none | some y ↦ some (String.◌∷◌ c y.0, y.1) ]
]

text_step_lem : (f : ℕ) (s : String) → text (suc f) s ≡ text_step (text f) s
unfolding text text_step
text_step_lem f String.[] = refl
text_step_lem f (String.◌∷◌ c s) = refl

text_step_eq :
    (p q : Reader String) (s : String)
    → ((t : String) → size t < size s → p t ≡ q t)
    → text_step p s ≡ text_step q s
unfolding text_step
text_step_eq p q String.[] same = refl
text_step_eq p q (String.◌∷◌ c s) same = go (mark (code c)) refl
  where
    go :
        (m : Mark) → mark (code c) ≡ m → text_step p (String.◌∷◌ c s) ≡ text_step q (String.◌∷◌ c s)
    go quote_mark e = rw (e, text_step) refl
    go control_mark e = rw (e, text_step) refl
    go plain_mark e = rw (e, text_step) (rw (same s (omega arith)) refl)
    go escape_mark e =
        rw (e, text_step)
          (both_eq (escape s)
            (λ x. elim (p x.1) [ none ↦ none | some y ↦ some (String.◌∷◌ x.0 y.0, y.1) ])
            (λ x. elim (q x.1) [ none ↦ none | some y ↦ some (String.◌∷◌ x.0 y.0, y.1) ])
            (λ x r. rw (same x.1 (omega (arith, escape-size s x r))) refl))

pub text_more : (f : ℕ) (s : String) → size s < f → text (suc f) s ≡ text f s
text_more zero s lt = absurd (omega arith)
text_more (suc f) s lt =
    text_step_lem (suc f) s
    ∙ text_step_eq (text (suc f)) (text f) s (λ t lt'. text_more f t (omega arith))
    ∙ sym (text_step_lem f s)
