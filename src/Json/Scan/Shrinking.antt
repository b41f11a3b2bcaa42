-- ===== src/Json/Scan/Shrinking.antt =====
-- How much of its input each reader takes.
use bosh_esxi_cpi_release.Prelude.{
  ℕ, suc, ◌+◌, ◌≤◌, ◌<◌, String, Option, none, some, ◌≡◌, refl, arith, ◌==◌, ◌<>◌, Bool-cases, inl,
  inr,
}
use bosh_esxi_cpi_release.Json.Syntax.{Json, num}
use bosh_esxi_cpi_release.Json.Scan.{
  Reader, is_digit, skip_space, peek, drop_one, expect, digits, digits1, integer_part, fraction,
  exponent_sign, exponent, number, done, ◌>>=◌,
}

abbrev pub size : String → ℕ
size String.[] = 0
size (String.◌∷◌ c s) = suc (size s)

pub skip_space-size : (s : String) → size (skip_space s) ≤ size s
unfolding skip_space
skip_space-size String.[] = omega arith
skip_space-size (String.◌∷◌ c s) = ground (arith, skip_space-size s)

pub drop_one-size : (s : String) → size (drop_one s) ≤ size s
unfolding drop_one
drop_one-size String.[] = omega arith
drop_one-size (String.◌∷◌ c s) = omega arith

-- A text whose first character is known has one.
pub peek-size : (s : String) (n : ℕ) → peek s ≡ suc n → size (drop_one s) < size s
unfolding peek drop_one
peek-size String.[] n e = ground (arith, e)
peek-size (String.◌∷◌ c s) n e = omega arith

pub expect-size : (w s t : String) → expect w s ≡ some (tt, t) → size t + size w ≡ size s
unfolding expect
expect-size String.[] s t e = ground (arith, e)
expect-size (String.◌∷◌ c w) String.[] t e = ground (arith, e)
expect-size (String.◌∷◌ c w) (String.◌∷◌ d s) t e = ground (arith, e, expect-size w s t)

digits-size : (s : String) → size (digits s).1 ≤ size s
unfolding digits
digits-size String.[] = omega arith
digits-size (String.◌∷◌ c s) = ground (arith, digits-size s)

digits1-size : (s d t : String) → digits1 s ≡ some (d, t) → size t < size s
unfolding digits1 digits peek is_digit
digits1-size String.[] d t e = ground (arith, e)
digits1-size (String.◌∷◌ c s) d t e = ground (arith, e, digits-size s)

integer_part-size : (s d t : String) → integer_part s ≡ some (d, t) → size t < size s
unfolding integer_part peek drop_one
integer_part-size String.[] d t e = ground (arith, e, digits1-size String.[] d t)
integer_part-size (String.◌∷◌ c s) d t e = ground (arith, e, digits1-size (String.◌∷◌ c s) d t)

fraction-size : (s d t : String) → fraction s ≡ some (d, t) → size t ≤ size s
unfolding fraction
fraction-size s d t e = grind (arith, e, digits1-size, drop_one-size)

exponent_sign-size : (s : String) → size (exponent_sign s).1 ≤ size s
unfolding exponent_sign
exponent_sign-size s = ground (arith, drop_one-size s)

exponent-size : (s d t : String) → exponent s ≡ some (d, t) → size t ≤ size s
unfolding exponent
exponent-size s d t e = go (digits1 (exponent_sign (drop_one s)).1) refl
  where
    go :
        (x : Option (String × String))
        → digits1 (exponent_sign (drop_one s)).1 ≡ x
        → size t ≤ size s
    go none q = ground (arith, e, q)
    go (some (ds, rest)) q = ground (
      arith,
      e,
      q,
      digits1-size (exponent_sign (drop_one s)).1 ds rest,
      exponent_sign-size (drop_one s),
      drop_one-size s,
    )

-- Two readers in a row, of which the first takes some of its input.
pub then-size :
    {A B : Type 0} (p : Reader A) (f : A → Reader B) (s : String) (b : B) (t : String)
    → ((a : A) (u : String) → p s ≡ some (a, u) → size u < size s)
    → ((a : A) (u : String) → f a u ≡ some (b, t) → size t ≤ size u)
    → (p >>= f) s ≡ some (b, t)
    → size t < size s
then-size {A} p f s b t first second e = go (p s) refl
  where
    go : (x : Option (A × String)) → p s ≡ x → size t < size s
    go none q = ground (arith, e, q)
    go (some (a, u)) q = ground (arith, first a u q, second a u (rw (q, ◌>>=◌) at e))

number_tail-size :
    (sign i f u t : String) (j : Json)
    → (exponent >>= λ e. done (num (sign <> (i <> (f <> e))))) u ≡ some (j, t)
    → size t ≤ size u
number_tail-size sign i f u t j e = go (exponent u) refl
  where
    go : (x : Option (String × String)) → exponent u ≡ x → size t ≤ size u
    go none q = ground (arith, e, q)
    go (some (x, v)) q = ground (arith, e, q, exponent-size u x v q)

unsigned-size :
    (sign s t : String) (j : Json)
    → (integer_part >>= λ i.
          fraction >>= λ f. exponent >>= λ x. done (num (sign <> (i <> (f <> x)))))
        s
      ≡ some (j, t)
    → size t < size s
unsigned-size sign s t j e =
    then-size integer_part
      (λ i. fraction >>= λ f. exponent >>= λ x. done (num (sign <> (i <> (f <> x))))) s j t
      (λ i u q. integer_part-size s i u q) (λ i u q. rest i u q) e
  where
    rest :
        (i u : String)
        → (fraction >>= λ f. exponent >>= λ x. done (num (sign <> (i <> (f <> x))))) u ≡ some (j, t)
        → size t ≤ size u
    rest i u q = go (fraction u) refl
      where
        go : (x : Option (String × String)) → fraction u ≡ x → size t ≤ size u
        go none r = ground (arith, q, r)
        go (some (f, v)) r =
            ground
              (arith, fraction-size u f v r, number_tail-size sign i f v t j (rw (r, ◌>>=◌) at q))

pub number-size : (s : String) (j : Json) (t : String) → number s ≡ some (j, t) → size t < size s
unfolding number
number-size s j t e = elim (Bool-cases (peek s == b'-')) [
  | inl minus ↦ ground (arith, drop_one-size s, unsigned-size "-" (drop_one s) t j (rw minus at e))
  | inr plain ↦ unsigned-size "" s t j (rw plain at e)
]
