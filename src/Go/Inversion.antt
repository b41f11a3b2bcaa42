-- ===== src/Go/Inversion.antt =====
-- Chains of calls that returned without an error, taken apart: every call of the chain did.
use bosh_esxi_cpi_release.Prelude.{◌≡◌, refl, ap, Option, none, some, arith}
use bosh_esxi_cpi_release.Go.World.{Error, Event, History, Returns}
use bosh_esxi_cpi_release.Go.Monad.{
  Exit, returned, panicked, looping, M, pure, tell, ◌>>=◌, ◌>>◌, check,
}

module _ {A B : Type 0} (b0 : B) where
  -- A call that returns a value and an error, and what runs if there is none.
  pub passed :
      (m : M (Returns A)) (rest : A → M (Returns B)) (h : History) {b : B} {h' : History}
      → (m >>= λ r. check r.1 (λ e. pure (b0, some e)) (rest r.0)) h ≡ (returned (b, none), h')
      → (a : A) × (h1 : History) × (m h ≡ (returned (a, none), h1))
        × (rest a h1 ≡ (returned (b, none), h'))
  passed m rest h {b} {h'} e = go (m h) refl
    where
      go :
          (x : Exit (Returns A) × History)
          → m h ≡ x
          → (a : A) × (h1 : History) × (m h ≡ (returned (a, none), h1))
            × (rest a h1 ≡ (returned (b, none), h'))
      go (panicked k, h1) q = ground (arith, q)
      go (looping, h1) q = ground (arith, q)
      go (returned (a, some d), h1) q = ground (arith, q)
      go (returned (a, none), h1) q = (a, h1, q, rw (ap (λ x. x.1) q) at (rw (q, ◌>>=◌) at e))

-- A call that returns an error alone.
pub passed_error :
    {B : Type 0} (b0 : B) (m : M (Option Error)) (rest : M (Returns B)) (h : History) {b : B}
    {h' : History}
    → (m >>= λ r. check r (λ e. pure (b0, some e)) rest) h ≡ (returned (b, none), h')
    → (h1 : History) × (m h ≡ (returned none, h1)) × (rest h1 ≡ (returned (b, none), h'))
passed_error b0 m rest h {b} {h'} e = go (m h) refl
  where
    go :
        (x : Exit (Option Error) × History)
        → m h ≡ x
        → (h1 : History) × (m h ≡ (returned none, h1)) × (rest h1 ≡ (returned (b, none), h'))
    go (panicked k, h1) q = ground (arith, q)
    go (looping, h1) q = ground (arith, q)
    go (returned (some d), h1) q = ground (arith, q)
    go (returned none, h1) q = (h1, q, rw (ap (λ x. x.1) q) at (rw (q, ◌>>=◌) at e))

-- A call that returns nothing.
pub passed_unit :
    {B : Type 0} (m : M (Unit {0})) (rest : M B) (h : History) {b : B} {h' : History}
    → (m >> rest) h ≡ (returned b, h')
    → (h1 : History) × (m h ≡ (returned tt, h1)) × (rest h1 ≡ (returned b, h'))
passed_unit m rest h {b} {h'} e = go (m h) refl
  where
    go :
        (x : Exit (Unit {0}) × History)
        → m h ≡ x
        → (h1 : History) × (m h ≡ (returned tt, h1)) × (rest h1 ≡ (returned b, h'))
    go (panicked k, h1) q = ground (arith, q)
    go (looping, h1) q = ground (arith, q)
    go (returned u1, h1) q = (h1, q, rw (ap (λ x. x.1) q) at (rw (q, ◌>>=◌) at e))

-- A call, and an error alone that is reported and handed on.
pub passed_last :
    {A : Type 0} (m : M (Returns A)) (report : Error → Event) (h : History) {h' : History}
    → (m >>= λ r. check r.1 (λ e. tell (report e) >> pure (some e)) (pure none)) h
      ≡ (returned none, h')
    → (a : A) × (m h ≡ (returned (a, none), h'))
passed_last {A} m report h {h'} e = go (m h) refl
  where
    go : (x : Exit (Returns A) × History) → m h ≡ x → (a : A) × (m h ≡ (returned (a, none), h'))
    go (panicked k, h1) q = ground (arith, q)
    go (looping, h1) q = ground (arith, q)
    go (returned (a, some d), h1) q = ground (arith, q)
    go (returned (a, none), h1) q = (a, ground (arith, q))

-- Any call, and what follows it.
pub passed_value :
    {A B : Type 0} (m : M A) (rest : A → M B) (h : History) {b : B} {h' : History}
    → (m >>= rest) h ≡ (returned b, h')
    → (a : A) × (h1 : History) × (m h ≡ (returned a, h1)) × (rest a h1 ≡ (returned b, h'))
passed_value {A} m rest h {b} {h'} e = go (m h) refl
  where
    go :
        (x : Exit A × History)
        → m h ≡ x
        → (a : A) × (h1 : History) × (m h ≡ (returned a, h1)) × (rest a h1 ≡ (returned b, h'))
    go (panicked k, h1) q = ground (arith, q)
    go (looping, h1) q = ground (arith, q)
    go (returned a, h1) q = (a, h1, q, rw (ap (λ x. x.1) q) at (rw (q, ◌>>=◌) at e))

-- A test that hands the error on, where no error came out.
pub unchecked :
    (r : Option Error) (rest : M (Option Error)) (h : History) {h' : History}
    → check r (λ e. pure (some e)) rest h ≡ (returned none, h')
    → (r ≡ none) × (rest h ≡ (returned none, h'))
unchecked none rest h e = (refl, e)
unchecked (some d) rest h e = ground (arith, e)
