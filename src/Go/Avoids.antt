-- ===== src/Go/Avoids.antt =====
-- Calls that add no event of a kind to the history, whatever comes of them.
use mathlib.Core.Path.{subst}
use bosh_esxi_cpi_release.Prelude.{
  ap, String, ◌≡◌, refl, Bool, true, false, Option, none, some, ◌∷◌, if◌then◌else◌,
}
use bosh_esxi_cpi_release.Go.World.{Error, Event, History, Returns}
use bosh_esxi_cpi_release.Go.Monad.{
  Exit, returned, panicked, looping, M, pure, panic, ◌>>=◌, check, ask, tell, ◌>>◌,
}

-- The history `h'` is `h` with later events on top, none of them of the kind.
pub data Grows (kind : Event → Bool) (h : History) : History → Type 0 where
  here : Grows kind h h
  later : {e : Event} {h' : History} → kind e ≡ false → Grows kind h h' → Grows kind h (e ∷ h')

pub record Avoids (kind : Event → Bool) {A : Type 0} (m : M A) : Type 0 where
  pub grows : (h : History) → Grows kind h (m h).1

module _ {kind : Event → Bool} where
  pub Grows-trans : {h h1 h2 : History} → Grows kind h h1 → Grows kind h1 h2 → Grows kind h h2
  Grows-trans p here = p
  Grows-trans p (later q g) = later q (Grows-trans p g)

  -- What a call that avoids the kind adds, from its result.
  pub Grows-by :
      {A : Type 0} {m : M A} {h h' : History} {x : Exit A}
      → Avoids kind m
      → m h ≡ (x, h')
      → Grows kind h h'
  Grows-by {h = h} a q = subst (Grows kind h) (ap (λ y. y.1) q) (a.grows h)

  -- What every event of another kind keeps.
  pub Grows-keeps :
      {h h' : History} (P : History → Type 0)
      → ((e : Event) (k : History) → kind e ≡ false → P k → P (e ∷ k))
      → Grows kind h h'
      → P h
      → P h'
  Grows-keeps P keeps here p = p
  Grows-keeps P keeps (later {e} {h'} q g) p = keeps e h' q (Grows-keeps P keeps g p)

  pub Grows-weaken :
      {other : Event → Bool} {h h' : History}
      → ((e : Event) → kind e ≡ false → other e ≡ false)
      → Grows kind h h'
      → Grows other h h'
  Grows-weaken weaker here = here
  Grows-weaken weaker (later {e} q g) = later (weaker e q) (Grows-weaken weaker g)

  pub avoids_weaken :
      {other : Event → Bool} {A : Type 0} {m : M A}
      → ((e : Event) → kind e ≡ false → other e ≡ false)
      → Avoids kind m
      → Avoids other m
  avoids_weaken weaker a = record { grows = λ h. Grows-weaken weaker (a.grows h) }

  pub avoids_pure : {A : Type 0} (a : A) → Avoids kind (pure a)
  avoids_pure a = record { grows = λ h. here }

  pub avoids_panic : {A : Type 0} (s : String) → Avoids kind {A = A} (panic s)
  avoids_panic s = record { grows = λ h. here }

  pub avoids_bind :
      {A B : Type 0} {m : M A} {f : A → M B}
      → Avoids kind m
      → ((a : A) → Avoids kind (f a))
      → Avoids kind (m >>= f)
  avoids_bind {A} {m = m} {f = f} a b = record { grows = λ h. go h (m h).0 refl }
    where
      go : (h : History) (x : Exit A) → (m h).0 ≡ x → Grows kind h ((m >>= f) h).1
      go h (returned r) q = rw (q, ◌>>=◌) (Grows-trans (a.grows h) ((b r).grows (m h).1))
      go h (panicked s) q = rw (q, ◌>>=◌) (a.grows h)
      go h looping q = rw (q, ◌>>=◌) (a.grows h)

  pub avoids_check :
      {A : Type 0} (o : Option Error) {fail : Error → M A} {rest : M A}
      → ((e : Error) → Avoids kind (fail e))
      → Avoids kind rest
      → Avoids kind (check o fail rest)
  avoids_check none f r = r
  avoids_check (some e) f r = f e

  pub avoids_if :
      {A : Type 0} (b : Bool) {m n : M A}
      → Avoids kind m
      → Avoids kind n
      → Avoids kind (if b then m else n)
  avoids_if true k l = k
  avoids_if false k l = l

  -- An event of another kind.
  pub avoids_ask :
      {A : Type 0} (e : Event) (answer : History → A) → kind e ≡ false → Avoids kind (ask e answer)
  avoids_ask e answer p = record { grows = λ h. later p here }

  -- A message, and what follows it.
  pub avoids_told :
      {A : Type 0} (e : Event) {rest : M A}
      → kind e ≡ false
      → Avoids kind rest
      → Avoids kind (tell e >> rest)
  avoids_told e p r = avoids_bind (avoids_ask e (λ _. tt) p) (λ u1. r)

  -- A call, its error handed on, and what follows it.
  pub avoids_passed :
      {A B : Type 0} {m : M (Returns A)} (b : B) {rest : A → M (Returns B)}
      → Avoids kind m
      → ((a : A) → Avoids kind (rest a))
      → Avoids kind (m >>= λ r. check r.1 (λ e. pure (b, some e)) (rest r.0))
  avoids_passed b m k = avoids_bind m λ r. avoids_check r.1 (λ e. avoids_pure _) (k r.0)

  -- The same where the call returns an error alone.
  pub avoids_passed_error :
      {B : Type 0} {m : M (Option Error)} (b : B) {rest : M (Returns B)}
      → Avoids kind m
      → Avoids kind rest
      → Avoids kind (m >>= λ r. check r (λ e. pure (b, some e)) rest)
  avoids_passed_error b m k = avoids_bind m λ r. avoids_check r (λ e. avoids_pure _) k

  -- The same two where the caller returns an error alone.
  pub avoids_handed :
      {A : Type 0} {m : M (Returns A)} {rest : A → M (Option Error)}
      → Avoids kind m
      → ((a : A) → Avoids kind (rest a))
      → Avoids kind (m >>= λ r. check r.1 (λ e. pure (some e)) (rest r.0))
  avoids_handed m k = avoids_bind m λ r. avoids_check r.1 (λ e. avoids_pure _) (k r.0)

  pub avoids_handed_error :
      {m : M (Option Error)} {rest : M (Option Error)}
      → Avoids kind m
      → Avoids kind rest
      → Avoids kind (m >>= λ r. check r (λ e. pure (some e)) rest)
  avoids_handed_error m k = avoids_bind m λ r. avoids_check r (λ e. avoids_pure _) k
