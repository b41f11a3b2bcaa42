-- ===== src/Go/Monad.antt =====
-- A call over the history: it returns, it panics, or it is still in its loop when the rounds that
-- the model grants it are used up; and the events that it made stay made.
use bosh_esxi_cpi_release.Prelude.{String, Option, none, some, ◌∷◌}
use bosh_esxi_cpi_release.Go.World.{Error, Event, log_error, History, Returns}

pub data Exit (A : Type 0) : Type 0 where
  returned : A → Exit A
  panicked : String → Exit A
  looping : Exit A

abbrev pub M : Type 0 → Type 0
M A = History → Exit A × History

module _ {A : Type 0} where
  abbrev pub pure : A → M A
  pure a h = (returned a, h)

  abbrev pub panic : String → M A
  panic m h = (panicked m, h)

  -- A call that leaves the process: the answer is read off the history before it.
  abbrev pub ask : Event → (History → A) → M A
  ask e answer h = (returned (answer h), e ∷ h)

abbrev pub tell : Event → M (Unit {0})
tell e = ask e (λ _. tt)

infixl 5 ◌>>=◌ ◌>>◌
abbrev pub ◌>>=◌ : {A B : Type 0} → M A → (A → M B) → M B
◌>>=◌ m f h =
    let (r, h') = m h in
    elim r [ returned a ↦ f a h' | panicked p ↦ (panicked p, h') | looping ↦ (looping, h') ]

abbrev pub ◌>>◌ : {B : Type 0} → M (Unit {0}) → M B → M B
m >> k = m >>= λ _. k

-- `if err != nil { …; return … }`, and what follows.
abbrev pub check : {A : Type 0} → Option Error → (Error → M A) → M A → M A
check none fail rest = rest
check (some e) fail rest = fail e

-- `logger.ErrorWithDetails("govc", message, err, …); return value, err`.
abbrev pub logged : {A : Type 0} → String → A → Error → M (Returns A)
logged m a e = tell (log_error "govc" m e) >> pure (a, some e)

-- The same where the function returns an error alone.
abbrev pub logged_error : String → Error → M (Option Error)
logged_error m e = tell (log_error "govc" m e) >> pure (some e)
