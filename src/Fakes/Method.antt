-- ===== src/Fakes/Method.antt =====
-- One method of a test double, as counterfeiter writes it for every method of an interface (for
-- example `CliCommand` of govc/fakes/fake_govc_runner.go). The mutexes guard single accesses and
-- are no part of the state. An index is a natural number.
use bosh_esxi_cpi_release.Prelude.{
  ℕ, zero, suc, ◌==◌, String, Option, none, some, List, [], ◌∷◌, ◌++◌, length, str_eq,
  if◌then◌else◌,
}
use bosh_esxi_cpi_release.Prelude.Int.{ℤ}
use bosh_esxi_cpi_release.Go.World.{Flags}
use bosh_esxi_cpi_release.Go.Monad.{M, pure, panic}

-- The fields that a method has in the double's struct.
pub record FakeMethod (Args Result : Type 0) : Type 0 where
  pub stub : Option (Args → M Result)
  pub args_for_call : List Args
  pub returns : Result
  pub returns_on_call : ℕ → Option Result

-- `fake.xArgsForCall[i]`.
abbrev pub nth : {A : Type 0} → ℕ → List A → Option A
nth i [] = none
nth zero (a ∷ xs) = some a
nth (suc i) (a ∷ xs) = nth i xs

module _ {Args Result : Type 0} where
  -- What a call returns: what the stub does, or the result for this call, or the result for all.
  unfoldable pub answer : FakeMethod Args Result → Args → M Result
  answer m args = elim m.stub [
    | some f ↦ f args
    | none ↦ elim (m.returns_on_call (length m.args_for_call)) [
      | some ret ↦ pure ret
      | none ↦ pure m.returns
    ]
  ]

  -- The method: the arguments are recorded before the stub runs.
  unfoldable pub call : FakeMethod Args Result → Args → M Result × FakeMethod Args Result
  unfolding answer
  call m args = (answer m args, record m { args_for_call = m.args_for_call ++ (args ∷ []) })

  unfoldable pub call_count : FakeMethod Args Result → ℕ
  call_count m = length m.args_for_call

  unfoldable pub args_for : FakeMethod Args Result → ℕ → M Args
  args_for m i = elim (nth i m.args_for_call) [
    | none ↦ panic "index out of range"
    | some args ↦ pure args
  ]

  unfoldable pub set_returns : Result → FakeMethod Args Result → FakeMethod Args Result
  set_returns result m = record m { stub = none; returns = result }

  unfoldable pub set_returns_on_call : ℕ → Result → FakeMethod Args Result → FakeMethod Args Result
  set_returns_on_call i result m =
      let old = m.returns_on_call in
      record m { stub = none; returns_on_call = λ j. if j == i then some result else old j }

-- A method without a result.
pub record FakeProcedure (Args : Type 0) : Type 0 where
  pub stub : Option (Args → M (Unit {0}))
  pub args_for_call : List Args

module _ {Args : Type 0} where
  unfoldable pub run : FakeProcedure Args → Args → M (Unit {0}) × FakeProcedure Args
  run m args = (
    elim m.stub [ none ↦ pure tt | some f ↦ f args ],
    record m { args_for_call = m.args_for_call ++ (args ∷ []) },
  )

  unfoldable pub run_count : FakeProcedure Args → ℕ
  run_count m = length m.args_for_call

-- An `interface{}` that a call is recorded with; `value` is one of the type of the agent's settings.
pub data Argument (V : Type 0) : Type 0 where
  text : String → Argument V
  number : ℤ → Argument V
  flags : Flags → Argument V
  texts : Option (List String) → Argument V
  value : V → Argument V

abbrev pub Invocations : Type 0 → Type 0
Invocations V = String → Option (List (List (Argument V)))

-- `recordInvocation` on the map.
unfoldable pub add_invocation :
    {V : Type 0} → String → List (Argument V) → Invocations V → Invocations V
add_invocation key args invocations = λ k.
    let old = invocations k in
    if str_eq k key
    then elim old [ none ↦ some (args ∷ []) | some calls ↦ some (calls ++ (args ∷ [])) ]
    else old
