-- ===== src/Fakes/GovcRunner/Scripted.antt =====
-- govc/fakes/fake_govc_runner.go: the double of the command runner, and the world that answers by the
-- number of commands so far.
use bosh_esxi_cpi_release.Prelude.{
  ℕ, suc, String, Option, none, some, List, [], ◌∷◌, ◌++◌, ◌≡◌, refl, sym, ap, ◌∙◌, length,
}
use mathlib.Core.List.{map, map-append, append-nil, append_assoc}
use bosh_esxi_cpi_release.Go.World.{World, cli, Flags, History, Returns}
use bosh_esxi_cpi_release.Go.Monad.{returned, M, pure, ask, ◌>>=◌}
use bosh_esxi_cpi_release.Fakes.Method.{
  Argument, text, flags, texts, add_invocation, FakeMethod, answer, call,
}
use bosh_esxi_cpi_release.Fakes.GovcRunner.{
  invocations, FakeGovcRunner, record_invocation, cli_command,
}

-- A command with its flags and its arguments.
abbrev pub Request : Type 0
Request = String × Flags × Option (List String)

abbrev pub commands_in : History → ℕ
commands_in [] = 0
commands_in (cli c f a ∷ h) = suc (commands_in h)
commands_in (e ∷ h) = commands_in h

-- What the double is told to return for a call that has no stub.
abbrev pub told : FakeMethod Request (Returns String) → ℕ → Returns String
told m i = elim (m.returns_on_call i) [ none ↦ m.returns | some ret ↦ ret ]

-- The world in which govc answers as the double is told to.
abbrev pub scripted : World → FakeGovcRunner → World
scripted w fake = record w { run_cli = λ h c f a. told fake.cli_command_fake (commands_in h) }

-- The answers to one request after another.
abbrev pub from_fake : FakeGovcRunner → List Request → M (List (Returns String) × FakeGovcRunner)
from_fake fake [] = pure ([], fake)
from_fake fake ((c, f, a) ∷ requests) =
    let (m, fake') = cli_command fake c f a in
    m >>= λ r. from_fake fake' requests >>= λ (rs, last). pure (r ∷ rs, last)

abbrev pub from_world : World → List Request → M (List (Returns String))
from_world w [] = pure []
from_world w ((c, f, a) ∷ requests) =
    ask (cli c f a) (λ h. w.run_cli h c f a) >>= λ r. from_world w requests >>= λ rs. pure (r ∷ rs)

abbrev pub issued : List Request → History → History
issued [] h = h
issued ((c, f, a) ∷ requests) h = issued requests (cli c f a ∷ h)

abbrev pub as_arguments : Request → List (Argument (Unit {0}))
as_arguments (c, f, a) = text c ∷ flags f ∷ texts a ∷ []

-- What `Invocations` has under `CliCommand` after these calls.
abbrev pub invoked : List Request → Option (List (List (Argument (Unit {0}))))
invoked [] = none
invoked (r ∷ rs) = some (map as_arguments (r ∷ rs))

-- The two records of the calls agree.
abbrev pub IsConsistent : FakeGovcRunner → Type 0
IsConsistent fake = invocations fake "CliCommand" ≡ invoked fake.cli_command_fake.args_for_call

-- The double and the world give the same answers, and both have the requests on record.
pub record Agrees (w : World) (fake : FakeGovcRunner) (requests : List Request) (h0 h : History)
    : Type 0 where
  pub answers : List (Returns String)
  pub last : FakeGovcRunner
  pub of_fake : from_fake fake requests h0 ≡ (returned (answers, last), h0)
  pub of_world : from_world (scripted w fake) requests h ≡ (returned answers, issued requests h)
  pub recorded_requests :
      last.cli_command_fake.args_for_call ≡ fake.cli_command_fake.args_for_call ++ requests
  pub consistent : IsConsistent last

invoked-append_one :
    (xs : List Request) (r : Request)
    → invoked (xs ++ (r ∷ [])) ≡ elim (invoked xs) [
      | none ↦ some (as_arguments r ∷ [])
      | some calls ↦ some (calls ++ (as_arguments r ∷ []))
    ]
invoked-append_one [] r = refl
invoked-append_one (x ∷ xs) r =
    ap (λ l. some (as_arguments x ∷ l)) (map-append as_arguments xs (r ∷ []))

cli_command-IsConsistent :
    (fake : FakeGovcRunner) (c : String) (f : Flags) (a : Option (List String))
    → IsConsistent fake
    → IsConsistent (cli_command fake c f a).1
unfolding cli_command call record_invocation add_invocation invocations
cli_command-IsConsistent fake c f a e =
    rw e (sym (invoked-append_one fake.cli_command_fake.args_for_call (c, f, a)))

length-append_one : {A : Type 0} (xs : List A) (a : A) → length (xs ++ (a ∷ [])) ≡ suc (length xs)
length-append_one [] a = refl
length-append_one (x ∷ xs) a = ap suc (length-append_one xs a)

after_call : FakeGovcRunner → Request → FakeGovcRunner
after_call fake (c, f, a) = (cli_command fake c f a).1

answer_lem :
    (m : FakeMethod Request (Returns String)) (args : Request) (h : History)
    → m.stub ≡ none
    → answer m args h ≡ (returned (told m (length m.args_for_call)), h)
unfolding answer
answer_lem m args h e = go (m.returns_on_call (length m.args_for_call)) refl
  where
    go :
        (o : Option (Returns String))
        → m.returns_on_call (length m.args_for_call) ≡ o
        → answer m args h ≡ (returned (told m (length m.args_for_call)), h)
    go none q = rw (answer, e, q) refl
    go (some r) q = rw (answer, e, q) refl

bind-returned :
    {A B : Type 0} (m : M A) (f : A → M B) {h h' : History} {a : A}
    → m h ≡ (returned a, h')
    → (m >>= f) h ≡ f a h'
bind-returned m f {h} e = ap (λ answer. ((λ _. answer) >>= f) h) e

-- From a double of the command runner that has no stub, whose two records of its calls agree, and a
-- history with as many commands as the double has calls on record: whatever requests follow, the
-- double returns without a panic, its answers are those of the world in which govc answers by the
-- number of commands so far as the double is told to, and it has the requests on record in their
-- order, in its arguments and in its invocations.
pub from_fake-Agrees :
    (w : World) (requests : List Request) (fake : FakeGovcRunner) (h0 h : History)
    → fake.cli_command_fake.stub ≡ none
    → commands_in h ≡ length fake.cli_command_fake.args_for_call
    → IsConsistent fake
    → Agrees w fake requests h0 h
unfolding cli_command call record_invocation
from_fake-Agrees w [] fake h0 h e n k = record {
  answers = [];
  last = fake;
  of_fake = refl;
  of_world = refl;
  recorded_requests = sym (append-nil _);
  consistent = k;
}
from_fake-Agrees w ((c, f, a) ∷ requests) fake h0 h e n k =
    let m = fake.cli_command_fake in
    let fake' = (cli_command fake c f a).1 in
    let n' = ap suc n ∙ sym (length-append_one m.args_for_call (c, f, a)) in
    let rest =
      from_fake-Agrees w requests fake' h0 (cli c f a ∷ h) e n'
        (cli_command-IsConsistent fake c f a k) in
    let heard : answer m (c, f, a) h0 ≡ (returned (told m (commands_in h)), h0) =
      rw (answer_lem m (c, f, a) h0 e, sym n) refl in
    record {
      answers = told m (commands_in h) ∷ rest.answers;
      last = rest.last;
      of_fake =
          bind-returned (answer m (c, f, a))
            (λ r. from_fake fake' requests >>= λ (rs, last). pure (r ∷ rs, last)) heard
          ∙ bind-returned (from_fake fake' requests)
              (λ (rs, last). pure (told m (commands_in h) ∷ rs, last)) rest.of_fake;
      of_world =
          bind-returned (from_world (scripted w fake) requests)
            (λ rs. pure (told m (commands_in h) ∷ rs)) rest.of_world;
      recorded_requests =
          rest.recorded_requests ∙ append_assoc m.args_for_call ((c, f, a) ∷ []) requests;
      consistent = rest.consistent;
    }
