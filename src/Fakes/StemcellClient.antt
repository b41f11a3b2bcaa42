-- ===== src/Fakes/StemcellClient.antt =====
-- stemcell/fakes/fake_stemcell_client.go.
use bosh_esxi_cpi_release.Prelude.{ℕ, String, Option, List, [], ◌∷◌}
use bosh_esxi_cpi_release.Go.World.{Error, Returns}
use bosh_esxi_cpi_release.Go.Monad.{M}
use bosh_esxi_cpi_release.Fakes.Method.{
  FakeMethod, FakeProcedure, call, call_count, args_for, set_returns, set_returns_on_call, run,
  run_count, Argument, text, Invocations, add_invocation,
}

pub record FakeStemcellClient : Type 0 where
  pub extract_ovf_fake : FakeMethod String (Returns String)
  pub cleanup_fake : FakeProcedure (Unit {0})
  pub recorded : Invocations (Unit {0})

unfoldable record_invocation :
    String → List (Argument (Unit {0})) → FakeStemcellClient → FakeStemcellClient
unfolding add_invocation
record_invocation key args fake = record fake { recorded = add_invocation key args fake.recorded }

unfoldable invocations : FakeStemcellClient → Invocations (Unit {0})
invocations fake = fake.recorded

unfoldable extract_ovf : FakeStemcellClient → String → M (Returns String) × FakeStemcellClient
unfolding record_invocation call
extract_ovf fake arg1 =
    let (answer, f) = call fake.extract_ovf_fake arg1 in
    (answer, record_invocation "ExtractOvf" (text arg1 ∷ []) (record fake { extract_ovf_fake = f }))

unfoldable extract_ovf_call_count : FakeStemcellClient → ℕ
unfolding call_count
extract_ovf_call_count fake = call_count fake.extract_ovf_fake

unfoldable extract_ovf_args_for_call : FakeStemcellClient → ℕ → M String
unfolding args_for
extract_ovf_args_for_call fake i = args_for fake.extract_ovf_fake i

unfoldable extract_ovf_returns : FakeStemcellClient → String → Option Error → FakeStemcellClient
unfolding set_returns
extract_ovf_returns fake result1 result2 = record fake {
  extract_ovf_fake = set_returns (result1, result2) fake.extract_ovf_fake;
}

unfoldable extract_ovf_returns_on_call :
    FakeStemcellClient → ℕ → String → Option Error → FakeStemcellClient
unfolding set_returns_on_call
extract_ovf_returns_on_call fake i result1 result2 = record fake {
  extract_ovf_fake = set_returns_on_call i (result1, result2) fake.extract_ovf_fake;
}

unfoldable cleanup : FakeStemcellClient → M (Unit {0}) × FakeStemcellClient
unfolding record_invocation run
cleanup fake =
    let (answer, f) = run fake.cleanup_fake tt in
    (answer, record_invocation "Cleanup" [] (record fake { cleanup_fake = f }))

unfoldable cleanup_call_count : FakeStemcellClient → ℕ
unfolding run_count
cleanup_call_count fake = run_count fake.cleanup_fake
