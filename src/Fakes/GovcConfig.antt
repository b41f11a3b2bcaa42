-- ===== src/Fakes/GovcConfig.antt =====
-- govc/fakes/fake_govc_config.go.
use bosh_esxi_cpi_release.Prelude.{ℕ, String, List, []}
use bosh_esxi_cpi_release.Go.Monad.{M}
use bosh_esxi_cpi_release.Fakes.Method.{
  FakeMethod, call, call_count, set_returns, set_returns_on_call, Argument, Invocations,
  add_invocation,
}

pub record FakeGovcConfig : Type 0 where
  pub esx_url_fake : FakeMethod (Unit {0}) String
  pub recorded : Invocations (Unit {0})

unfoldable record_invocation : String → List (Argument (Unit {0})) → FakeGovcConfig → FakeGovcConfig
unfolding add_invocation
record_invocation key args fake = record fake { recorded = add_invocation key args fake.recorded }

unfoldable invocations : FakeGovcConfig → Invocations (Unit {0})
invocations fake = fake.recorded

unfoldable esx_url : FakeGovcConfig → M String × FakeGovcConfig
unfolding record_invocation call
esx_url fake =
    let (answer, f) = call fake.esx_url_fake tt in
    (answer, record_invocation "EsxUrl" [] (record fake { esx_url_fake = f }))

unfoldable esx_url_call_count : FakeGovcConfig → ℕ
unfolding call_count
esx_url_call_count fake = call_count fake.esx_url_fake

unfoldable esx_url_returns : FakeGovcConfig → String → FakeGovcConfig
unfolding set_returns
esx_url_returns fake result1 = record fake { esx_url_fake = set_returns result1 fake.esx_url_fake }

unfoldable esx_url_returns_on_call : FakeGovcConfig → ℕ → String → FakeGovcConfig
unfolding set_returns_on_call
esx_url_returns_on_call fake i result1 = record fake {
  esx_url_fake = set_returns_on_call i result1 fake.esx_url_fake;
}
