-- ===== src/Fakes/AgentSettings.antt =====
-- vm/fakes/fake_agent_settings.go.
use bosh_esxi_cpi_release.Prelude.{ℕ, String, Option, List, [], ◌∷◌}
use bosh_esxi_cpi_release.Go.World.{Error, Returns}
use bosh_esxi_cpi_release.Go.Monad.{M}
use bosh_esxi_cpi_release.Fakes.Method.{
  FakeMethod, FakeProcedure, call, call_count, args_for, set_returns, set_returns_on_call, run,
  run_count, Argument, value, Invocations, add_invocation,
}

pub record FakeAgentSettings (E : Type 0) : Type 0 where
  pub cleanup_fake : FakeProcedure (Unit {0})
  pub generate_agent_env_iso_fake : FakeMethod E (Returns String)
  pub generate_mac_address_fake : FakeMethod (Unit {0}) (Returns String)
  pub agent_env_bytes_from_file_fake : FakeMethod (Unit {0}) String
  pub recorded : Invocations E

module _ {E : Type 0} where
  unfoldable record_invocation :
      String → List (Argument E) → FakeAgentSettings E → FakeAgentSettings E
  unfolding add_invocation
  record_invocation key args fake = record fake { recorded = add_invocation key args fake.recorded }

  unfoldable invocations : FakeAgentSettings E → Invocations E
  invocations fake = fake.recorded

  unfoldable cleanup : FakeAgentSettings E → M (Unit {0}) × FakeAgentSettings E
  unfolding record_invocation run
  cleanup fake =
      let (answer, f) = run fake.cleanup_fake tt in
      (answer, record_invocation "Cleanup" [] (record fake { cleanup_fake = f }))

  unfoldable cleanup_call_count : FakeAgentSettings E → ℕ
  unfolding run_count
  cleanup_call_count fake = run_count fake.cleanup_fake

  unfoldable generate_agent_env_iso :
      FakeAgentSettings E → E → M (Returns String) × FakeAgentSettings E
  unfolding record_invocation call
  generate_agent_env_iso fake arg1 =
      let (answer, f) = call fake.generate_agent_env_iso_fake arg1 in
      (
        answer,
        record_invocation "GenerateAgentEnvIso" (value arg1 ∷ [])
            (record fake { generate_agent_env_iso_fake = f }),
      )

  unfoldable generate_agent_env_iso_call_count : FakeAgentSettings E → ℕ
  unfolding call_count
  generate_agent_env_iso_call_count fake = call_count fake.generate_agent_env_iso_fake

  unfoldable generate_agent_env_iso_args_for_call : FakeAgentSettings E → ℕ → M E
  unfolding args_for
  generate_agent_env_iso_args_for_call fake i = args_for fake.generate_agent_env_iso_fake i

  unfoldable generate_agent_env_iso_returns :
      FakeAgentSettings E → String → Option Error → FakeAgentSettings E
  unfolding set_returns
  generate_agent_env_iso_returns fake result1 result2 = record fake {
    generate_agent_env_iso_fake = set_returns (result1, result2) fake.generate_agent_env_iso_fake;
  }

  unfoldable generate_agent_env_iso_returns_on_call :
      FakeAgentSettings E → ℕ → String → Option Error → FakeAgentSettings E
  unfolding set_returns_on_call
  generate_agent_env_iso_returns_on_call fake i result1 result2 = record fake {
    generate_agent_env_iso_fake =
        set_returns_on_call i (result1, result2) fake.generate_agent_env_iso_fake;
  }

  unfoldable generate_mac_address : FakeAgentSettings E → M (Returns String) × FakeAgentSettings E
  unfolding record_invocation call
  generate_mac_address fake =
      let (answer, f) = call fake.generate_mac_address_fake tt in
      (
        answer,
        record_invocation "GenerateMacAddress" [] (record fake { generate_mac_address_fake = f }),
      )

  unfoldable generate_mac_address_call_count : FakeAgentSettings E → ℕ
  unfolding call_count
  generate_mac_address_call_count fake = call_count fake.generate_mac_address_fake

  unfoldable generate_mac_address_returns :
      FakeAgentSettings E → String → Option Error → FakeAgentSettings E
  unfolding set_returns
  generate_mac_address_returns fake result1 result2 = record fake {
    generate_mac_address_fake = set_returns (result1, result2) fake.generate_mac_address_fake;
  }

  unfoldable generate_mac_address_returns_on_call :
      FakeAgentSettings E → ℕ → String → Option Error → FakeAgentSettings E
  unfolding set_returns_on_call
  generate_mac_address_returns_on_call fake i result1 result2 = record fake {
    generate_mac_address_fake =
        set_returns_on_call i (result1, result2) fake.generate_mac_address_fake;
  }

  unfoldable agent_env_bytes_from_file : FakeAgentSettings E → M String × FakeAgentSettings E
  unfolding record_invocation call
  agent_env_bytes_from_file fake =
      let (answer, f) = call fake.agent_env_bytes_from_file_fake tt in
      (
        answer,
        record_invocation "AgentEnvBytesFromFile" []
            (record fake { agent_env_bytes_from_file_fake = f }),
      )

  unfoldable agent_env_bytes_from_file_call_count : FakeAgentSettings E → ℕ
  unfolding call_count
  agent_env_bytes_from_file_call_count fake = call_count fake.agent_env_bytes_from_file_fake

  unfoldable agent_env_bytes_from_file_returns : FakeAgentSettings E → String → FakeAgentSettings E
  unfolding set_returns
  agent_env_bytes_from_file_returns fake result1 = record fake {
    agent_env_bytes_from_file_fake = set_returns result1 fake.agent_env_bytes_from_file_fake;
  }

  unfoldable agent_env_bytes_from_file_returns_on_call :
      FakeAgentSettings E → ℕ → String → FakeAgentSettings E
  unfolding set_returns_on_call
  agent_env_bytes_from_file_returns_on_call fake i result1 = record fake {
    agent_env_bytes_from_file_fake =
        set_returns_on_call i result1 fake.agent_env_bytes_from_file_fake;
  }
