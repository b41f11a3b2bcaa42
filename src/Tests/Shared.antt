-- ===== src/Tests/Shared.antt =====
-- A file system that keeps what is written, and a `DestroyVM` up to the deletion of the files.
use bosh_esxi_cpi_release.Prelude.{
  String, false, none, some, [], ◌∷◌, ◌≡◌, refl, str_eq, str_eq_iff, inl, if◌then◌else◌,
}
use bosh_esxi_cpi_release.Go.World.{World, Event, write_file, external, read_file, History, Returns}
use bosh_esxi_cpi_release.Go.Monad.{returned}
use bosh_esxi_cpi_release.Vm.Settings.{generate_agent_env_iso, agent_env_bytes_from_file}
use bosh_esxi_cpi_release.Vm.Settings.Shared.{
  touches, Files, agent_env_bytes_from_file-generate_agent_env_iso,
}
use bosh_esxi_cpi_release.Govc.Host.{info, listing, destroying, powering_off}
use bosh_esxi_cpi_release.Govc.Order.{destroy_vm-registered}
use bosh_esxi_cpi_release.Tests.Api.{small_api}
use bosh_esxi_cpi_release.Tests.World.{one_vm, one_vm_host, client}

abbrev contents : History → String → Returns String
contents [] p = ("", some (external "no such file"))
contents (write_file q bytes ∷ h) p = if str_eq q p then (bytes, none) else contents h p
contents (_ ∷ h) p = contents h p

abbrev filed : World
filed = record one_vm { file_bytes = contents }

filed-Files : Files filed
filed-Files = record {
  same_file = str_eq;
  wrote = λ h path bytes e. rw ((str_eq_iff path path).1 refl) refl;
  kept = kept;
}
  where
    kept :
        (h : History) (path : String) (e : Event)
        → touches str_eq path e ≡ false
        → contents (e ∷ h) path ≡ contents h path
    kept h path (write_file q bytes) n = rw n
    kept h path _ n = refl

agent_env_bytes_from_file-generate_agent_env_iso_example :
    agent_env_bytes_from_file small_api filed
      (generate_agent_env_iso small_api filed
        (record { parent_temp_dir = "/tmp/agent-1" })
        ("agent" ∷ [])
        []).1
    ≡ (
      returned "agent;",
      read_file "/tmp/env.json"
          ∷ (generate_agent_env_iso small_api filed
              (record { parent_temp_dir = "/tmp/agent-1" })
              ("agent" ∷ [])
              []).1,
    )
unfolding generate_agent_env_iso filed-Files
agent_env_bytes_from_file-generate_agent_env_iso_example =
    agent_env_bytes_from_file-generate_agent_env_iso small_api filed filed-Files
      (record { parent_temp_dir = "/tmp/agent-1" }) ("agent" ∷ []) [] refl refl refl

abbrev before_deletion : History
before_deletion =
    listing "u" ∷ destroying "u" "vm-1" ∷ powering_off "u" "vm-1" ∷ info "u" "vm-1" ∷ []

destroy_vm-registered_example : one_vm_host.registered before_deletion "vm-1" ≡ false
unfolding client
destroy_vm-registered_example =
    destroy_vm-registered one_vm "u" one_vm_host "vm-1" [] before_deletion (inl refl)
