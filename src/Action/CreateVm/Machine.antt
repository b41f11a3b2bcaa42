-- ===== src/Action/CreateVm/Machine.antt =====
-- action/create_vm.go: `CreateVM` as a machine that goes from stage to stage, and where it can end.
pub mod Calls
use bosh_esxi_cpi_release.Prelude.{
  ◌≡◌, refl, ap, sym, ◌∙◌, String, ◌<>◌, Option, none, some, List, [], ◌∷◌, ◌++◌, ◌⊎◌, inl, inr,
  arith,
}
use mathlib.Core.Path.{subst}
use bosh_esxi_cpi_release.Go.World.{generate_uuid, Error, World, History, Returns}
use bosh_esxi_cpi_release.Go.Monad.{Exit, returned, panicked, looping, M, pure, check, ◌>>=◌, ◌>>◌}
use bosh_esxi_cpi_release.Apiv1.{Apiv1}
use bosh_esxi_cpi_release.Vm.Props.{VmProps, zero_props}
use bosh_esxi_cpi_release.Action.CreateVm.{
  CreateVmMethod, Networks, add_adapters, launch, refresh, deliver, equip, wire, resize, build,
  create_vm,
}
use bosh_esxi_cpi_release.Action.CreateVm.Stages.{logged_networks}

module _ (api : Apiv1) where
  -- What is to be done next. `wiring` holds the networks that still need an adapter and those that
  -- have one; `plugging` the network that an address was made for.
  pub data Stage : Type 0 where
    cloning : Stage
    resizing : Stage
    wiring : Networks api → Networks api → Stage
    plugging : String → api.Network → String → Networks api → Networks api → Stage
    equipping : Networks api → Stage
    delivering : Networks api → Stage
    refreshing : String → Stage
    cleaning : Stage
    starting : Stage
    running : Stage

  -- A call, for the error that it returns.
  abbrev pub errors_of : {A : Type 0} → M (Returns A) → M (Option Error)
  errors_of m = m >>= λ r. pure r.1

  module _ (c : CreateVmMethod api) (agent_id : api.AgentId) (stemcell_cid cid : String)
      (props : VmProps) (networks : Networks api) (vm_env : api.VmEnv) where
    -- The settings that the agent of the VM gets.
    abbrev pub env_of : Networks api → api.AgentEnv
    env_of updated =
        api.attach_ephemeral_disk "1"
          (api.attach_system_disk "0" (api.for_vm agent_id cid updated vm_env c.agent_options))

    -- The call that a stage makes.
    abbrev pub call : Stage → M (Option Error)
    call cloning = errors_of (c.govc_client.clone_vm ("cs-" <> stemcell_cid) ("vm-" <> cid))
    call resizing = c.govc_client.set_vm_resources ("vm-" <> cid) props.cpu props.ram
    call (wiring [] updated) = pure none
    call (wiring (n ∷ others) updated) = errors_of c.agent_settings.generate_mac_address
    call (plugging name network mac others updated) =
        c.govc_client.set_vm_network_adapter ("vm-" <> cid) (api.network_name network) mac
    call (equipping updated) = c.govc_client.create_ephemeral_disk ("vm-" <> cid) props.disk
    call (delivering updated) = errors_of (c.agent_settings.generate_agent_env_iso (env_of updated))
    call (refreshing iso_path) = errors_of (c.govc_client.update_vm_iso ("vm-" <> cid) iso_path)
    call cleaning = c.agent_settings.cleanup >> pure none
    call starting = errors_of (c.govc_client.start_vm ("vm-" <> cid))
    call running = pure none

    -- A stage whose call returned without an error, and the stage after it.
    pub data Step : Stage → History → Stage → History → Type 0 where
      clones :
          {answer : String} {h h1 : History}
          → c.govc_client.clone_vm ("cs-" <> stemcell_cid) ("vm-" <> cid) h
            ≡ (returned (answer, none), h1)
          → Step cloning h resizing h1
      resizes :
          {h h1 : History}
          → c.govc_client.set_vm_resources ("vm-" <> cid) props.cpu props.ram h
            ≡ (returned none, h1)
          → Step resizing h (wiring networks []) h1
      addresses :
          {name mac : String} {network : api.Network} {others updated : Networks api}
          {h h1 : History}
          → c.agent_settings.generate_mac_address h ≡ (returned (mac, none), h1)
          → Step
              (wiring ((name, network) ∷ others) updated)
              h
              (plugging name network mac others updated)
              h1
      plugs :
          {name mac : String} {network : api.Network} {others updated : Networks api}
          {h h1 : History}
          → c.govc_client.set_vm_network_adapter ("vm-" <> cid) (api.network_name network) mac h
            ≡ (returned none, h1)
          → Step
              (plugging name network mac others updated)
              h
              (wiring others (updated ++ ((name, api.set_mac mac network) ∷ [])))
              h1
      wires :
          {updated : Networks api} {h : History} → Step (wiring [] updated) h (equipping updated) h
      equips :
          {updated : Networks api} {h h1 : History}
          → c.govc_client.create_ephemeral_disk ("vm-" <> cid) props.disk h ≡ (returned none, h1)
          → Step (equipping updated) h (delivering updated) h1
      delivers :
          {updated : Networks api} {iso_path : String} {h h1 : History}
          → c.agent_settings.generate_agent_env_iso (env_of updated) h
            ≡ (returned (iso_path, none), h1)
          → Step (delivering updated) h (refreshing iso_path) h1
      refreshes :
          {iso_path answer : String} {h h1 : History}
          → c.govc_client.update_vm_iso ("vm-" <> cid) iso_path h ≡ (returned (answer, none), h1)
          → Step (refreshing iso_path) h cleaning h1
      cleans :
          {h h1 : History}
          → c.agent_settings.cleanup h ≡ (returned tt, h1)
          → Step cleaning h starting h1
      starts :
          {answer : String} {h h1 : History}
          → c.govc_client.start_vm ("vm-" <> cid) h ≡ (returned (answer, none), h1)
          → Step starting h running h1

    pub data Reaches : Stage → History → Stage → History → Type 0 where
      arrived : {s : Stage} {h : History} → Reaches s h s h
      moves :
          {s s1 s2 : Stage} {h h1 h2 : History}
          → Step s h s1 h1
          → Reaches s1 h1 s2 h2
          → Reaches s h s2 h2

    -- How the method ends at a stage: the VM runs, or the stage's call ends with an error, a panic,
    -- or never.
    pub data Ends : Stage → History → Exit (Returns String) × History → Type 0 where
      done : {h : History} → Ends running h (returned (cid, none), h)
      fails :
          {s : Stage} {e : Error} {h h1 : History}
          → call s h ≡ (returned (some e), h1)
          → Ends s h (returned (cid, some e), h1)
      panics :
          {s : Stage} {k : String} {h h1 : History}
          → call s h ≡ (panicked k, h1)
          → Ends s h (panicked k, h1)
      loops : {s : Stage} {h h1 : History} → call s h ≡ (looping, h1) → Ends s h (looping, h1)

    abbrev pub Outcome : Stage → History → Exit (Returns String) × History → Type 0
    Outcome s h x = (s1 : Stage) × (h1 : History) × Reaches s h s1 h1 × Ends s1 h1 x
