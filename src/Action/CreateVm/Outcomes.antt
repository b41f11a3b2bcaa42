-- ===== src/Action/CreateVm/Outcomes.antt =====
-- action/create_vm.go: every outcome of `CreateVM`, errors, panics and endless polling included.
use bosh_esxi_cpi_release.Prelude.{
  ◌≡◌, refl, ap, String, ◌<>◌, Option, none, some, List, [], ◌∷◌, ◌++◌,
}
use bosh_esxi_cpi_release.Go.World.{generate_uuid, Error, World, History, Returns}
use bosh_esxi_cpi_release.Go.Monad.{Exit, returned, panicked, looping, M, pure, check, ◌>>=◌}
use bosh_esxi_cpi_release.Apiv1.{Apiv1}
use bosh_esxi_cpi_release.Vm.Props.{VmProps, zero_props}
use bosh_esxi_cpi_release.Action.CreateVm.{
  CreateVmMethod, Networks, add_adapters, launch, refresh, deliver, equip, wire, resize, build,
  create_vm,
}
use bosh_esxi_cpi_release.Action.CreateVm.Stages.{logged_networks}
use bosh_esxi_cpi_release.Action.CreateVm.Machine.{
  Stage, cloning, resizing, wiring, plugging, equipping, delivering, refreshing, cleaning, starting,
  running, call, clones, resizes, addresses, plugs, wires, equips, delivers, refreshes, cleans,
  starts, arrived, done, fails, panics, loops, Outcome, env_of,
}
use bosh_esxi_cpi_release.Action.CreateVm.Machine.Calls.{
  resume, onward, by_call, by_call_error, by_cleanup,
}

module _ (api : Apiv1) (c : CreateVmMethod api) (agent_id : api.AgentId) (stemcell_cid cid : String)
    (props : VmProps) (networks : Networks api) (vm_env : api.VmEnv) where
  abbrev Calls : Stage api → M (Option Error)
  Calls = call api c agent_id stemcell_cid cid props networks vm_env

  abbrev Here : Stage api → History → Exit (Returns String) × History → Type 0
  Here = Outcome api c agent_id stemcell_cid cid props networks vm_env

  launch-Outcome : (h : History) → Here cleaning h (launch api c cid h)
  unfolding launch
  launch-Outcome h = by_cleanup h _ λ h1 p. onward (cleans p) (
      by_call starting h1 (c.govc_client.start_vm ("vm-" <> cid)) (λ _. pure (cid, none)) refl
        λ a h2 q. onward (starts q) (running, h2, arrived, done))

  equip-Outcome :
      (updated : Networks api) (h : History)
      → Here (equipping updated) h (
          equip api c cid props
            (api.attach_system_disk "0" (api.for_vm agent_id cid updated vm_env c.agent_options))
            h)
  unfolding equip deliver refresh
  equip-Outcome updated h =
      by_call_error (equipping updated) h
        (deliver api c cid (env_of api c agent_id stemcell_cid cid props networks vm_env updated))
        λ h1 p. onward (equips p) (
          by_call (delivering updated) h1 (c.agent_settings.generate_agent_env_iso _)
            (refresh api c cid) refl
            λ path h2 q. onward (delivers q) (
              by_call (refreshing path) h2 (c.govc_client.update_vm_iso ("vm-" <> cid) path)
                (λ _. launch api c cid) refl λ a h3 r. onward (refreshes r) (launch-Outcome h3)))

  -- What follows the loop over the networks.
  abbrev equipped : Returns (Networks api) → M (Returns String)
  equipped r =
      check r.1 (λ e. pure (cid, some e))
        (equip api c cid props
          (api.attach_system_disk "0" (api.for_vm agent_id cid r.0 vm_env c.agent_options)))

  abbrev adapters : Networks api → Networks api → M (Returns (Networks api))
  adapters updated others = add_adapters api c ("vm-" <> cid) updated others

  abbrev with_adapter : String → String → api.Network → Networks api → Networks api
  with_adapter name mac network updated = updated ++ ((name, api.set_mac mac network) ∷ [])

  -- What follows the loop over the networks once an address was made.
  abbrev plug :
      String → String → api.Network → Networks api → Networks api → M (Returns (Networks api))
  plug name mac network others updated =
      c.govc_client.set_vm_network_adapter ("vm-" <> cid) (api.network_name network) mac >>= λ r.
      check r (λ e. pure (updated, some e))
        (adapters (with_adapter name mac network updated) others)

  plug-Outcome :
      (name mac : String) (network : api.Network) (others updated : Networks api) (h : History)
      → ((h1 : History)
          → Here
              (wiring others (with_adapter name mac network updated))
              h1
              ((adapters (with_adapter name mac network updated) others >>= equipped) h1))
      → Here
          (plugging name network mac others updated)
          h
          ((plug name mac network others updated >>= equipped) h)
  plug-Outcome name mac network others updated h next = go (Calls here h) refl
    where
      here : Stage api
      here = plugging name network mac others updated

      go :
          (x : Exit (Option Error) × History)
          → Calls here h ≡ x
          → Here here h (
              resume equipped (
                resume
                  (λ (r : Option Error).
                    check r
                      (λ e. pure (updated, some e))
                      (adapters (with_adapter name mac network updated) others))
                  x))
      go (returned none, h1) q = onward (plugs q) (next h1)
      go (returned (some e), h1) q = (here, h, arrived, fails q)
      go (panicked k, h1) q = (here, h, arrived, panics q)
      go (looping, h1) q = (here, h, arrived, loops q)

  wiring-Outcome :
      (others updated : Networks api) (h : History)
      → Here (wiring others updated) h ((adapters updated others >>= equipped) h)
  unfolding add_adapters
  wiring-Outcome [] updated h = onward wires (equip-Outcome updated h)
  wiring-Outcome ((name, network) ∷ others) updated h =
      go (λ us h1. wiring-Outcome others us h1) (c.agent_settings.generate_mac_address h) refl
    where
      here : Stage api
      here = wiring ((name, network) ∷ others) updated

      error :
          {h1 : History} {x : Exit (Returns String)}
          → c.agent_settings.generate_mac_address h ≡ (x, h1)
          → Calls here h ≡ resume (λ (r : Returns String). pure r.1) (x, h1)
      error q = ap (resume (λ (r : Returns String). pure r.1)) q

      go :
          ((us : Networks api) (h1 : History)
            → Here (wiring others us) h1 ((adapters us others >>= equipped) h1))
          → (x : Exit (Returns String) × History) → c.agent_settings.generate_mac_address h ≡ x
          → Here here h (
              resume equipped (
                resume
                  (λ (r : Returns String).
                    check r.1 (λ e. pure (updated, some e)) (plug name r.0 network others updated))
                  x))
      go next (returned (mac, none), h1) q =
          onward (addresses q) (plug-Outcome name mac network others updated h1 (next _))
      go next (returned (mac, some e), h1) q = (here, h, arrived, fails (error q))
      go next (panicked k, h1) q = (here, h, arrived, panics (error q))
      go next (looping, h1) q = (here, h, arrived, loops (error q))

  pub build-Outcome :
      (h : History) → Here cloning h (build api c agent_id stemcell_cid cid props networks vm_env h)
  unfolding build resize wire
  build-Outcome h =
      by_call cloning h (c.govc_client.clone_vm ("cs-" <> stemcell_cid) ("vm-" <> cid))
        (λ _. resize api c agent_id cid props networks vm_env) refl
        λ a h1 p. onward (clones p) (
          by_call_error resizing h1 (wire api c agent_id cid props networks vm_env)
            λ h2 q. onward (resizes q) (wiring-Outcome networks [] h2))

module _ (api : Apiv1) (w : World) (c : CreateVmMethod api) (agent_id : api.AgentId)
    (stemcell_cid : String) (cloud_props : api.CloudProps) (networks : Networks api)
    (disks : List String) (vm_env : api.VmEnv) (h : History) where
  -- The cloud properties are not decoded, or the machine starts.
  abbrev pub Concludes : Returns VmProps → Exit (Returns String) × History → Type 0
  Concludes (props, some e) x =
      x ≡ (returned ((w.uuid (logged_networks h)).0, some e), generate_uuid ∷ logged_networks h)
  Concludes (props, none) x =
      Outcome api c agent_id stemcell_cid (w.uuid (logged_networks h)).0 props networks vm_env
        cloning (generate_uuid ∷ logged_networks h) x

  -- Every outcome of `CreateVM`. With the generated UUID as the CID: either the cloud
  -- properties are not decoded, and the method returns the CID and that error with no stage begun; or it goes
  -- through the stages in their order, each call made after the one before it returned without an error, and
  -- ends where the VM runs, with the CID and no error, or at the first stage whose call does not return without one,
  -- with no call made after it: with the CID and the call's error if it returned an error, with the call's panic if it panicked, and without end if it has none.
  pub create_vm-Concludes :
      Concludes
        (api.vm_props_as cloud_props zero_props)
        (create_vm api w c agent_id stemcell_cid cloud_props networks disks vm_env h)
  unfolding create_vm
  create_vm-Concludes = go (api.vm_props_as cloud_props zero_props)
    where
      cid : String
      cid = (w.uuid (logged_networks h)).0

      go :
          (x : Returns VmProps)
          → Concludes x (
              check x.1
                (λ e. pure (cid, some e))
                (build api c agent_id stemcell_cid cid x.0 networks vm_env)
                (generate_uuid ∷ logged_networks h))
      go (props, some e) = refl
      go (props, none) = build-Outcome api c agent_id stemcell_cid cid props networks vm_env _
