-- ===== src/Action/CreateVm/Stages.antt =====
-- action/create_vm.go: the calls that a `CreateVM` without an error has made, and their order.
use bosh_esxi_cpi_release.Prelude.{
  ◌≡◌, refl, sym, ◌∙◌, String, ◌<>◌, none, some, List, [], ◌∷◌, ◌++◌, arith,
}
use mathlib.Core.List.{append-nil, append_assoc}
use bosh_esxi_cpi_release.Go.World.{generate_uuid, debug_log, World, History, Returns}
use bosh_esxi_cpi_release.Go.Monad.{returned, pure, check, ◌>>=◌}
use bosh_esxi_cpi_release.Go.Inversion.{passed, passed_error, passed_unit}
use bosh_esxi_cpi_release.Apiv1.{Apiv1}
use bosh_esxi_cpi_release.Vm.Props.{VmProps, zero_props}
use bosh_esxi_cpi_release.Action.CreateVm.{
  CreateVmMethod, Networks, add_adapters, launch, refresh, deliver, equip, wire, resize, build,
  create_vm,
}

module _ (api : Apiv1) (c : CreateVmMethod api) (vm_id : String) where
  -- The networks, and the networks that the agent gets: the same names in the same order, each with
  -- the address that was made for it and that its adapter has.
  pub data Wired : Networks api → Networks api → History → History → Type 0 where
    unwired : {h : History} → Wired [] [] h h
    wired :
        {name mac : String}
        → {network : api.Network} → {networks updated : Networks api} → {h h1 h2 h3 : History}
        → c.agent_settings.generate_mac_address h ≡ (returned (mac, none), h1)
        → c.govc_client.set_vm_network_adapter vm_id (api.network_name network) mac h1
          ≡ (returned none, h2)
        → Wired networks updated h2 h3
        → Wired ((name, network) ∷ networks) ((name, api.set_mac mac network) ∷ updated) h h3

  ended : {h h' : History} → h ≡ h' → Wired [] [] h h'
  ended {h} p = rw p unwired

  pub add_adapters-Wired :
      (networks updated result : Networks api) (h : History) {h' : History}
      → add_adapters api c vm_id updated networks h ≡ (returned (result, none), h')
      → (added : Networks api) × (result ≡ updated ++ added) × Wired networks added h h'
  unfolding add_adapters
  add_adapters-Wired [] updated result h {h'} e =
      let q : result ≡ updated = ground (arith, e) in
      let p : h ≡ h' = ground (arith, e) in ([], q ∙ sym (append-nil updated), ended p)
  add_adapters-Wired ((name, network) ∷ networks) updated result h e =
      let (mac, h1, p, e1) = passed updated c.agent_settings.generate_mac_address _ h e in
      let (h2, q, e2) =
        passed_error updated
          (c.govc_client.set_vm_network_adapter vm_id (api.network_name network) mac) _ h1 e1 in
      let (added, r, rest) = add_adapters-Wired networks _ result h2 e2 in
      ((name, api.set_mac mac network) ∷ added, r ∙ append_assoc updated _ added, wired p q rest)

module _ (api : Apiv1) (c : CreateVmMethod api) where
  -- The calls that built the VM `cid`: `start` are the events before them, `end` those after.
  pub record Built (agent_id : api.AgentId) (stemcell_cid cid : String) (props : VmProps)
      (networks : Networks api) (vm_env : api.VmEnv) (start end : History) : Type 0 where
    pub added : Networks api
    pub iso_path : String
    pub cloned_answer : String
    pub updated_answer : String
    pub started_answer : String
    pub cloned : History
    pub resized : History
    pub wired_up : History
    pub equipped : History
    pub delivered : History
    pub refreshed : History
    pub cleaned : History
    pub clones :
        c.govc_client.clone_vm ("cs-" <> stemcell_cid) ("vm-" <> cid) start
        ≡ (returned (cloned_answer, none), cloned)
    pub resizes :
        c.govc_client.set_vm_resources ("vm-" <> cid) props.cpu props.ram cloned
        ≡ (returned none, resized)
    pub wires : Wired api c ("vm-" <> cid) networks added resized wired_up
    pub equips :
        c.govc_client.create_ephemeral_disk ("vm-" <> cid) props.disk wired_up
        ≡ (returned none, equipped)
    pub delivers :
        c.agent_settings.generate_agent_env_iso
          (api.attach_ephemeral_disk "1"
            (api.attach_system_disk "0" (api.for_vm agent_id cid added vm_env c.agent_options)))
          equipped
        ≡ (returned (iso_path, none), delivered)
    pub refreshes :
        c.govc_client.update_vm_iso ("vm-" <> cid) iso_path delivered
        ≡ (returned (updated_answer, none), refreshed)
    pub cleans : c.agent_settings.cleanup refreshed ≡ (returned tt, cleaned)
    pub starts :
        c.govc_client.start_vm ("vm-" <> cid) cleaned ≡ (returned (started_answer, none), end)

  build-Built :
      (agent_id : api.AgentId) (stemcell_cid vm_uuid : String) (props : VmProps)
      (networks : Networks api) (vm_env : api.VmEnv) (h : History) {cid : String} {h' : History}
      → build api c agent_id stemcell_cid vm_uuid props networks vm_env h
        ≡ (returned (cid, none), h')
      → (cid ≡ vm_uuid) × Built agent_id stemcell_cid cid props networks vm_env h h'
  unfolding build
  build-Built agent_id stemcell_cid vm_uuid props networks vm_env h {cid} {h'} e =
      let vm_id = "vm-" <> vm_uuid in
      let client = c.govc_client in
      let first = λ (us : Networks api).
        api.attach_system_disk "0" (api.for_vm agent_id vm_uuid us vm_env c.agent_options) in
      let second = λ (us : Networks api). api.attach_ephemeral_disk "1" (first us) in
      let (a1, h1, p1, e1) =
        passed vm_uuid (client.clone_vm ("cs-" <> stemcell_cid) vm_id)
          (λ _. resize api c agent_id vm_uuid props networks vm_env) h e in
      let (h2, p2, e2) =
        passed_error vm_uuid (client.set_vm_resources vm_id props.cpu props.ram)
          (wire api c agent_id vm_uuid props networks vm_env) h1 e1 in
      let (a3, h3, p3, e3) =
        passed vm_uuid (add_adapters api c vm_id [] networks)
          (λ us. equip api c vm_uuid props (first us)) h2 e2 in
      let (h4, p4, e4) =
        passed_error vm_uuid (client.create_ephemeral_disk vm_id props.disk)
          (deliver api c vm_uuid (second a3)) h3 e3 in
      let (a5, h5, p5, e5) =
        passed vm_uuid (c.agent_settings.generate_agent_env_iso (second a3)) (refresh api c vm_uuid)
          h4 e4 in
      let (a6, h6, p6, e6) =
        passed vm_uuid (client.update_vm_iso vm_id a5) (λ _. launch api c vm_uuid) h5 e5 in
      let (h7, p7, e7) =
        passed_unit c.agent_settings.cleanup
          (client.start_vm vm_id >>= λ r.
            check r.1 (λ d. pure (vm_uuid, some d)) (pure (vm_uuid, none)))
          h6 e6 in
      let (a8, h8, p8, e8) =
        passed vm_uuid (client.start_vm vm_id) (λ _. pure (vm_uuid, none)) h7 e7 in
      let (a9, p9, w) = add_adapters-Wired api c vm_id networks [] a3 h2 p3 in
      let q : vm_uuid ≡ cid = ground (arith, e8) in
      let r : h8 ≡ h' = ground (arith, e8) in
      let here : Built agent_id stemcell_cid vm_uuid props networks vm_env h h8 = record {
        added = a3;
        iso_path = a5;
        cloned_answer = a1;
        updated_answer = a6;
        started_answer = a8;
        cloned = h1;
        resized = h2;
        wired_up = h3;
        equipped = h4;
        delivered = h5;
        refreshed = h6;
        cleaned = h7;
        clones = p1;
        resizes = p2;
        wires = rw p9 w;
        equips = p4;
        delivers = p5;
        refreshes = p6;
        cleans = p7;
        starts = p8;
      } in
      (sym q, rw q at rw r at here)

-- The events when the UUID is asked for.
abbrev pub logged_networks : History → History
logged_networks h = debug_log "create-vm" "networks" ∷ h

module _ (api : Apiv1) (w : World) (c : CreateVmMethod api) (agent_id : api.AgentId)
    (stemcell_cid : String) (cloud_props : api.CloudProps) (networks : Networks api)
    (disks : List String) (vm_env : api.VmEnv) (h : History) where
  -- A `CreateVM` that returns without an error has decoded the cloud properties and returns the generated UUID as the VM's id, and on
  -- the VM of that id it has made every step without an error, each after the one before: it cloned
  -- the stemcell, set the resources that the cloud properties ask for, gave every network's adapter
  -- an address, created the ephemeral disk, wrote the image of the agent's settings (which name
  -- these networks, in their order and with these addresses, and both disks), attached it, cleaned
  -- up, and started the VM.
  pub create_vm-Built :
      {cid : String} {h' : History}
      → create_vm api w c agent_id stemcell_cid cloud_props networks disks vm_env h
        ≡ (returned (cid, none), h')
      → (cid ≡ (w.uuid (logged_networks h)).0)
        × (props : VmProps) × (api.vm_props_as cloud_props zero_props ≡ (props, none))
        × Built api c agent_id stemcell_cid cid props networks vm_env
            (generate_uuid ∷ logged_networks h)
            h'
  unfolding create_vm
  create_vm-Built {cid} {h'} e = go (api.vm_props_as cloud_props zero_props) refl
    where
      go :
          (x : Returns VmProps)
          → api.vm_props_as cloud_props zero_props ≡ x
          → (cid ≡ (w.uuid (logged_networks h)).0)
            × (props : VmProps) × (api.vm_props_as cloud_props zero_props ≡ (props, none))
            × Built api c agent_id stemcell_cid cid props networks vm_env
                (generate_uuid ∷ logged_networks h)
                h'
      go (props, some d) q = ground (arith, q)
      go (props, none) q =
          let (p, b) =
            build-Built api c agent_id stemcell_cid (w.uuid (logged_networks h)).0 props networks
              vm_env (generate_uuid ∷ logged_networks h) (rw q at e) in
          (p, props, q, b)
