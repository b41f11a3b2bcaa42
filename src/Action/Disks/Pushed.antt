-- ===== src/Action/Disks/Pushed.antt =====
-- action/attach_disk.go and action/detach_disk.go: the calls that they have made where they return no
-- error, and where the settings that they push come from.
use bosh_esxi_cpi_release.Prelude.{
  String, ◌<>◌, Option, none, some, ◌≡◌, refl, ap, ◌∙◌, arith, inl, inr, ◌⊎◌,
}
use bosh_esxi_cpi_release.Go.World.{Error, History, Returns}
use bosh_esxi_cpi_release.Go.Monad.{Exit, returned, M, pure, ◌>>=◌, ◌>>◌, check}
use bosh_esxi_cpi_release.Go.Inversion.{passed_value, unchecked}
use bosh_esxi_cpi_release.Apiv1.{Apiv1}
use bosh_esxi_cpi_release.Govc.Api.{GovcClient}
use bosh_esxi_cpi_release.Vm.Settings.{AgentSettings}
use bosh_esxi_cpi_release.Action.Disks.{
  AttachDiskMethod, DetachDiskMethod, persistent_hint, push_settings, attach_disk, detach_disk,
}

module _ (api : Apiv1) (govc : GovcClient) (settings : AgentSettings api.AgentEnv)
    (vm_id : String) where
  -- The settings of the file, changed, went to the VM.
  pub record Pushed (change : api.AgentEnv → api.AgentEnv) (h h' : History) : Type 0 where
    pub bytes : String
    pub agent_env : api.AgentEnv
    pub iso_path : String
    pub answer : String
    pub taken : History
    pub written : History
    pub updated : History
    pub reads : settings.agent_env_bytes_from_file h ≡ (returned bytes, taken)
    pub parses : ◌≡◌ {A = Error ⊎ api.AgentEnv} (api.from_bytes bytes) (inr agent_env)
    pub writes :
        settings.generate_agent_env_iso (change agent_env) taken
        ≡ (returned (iso_path, none), written)
    pub updates : govc.update_vm_iso vm_id iso_path written ≡ (returned (answer, none), updated)
    pub cleans : settings.cleanup updated ≡ (returned tt, h')

  -- The end of both methods.
  abbrev pub take_and_push : (api.AgentEnv → api.AgentEnv) → String → M (Option Error)
  take_and_push change bytes = elim (api.from_bytes bytes) [
    | inl e ↦ pure (some e)
    | inr agent_env ↦ push_settings api govc settings vm_id (change agent_env)
  ]

  the_answer : String → Option Error → History → Exit (Returns String) × History
  the_answer s o k = (returned (s, o), k)

  pushed :
      (agent_env : api.AgentEnv) (h : History) {h' : History}
      → push_settings api govc settings vm_id agent_env h ≡ (returned none, h')
      → (iso_path answer : String) × (h1 h2 : History) × (settings.generate_agent_env_iso agent_env
            h
          ≡ (returned (iso_path, none), h1))
        × (govc.update_vm_iso vm_id iso_path h1 ≡ (returned (answer, none), h2))
        × (settings.cleanup h2 ≡ (returned tt, h'))
  unfolding push_settings the_answer
  pushed agent_env h {h'} e =
      let last : M (Option Error) = settings.cleanup >> pure none in
      let end = λ (p : Returns String). check p.1 (λ d. pure (some d)) last in
      let update = λ (r : Returns String).
        check r.1 (λ d. pure (some d)) (govc.update_vm_iso vm_id r.0 >>= end) in
      let (r, h1, p1, e1) = passed_value (settings.generate_agent_env_iso agent_env) update h e in
      let (n1, e2) = unchecked r.1 (govc.update_vm_iso vm_id r.0 >>= end) h1 e1 in
      let (p, h2, p2, e3) = passed_value (govc.update_vm_iso vm_id r.0) end h1 e2 in
      let (n2, e4) = unchecked p.1 last h2 e3 in
      let (u1, h3, p3, e5) = passed_value settings.cleanup (λ _. pure none) h2 e4 in
      let same : h3 ≡ h' = ground (arith, e5) in
      (
        r.0,
        p.0,
        h1,
        h2,
        p1 ∙ ap (λ o. the_answer r.0 o h1) n1,
        p2 ∙ ap (λ o. the_answer p.0 o h2) n2,
        rw same at p3,
      )

  take_and_push-Pushed :
      (change : api.AgentEnv → api.AgentEnv) (h : History) {h' : History}
      → (settings.agent_env_bytes_from_file >>= take_and_push change) h ≡ (returned none, h')
      → Pushed change h h'
  take_and_push-Pushed change h {h'} e =
      let (bytes, h1, p1, e1) =
        passed_value settings.agent_env_bytes_from_file (take_and_push change) h e in
      go bytes h1 p1 e1 (api.from_bytes bytes) refl
    where
      go :
          (bytes : String) (h1 : History)
          → settings.agent_env_bytes_from_file h ≡ (returned bytes, h1)
          → take_and_push change bytes h1 ≡ (returned none, h')
          → (x : Error ⊎ api.AgentEnv) → api.from_bytes bytes ≡ x
          → Pushed change h h'
      go bytes h1 p1 e1 (inl d) q = ground (arith, q, e1)
      go bytes h1 p1 e1 (inr agent_env) q =
          let (iso_path, answer, h2, h3, p2, p3, p4) =
            pushed (change agent_env) h1 (rw (take_and_push, q) at e1) in
          record {
            bytes = bytes;
            agent_env = agent_env;
            iso_path = iso_path;
            answer = answer;
            taken = h1;
            written = h2;
            updated = h3;
            reads = p1;
            parses = q;
            writes = p2;
            updates = p3;
            cleans = p4;
          }

module _ (api : Apiv1) (vm_cid disk_cid : String) (h : History) where
  -- An `AttachDisk` that returns without an error has attached the disk to the VM, taken the settings
  -- from the file of the settings that were written last, added the disk to them, written the image
  -- of the result, attached that to the VM, and cleaned up, in this order and each without an error.
  pub attach_disk-Pushed :
      (c : AttachDiskMethod api) {h' : History}
      → attach_disk api c vm_cid disk_cid h ≡ (returned none, h')
      → (attached : History) × (c.govc_client.attach_disk ("vm-" <> vm_cid) ("disk-" <> disk_cid) h
          ≡ (returned none, attached))
        × Pushed api c.govc_client c.agent_settings
            ("vm-" <> vm_cid)
            (api.attach_persistent_disk disk_cid (persistent_hint api))
            attached
            h'
  unfolding attach_disk
  attach_disk-Pushed c {h'} e =
      let change = api.attach_persistent_disk disk_cid (persistent_hint api) in
      let (r, h1, p1, e1) =
        passed_value (c.govc_client.attach_disk ("vm-" <> vm_cid) ("disk-" <> disk_cid))
          (λ r.
            check r (λ d. pure (some d))
              (c.agent_settings.agent_env_bytes_from_file
                >>= take_and_push api c.govc_client c.agent_settings ("vm-" <> vm_cid) change))
          h e in
      let (n, e2) = unchecked r _ h1 e1 in
      (
        h1,
        rw n at p1,
        take_and_push-Pushed api c.govc_client c.agent_settings ("vm-" <> vm_cid) change h1 e2,
      )

  -- A `DetachDisk` that returns without an error has detached the disk from the VM, taken the settings
  -- from the file of the settings that were written last, taken the disk out of them, written the
  -- image of the result, attached that to the VM, and cleaned up, in this order and each without an
  -- error.
  pub detach_disk-Pushed :
      (c : DetachDiskMethod api) {h' : History}
      → detach_disk api c vm_cid disk_cid h ≡ (returned none, h')
      → (detached : History) × (c.govc_client.detach_disk ("vm-" <> vm_cid) ("disk-" <> disk_cid) h
          ≡ (returned none, detached))
        × Pushed api c.govc_client c.agent_settings
            ("vm-" <> vm_cid)
            (api.detach_persistent_disk disk_cid)
            detached
            h'
  unfolding detach_disk
  detach_disk-Pushed c {h'} e =
      let change = api.detach_persistent_disk disk_cid in
      let (r, h1, p1, e1) =
        passed_value (c.govc_client.detach_disk ("vm-" <> vm_cid) ("disk-" <> disk_cid))
          (λ r.
            check r (λ d. pure (some d))
              (c.agent_settings.agent_env_bytes_from_file
                >>= take_and_push api c.govc_client c.agent_settings ("vm-" <> vm_cid) change))
          h e in
      let (n, e2) = unchecked r _ h1 e1 in
      (
        h1,
        rw n at p1,
        take_and_push-Pushed api c.govc_client c.agent_settings ("vm-" <> vm_cid) change h1 e2,
      )
