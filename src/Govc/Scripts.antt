-- ===== src/Govc/Scripts.antt =====
-- govc/govc_client.go: `ImportOvf`, `CloneVM` and `UpdateVMIso`, which run one command of govc after
-- another until one of them fails.
use bosh_esxi_cpi_release.Prelude.{
  String, ◌<>◌, Option, none, some, List, [], ◌∷◌, ◌≡◌, refl, arith,
}
use bosh_esxi_cpi_release.Go.World.{World, Error, Flags, cli, log_error, History, Returns}
use bosh_esxi_cpi_release.Go.Monad.{returned, M, pure, ask, ◌>>=◌, check, logged}
use bosh_esxi_cpi_release.Govc.Oracle.{world_client}
use bosh_esxi_cpi_release.Govc.Commands.{
  copy_datastore_stemcell, register_datastore_vm, config_vm_hardware, disconnect_cdrom, eject_cdrom,
  upload, insert_cdrom, connect_cdrom,
}
use bosh_esxi_cpi_release.Govc.Client.{import_ovf, clone_vm, update_vm_iso}

-- A command, and what is logged if it fails.
pub record Line : Type 0 where
  pub command : String
  pub flags : Flags
  pub args : Option (List String)
  pub complaint : String

module _ (w : World) where
  -- From the last answer, the lines run in their order. Each asks the world once; the first that
  -- fails is logged and ends the run with its answer and its error; if none fails, the answer is the
  -- last line's.
  pub data Runs : String → List Line → History → Returns String → History → Type 0 where
    ends : {t : String} {h : History} → Runs t [] h (t, none) h
    fails :
        {t s : String} {l : Line} {ls : List Line} {h : History} {e : Error}
        → w.run_cli h l.command l.flags l.args ≡ (s, some e)
        → Runs t
            (l ∷ ls)
            h
            (s, some e)
            (log_error "govc" l.complaint e ∷ cli l.command l.flags l.args ∷ h)
    goes_on :
        {t s : String} {l : Line} {ls : List Line} {h h' : History} {r : Returns String}
        → w.run_cli h l.command l.flags l.args ≡ (s, none)
        → Runs s ls (cli l.command l.flags l.args ∷ h) r h'
        → Runs t (l ∷ ls) h r h'

  -- A call that returns, and that ran these lines.
  abbrev pub Follows : M (Returns String) → List Line → History → Type 0
  Follows m ls h =
      (r : Returns String) × (h' : History) × (m h ≡ (returned r, h')) × Runs "" ls h r h'

  script : List Line → String → M (Returns String)
  script [] t = pure (t, none)
  script (l ∷ ls) t =
      ask (cli l.command l.flags l.args) (λ h. w.run_cli h l.command l.flags l.args) >>= λ r.
      check r.1 (logged l.complaint r.0) (script ls r.0)

  script-Runs :
      (ls : List Line) (t : String) (h : History)
      → (r : Returns String) × (h' : History) × (script ls t h ≡ (returned r, h'))
        × Runs t ls h r h'
  unfolding script
  script-Runs [] t h = ((t, none), h, refl, ends)
  script-Runs (l ∷ ls) t h = go (λ s. script-Runs ls s (cli l.command l.flags l.args ∷ h)) _ refl
    where
      Here : List Line → String → History → Type 0
      Here ms s k =
          (r : Returns String) × (h' : History) × (script ms s k ≡ (returned r, h'))
          × Runs s ms k r h'

      go :
          ((s : String) → Here ls s (cli l.command l.flags l.args ∷ h))
          → (x : Returns String) → w.run_cli h l.command l.flags l.args ≡ x
          → Here (l ∷ ls) t h
      go later (s, some e) q = (
        (s, some e),
        log_error "govc" l.complaint e ∷ cli l.command l.flags l.args ∷ h,
        ground (arith, q),
        fails q,
      )
      go later (s, none) q =
          let (r, h', p, run) = later s in (r, h', ground (arith, q, p), goes_on q run)

  module _ (u : String) where
    abbrev line : String → Flags → Option (List String) → String → Line
    line command flags args complaint = record {
      command = command;
      flags = flags;
      args = args;
      complaint = complaint;
    }

    abbrev pub import_lines : String → String → List Line
    import_lines ovf_path vm_name =
        line "import.ovf" (("name", vm_name) ∷ ("u", u) ∷ ("k", "true") ∷ []) (some (ovf_path ∷ []))
          "import ovf"
        ∷ []

    -- The files are copied, the copy is registered, and its hardware is set.
    abbrev pub clone_lines : String → String → List Line
    clone_lines source clone =
        line "datastore.cp" (("u", u) ∷ ("k", "true") ∷ []) (some (source ∷ clone ∷ []))
          "copying datastore"
        ∷ line "vm.register" (("name", clone) ∷ ("u", u) ∷ ("k", "true") ∷ [])
            (some ((clone <> ("/" <> (source <> ".vmx"))) ∷ [])) "registering VM"
        ∷ line "vm.change"
            (("vm", clone)
              ∷ ("nested-hv-enabled", "true")
              ∷ ("sync-time-with-host", "true")
              ∷ ("u", u)
              ∷ ("k", "true")
              ∷ [])
            none "configuring vm hardware"
        ∷ []

    -- The drive is disconnected and emptied before the image is replaced, and then filled and
    -- connected.
    abbrev pub iso_lines : String → String → List Line
    iso_lines vm_name local_path =
        let drive = some ("cdrom-3000" ∷ []) in
        let flags = ("vm", vm_name) ∷ ("u", u) ∷ ("k", "true") ∷ [] in
        let datastore_path = "/env/env-" <> (vm_name <> ".iso") in
        line "device.disconnect" flags drive "connecting ENV cdrom"
        ∷ line "device.cdrom.eject" flags none "ejecting ENV cdrom"
        ∷ line "datastore.upload" (("u", u) ∷ ("k", "true") ∷ [])
            (some (local_path ∷ datastore_path ∷ [])) "uploading ENV cdrom"
        ∷ line "device.cdrom.insert" flags (some (datastore_path ∷ [])) "inserting ENV cdrom"
        ∷ line "device.connect" flags drive "connecting ENV cdrom"
        ∷ []

    -- Over a runner that answers every command, and a configuration whose URL is found: `ImportOvf`
    -- returns, and it ran the one line that imports the image under the name.
    pub import_ovf-Follows :
        (ovf_path vm_name : String) (h : History)
        → Follows (import_ovf (world_client w u) ovf_path vm_name) (import_lines ovf_path vm_name) h
    unfolding import_ovf script
    import_ovf-Follows ovf_path vm_name h = script-Runs (import_lines ovf_path vm_name) "" h

    -- Over a runner that answers every command, with an error or without, and a configuration whose URL
    -- is found: `CloneVM` returns, and whatever the answers are it ran its three lines in their order,
    -- up to the first that fails: the copy of the files, the registration of the copy, the setting of
    -- its hardware. A failure is logged and returned.
    pub clone_vm-Follows :
        (source clone : String) (h : History)
        → Follows (clone_vm (world_client w u) source clone) (clone_lines source clone) h
    unfolding clone_vm script copy_datastore_stemcell register_datastore_vm config_vm_hardware
    clone_vm-Follows source clone h = script-Runs (clone_lines source clone) "" h

    -- Over a runner that answers every command, with an error or without, and a configuration whose URL
    -- is found: `UpdateVMIso` returns, and whatever the answers are it ran its five lines in their
    -- order, up to the first that fails: disconnect and eject the drive, upload the image, insert it,
    -- connect the drive. A failure is logged and returned.
    pub update_vm_iso-Follows :
        (vm_name local_path : String) (h : History)
        → Follows
            (update_vm_iso (world_client w u) vm_name local_path)
            (iso_lines vm_name local_path)
            h
    unfolding update_vm_iso script disconnect_cdrom eject_cdrom upload insert_cdrom connect_cdrom
    update_vm_iso-Follows vm_name local_path h = script-Runs (iso_lines vm_name local_path) "" h
