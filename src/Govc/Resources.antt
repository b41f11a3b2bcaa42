-- ===== src/Govc/Resources.antt =====
-- govc/govc_client.go: the numbers that `SetVMResources` writes on the command line.
use bosh_esxi_cpi_release.Prelude.{ℕ, String, none, some, [], ◌∷◌, ◌≡◌, refl, arith}
use bosh_esxi_cpi_release.Prelude.Int.{pos}
use bosh_esxi_cpi_release.Prelude.Decimal.{itoa}
use bosh_esxi_cpi_release.Prelude.Decimal.Reading.{value_from, value_from-itoa}
use bosh_esxi_cpi_release.Go.World.{World, Event, cli, History, Returns}
use bosh_esxi_cpi_release.Go.Monad.{returned}
use bosh_esxi_cpi_release.Govc.Oracle.{world_client}
use bosh_esxi_cpi_release.Govc.Commands.{change_vm_resources}
use bosh_esxi_cpi_release.Govc.Client.{set_vm_resources}

module _ (w : World) (u : String) where
  -- The command that asks for resources, given as texts.
  abbrev pub changing : String → String → String → Event
  changing vm_name c m =
      cli "vm.change" (("vm", vm_name) ∷ ("c", c) ∷ ("m", m) ∷ ("u", u) ∷ ("k", "true") ∷ []) none

  -- A `SetVMResources` of natural numbers that returns without an error has run one command, whose
  -- two numbers are read back as the count of CPUs and the size of the memory.
  pub set_vm_resources-changing :
      (vm_name : String) (cpus ram : ℕ) (h : History) {h' : History}
      → set_vm_resources (world_client w u) vm_name (pos cpus) (pos ram) h ≡ (returned none, h')
      → (c m : String) × (h' ≡ changing vm_name c m ∷ h)
        × (value_from 0 c ≡ cpus)
        × (value_from 0 m ≡ ram)
  unfolding set_vm_resources change_vm_resources
  set_vm_resources-changing vm_name cpus ram h {h'} e = go _ refl
    where
      go :
          (x : Returns String)
          → w.run_cli h "vm.change"
              (("vm", vm_name)
                ∷ ("c", itoa (pos cpus))
                ∷ ("m", itoa (pos ram))
                ∷ ("u", u)
                ∷ ("k", "true")
                ∷ [])
              none
            ≡ x
          → (c m : String) × (h' ≡ changing vm_name c m ∷ h)
            × (value_from 0 c ≡ cpus)
            × (value_from 0 m ≡ ram)
      go (t, some d) q = ground (arith, q)
      go (t, none) q = (
        itoa (pos cpus),
        itoa (pos ram),
        ground (arith, q),
        value_from-itoa cpus,
        value_from-itoa ram,
      )
