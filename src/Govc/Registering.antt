-- ===== src/Govc/Registering.antt =====
-- What more the actions rely on of the ESXi host behind `CloneVM` and `ImportOvf`: which commands
-- register a machine, and that it stays registered. The laws are what govc documents of its
-- commands.
use bosh_esxi_cpi_release.Prelude.{String, true, false, none, some, [], ◌∷◌, ◌≡◌}
use bosh_esxi_cpi_release.Go.World.{Event, cli, History, World}
use bosh_esxi_cpi_release.Govc.Deletions.{deletes_named, is_name}
use bosh_esxi_cpi_release.Govc.Host.{Host, base_flags}

module _ (u : String) where
  abbrev pub registering : String → String → Event
  registering n path = cli "vm.register" (("name", n) ∷ base_flags u) (some (path ∷ []))

  abbrev pub importing : String → String → Event
  importing n path = cli "import.ovf" (("name", n) ∷ base_flags u) (some (path ∷ []))

pub record Registering (w : World) (u : String) (host : Host w u) : Type 0 where
  pub registers :
      (h : History) (n path : String)
      → is_name n ≡ true
      → (w.run_cli h "vm.register" (("name", n) ∷ base_flags u) (some (path ∷ []))).1 ≡ none
      → host.registered (registering u n path ∷ h) n ≡ true
  pub imports :
      (h : History) (n path : String)
      → is_name n ≡ true
      → (w.run_cli h "import.ovf" (("name", n) ∷ base_flags u) (some (path ∷ []))).1 ≡ none
      → host.registered (importing u n path ∷ h) n ≡ true
  -- Nobody but this client changes the host: a machine stays registered until a command that may
  -- delete what has its name, be it by a pattern or by any command the client never runs.
  pub keeps :
      (h : History) (n : String) (e : Event)
      → deletes_named n e ≡ false
      → host.registered h n ≡ true
      → host.registered (e ∷ h) n ≡ true
