-- ===== src/Govc/Host.antt =====
-- The ESXi host behind the commands, as far as the client relies on it: which virtual machines it
-- has registered, and which paths lie in its datastore. The laws are what govc documents of its
-- commands; they say nothing of a command that fails.
use bosh_esxi_cpi_release.Prelude.{
  String, Bool, true, false, not, none, some, List, [], ◌∷◌, ◌≡◌, ◌↔◌,
}
use bosh_esxi_cpi_release.Go.World.{Event, cli, Flags, History, World}
use bosh_esxi_cpi_release.Govc.Answers.{VirtualMachine, unmarshal_vm_info, unmarshal_listings}
use bosh_esxi_cpi_release.Govc.Answers.Search.{Listed}

abbrev pub is_empty : List VirtualMachine → Bool
is_empty [] = true
is_empty (v ∷ vs) = false

module _ (u : String) where
  abbrev pub base_flags : Flags
  base_flags = ("u", u) ∷ ("k", "true") ∷ []

  abbrev pub force_flags : Flags
  force_flags = ("f", "true") ∷ ("u", u) ∷ ("k", "true") ∷ []

  abbrev pub info : String → Event
  info n = cli "vm.info" base_flags (some (n ∷ []))

  abbrev pub listing : Event
  listing = cli "datastore.ls" base_flags none

  abbrev pub destroying : String → Event
  destroying n = cli "vm.destroy" base_flags (some (n ∷ []))

  abbrev pub removing : String → Event
  removing p = cli "datastore.rm" force_flags (some (p ∷ []))

  abbrev pub powering_off : String → Event
  powering_off n = cli "vm.power" (("off", "true") ∷ base_flags) (some (n ∷ []))

pub record Host (w : World) (u : String) : Type 0 where
  pub registered : History → String → Bool
  pub stored : History → String → Bool
  -- `vm.info` lists the machine exactly if it is registered.
  pub info_answer :
      (h : History) (n t : String)
      → w.run_cli h "vm.info" (base_flags u) (some (n ∷ [])) ≡ (t, none)
      → (vs : List VirtualMachine) × (unmarshal_vm_info t ≡ some vs)
        × (is_empty vs ≡ not (registered h n))
  -- `datastore.ls` lists what lies in the datastore's root.
  pub listing_answer :
      (h : History) (t : String)
      → w.run_cli h "datastore.ls" (base_flags u) none ≡ (t, none)
      → (fs : List String) × (rest : List (List String)) × (unmarshal_listings t ≡ some (fs ∷ rest))
        × ((p : String) → Listed p fs ↔ (stored h p ≡ true))
  pub destroyed :
      (h : History) (n : String)
      → (w.run_cli h "vm.destroy" (base_flags u) (some (n ∷ []))).1 ≡ none
      → registered (destroying u n ∷ h) n ≡ false
  pub removed :
      (h : History) (p : String)
      → (w.run_cli h "datastore.rm" (force_flags u) (some (p ∷ []))).1 ≡ none
      → stored (removing u p ∷ h) p ≡ false
  -- Reading changes nothing, and removing files registers nothing.
  pub registered-info : (h : History) (n m : String) → registered (info u m ∷ h) n ≡ registered h n
  pub registered-listing :
      (h : History) (n : String) → registered (listing u ∷ h) n ≡ registered h n
  pub stored-info : (h : History) (p m : String) → stored (info u m ∷ h) p ≡ stored h p
  pub stored-listing : (h : History) (p : String) → stored (listing u ∷ h) p ≡ stored h p
  pub registered-removing :
      (h : History) (n p : String)
      → registered h n ≡ false
      → registered (removing u p ∷ h) n ≡ false
