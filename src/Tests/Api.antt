-- ===== src/Tests/Api.antt =====
-- A small apiv1: settings are the texts that were put into them, the latest first.
use bosh_esxi_cpi_release.Prelude.{String, none, List, [], ◌∷◌, ◌<>◌, inr}
use bosh_esxi_cpi_release.Prelude.Int.{pos}
use bosh_esxi_cpi_release.Apiv1.{Apiv1}
use bosh_esxi_cpi_release.Vm.Props.{VmProps}

abbrev pub props_asked : VmProps
props_asked = record { cpu = pos 2; ram = pos 1024; disk = pos 2048 }

abbrev pub flat : List String → String
flat [] = ""
flat (s ∷ ss) = s <> (";" <> flat ss)

-- The settings come back from the file as one text.
abbrev pub small_api : Apiv1
small_api = record {
  AgentEnv = List String;
  AgentId = String;
  AgentOptions = String;
  VmEnv = String;
  Network = String;
  CloudProps = VmProps;
  vm_props_as = λ p old. (p, none);
  network_name = λ n. n;
  set_mac = λ mac n. n <> ("=" <> mac);
  for_vm = λ id cid networks env options. id ∷ cid ∷ [];
  from_bytes = λ b. inr (b ∷ []);
  as_bytes = λ e. (flat e, none);
  attach_system_disk = λ d e. ("system " <> d) ∷ e;
  attach_ephemeral_disk = λ d e. ("ephemeral " <> d) ∷ e;
  attach_persistent_disk = λ d hint e. ("persistent " <> d) ∷ e;
  detach_persistent_disk = λ d e. ("gone " <> d) ∷ e;
}
