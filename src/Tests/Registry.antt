-- ===== src/Tests/Registry.antt =====
-- A host that registers what it is told to, and that asks its question once a machine is started.
use bosh_esxi_cpi_release.Prelude.{
  String, Bool, true, false, not, ◌&&◌, ◌||◌, Option, none, some, List, [], ◌∷◌, ◌≡◌, refl, arith,
  str_eq, str_eq_iff, Bool-cases, inl, inr, ap, ◌↔◌, if◌then◌else◌,
}
use bosh_esxi_cpi_release.Go.World.{Event, cli, Flags, History, Returns, World}
use bosh_esxi_cpi_release.Govc.Answers.{
  path_found, VirtualMachine, unmarshal_vm_info, unmarshal_listings,
}
use bosh_esxi_cpi_release.Govc.Answers.Search.{Listed, path_found_iff}
use bosh_esxi_cpi_release.Govc.Deletions.{deletes_named}
use bosh_esxi_cpi_release.Govc.Host.{Host, is_empty, base_flags}
use bosh_esxi_cpi_release.Govc.Registering.{Registering, registering, importing}
use bosh_esxi_cpi_release.Json.Read.{read}
use bosh_esxi_cpi_release.Tests.World.{one_vm}
use bosh_esxi_cpi_release.Tests.Start.{told, state_text}

abbrev names : Flags → String → Bool
names [] n = false
names ((k, v) ∷ fs) n = str_eq v n

abbrev registers_named : String → Event → Bool
registers_named n (cli cmd flags args) =
    (str_eq cmd "vm.register" || str_eq cmd "import.ovf") && names flags n
registers_named n _ = false

abbrev known : History → String → Bool
known [] n = false
known (e ∷ h) n =
    let before = known h n in
    if registers_named n e then true else if deletes_named n e then false else before

abbrev info_text : Bool → Bool → String
info_text true started = state_text started
info_text false _ = "{\"VirtualMachines\":null}"

abbrev asked_for : Option (List String) → String
asked_for (some (n ∷ _)) = n
asked_for _ = ""

abbrev reply : History → String → Option (List String) → String
reply h cmd args =
    if str_eq cmd "vm.info"
    then info_text (known h (asked_for args)) (told h)
    else if str_eq cmd "datastore.ls"
    then "[{\"File\":[]}]"
    else "done"

abbrev pub registry : World
registry = record one_vm { run_cli = λ h cmd flags args. (reply h cmd args, none) }

abbrev vms : Bool → Bool → List VirtualMachine
vms true started =
    record { runtime = record { power_state = "poweredOff"; question = started } } ∷ []
vms false _ = []

unmarshal_info_text : (b s : Bool) → unmarshal_vm_info (info_text b s) ≡ some (vms b s)
unfolding unmarshal_vm_info read
unmarshal_info_text true true = refl
unmarshal_info_text true false = refl
unmarshal_info_text false s = refl

is_empty-vms : (b s : Bool) → is_empty (vms b s) ≡ not b
is_empty-vms true s = refl
is_empty-vms false s = refl

text_of_reply : (t : String) {s : String} → ◌≡◌ {A = Returns String} (t, none) (s, none) → t ≡ s
text_of_reply t e = ap (λ r. r.0) e

info_answer :
    (h : History) (n t : String)
    → registry.run_cli h "vm.info" (base_flags "u") (some (n ∷ [])) ≡ (t, none)
    → (vs : List VirtualMachine) × (unmarshal_vm_info t ≡ some vs) × (is_empty vs ≡ not (known h n))
info_answer h n t e = (
  vms (known h n) (told h),
  rw (← text_of_reply _ e) (unmarshal_info_text (known h n) (told h)),
  is_empty-vms (known h n) (told h),
)

unmarshal_nothing : unmarshal_listings "[{\"File\":[]}]" ≡ some ([] ∷ [])
unfolding unmarshal_listings read
unmarshal_nothing = refl

listing_answer :
    (h : History) (t : String)
    → registry.run_cli h "datastore.ls" (base_flags "u") none ≡ (t, none)
    → (fs : List String) × (rest : List (List String)) × (unmarshal_listings t ≡ some (fs ∷ rest))
      × ((p : String) → Listed p fs ↔ (false ≡ true))
unfolding path_found
listing_answer h t e = (
  [],
  [],
  rw (← text_of_reply _ e) unmarshal_nothing,
  λ p. ((path_found_iff p []).1, (path_found_iff p []).0),
)

pub registry_host : Host registry "u"
registry_host = record {
  registered = known;
  stored = λ h p. false;
  info_answer = info_answer;
  listing_answer = listing_answer;
  destroyed = λ h n _. ground (arith, (str_eq_iff n n).1 refl);
  removed = λ h p _. refl;
  registered-info = λ h n m. refl;
  registered-listing = λ h n. refl;
  stored-info = λ h p m. refl;
  stored-listing = λ h p. refl;
  registered-removing = λ h n p gone. ground (arith, gone);
}

registered_now : (h : History) (n path : String) → known (registering "u" n path ∷ h) n ≡ true
registered_now h n path = rw ((str_eq_iff n n).1 refl) refl

imported_now : (h : History) (n path : String) → known (importing "u" n path ∷ h) n ≡ true
imported_now h n path = rw ((str_eq_iff n n).1 refl) refl

kept :
    (h : History) (n : String) (e : Event)
    → deletes_named n e ≡ false
    → known h n ≡ true
    → known (e ∷ h) n ≡ true
kept h n e p k = elim (Bool-cases (registers_named n e)) [
  | inl now ↦ rw now refl
  | inr later ↦ rw (later, p) k
]

pub registry-Registering : Registering registry "u" registry_host
unfolding registry_host
registry-Registering = record {
  registers = λ h n path _ _. registered_now h n path;
  imports = λ h n path _ _. imported_now h n path;
  keeps = kept;
}
