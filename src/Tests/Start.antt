-- ===== src/Tests/Start.antt =====
-- `StartVM` on a host that asks its question once the machine is told to start, and on one that
-- never asks.
use mathlib.Core.Path.{transport}
use bosh_esxi_cpi_release.Govc.Api.{GovcClientImpl}
use bosh_esxi_cpi_release.Prelude.{
  zero, suc, ◌⊎◌, inl, inr, sym, ap, ◌∙◌, if◌then◌else◌, String, Bool, true, false, ◌||◌, none,
  some, List, ℕ, ◌<◌, [], ◌∷◌, ◌≡◌, refl, arith, str_eq,
}
use bosh_esxi_cpi_release.Go.World.{World, sleep, cli, History}
use bosh_esxi_cpi_release.Go.Monad.{returned, looping, pure}
use bosh_esxi_cpi_release.Govc.Answers.{
  VirtualMachine, unmarshal_vm_info, state_of, state_blocking_question,
}
use bosh_esxi_cpi_release.Json.Read.{read}
use bosh_esxi_cpi_release.Govc.Commands.{power_on_vm, answer_copy_question}
use bosh_esxi_cpi_release.Govc.Lookups.{vm_state}
use bosh_esxi_cpi_release.Govc.Start.Reached.{Asks, start_vm-reaches}
use bosh_esxi_cpi_release.Govc.Start.{waits, start_vm, answer}
use bosh_esxi_cpi_release.Govc.Start.Polling.{
  Awaits, asked, again, Answered, NeverAsks, PowersOn, start_vm-answer, start_vm-Answered,
  start_vm-looping,
}
use bosh_esxi_cpi_release.Tests.World.{one_vm, client}

abbrev pub told : History → Bool
told [] = false
told (cli cmd flags args ∷ h) = str_eq cmd "vm.power" || told h
told (_ ∷ h) = told h

abbrev pub state_text : Bool → String
state_text true =
    "{\"VirtualMachines\":[{\"Runtime\":{\"PowerState\":\"poweredOff\",\"Question\":{}}}]}"
state_text false = "{\"VirtualMachines\":[{\"Runtime\":{\"PowerState\":\"poweredOff\"}}]}"

abbrev pub asking : World
asking = record one_vm { run_cli = λ h cmd flags args. (state_text (told h), none) }

abbrev pub silent : World
silent = record one_vm { run_cli = λ h cmd flags args. (state_text false, none) }

-- The goroutine runs before the second round.
abbrev pub asked_at : History
asked_at = (start_vm (client asking) "vm-1" 1 1 []).1

started : (start_vm (client asking) "vm-1" 3 1 []).0 ≡ returned ("success", none)
unfolding client
started = refl

abbrev pub second_round : History
second_round = (start_vm (client silent) "vm-1" 2 1 []).1

example-Awaits : Awaits (client asking) "vm-1" 1 (waits 1) [] second_round
unfolding client
example-Awaits =
    again (record { woken = []; scheduled = refl; fetched = refl }) refl
      (asked (record { woken = _; scheduled = refl; fetched = refl }) refl)

start_vm-answer_example :
    start_vm (client asking) "vm-1" 2 1 [] ≡ answer (client asking) "vm-1" second_round
unfolding client
start_vm-answer_example = start_vm-answer (client asking) "vm-1" 2 1 example-Awaits (omega arith)

start_vm-Answered_example :
    Answered
      (client asking)
      "vm-1"
      (waits 1)
      3
      []
      "success"
      (start_vm (client asking) "vm-1" 3 1 []).1
unfolding client
start_vm-Answered_example = start_vm-Answered (client asking) "vm-1" 3 1 [] refl

never : NeverAsks (client silent) "vm-1"
unfolding client
never h = ("state-off", _, refl, refl)

powers_on : PowersOn (client silent) "vm-1"
unfolding client
powers_on h = (_, _, refl)

start_vm-looping_example : (start_vm (client silent) "vm-1" 100 2 []).0 ≡ looping
unfolding client
start_vm-looping_example = start_vm-looping (client silent) "vm-1" never powers_on 100 2 []

abbrev machine : Bool → List VirtualMachine
machine pending =
    record { runtime = record { power_state = "poweredOff"; question = pending } } ∷ []

decoded : (b : Bool) → unmarshal_vm_info (state_text b) ≡ some (machine b)
unfolding unmarshal_vm_info read
decoded true = refl
decoded false = refl

-- A host on which the machine's question is there once its state was asked for after it was told to
-- start, and the command that starts it blocks.
abbrev since : History → Bool
since [] = false
since (cli cmd flags args ∷ h) =
    let before = since h in if str_eq cmd "vm.info" then told h else before
since (_ ∷ h) = since h

abbrev hesitant : World
hesitant = record one_vm { run_cli = λ h cmd flags args. (state_text (since h), none) }

abbrev blocking : GovcClientImpl
blocking = record {
  runner = record {
    cli_command = λ command flags args h.
        if str_eq command "vm.power"
        then (looping, cli command flags args ∷ h)
        else (returned (hesitant.run_cli h command flags args), cli command flags args ∷ h);
  };
  config = record { esx_url = pure "u" };
}

fetched :
    (h : History)
    → vm_state blocking "vm-1" h ≡ (
      returned (state_of (machine (since h)), none),
      cli "vm.info" (("u", "u") ∷ ("k", "true") ∷ []) (some ("vm-1" ∷ [])) ∷ h,
    )
unfolding vm_state
fetched h = rw (vm_state, decoded (since h)) refl

abbrev Pending : ℕ → History → Type 0
Pending zero h = since h ≡ true
Pending (suc k) h = told h ≡ true

later_round :
    (k : ℕ) (h : History) {state : String} {h' : History}
    → Pending k h
    → vm_state blocking "vm-1" (sleep 300 ∷ h) ≡ (returned (state, none), h')
    → (str_eq state state_blocking_question ≡ true) ⊎ ((j : ℕ) × (k ≡ suc j) × Pending j h')
unfolding state_of
later_round zero h {state} p q =
    let e : state_of (machine (since h)) ≡ state = ground (arith, q, fetched (sleep 300 ∷ h)) in
    inl (rw (← e) (rw p refl))
later_round (suc zero) h p q =
    let e = ap (λ r. since r.1 ≡ true) (sym (fetched (sleep 300 ∷ h)) ∙ q) in
    inr (zero, refl, transport e p)
later_round (suc (suc k)) h p q =
    let e = ap (λ r. told r.1 ≡ true) (sym (fetched (sleep 300 ∷ h)) ∙ q) in
    inr (suc k, refl, transport e p)

asks : Asks blocking "vm-1" 1 Pending
unfolding power_on_vm
asks = record {
  fetches = λ h. (_, _, fetched h);
  blocks = λ h. (_, refl, refl);
  round = later_round;
}

start_vm-reaches_example :
    (k : ℕ) × (h' : History) × (k < 4)
    × Awaits blocking "vm-1" k (waits 2) [] h'
    × (start_vm blocking "vm-1" 5 2 [] ≡ answer blocking "vm-1" h')
start_vm-reaches_example = start_vm-reaches blocking "vm-1" 1 Pending asks 5 2 [] (omega arith)

-- The goroutine blocks in the third round, and the question is answered after the fourth.
started_blocking : (start_vm blocking "vm-1" 5 2 []).0 ≡ returned ("success", none)
unfolding start_vm vm_state unmarshal_vm_info read state_of power_on_vm answer_copy_question
started_blocking = refl
