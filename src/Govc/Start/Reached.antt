-- ===== src/Govc/Start/Reached.antt =====
-- govc/govc_client.go: the loop of `StartVM` is left once the host puts its question.
use mathlib.Core.Path.{subst}
use bosh_esxi_cpi_release.Prelude.{
  ◌+◌, ◌⊎◌, ℕ, zero, suc, ◌<◌, String, true, none, ◌∷◌, ◌≡◌, refl, arith, Bool-cases, inl, inr,
  str_eq,
}
use bosh_esxi_cpi_release.Go.World.{sleep, History}
use bosh_esxi_cpi_release.Go.Monad.{returned, looping}
use bosh_esxi_cpi_release.Govc.Api.{GovcClientImpl}
use bosh_esxi_cpi_release.Govc.Answers.{state_blocking_question}
use bosh_esxi_cpi_release.Govc.Commands.{power_on_vm}
use bosh_esxi_cpi_release.Govc.Lookups.{vm_state}
use bosh_esxi_cpi_release.Govc.Start.{
  Task, spawn, waits, ran, schedule, power_on_task, answer, start_vm,
}
use bosh_esxi_cpi_release.Govc.Start.Polling.{Round, Awaits, asked, again, start_vm-answer}

module _ (c : GovcClientImpl) (n : String) where
  -- A host that puts its question at most `delay` rounds after the machine was told to start.
  -- `Pending k` is what holds of the history while the question will be seen after `k` more rounds at
  -- the latest. The command that powers the machine on blocks, since it waits for the answer.
  pub record Asks (delay : ℕ) (Pending : ℕ → History → Type 0) : Type 0 where
    pub fetches :
        (h : History)
        → (state : String) × (h' : History) × (vm_state c n h ≡ (returned (state, none), h'))
    pub blocks :
        (h : History) → (h' : History) × (power_on_vm c n h ≡ (looping, h')) × Pending delay h'
    pub round :
        (k : ℕ) (h : History) {state : String} {h' : History}
        → Pending k h
        → vm_state c n (sleep 300 ∷ h) ≡ (returned (state, none), h')
        → (str_eq state state_blocking_question ≡ true) ⊎ ((j : ℕ) × (k ≡ suc j) × Pending j h')

  module _ (delay : ℕ) (Pending : ℕ → History → Type 0) (host : Asks delay Pending) where
    task-Pending :
        (h : History)
        → (h1 : History) × (schedule c n (waits zero) h ≡ (returned ran, h1)) × Pending delay h1
    unfolding schedule spawn power_on_task
    task-Pending h = let (h', q, p) = host.blocks h in (h', ground (arith, q), p)

    -- The question is seen after at most `bound` rounds that do not show it.
    abbrev Reaches : ℕ → Task → History → Type 0
    Reaches bound task h = (k : ℕ) × (h' : History) × (k < suc bound) × Awaits c n k task h h'

    seen :
        {bound : ℕ} {task task' : Task} {h h1 : History} {state : String}
        → Round c n task h task' state h1
        → str_eq state state_blocking_question ≡ true
        → Reaches bound task h
    seen {h1 = h1} r there = (zero, h1, omega arith, asked r there)

    -- The round is followed by one in which the question is seen, whatever it shows itself.
    one_more :
        {bound : ℕ} {task task' : Task} {h h1 : History} {state : String}
        → Round c n task h task' state h1
        → Reaches bound task' h1
        → Reaches (suc bound) task h
    one_more {state = state} r (k, h2, lt, a) =
        elim (Bool-cases (str_eq state state_blocking_question)) [
          | inl there ↦ seen r there
          | inr missing ↦ (suc k, h2, omega arith, again r missing a)
        ]

    -- A round while the goroutine blocks.
    blocked_round :
        (k : ℕ) (task : Task) (h h1 : History)
        → schedule c n task h ≡ (returned ran, h1)
        → Pending k h1
        → Reaches k task h
    unfolding schedule
    blocked_round zero task h h1 p t =
        let (state, h2, q) = host.fetches (sleep 300 ∷ h1) in
        let r : Round c n task h ran state h2 = record { woken = h1; scheduled = p; fetched = q } in
        elim (host.round zero h1 t q) [
          | inl there ↦ seen r there
          | inr (j, e, _) ↦ absurd (omega arith)
        ]
    blocked_round (suc k) task h h1 p t =
        let (state, h2, q) = host.fetches (sleep 300 ∷ h1) in
        let r : Round c n task h ran state h2 = record { woken = h1; scheduled = p; fetched = q } in
        let later : Pending k h2 → Reaches k ran h2 = blocked_round k ran h2 h2 refl in
        elim (host.round (suc k) h1 t q) [
          | inl there ↦ seen r there
          | inr (j, e, t') ↦ one_more r (later (subst (λ i. Pending i h2) (omega arith) t'))
        ]

    reaches : (turn : ℕ) (h : History) → Reaches (turn + delay) (waits turn) h
    unfolding schedule
    reaches zero h =
        let (h1, p, t) = task-Pending h in
        subst (λ b. Reaches b (waits zero) h) (omega arith)
          (blocked_round delay (waits zero) h h1 p t)
    reaches (suc turn) h =
        let (state, h2, q) = host.fetches (sleep 300 ∷ h) in
        let r : Round c n (waits (suc turn)) h (waits turn) state h2 = record {
          woken = h;
          scheduled = refl;
          fetched = q;
        } in
        subst (λ b. Reaches b (waits (suc turn)) h) (omega arith) (one_more r (reaches turn h2))

    -- On a host that keeps the laws of `Asks`, where every fetch of the state succeeds, the command that
    -- powers the machine on blocks, and the question is seen at most `delay` rounds after it was given:
    -- whichever round the goroutine is started before, a `StartVM` that is followed for more than
    -- `delay` rounds beyond it leaves its loop, after rounds in which nothing failed, and does what
    -- follows the loop: it answers the question.
    pub start_vm-reaches :
        (rounds turn : ℕ) (h : History)
        → turn + delay < rounds
        → (k : ℕ) × (h' : History) × (k < suc (turn + delay))
          × Awaits c n k (waits turn) h h'
          × (start_vm c n rounds turn h ≡ answer c n h')
    start_vm-reaches rounds turn h lt =
        let (k, h', lt', a) = reaches turn h in
        (k, h', lt', a, start_vm-answer c n rounds turn a (omega arith))
