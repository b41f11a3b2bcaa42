-- ===== src/Govc/Start.antt =====
-- govc/govc_client.go: `StartVM`, which powers the VM on in a goroutine and polls its state until
-- govc reports the question that blocks the start. `turn` is the round before which the scheduler
-- starts the goroutine, and `rounds` is how many rounds of the loop the model follows; the code has
-- no such bound, and a call that is still in its loop is `looping`.
pub mod Polling
pub mod Reached
use bosh_esxi_cpi_release.Prelude.{ℕ, zero, suc, String, str_eq, if◌then◌else◌}
use bosh_esxi_cpi_release.Go.World.{sleep, log_error, Returns}
use bosh_esxi_cpi_release.Go.Monad.{
  returned, panicked, looping, M, pure, tell, ◌>>=◌, ◌>>◌, check, logged,
}
use bosh_esxi_cpi_release.Govc.Api.{GovcClientImpl}
use bosh_esxi_cpi_release.Govc.Answers.{state_blocking_question}
use bosh_esxi_cpi_release.Govc.Commands.{power_on_vm, answer_copy_question}
use bosh_esxi_cpi_release.Govc.Lookups.{vm_state}

-- The goroutine has been started, and it has ended or blocks; or it waits for its turn.
pub data Task : Type 0 where
  waits : ℕ → Task
  ran : Task

module _ (c : GovcClientImpl) (vm_name : String) where
  -- The goroutine's body.
  unfoldable pub power_on_task : M (Unit {0})
  power_on_task = do
    (result, err) ← power_on_vm c vm_name
    check err (λ e. tell (log_error "govc" "powering on VM" e)) (pure tt)

  -- The goroutine is started. One that blocks leaves the loop running; one that panics ends the
  -- program.
  unfoldable pub spawn : M Task
  unfolding power_on_task
  spawn h =
      let (ended, h') = power_on_task h in
      elim ended [
        | returned _ ↦ (returned ran, h')
        | looping ↦ (returned ran, h')
        | panicked p ↦ (panicked p, h')
      ]

  -- The scheduler's choice before a round.
  unfoldable pub schedule : Task → M Task
  unfolding spawn
  schedule ran = pure ran
  schedule (waits zero) = spawn
  schedule (waits (suc n)) = pure (waits n)

  -- What follows the loop.
  unfoldable pub answer : M (Returns String)
  answer = do
    (result, err) ← answer_copy_question c vm_name
    check err (logged "answering question state for VM" "") (pure ("success", err))

  unfoldable pub poll : ℕ → Task → M (Returns String)
  unfolding schedule answer
  poll zero task = λ h. (looping, h)
  poll (suc rounds) task = do
    task' ← schedule task
    tell (sleep 300)
    (state, err) ← vm_state c vm_name
    check err (logged "fetching question state for VM" "") (
        let next = poll rounds task' in
        if str_eq state state_blocking_question then answer else next)

  unfoldable pub start_vm : ℕ → ℕ → M (Returns String)
  unfolding poll
  start_vm rounds turn = poll rounds (waits turn)
