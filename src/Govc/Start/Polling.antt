-- ===== src/Govc/Start/Polling.antt =====
-- govc/govc_client.go: when the loop of `StartVM` ends, and when it does not.
use bosh_esxi_cpi_release.Prelude.{
  ℕ, zero, suc, ◌<◌, String, true, false, none, some, ◌∷◌, ◌≡◌, refl, arith, sym, ◌∙◌, Bool-cases,
  inl, inr, str_eq, if◌then◌else◌,
}
use bosh_esxi_cpi_release.Go.World.{sleep, log_error, History, Returns}
use bosh_esxi_cpi_release.Go.Monad.{Exit, returned, panicked, looping}
use bosh_esxi_cpi_release.Govc.Api.{GovcClientImpl}
use bosh_esxi_cpi_release.Govc.Answers.{state_blocking_question}
use bosh_esxi_cpi_release.Govc.Commands.{power_on_vm}
use bosh_esxi_cpi_release.Govc.Lookups.{vm_state}
use bosh_esxi_cpi_release.Govc.Start.{
  Task, waits, ran, spawn, schedule, power_on_task, answer, poll, start_vm,
}

module _ (c : GovcClientImpl) (n : String) where
  -- One round: the goroutine runs if it is its turn, the loop sleeps, and the state is fetched.
  pub record Round (task : Task) (h : History) (task' : Task) (state : String) (h' : History)
      : Type 0 where
    pub woken : History
    pub scheduled : schedule c n task h ≡ (returned task', woken)
    pub fetched : vm_state c n (sleep 300 ∷ woken) ≡ (returned (state, none), h')

  -- After `k` more rounds in which nothing fails the question is there, and the history is `h'`.
  pub data Awaits : ℕ → Task → History → History → Type 0 where
    asked :
        {task task' : Task} {h h' : History} {state : String}
        → Round task h task' state h'
        → str_eq state state_blocking_question ≡ true
        → Awaits zero task h h'
    again :
        {k : ℕ} {task task' : Task} {h h1 h' : History} {state : String}
        → Round task h task' state h1
        → str_eq state state_blocking_question ≡ false
        → Awaits k task' h1 h'
        → Awaits (suc k) task h h'

  poll-Round :
      (rounds : ℕ) (task task' : Task) (h h' : History) (state : String)
      → Round task h task' state h'
      → poll c n (suc rounds) task h
        ≡ (if str_eq state state_blocking_question then answer c n else poll c n rounds task') h'
  unfolding poll
  poll-Round rounds task task' h h' state r = ground (arith, r.scheduled, r.fetched)

  poll-answer :
      {k : ℕ} {task : Task} {h h' : History} (rounds : ℕ)
      → Awaits k task h h'
      → k < rounds
      → poll c n rounds task h ≡ answer c n h'
  poll-answer zero a lt = absurd (omega arith)
  poll-answer (suc rounds) (asked {task} {task'} {h} {h'} {state} r q) lt =
      poll-Round rounds task task' h h' state r ∙ rw q
  poll-answer (suc rounds) (again {k} {task} {task'} {h} {h1} {h'} {state} r q a) lt =
      poll-Round rounds task task' h h1 state r ∙ rw q (poll-answer rounds a (omega arith))

  -- If the question comes after `k` rounds in which nothing fails, every `StartVM` that is followed
  -- for more than `k` rounds leaves its loop and does what follows the loop: it answers the question.
  pub start_vm-answer :
      {k : ℕ} {h h' : History} (rounds turn : ℕ)
      → Awaits k (waits turn) h h'
      → k < rounds
      → start_vm c n rounds turn h ≡ answer c n h'
  unfolding start_vm
  start_vm-answer rounds turn a lt = poll-answer rounds a lt

  -- A call that succeeded, taken apart.
  abbrev pub Answered : Task → ℕ → History → String → History → Type 0
  Answered task rounds h x h' =
      (k : ℕ) × (h1 : History) × (k < rounds)
      × Awaits k task h h1
      × (answer c n h1 ≡ (returned (x, none), h'))

  one_more :
      (rounds : ℕ) (task task' : Task) (h h1 : History) (state x : String) (h' : History)
      → Round task h task' state h1
      → str_eq state state_blocking_question ≡ false
      → Answered task' rounds h1 x h'
      → Answered task (suc rounds) h x h'
  one_more rounds task task' h h1 state x h' r q (k, h2, lt, a, p) =
      (suc k, h2, omega arith, again r q a, p)

  poll-Answered :
      (rounds : ℕ) (task : Task) (h : History) {x : String} {h' : History}
      → poll c n rounds task h ≡ (returned (x, none), h')
      → Answered task rounds h x h'
  unfolding poll
  poll-Answered zero task h e = cc
  poll-Answered (suc rounds) task h {x} {h'} e =
      woken (λ task' h2 p. poll-Answered rounds task' h2 p) _ refl
    where
      Later : Type 0
      Later =
          (task' : Task) (h2 : History)
          → poll c n rounds task' h2 ≡ (returned (x, none), h')
          → Answered task' rounds h2 x h'

      tested :
          Later
          → (task' : Task) (s : String) (h2 : History) → Round task h task' s h2
          → Answered task (suc rounds) h x h'
      tested ih task' s h2 r =
          let after_round = sym (poll-Round rounds task task' h h2 s r) ∙ e in
          elim (Bool-cases (str_eq s state_blocking_question)) [
            | inl there ↦ (zero, h2, omega arith, asked r there, rw there at after_round)
            | inr missing ↦
                one_more rounds task task' h h2 s x h' r missing
                  (ih task' h2 (rw missing at after_round))
          ]

      fetched :
          Later
          → (task' : Task) (h1 : History) → schedule c n task h ≡ (returned task', h1)
          → (y : Exit (Returns String) × History) → vm_state c n (sleep 300 ∷ h1) ≡ y
          → Answered task (suc rounds) h x h'
      fetched ih task' h1 p (panicked m, h2) q = ground (arith, p, q)
      fetched ih task' h1 p (looping, h2) q = ground (arith, p, q)
      fetched ih task' h1 p (returned (s, some d), h2) q = ground (arith, p, q)
      fetched ih task' h1 p (returned (s, none), h2) q =
          tested ih task' s h2 (record { woken = h1; scheduled = p; fetched = q })

      woken :
          Later
          → (y : Exit Task × History) → schedule c n task h ≡ y
          → Answered task (suc rounds) h x h'
      woken ih (panicked m, h1) p = ground (arith, p)
      woken ih (looping, h1) p = ground (arith, p)
      woken ih (returned task', h1) p = fetched ih task' h1 p _ refl

  -- A `StartVM` that returns without an error has seen the question, in one of the rounds that it is
  -- followed for and after rounds in which nothing failed, and has answered it without an error.
  pub start_vm-Answered :
      (rounds turn : ℕ) (h : History) {x : String} {h' : History}
      → start_vm c n rounds turn h ≡ (returned (x, none), h')
      → Answered (waits turn) rounds h x h'
  unfolding start_vm
  start_vm-Answered rounds turn h e = poll-Answered rounds (waits turn) h e

  -- The host never puts the question, however the machine was told to start.
  abbrev pub NeverAsks : Type 0
  NeverAsks =
      (h : History)
      → (state : String) × (h' : History) × (vm_state c n h ≡ (returned (state, none), h'))
        × (str_eq state state_blocking_question ≡ false)

  abbrev pub PowersOn : Type 0
  PowersOn =
      (h : History) → (r : Returns String) × (h' : History) × (power_on_vm c n h ≡ (returned r, h'))

  schedule-returned :
      PowersOn
      → (task : Task) (h : History)
      → (task' : Task) × (h' : History) × (schedule c n task h ≡ (returned task', h'))
  unfolding schedule spawn power_on_task
  schedule-returned on ran h = (ran, h, refl)
  schedule-returned on (waits (suc k)) h = (waits k, h, refl)
  schedule-returned on (waits zero) h = ended (on h)
    where
      ended :
          ((r : Returns String) × (h' : History) × (power_on_vm c n h ≡ (returned r, h')))
          → (task' : Task) × (h' : History) × (schedule c n (waits zero) h ≡ (returned task', h'))
      ended ((t, none), h', q) = (ran, h', ground (arith, q))
      ended ((t, some e), h', q) =
          (ran, log_error "govc" "powering on VM" e ∷ h', ground (arith, q))

  poll-looping :
      NeverAsks
      → PowersOn
      → (rounds : ℕ) (task : Task) (h : History) → (poll c n rounds task h).0 ≡ looping
  unfolding poll
  poll-looping never on zero task h = refl
  poll-looping never on (suc rounds) task h =
      let (task', h1, p) = schedule-returned on task h in
      let (s, h2, q, b) = never (sleep 300 ∷ h1) in
      ground (arith, p, q, b, poll-looping never on rounds task' h2)

  -- If every fetch of the state succeeds and none of them shows the question, and the command that
  -- powers the machine on returns, with an error or without, then `StartVM` is still in its loop after
  -- any number of rounds.
  pub start_vm-looping :
      NeverAsks
      → PowersOn
      → (rounds turn : ℕ) (h : History) → (start_vm c n rounds turn h).0 ≡ looping
  unfolding start_vm
  start_vm-looping never on rounds turn h = poll-looping never on rounds (waits turn) h
