-- ===== src/Action/CreateVm/Machine/Calls.antt =====
-- action/create_vm.go: one call of `CreateVM` and the test of its error, as a stage of the machine.
use bosh_esxi_cpi_release.Prelude.{◌≡◌, refl, ap, ◌∙◌, String, Option, none, some}
use bosh_esxi_cpi_release.Go.World.{Error, History, Returns}
use bosh_esxi_cpi_release.Go.Monad.{Exit, returned, panicked, looping, M, pure, check, ◌>>=◌, ◌>>◌}
use bosh_esxi_cpi_release.Apiv1.{Apiv1}
use bosh_esxi_cpi_release.Vm.Props.{VmProps}
use bosh_esxi_cpi_release.Action.CreateVm.{CreateVmMethod, Networks}
use bosh_esxi_cpi_release.Action.CreateVm.Machine.{
  Stage, cleaning, errors_of, call, Step, arrived, moves, fails, panics, loops, Outcome,
}

-- What follows a call, from its result.
abbrev pub resume : {A B : Type 0} → (A → M B) → Exit A × History → Exit B × History
resume f (r, h) = elim r [
  | returned a ↦ f a h
  | panicked k ↦ (panicked k, h)
  | looping ↦ (looping, h)
]

module _ {api : Apiv1} {c : CreateVmMethod api} {agent_id : api.AgentId} {stemcell_cid cid : String}
    {props : VmProps} {networks : Networks api} {vm_env : api.VmEnv} where
  pub onward :
      {s s1 : Stage api} {h h1 : History} {x : Exit (Returns String) × History}
      → Step api c agent_id stemcell_cid cid props networks vm_env s h s1 h1
      → Outcome api c agent_id stemcell_cid cid props networks vm_env s1 h1 x
      → Outcome api c agent_id stemcell_cid cid props networks vm_env s h x
  onward p (s2, h2, r, e) = (s2, h2, moves p r, e)

  -- A stage whose call returns a value and an error.
  pub by_call :
      {A : Type 0} (s : Stage api) (h : History) (m : M (Returns A)) (rest : A → M (Returns String))
      → call api c agent_id stemcell_cid cid props networks vm_env s h ≡ errors_of api m h
      → ((a : A) (h1 : History)
          → m h ≡ (returned (a, none), h1)
          → Outcome api c agent_id stemcell_cid cid props networks vm_env s h (rest a h1))
      → Outcome api c agent_id stemcell_cid cid props networks vm_env s h
          ((m >>= λ r. check r.1 (λ e. pure (cid, some e)) (rest r.0)) h)
  by_call {A} s h m rest same next = go (m h) refl
    where
      go :
          (x : Exit (Returns A) × History)
          → m h ≡ x
          → Outcome api c agent_id stemcell_cid cid props networks vm_env s h
              (resume (λ (r : Returns A). check r.1 (λ e. pure (cid, some e)) (rest r.0)) x)
      go (returned (a, none), h1) q = next a h1 q
      go (returned (a, some e), h1) q =
          (s, h, arrived, fails (same ∙ ap (resume (λ (r : Returns A). pure r.1)) q))
      go (panicked k, h1) q =
          (s, h, arrived, panics (same ∙ ap (resume (λ (r : Returns A). pure r.1)) q))
      go (looping, h1) q =
          (s, h, arrived, loops (same ∙ ap (resume (λ (r : Returns A). pure r.1)) q))

  -- A stage whose call returns an error alone.
  pub by_call_error :
      (s : Stage api) (h : History) (rest : M (Returns String))
      → ((h1 : History)
          → call api c agent_id stemcell_cid cid props networks vm_env s h ≡ (returned none, h1)
          → Outcome api c agent_id stemcell_cid cid props networks vm_env s h (rest h1))
      → Outcome api c agent_id stemcell_cid cid props networks vm_env s h (
          (call api c agent_id stemcell_cid cid props networks vm_env s >>= λ r.
          check r (λ e. pure (cid, some e)) rest)
            h)
  by_call_error s h rest next =
      go (call api c agent_id stemcell_cid cid props networks vm_env s h) refl
    where
      go :
          (x : Exit (Option Error) × History)
          → call api c agent_id stemcell_cid cid props networks vm_env s h ≡ x
          → Outcome api c agent_id stemcell_cid cid props networks vm_env s h
              (resume (λ (r : Option Error). check r (λ e. pure (cid, some e)) rest) x)
      go (returned none, h1) q = next h1 q
      go (returned (some e), h1) q = (s, h, arrived, fails q)
      go (panicked k, h1) q = (s, h, arrived, panics q)
      go (looping, h1) q = (s, h, arrived, loops q)

  pub by_cleanup :
      (h : History) (rest : M (Returns String))
      → ((h1 : History)
          → c.agent_settings.cleanup h ≡ (returned tt, h1)
          → Outcome api c agent_id stemcell_cid cid props networks vm_env cleaning h (rest h1))
      → Outcome api c agent_id stemcell_cid cid props networks vm_env cleaning h
          ((c.agent_settings.cleanup >> rest) h)
  by_cleanup h rest next = go (c.agent_settings.cleanup h) refl
    where
      go :
          (x : Exit (Unit {0}) × History)
          → c.agent_settings.cleanup h ≡ x
          → Outcome api c agent_id stemcell_cid cid props networks vm_env cleaning h
              (resume (λ (r : Unit {0}). rest) x)
      go (returned u1, h1) q = next h1 q
      go (panicked k, h1) q =
          (cleaning, h, arrived, panics (ap (resume (λ (r : Unit {0}). pure none)) q))
      go (looping, h1) q =
          (cleaning, h, arrived, loops (ap (resume (λ (r : Unit {0}). pure none)) q))
