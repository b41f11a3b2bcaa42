-- ===== src/Vm/Props.antt =====
-- vm/vm_props.go. `as_props` stands for `cloudProps.As`, from the variable's old value.
use bosh_esxi_cpi_release.Prelude.{none, some}
use bosh_esxi_cpi_release.Prelude.Int.{ℤ, pos}
use bosh_esxi_cpi_release.Go.World.{Returns}

pub record VmProps : Type 0 where
  pub cpu : ℤ
  pub ram : ℤ
  pub disk : ℤ

-- `var vmProps vm.VMProps`, and `VMProps{}`.
abbrev pub zero_props : VmProps
zero_props = record { cpu = pos 0; ram = pos 0; disk = pos 0 }

abbrev pub default_props : VmProps
default_props = record { cpu = pos 1; ram = pos 512; disk = pos 5000 }

unfoldable pub new_vm_props : (VmProps → Returns VmProps) → Returns VmProps
new_vm_props as_props =
    let (props, err) = as_props default_props in
    elim err [ none ↦ (props, none) | some e ↦ (zero_props, some e) ]
