-- ===== src/Vm.antt =====
-- src/bosh-esxi-cpi/vm: a VM's resources, its agent's settings, and its MAC addresses.
pub mod Props
pub mod Mac
pub mod Settings
