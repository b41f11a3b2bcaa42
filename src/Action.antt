-- ===== src/Action.antt =====
-- src/bosh-esxi-cpi/action: the methods of the CPI.
pub mod Stemcells
pub mod Disks
pub mod Vms
pub mod CreateVm
pub mod Factory
pub mod Gone
pub mod Sparing
pub mod Requests
pub mod Lifecycle
