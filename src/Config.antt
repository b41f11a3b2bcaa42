-- ===== src/Config.antt =====
-- src/bosh-esxi-cpi/config and the configuration of the govc client.
pub mod Load
pub mod Url
pub mod Esx
