-- ===== src/Stemcell.antt =====
-- src/bosh-esxi-cpi/stemcell: unpacking a stemcell's tarball.
pub mod Client
