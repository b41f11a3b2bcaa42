-- ===== src/Fakes.antt =====
-- The test doubles that counterfeiter writes: src/bosh-esxi-cpi/govc/fakes, stemcell/fakes and
-- vm/fakes. A method returns what it returns to its caller and the double after the call.
pub mod Method
pub mod GovcRunner
pub mod GovcConfig
pub mod GovcClient
pub mod StemcellClient
pub mod AgentSettings
