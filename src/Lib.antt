-- ===== src/Lib.antt =====
-- The BOSH CPI for ESXi (src/bosh-esxi-cpi). The director of BOSH starts the program for one
-- request; the program runs commands of govc, which it links as a library, against an ESXi host.
--
-- The parts, and which file models which:
-- - main/main.go reads the configuration, puts the parts together and serves one request: Main.
-- - config/config.go holds the configuration and decodes it from JSON: Config/Load. The JSON text
--   is read by Json/Read, with Json/Scan, and decoded into structs by Json/Decode, as
--   encoding/json does.
-- - govc/govc_config.go makes the URL of the host: Config/Esx, with the escaping of net/url in
--   Config/Url.
-- - govc/govc_runner.go runs one govc command and captures what it prints: Runner/Command, with the
--   flag package in Runner/FlagSet, and the swapping of standard output, statement by statement, in
--   Runner/Capture.
-- - govc/govc_client.go is the client that the actions use: its single commands are Govc/Commands,
--   what they print is decoded in Govc/Answers, vmState, datastorePathExists and getVMDiskName are
--   Govc/Lookups, StartVM is Govc/Start and every other method Govc/Client. The interfaces of
--   govc/govc.go are Govc/Api.
-- - vm/agent_settings.go and vm/vm_props.go: Vm/Settings, Vm/Mac and Vm/Props.
-- - stemcell/stemcell_client.go: Stemcell/Client.
-- - action/*.go are the methods of the CPI: Action/Stemcells, Action/CreateVm, Action/Vms and
--   Action/Disks; action/factory.go puts them together: Action/Factory. The director's requests,
--   one after another, are Action/Requests, and CreateVM stage by stage is
--   Action/CreateVm/Machine.
-- - the test doubles, govc/fakes, stemcell/fakes and vm/fakes, which counterfeiter writes: a method of
--   a double is Fakes/Method, and each double has a file under Fakes. A call takes a double to its
--   answer and to the double that has the call on record; the world that answers as a double of the
--   command runner is told to is Fakes/GovcRunner/Scripted.
--
-- State. What a call does outside the process is an event (Go/World), and a call takes the events
-- so far to its outcome and the events after it (Go/Monad): it returns, panics, or is still in its
-- loop. An answer from outside (a govc command, the file system, random bytes) is any function of
-- the events before it, so that the world may change with every event. An error is a value that is
-- returned beside the result, as in Go, and an early return is a `check`.
--
-- Bounds and fuel. StartVM has no bound on its rounds: the model follows it for a number of rounds
-- that is a parameter, and a call that is not done then is `looping`. Its goroutine is started
-- before a round that is a parameter too; the command that powers the machine on ends at once or
-- blocks for good there, and what it logs when it ends after its question is answered is left out.
-- The reader of JSON takes as fuel one more than twice the length of its text: of two calls in a row
-- one reads a character (Json/Read/Enough). A printer of JSON, which the program has none of, is
-- Json/Print.
-- The sizes of disks and the counts of CPUs are integers without a bound; bytes are below 256.
--
-- Parameters. The package apiv1 of bosh-cpi-go is the record Apiv1; a command of govc is the record
-- Runner.Command; and the record Govc.Host says what the theorems on VMs and disks ask of an ESXi
-- host: what vm.info and datastore.ls print is the state of the host, vm.destroy and datastore.rm
-- remove what they are given, and a query changes nothing; Govc.Registering says that vm.register
-- and import.ovf register a machine under a name, which stays registered until a command that may
-- delete it. Such a command is any but the harmless ones of Govc.Deletions, unless it deletes what
-- its one argument names and this is another name; govc reads an argument as a pattern or a path,
-- so the theorems say which names have to be read literally. The record Files (Vm/Settings/Shared)
-- says that a file keeps what was written to it. These records suppose that nobody else changes the
-- host or the file.
--
-- Not modelled: the tests, the vendored packages, and the packaging of the release; the
-- recovery of a panic in main. The order in which Go ranges over a map is an argument.
pub mod Prelude
pub mod Go
pub mod Json
pub mod Govc
pub mod Fakes
pub mod Vm
pub mod Apiv1
pub mod Stemcell
pub mod Config
pub mod Action
pub mod Runner
pub mod Main
pub mod Tests
