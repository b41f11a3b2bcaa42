-- ===== src/Go/World.antt =====
-- Everything outside the process. A call that leaves the process is an event, and the answer to it
-- is any function of the events before it, so the world may keep any state.
use bosh_esxi_cpi_release.Prelude.{ℕ, String, Bool, Option, List}

-- An `error` value: made by the world, by `errors.New` and `fmt.Errorf`, by
-- `bosherr.WrapError`, or by `encoding/json`.
pub data Error : Type 0 where
  external : String → Error
  message : String → Error
  wrapped : Error → String → Error
  bad_json : String → Error

-- A `map[string]string`, its keys in the order in which the source writes them.
abbrev pub Flags : Type 0
Flags = List (String × String)

-- `args` is `none` where the source passes `nil`. An event `log_error` holds the tag, the message
-- and the error; `sleep` holds milliseconds; a `write_iso` holds the open file's path, its bytes and
-- the label.
pub data Event : Type 0 where
  cli : String → Flags → Option (List String) → Event
  file_exists : String → Event
  read_file : String → Event
  write_file : String → String → Event
  temp_dir : String → Event
  open_file : String → Event
  close_file : String → Event
  remove_all : String → Event
  decompress : String → String → Event
  write_iso : String → String → String → Event
  random_bytes : ℕ → Event
  generate_uuid : Event
  sleep : ℕ → Event
  debug_log : String → String → Event
  log_error : String → String → Error → Event
  log_message : String → String → Event
  print_error : Error → Event
  print_metadata : String → Event

-- The latest event stands first.
abbrev pub History : Type 0
History = List Event

-- A function that returns `(string, error)`, `(bool, error)` and so on.
abbrev pub Returns : Type 0 → Type 0
Returns A = A × Option Error

-- The answers. Each takes the events before the call.
pub record World : Type 0 where
  pub run_cli : History → String → Flags → Option (List String) → Returns String
  pub has_file : History → String → Bool
  pub file_bytes : History → String → Returns String
  pub write_fails : History → String → String → Option Error
  pub new_temp_dir : History → String → Returns String
  pub open_fails : History → String → Option Error
  pub remove_fails : History → String → Option Error
  pub decompress_fails : History → String → String → Option Error
  pub iso_fails : History → String → String → String → Option Error
  pub random : History → ℕ → Returns (List ℕ)
  pub uuid : History → Returns String
