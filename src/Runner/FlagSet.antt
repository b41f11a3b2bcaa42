-- ===== src/Runner/FlagSet.antt =====
-- The part of the package `flag` that `CliCommand` uses. A flag's value is the command's own
-- (`flag.Value`): it takes a text or refuses it, which is the record `Setting`.
pub mod Order
pub mod Values
pub mod Positional
use Prim.Native.Char.{code}
use bosh_esxi_cpi_release.Prelude.{
  String, Bool, ◌||◌, ◌==◌, Option, none, some, List, [], ◌∷◌, str_eq, if◌then◌else◌,
}
use bosh_esxi_cpi_release.Go.World.{Flags}

-- A registered flag, with its value and whether the command line may leave out the value (a
-- Boolean flag).
pub record Flag : Type 0 where
  pub name : String
  pub value : String
  pub is_bool : Bool

pub record FlagSet : Type 0 where
  pub formal : List Flag
  pub args : List String

-- `Set` of the value of a flag of this name: whether it takes a text, and what a text that it
-- refuses leaves of the old value (`bool` and `int` values are zero then).
pub record Setting : Type 0 where
  pub accepts : String → String → Bool
  pub refused : String → String → String → String

module _ (setting : Setting) where
  -- `FlagSet.Set`: an unknown flag changes nothing. The errors are dropped by the caller.
  unfoldable pub set_formal : String → String → List Flag → List Flag
  set_formal k v [] = []
  set_formal k v (f ∷ fs) =
      if str_eq f.name k
      then (if setting.accepts k v
          then record f { value = v }
          else record f { value = setting.refused k f.value v })
        ∷ fs
      else f ∷ set_formal k v fs

  unfoldable pub set : String → String → FlagSet → FlagSet
  unfolding set_formal
  set k v s = record s { formal = set_formal k v s.formal }

  -- The loop over the map, in some order of its keys.
  unfoldable pub set_all : Flags → FlagSet → FlagSet
  unfolding set
  set_all [] s = s
  set_all ((k, v) ∷ flags) s = set_all flags (set k v s)

-- How `FlagSet.parseOne` takes an argument apart: it is no flag; it is `--`, which ends the flags;
-- it is malformed; or it names a flag, with a value behind `=` if it has one.
pub data Shape : Type 0 where
  positional terminator malformed : Shape
  named : String → Option String → Shape

-- The text before the first `=`, and the text after it if there is one.
unfoldable pub split_eq : String → String × Option String
split_eq String.[] = (String.[], none)
split_eq (String.◌∷◌ c s) =
    let rest = split_eq s in
    if code c == b'=' then (String.[], some s) else (String.◌∷◌ c rest.0, rest.1)

-- `name` after its dashes. The search for `=` begins at the second character.
unfoldable pub name_shape : String → Shape
unfolding split_eq
name_shape String.[] = malformed
name_shape (String.◌∷◌ c s) =
    if code c == b'-' || code c == b'='
    then malformed
    else named (String.◌∷◌ c (split_eq s).0) (split_eq s).1

-- After the first dash.
unfoldable pub dash_shape : String → Shape
unfolding name_shape
dash_shape String.[] = positional
dash_shape (String.◌∷◌ d String.[]) =
    if code d == b'-' then terminator else name_shape (String.◌∷◌ d String.[])
dash_shape (String.◌∷◌ d (String.◌∷◌ c s)) =
    if code d == b'-'
    then name_shape (String.◌∷◌ c s)
    else name_shape (String.◌∷◌ d (String.◌∷◌ c s))

unfoldable pub shape : String → Shape
unfolding dash_shape
shape String.[] = positional
shape (String.◌∷◌ c s) = if code c == b'-' then dash_shape s else positional

unfoldable pub lookup : String → List Flag → Option Flag
lookup k [] = none
lookup k (f ∷ fs) = if str_eq f.name k then some f else lookup k fs

-- What a named flag asks for: an error ends the parse; a value is set; it is set and refused, which
-- ends the parse; or the value is the next argument.
pub data Demand : Type 0 where
  fails takes_next : Demand
  sets refuses : String → Demand

module _ (setting : Setting) where
  unfoldable pub demand : String → Option String → List Flag → Demand
  unfolding lookup
  demand k value fs = elim (lookup k fs) [
    | none ↦ fails
    | some f ↦ elim value [
      | some v ↦ if setting.accepts k v then sets v else refuses v
      | none ↦
          if f.is_bool
          then (if setting.accepts k "true" then sets "true" else refuses "true")
          else takes_next
    ]
  ]

  -- `FlagSet.Parse`, whose error the caller drops: what was set before it stays set.
  unfoldable pub parse : List String → FlagSet → FlagSet
  unfolding shape demand set
  parse [] s = record s { args = [] }
  parse (a ∷ []) s = elim (shape a) [
    | positional ↦ record s { args = a ∷ [] }
    | terminator ↦ record s { args = [] }
    | malformed ↦ record s { args = a ∷ [] }
    | named k value ↦ elim (demand k value s.formal) [
      | fails ↦ record s { args = [] }
      | takes_next ↦ record s { args = [] }
      | sets v ↦ record (set setting k v s) { args = [] }
      | refuses v ↦ record (set setting k v s) { args = [] }
    ]
  ]
  parse (a ∷ b ∷ rest) s = elim (shape a) [
    | positional ↦ record s { args = a ∷ b ∷ rest }
    | terminator ↦ record s { args = b ∷ rest }
    | malformed ↦ record s { args = a ∷ b ∷ rest }
    | named k value ↦ elim (demand k value s.formal) [
      | fails ↦ record s { args = b ∷ rest }
      | takes_next ↦
          if setting.accepts k b
          then parse rest (set setting k b s)
          else record (set setting k b s) { args = rest }
      | sets v ↦ parse (b ∷ rest) (set setting k v s)
      | refuses v ↦ record (set setting k v s) { args = b ∷ rest }
    ]
  ]
