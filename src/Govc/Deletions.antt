-- ===== src/Govc/Deletions.antt =====
-- The commands of govc/govc_client.go that take something off the host, and what they name.
use Prim.Native.Char.{Char, code}
use bosh_esxi_cpi_release.Prelude.{
  Option, none, List, ◌||◌, ◌&&◌, ◌==◌, arith, ◌≡◌, Bool-cases, inl, inr, str_eq_iff, String, Bool,
  true, false, not, some, [], ◌∷◌, str_eq, if◌then◌else◌,
}
use bosh_esxi_cpi_release.Go.World.{Event, Flags, cli}
use bosh_esxi_cpi_release.Go.Monad.{M}
use bosh_esxi_cpi_release.Go.Avoids.{Avoids, avoids_weaken}

abbrev pub has_key : String → Flags → Bool
has_key k [] = false
has_key k ((j, v) ∷ flags) = let later = has_key k flags in str_eq j k || later

abbrev pub has_value : String → String → Flags → Bool
has_value k v [] = false
has_value k v ((j, x) ∷ flags) =
    let later = has_value k v flags in (str_eq j k && str_eq x v) || later

abbrev is_one_of : String → List String → Bool
is_one_of command [] = false
is_one_of command (c ∷ cs) = let later = is_one_of command cs in str_eq command c || later

-- The commands of govc that take no machine's name from it and delete no machine, disk or file,
-- whatever their flags and arguments.
abbrev harmless_commands : List String
harmless_commands =
    "import.ovf" ∷ "datastore.cp" ∷ "vm.register" ∷ "vm.network.add" ∷ "datastore.upload"
    ∷ "device.cdrom.eject" ∷ "device.cdrom.insert" ∷ "device.connect" ∷ "device.disconnect"
    ∷ "vm.power" ∷ "vm.question" ∷ "vm.info" ∷ "datastore.ls" ∷ "device.info"
    ∷ "datastore.disk.create" ∷ "vm.disk.create" ∷ "vm.disk.attach" ∷ []

abbrev has_args : Option (List String) → Bool
has_args none = false
has_args (some _) = true

-- `vm.change` may rename a machine, and `device.remove` deletes a disk's file unless it is told to
-- keep it.
abbrev pub is_harmless : String → Flags → Option (List String) → Bool
is_harmless command flags args =
    is_one_of command harmless_commands
    || (str_eq command "vm.change" && not (has_key "name" flags) && not (has_args args))
    || (str_eq command "device.remove" && has_value "keep" "true" flags)

-- The commands that delete what their arguments name.
abbrev pub is_deletion : String → Bool
is_deletion command = str_eq command "vm.destroy" || str_eq command "datastore.rm"

-- No flag that could name something else: the URL, the check of the certificate, and `-f`.
abbrev pub names_nothing : Flags → Bool
names_nothing [] = true
names_nothing ((k, v) ∷ flags) =
    let later = names_nothing flags in (str_eq k "u" || str_eq k "k" || str_eq k "f") && later

-- Every command but the harmless ones and the deletions of one thing whose name is not `chosen`: a
-- command that the client never runs, such as `vm.unregister`, counts as one that deletes.
abbrev pub deletes_any : (String → Bool) → Event → Bool
deletes_any chosen (cli command flags (some (n ∷ []))) =
    if is_harmless command flags (some (n ∷ []))
    then false
    else if is_deletion command && names_nothing flags
    then chosen n
    else true
deletes_any chosen (cli command flags args) = not (is_harmless command flags args)
deletes_any chosen _ = false

abbrev pub any : String → Bool
any n = true

-- A command that may delete anything.
abbrev pub deletes : Event → Bool
deletes = deletes_any any

-- A command that may delete anything, unless `n` is the one argument of a deletion.
abbrev pub deletes_other : String → Event → Bool
deletes_other n = deletes_any (λ m. not (str_eq m n))

-- The characters that govc or the path of a file reads in another way than literally.
abbrev is_special : Char → Bool
is_special c =
    code c == b'*'
    || code c == b'?'
    || code c == b'['
    || code c == b'\\'
    || code c == b'/'
    || code c == b'%'

abbrev pub has_no_special : String → Bool
has_no_special String.[] = true
has_no_special (String.◌∷◌ c s) = let later = has_no_special s in not (is_special c) && later

-- A text that is read as one name: no pattern, no path of several names, neither `.` nor `..`, no
-- flag, and not empty.
abbrev pub is_name : String → Bool
is_name String.[] = false
is_name (String.◌∷◌ c s) =
    not (is_special c || code c == b'-' || code c == b'.') && has_no_special s

-- The texts `m` and `n` are names, and different ones.
abbrev pub is_apart : String → String → Bool
is_apart m n = is_name m && is_name n && not (str_eq m n)

-- A command that may delete what is called `n`.
abbrev pub deletes_named : String → Event → Bool
deletes_named n = deletes_any (λ m. not (is_apart m n))

module _ (chosen : String → Bool) where
  pub deletes-any_lem : (e : Event) → deletes e ≡ false → deletes_any chosen e ≡ false
  deletes-any_lem e p = ground (arith, p)

  deletes_other-any :
      (n : String) (e : Event)
      → chosen n ≡ false
      → deletes_other n e ≡ false
      → deletes_any chosen e ≡ false
  deletes_other-any n (cli command flags (some (m ∷ []))) other p = elim (Bool-cases (str_eq m n)) [
    | inl same ↦ ground (arith, rw (← (str_eq_iff m n).0 same) at other)
    | inr different ↦ ground (arith, p, different)
  ]
  deletes_other-any n e other p = ground (arith, p)

  -- What a call that deletes nothing, or nothing but `n`, leaves alone.
  pub spares_chosen : {A : Type 0} {m : M A} → Avoids deletes m → Avoids (deletes_any chosen) m
  spares_chosen a = avoids_weaken deletes-any_lem a

  pub spares_other :
      {A : Type 0} {m : M A} (n : String)
      → chosen n ≡ false
      → Avoids (deletes_other n) m
      → Avoids (deletes_any chosen) m
  spares_other n other a = avoids_weaken (λ e. deletes_other-any n e other) a
