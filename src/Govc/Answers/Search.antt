-- ===== src/Govc/Answers/Search.antt =====
-- govc/govc_client.go: what the two loops over govc's answers find.
use mathlib.Core.Bool.{false≢true}
use bosh_esxi_cpi_release.Prelude.{
  String, true, false, List, [], ◌∷◌, ◌++◌, ◌≡◌, refl, sym, ap, ◌∙◌, ◌↔◌, ◌⊎◌, inl, inr, arith,
  str_eq, str_eq_iff, contains, contains_iff, Occurs, Bool-cases, if◌then◌else◌,
}
use bosh_esxi_cpi_release.Govc.Answers.{path_found, found_device, Device}

-- The paths listed, with the paths before it and after it.
abbrev pub Listed : String → List String → Type 0
Listed p files = (before : List String) × (after : List String) × (files ≡ before ++ (p ∷ after))

path_found→Listed : (p : String) (files : List String) → path_found p files ≡ true → Listed p files
unfolding path_found
path_found→Listed p [] h = absurd (false≢true h)
path_found→Listed p (f ∷ files) h = elim (Bool-cases (str_eq f p)) [
  | inl same ↦ ([], files, ap (λ x. x ∷ files) ((str_eq_iff f p).0 same))
  | inr other ↦
      let (b, a, e) = path_found→Listed p files (rw other at h) in (f ∷ b, a, ap (λ l. f ∷ l) e)
]

path_found-append :
    (p : String) (before after : List String) → path_found p (before ++ (p ∷ after)) ≡ true
unfolding path_found
path_found-append p [] after = rw ((str_eq_iff p p).1 refl)
path_found-append p (f ∷ before) after = rw (path_found-append p before after) (ground arith)

-- The loop of `datastorePathExists` finds a path exactly if the datastore lists it.
pub path_found_iff :
    (p : String) (files : List String) → (path_found p files ≡ true) ↔ Listed p files
path_found_iff p files = (path_found→Listed p files, λ (b, a, e). rw e (path_found-append p b a))

-- None of the devices has the disk's name in the name of its file.
abbrev pub NoneHas : String → List Device → Type 0
NoneHas disk_id [] = Unit
NoneHas disk_id (d ∷ ds) = (¬ Occurs disk_id d.file_name) × NoneHas disk_id ds

-- A last device that has it, with the devices before it and after it.
abbrev pub LastHas : String → List Device → Device → Type 0
LastHas disk_id ds d =
    (before : List Device) × (after : List Device) × (ds ≡ before ++ (d ∷ after))
    × Occurs disk_id d.file_name
    × NoneHas disk_id after

abbrev pub Outcome : String → String → List Device → Type 0
Outcome disk_id found ds =
    (NoneHas disk_id ds × (found_device disk_id found ds ≡ found))
    ⊎ ((d : Device) × LastHas disk_id ds d × (found_device disk_id found ds ≡ d.name))

not-Occurs : (disk_id s : String) → contains s disk_id ≡ false → ¬ Occurs disk_id s
not-Occurs disk_id s h o = false≢true (sym h ∙ (contains_iff s disk_id).1 o)

later :
    (disk_id found : String) (d : Device) (ds : List Device)
    → Outcome disk_id (if contains d.file_name disk_id then d.name else found) ds
    → Outcome disk_id found (d ∷ ds)
unfolding found_device
later disk_id found d ds (inr (e, (b, a, p, o, n), q)) =
    inr (e, (d ∷ b, a, ap (λ l. d ∷ l) p, o, n), q)
later disk_id found d ds (inl (n, q)) = elim (Bool-cases (contains d.file_name disk_id)) [
  | inl has ↦ inr (d, ([], ds, refl, (contains_iff d.file_name disk_id).0 has, n), q ∙ rw has)
  | inr lacks ↦ inl ((not-Occurs disk_id d.file_name lacks, n), q ∙ rw lacks)
]

-- The loop of `getVMDiskName` gives the name of the last device whose file's name contains the
-- disk's, or the name that it began with if there is none.
pub found_device_last : (disk_id found : String) (ds : List Device) → Outcome disk_id found ds
unfolding found_device
found_device_last disk_id found [] = inl (tt, refl)
found_device_last disk_id found (d ∷ ds) =
    later disk_id found d ds
      (found_device_last disk_id (if contains d.file_name disk_id then d.name else found) ds)
