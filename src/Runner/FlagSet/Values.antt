-- ===== src/Runner/FlagSet/Values.antt =====
-- govc/govc_runner.go: the values that the flags of `CliCommand` end up with.
use bosh_esxi_cpi_release.Prelude.{
  String, Bool, true, false, Option, none, some, List, [], ◌∷◌, All, ◌≡◌, refl, sym, ap, ◌∙◌, arith,
  str_eq, str_eq_iff, str_eq_sym, Bool-cases, inl, inr, if◌then◌else◌,
}
use bosh_esxi_cpi_release.Go.World.{Flags}
use bosh_esxi_cpi_release.Runner.FlagSet.{
  Flag, Setting, FlagSet, set_formal, set, set_all, lookup, parse, shape, Shape, positional,
  terminator, malformed, named, Demand, demand, fails, takes_next, sets, refuses,
}
use bosh_esxi_cpi_release.Runner.FlagSet.Order.{AreKeys}
use bosh_esxi_cpi_release.Runner.Command.{Command, flags_of}

-- The value of a key of the map.
abbrev pub value_of : String → Flags → Option String
value_of k [] = none
value_of k ((j, v) ∷ flags) = let rest = value_of k flags in if str_eq j k then some v else rest

-- What no setting of a value changes.
abbrev pub declared : List Flag → List (String × Bool)
declared [] = []
declared (f ∷ fs) = (f.name, f.is_bool) ∷ declared fs

module _ (setting : Setting) where
  declared-set_formal :
      (k v : String) (fs : List Flag) → declared (set_formal setting k v fs) ≡ declared fs
  unfolding set_formal
  declared-set_formal k v [] = refl
  declared-set_formal k v (f ∷ fs) = ground (arith, declared-set_formal k v fs)

  declared-set_all :
      (flags : Flags) (s : FlagSet) → declared (set_all setting flags s).formal ≡ declared s.formal
  unfolding set_all
  declared-set_all [] s = refl
  declared-set_all ((k, v) ∷ flags) s =
      declared-set_all flags (set setting k v s) ∙ declared-set_formal k v s.formal

  declared-parse :
      (l : List String) (s : FlagSet) → declared (parse setting l s).formal ≡ declared s.formal
  unfolding parse
  declared-parse [] s = refl
  declared-parse (a ∷ []) s = grind (arith, declared-set_formal)
  declared-parse (a ∷ b ∷ rest) s =
      shaped (declared-parse rest) (declared-parse (b ∷ rest)) (shape a) refl
    where
      Kept : List String → Type 0
      Kept l = (s' : FlagSet) → declared (parse setting l s').formal ≡ declared s'.formal

      demanded :
          Kept rest
          → Kept (b ∷ rest)
          → (k : String) (value : Option String) → shape a ≡ named k value
          → (d : Demand) → demand setting k value s.formal ≡ d
          → declared (parse setting (a ∷ b ∷ rest) s).formal ≡ declared s.formal
      demanded ih ih' k value q fails e = rw (q, parse, e) refl
      demanded ih ih' k value q (refuses v) e = rw (q, parse, e) (declared-set_formal k v s.formal)
      demanded ih ih' k value q (sets v) e =
          rw (q, parse, e) (ih' (set setting k v s) ∙ declared-set_formal k v s.formal)
      demanded ih ih' k value q takes_next e = elim (Bool-cases (setting.accepts k b)) [
        | inl ok ↦ rw (q, parse, e, ok) (ih (set setting k b s) ∙ declared-set_formal k b s.formal)
        | inr bad ↦ rw (q, parse, e, bad) (declared-set_formal k b s.formal)
      ]

      shaped :
          Kept rest
          → Kept (b ∷ rest)
          → (x : Shape) → shape a ≡ x
          → declared (parse setting (a ∷ b ∷ rest) s).formal ≡ declared s.formal
      shaped ih ih' positional q = rw (q, parse) refl
      shaped ih ih' terminator q = rw (q, parse) refl
      shaped ih ih' malformed q = rw (q, parse) refl
      shaped ih ih' (named k value) q = demanded ih ih' k value q _ refl

  lookup-set_formal_same :
      (k v : String) (fs : List Flag) (f : Flag)
      → setting.accepts k v ≡ true
      → lookup k fs ≡ some f
      → lookup k (set_formal setting k v fs) ≡ some (record f { value = v })
  unfolding set_formal lookup
  lookup-set_formal_same k v [] f a e = ground (arith, e)
  lookup-set_formal_same k v (g ∷ fs) f a e =
      ground (arith, a, e, lookup-set_formal_same k v fs f a)

  lookup-set_formal_other :
      (k j v : String) (fs : List Flag)
      → str_eq j k ≡ false
      → lookup k (set_formal setting j v fs) ≡ lookup k fs
  unfolding set_formal lookup
  lookup-set_formal_other k j v [] apart = refl
  lookup-set_formal_other k j v (g ∷ fs) apart = ground (
    arith,
    apart,
    lookup-set_formal_other k j v fs apart,
    str_eq_iff g.name j,
    str_eq_iff g.name k,
    str_eq_iff j k,
  )

  lookup-set_all_other :
      (k : String) (flags : Flags) (s : FlagSet)
      → All (λ g. str_eq k g.0 ≡ false) flags
      → lookup k (set_all setting flags s).formal ≡ lookup k s.formal
  unfolding set_all
  lookup-set_all_other k [] s apart = refl
  lookup-set_all_other k ((j, v) ∷ flags) s (a, apart) =
      lookup-set_all_other k flags (set setting j v s) apart
      ∙ lookup-set_formal_other k j v s.formal (str_eq_sym j k ∙ a)

  lookup-declared :
      (k : String) (fs gs : List Flag) (f : Flag)
      → declared fs ≡ declared gs
      → lookup k fs ≡ some f
      → (v : String) × (lookup k gs ≡ some (record f { value = v }))
  unfolding lookup
  lookup-declared k [] gs f q e = ground (arith, e)
  lookup-declared k (x ∷ fs) [] f q e = ground (arith, q)
  lookup-declared k (x ∷ fs) (y ∷ gs) f q e = elim (Bool-cases (str_eq x.name k)) [
    | inl same ↦ (y.value, ground (arith, q, e, same))
    | inr other ↦
        let (v, r) = lookup-declared k fs gs f (ground (arith, q)) (ground (arith, e, other)) in
        (v, ground (arith, q, r, other))
  ]

  lookup-set_all :
      (k v : String) (flags : Flags) (s : FlagSet) (f : Flag)
      → AreKeys flags
      → value_of k flags ≡ some v
      → setting.accepts k v ≡ true
      → lookup k s.formal ≡ some f
      → lookup k (set_all setting flags s).formal ≡ some (record f { value = v })
  unfolding set_all
  lookup-set_all k v [] s f keys there ok e = ground (arith, there)
  lookup-set_all k v ((j, x) ∷ flags) s f (apart, keys) there ok e =
      elim (Bool-cases (str_eq j k)) [
        | inl same ↦
            let p : j ≡ k = (str_eq_iff j k).0 same in
            let q : x ≡ v = ground (arith, there, same) in
            lookup-set_all_other k flags (set setting j x s) (rw p at apart)
            ∙ ap (lookup k) (rw (p, q) refl)
            ∙ lookup-set_formal_same k v s.formal f ok e
        | inr other ↦
            lookup-set_all k v flags (set setting j x s) f keys (ground (arith, there, other)) ok
              (lookup-set_formal_other k j x s.formal other ∙ e)
      ]

-- A flag that the command registers and that the map gives a value which the flag accepts: when the command is
-- processed and run it has the map's value, whatever the arguments set it to, and is otherwise as it was registered.
pub flags_of-value_of :
    (c : Command) (flags : Flags) (args : Option (List String)) (k v : String) (f : Flag)
    → AreKeys flags
    → lookup k c.registered ≡ some f
    → value_of k flags ≡ some v
    → c.setting.accepts k v ≡ true
    → lookup k (flags_of c flags args).formal ≡ some (record f { value = v })
unfolding flags_of set set_formal
flags_of-value_of c flags args k v f keys known given ok = go args
  where
    fixed : FlagSet
    fixed =
        set c.setting "persist-session" "false"
          (set c.setting "json" "true" (record { formal = c.registered; args = [] }))

    declared-fixed : declared c.registered ≡ declared fixed.formal
    declared-fixed = sym (
        declared-set_formal c.setting "persist-session" "false"
          (set_formal c.setting "json" "true" c.registered)
        ∙ declared-set_formal c.setting "json" "true" c.registered)

    from :
        (s : FlagSet)
        → declared c.registered ≡ declared s.formal
        → lookup k (set_all c.setting flags s).formal ≡ some (record f { value = v })
    from s same =
        let (x, e) = lookup-declared c.setting k c.registered s.formal f same known in
        lookup-set_all c.setting k v flags s (record f { value = x }) keys given ok e

    go :
        (l : Option (List String))
        → lookup k (flags_of c flags l).formal ≡ some (record f { value = v })
    go none = from fixed declared-fixed
    go (some l) =
        from (parse c.setting l fixed) (declared-fixed ∙ sym (declared-parse c.setting l fixed))
