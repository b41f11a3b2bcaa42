-- ===== src/Runner/FlagSet/Order.antt =====
-- govc/govc_runner.go: the loop of `CliCommand` over the map of flags. Go visits the keys of a map in
-- any order.
use mathlib.Core.Path.{subst}
use mathlib.Core.List.{Permᴰ}
use mathlib.Core.Bool.{false≢true}
use bosh_esxi_cpi_release.Prelude.{
  String, false, List, [], ◌∷◌, All, ◌≡◌, refl, sym, ap, ◌∙◌, arith, str_eq, str_eq_iff, str_eq_sym,
  Bool-cases, inl, inr,
}
use bosh_esxi_cpi_release.Go.World.{Flags}
use bosh_esxi_cpi_release.Runner.FlagSet.{Flag, Setting, FlagSet, set_formal, set, set_all}

-- The keys of a map: no two are the same.
abbrev pub AreKeys : Flags → Type 0
AreKeys [] = Unit
AreKeys (f ∷ fs) = All (λ g. str_eq f.0 g.0 ≡ false) fs × AreKeys fs

All-perm : {A : Type 0} (P : A → Type 0) {xs ys : List A} → Permᴰ xs ys → All P xs → All P ys
All-perm P Permᴰ.nil h = h
All-perm P (Permᴰ.cons e d) (p, ps) = (rw e at p, All-perm P d ps)
All-perm P (Permᴰ.swap e e') (p, (q, r)) = (rw e' at q, (rw e at p, r))
All-perm P (Permᴰ.trans d d') h = All-perm P d' (All-perm P d h)

Differs : String × String → String × String → Type 0
Differs f g = str_eq f.0 g.0 ≡ false

AreKeys-perm : {xs ys : Flags} → Permᴰ xs ys → AreKeys xs → AreKeys ys
unfolding Differs
AreKeys-perm Permᴰ.nil h = h
AreKeys-perm (Permᴰ.cons {a} {b} {l₁} {l₂} e d) (n, h) =
    let apart : All (Differs a) l₂ = All-perm (Differs a) d n in (rw e at apart, AreKeys-perm d h)
AreKeys-perm (Permᴰ.swap {a} {b} {a'} {b'} {l} e e') ((n, ns), (m, h)) =
    let here : AreKeys (b ∷ a ∷ l) = ((str_eq_sym b.0 a.0 ∙ n, m), (ns, h)) in
    subst (λ x. AreKeys (x ∷ b' ∷ l)) e' (subst (λ x. AreKeys (b ∷ x ∷ l)) e here)
AreKeys-perm (Permᴰ.trans d d') h = AreKeys-perm d' (AreKeys-perm d h)

module _ (setting : Setting) where
  set_formal_comm :
      (k v k' v' : String)
      → str_eq k k' ≡ false
      → (fs : List Flag)
      → set_formal setting k v (set_formal setting k' v' fs)
        ≡ set_formal setting k' v' (set_formal setting k v fs)
  unfolding set_formal
  set_formal_comm k v k' v' apart [] = refl
  set_formal_comm k v k' v' apart (f ∷ fs) = elim (Bool-cases (str_eq f.name k)) [
    | inl a ↦ elim (Bool-cases (str_eq f.name k')) [
      | inl b ↦ absurd (
          false≢true (
            sym apart
            ∙ (str_eq_iff k k').1 (sym ((str_eq_iff f.name k).0 a) ∙ (str_eq_iff f.name k').0 b)))
      | inr b ↦ ground (arith, a, b)
    ]
    | inr a ↦ ground (arith, a, set_formal_comm k v k' v' apart fs)
  ]

  -- If no two keys are the same, the loop over the flags leaves the same flag set in whatever order it
  -- visits them.
  pub set_all-perm :
      {xs ys : Flags}
      → Permᴰ xs ys
      → AreKeys xs
      → (s : FlagSet) → set_all setting xs s ≡ set_all setting ys s
  unfolding set_all
  set_all-perm Permᴰ.nil h s = refl
  set_all-perm (Permᴰ.cons {a} {b} {l₁} {l₂} e d) (n, h) s =
      rw (← e) (set_all-perm d h (set setting a.0 a.1 s))
  set_all-perm (Permᴰ.swap {a} {b} {a'} {b'} {l} e e') ((n, ns), h) s =
      rw (← e, ← e')
        (ap (λ fs. set_all setting l (record s { formal = fs }))
          (set_formal_comm b.0 b.1 a.0 a.1 (str_eq_sym b.0 a.0 ∙ n) s.formal))
  set_all-perm (Permᴰ.trans d d') h s = set_all-perm d h s ∙ set_all-perm d' (AreKeys-perm d h) s
