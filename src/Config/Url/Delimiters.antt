-- ===== src/Config/Url/Delimiters.antt =====
-- `net/url`: the characters that occur in what a mode has escaped.
use bosh_esxi_cpi_release.Prelude.{
  ℕ, ◌/◌, ◌%◌, ◌<◌, ◌≡◌, refl, ◌≢◌, inl, inr, true, false, not, [], ◌∷◌, ◌++◌, All, arith,
  Bool-cases, ap,
}
use bosh_esxi_cpi_release.Prelude.Table.{passes, passes_lem}
use bosh_esxi_cpi_release.Config.Url.{
  Bytes, Mode, user_password, host, should_escape, upper_hex, escape_byte, escape,
}
use bosh_esxi_cpi_release.Config.Url.RoundTrip.{AreBytes}

abbrev pub Lacks : ℕ → Bytes → Type 0
Lacks d = All (λ c. c ≢ d)

pub Lacks-append : (d : ℕ) (s t : Bytes) → Lacks d s → Lacks d t → Lacks d (s ++ t)
Lacks-append d [] t hs ht = ht
Lacks-append d (c ∷ s) t (n, hs) ht = (n, Lacks-append d s t hs ht)

digit_table : (m : Mode) → passes (λ d. not (should_escape m (upper_hex d))) 0 16 ≡ true
unfolding passes should_escape upper_hex
digit_table user_password = refl
digit_table host = refl

upper_hex_kept : (m : Mode) (d : ℕ) → d < 16 → should_escape m (upper_hex d) ≡ false
upper_hex_kept m d h =
    ground (arith, passes_lem (λ d. not (should_escape m (upper_hex d))) 0 16 (digit_table m) d)

differ : (m : Mode) (c d : ℕ) → should_escape m c ≡ false → should_escape m d ≡ true → c ≢ d
differ m c d kept escaped e = cc (ap (should_escape m) e)

escape_byte-Lacks :
    (m : Mode) (d c : ℕ) → should_escape m d ≡ true → b'%' ≢ d → c < 256 → Lacks d (escape_byte m c)
unfolding escape_byte
escape_byte-Lacks m d c e p h = elim (Bool-cases (should_escape m c)) [
  | inr kept ↦ rw kept (differ m c d kept e, tt)
  | inl escaped ↦ rw escaped (
    p,
    (
      differ m _ d (upper_hex_kept m (c / 16) (omega arith)) e,
      (differ m _ d (upper_hex_kept m (c % 16) (omega arith)) e, tt),
    ),
  )
]

pub escape-Lacks :
    (m : Mode) (d : ℕ) (s : Bytes)
    → should_escape m d ≡ true
    → b'%' ≢ d
    → AreBytes s
    → Lacks d (escape m s)
unfolding escape
escape-Lacks m d [] e p h = tt
escape-Lacks m d (c ∷ s) e p (b, h) =
    Lacks-append d (escape_byte m c) (escape m s) (escape_byte-Lacks m d c e p b)
      (escape-Lacks m d s e p h)
