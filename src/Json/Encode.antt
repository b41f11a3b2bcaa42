-- ===== src/Json/Encode.antt =====
-- The JSON of structs and slices, for what the decoders read back.
use bosh_esxi_cpi_release.Prelude.{String, some, List, [], ◌∷◌, ◌≡◌, refl}
use bosh_esxi_cpi_release.Json.Syntax.{Json, object, Items, nil, item, end, field}
use bosh_esxi_cpi_release.Json.Decode.{Decoder, decode_items}

abbrev pub one_field : String → Json → Json
one_field k j = object (field k j end)

abbrev pub encode_items : {A : Type 0} → (A → Json) → List A → Items
encode_items f [] = nil
encode_items f (a ∷ xs) = item (f a) (encode_items f xs)

pub decode_items-encode_items :
    {A : Type 0} (d : Decoder A) (z : A) (f : A → Json)
    → ((a : A) → d (f a) z ≡ some a)
    → (xs : List A) → decode_items d z (encode_items f xs) ≡ some xs
unfolding decode_items
decode_items-encode_items d z f h [] = refl
decode_items-encode_items d z f h (a ∷ xs) = rw (h a, decode_items-encode_items d z f h xs)
