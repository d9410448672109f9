-- ===== src/Ids/Tests.antt =====
-- The recipes of internal/ids on concrete parts.
use lawang.Prelude.{ok, ◌++◌, ◌∷◌, ◌≡◌, ◌≢◌, ◌⊎◌, refl, Text, text, take}
use lawang.Ids.{record_message, delivery_message, record_id, hex_encode}
use lawang.Ids.Injective.{delivery_message_injective, record_id_unique, digest}

abbrev digest_of : Text → Text
digest_of m = m

abbrev body : Text
body = text "{}"

abbrev message : Text
message = text "clickup" ++ (0x1F ∷ body)

delivery_message_injective_example : (text "clickup" ≡ text "clickup") × (body ≡ body)
unfolding delivery_message
delivery_message_injective_example =
    delivery_message_injective (text "clickup") (text "clickup") body body message refl refl

abbrev id_of_parts : Text
id_of_parts =
    text "rec_"
    ++ take 32 (
        hex_encode (
          text "p"
          ++ (0x1F ∷ text "e" ++ (0x1F ∷ text "v" ++ (0x1F ∷ text "s" ++ (0x1F ∷ text "t"))))))

record_id_unique_example :
    ((text "p" ≡ text "p")
      × (text "e" ≡ text "e")
      × (text "v" ≡ text "v")
      × (text "s" ≡ text "s")
      × (text "t" ≡ text "t"))
    ⊎ ((m : Text) × (n : Text) × (record_message
            (text "p")
            (text "e")
            (text "v")
            (text "s")
            (text "t")
          ≡ ok m)
        × (record_message (text "p") (text "e") (text "v") (text "s") (text "t") ≡ ok n)
        × (m ≢ n)
        × (digest digest_of m ≡ digest digest_of n))
unfolding record_id
record_id_unique_example =
    record_id_unique digest_of (text "p") (text "e") (text "v") (text "s") (text "t") (text "p")
      (text "e") (text "v") (text "s") (text "t") id_of_parts refl refl
