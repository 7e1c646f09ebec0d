-- ===== src/Anki/Hashing.antt =====
-- internal/anki/hashing/hashing.go: the bytes that are hashed, and the hash over them. The hash
-- function itself, SHA-256 printed in hexadecimal, is a parameter.
pub mod Canonical
use imoogi_emacs.Prelude.{Text, text, text_leb, Option, none, some, List, [], ◌∷◌, ◌++◌, map}
use imoogi_emacs.Prelude.Sort.{sort}
use imoogi_emacs.Prelude.Dict.{Dict, lookup}

-- fields[name]: a missing key reads as the empty string
abbrev value_or_empty : Option Text → Text
value_or_empty none = []
value_or_empty (some v) = v

abbrev field_block : Dict Text → Text → Text
field_block fields name =
    text "field" ++ (0 ∷ (name ++ (0 ∷ (value_or_empty (lookup name fields) ++ (1 ∷ [])))))

abbrev tag_block : Text → Text
tag_block tag = text "tag" ++ (0 ∷ (tag ++ (1 ∷ [])))

-- the blocks one after the other
blocks : (Text → Text) → List Text → Text
blocks block [] = []
blocks block (x ∷ xs) = block x ++ blocks block xs

abbrev names : Dict Text → List Text
names = map (λ f. f.0)

-- what the builder holds when the sum is taken
unfoldable pub canonical : Text → Dict Text → Text → List Text → Text
unfolding blocks sort lookup
canonical note_type fields deck tags =
    text "note_type"
    ++ (0
        ∷ (note_type
            ++ (1
                ∷ (blocks (field_block fields) (sort text_leb (names fields))
                    ++ (text "deck"
                        ++ (0 ∷ (deck ++ (1 ∷ blocks tag_block (sort text_leb tags)))))))))

unfoldable pub hash : (Text → Text) → Text → Dict Text → Text → List Text → Text
hash sha256_hex note_type fields deck tags = sha256_hex (canonical note_type fields deck tags)
