-- ===== src/Lexical/Tests.antt =====
-- segment on short texts.
use pg_agmemory.Prelude.{◌≡◌, refl, Option, none, some, List, [], ◌∷◌, ◌++◌}
use pg_agmemory.Text.{Text, codes}
use pg_agmemory.Lexical.{segment}
use pg_agmemory.Lexical.Runs.{Segmented, segment-Segmented}

-- A tokenizer that is unavailable.
abbrev unavailable : Text → Option (List Text)
unavailable t = none

-- A text with Japanese characters needs the tokenizer.
japanese_fails : segment unavailable (0x65e5 ∷ []) ≡ none
unfolding segment
japanese_fails = refl

-- One token for every run.
japanese_is_set_apart :
    segment (λ t. some (t ∷ [])) (codes "a" ++ (0x65e5 ∷ 0x672c ∷ codes "b"))
    ≡ some (codes "a " ++ (0x65e5 ∷ 0x672c ∷ codes " b"))
unfolding segment codes
japanese_is_set_apart = refl

segment-Segmented_example :
    Segmented
      (λ t. some (t ∷ []))
      (codes "a" ++ (0x65e5 ∷ 0x672c ∷ codes "b"))
      (codes "a " ++ (0x65e5 ∷ 0x672c ∷ codes " b"))
segment-Segmented_example =
    segment-Segmented (λ t. some (t ∷ [])) (codes "a" ++ (0x65e5 ∷ 0x672c ∷ codes "b"))
      (codes "a " ++ (0x65e5 ∷ 0x672c ∷ codes " b")) japanese_is_set_apart
