-- ===== src/Lexical.antt =====
-- segment of src/pg_agmemory/lexical.py: every run of Japanese characters is replaced by its
-- tokens, set apart by spaces. The tokenizer (Janome) is a parameter that may be unavailable.
pub mod Runs
mod Tests
use mathlib.Core.Option
use pg_agmemory.Prelude.{
  ℕ, Bool, true, false, ◌&&◌, ◌||◌, Option, none, some, List, [], ◌∷◌, ◌++◌, leb,
}
use pg_agmemory.Text.{Text, codes}

abbrev between : ℕ → ℕ → ℕ → Bool
between lo hi c = leb lo c && leb c hi

-- JAPANESE_RUN
unfoldable pub is_japanese : ℕ → Bool
is_japanese c =
    between 0x3005 0x3007 c
    || (between 0x3040 0x30ff c
        || (between 0x3400 0x4dbf c
            || (between 0x4e00 0x9fff c || (between 0xf900 0xfaff c || between 0x20000 0x2fa1f c))))

-- " ".join(tokens)
join_tokens : List Text → Text
join_tokens [] = []
join_tokens (t ∷ []) = t
join_tokens (t ∷ u ∷ us) = t ++ (32 ∷ join_tokens (u ∷ us))

module _ (tokenize : Text → Option (List Text)) where
  -- `replace`, put before the rest of the text
  replaced : Text → Option Text → Option Text
  unfolding join_tokens
  replaced run none = none
  replaced run (some rest) =
      Option.map (λ tokens. 32 ∷ (join_tokens tokens ++ (32 ∷ rest))) (tokenize run)

  -- The end of a run: nothing to replace if no run is open.
  close_run : Text → Option Text → Option Text
  unfolding replaced
  close_run [] rest = rest
  close_run (c ∷ run) rest = replaced (c ∷ run) rest

  -- JAPANESE_RUN.sub(replace, text), with the run that is open before `text`
  segment_from : Text → Text → Option Text
  unfolding close_run
  segment_from run [] = close_run run (some [])
  segment_from run (c ∷ t) = elim (is_japanese c) [
    | true ↦ segment_from (run ++ c ∷ []) t
    | false ↦ close_run run (Option.map (λ rest. c ∷ rest) (segment_from [] t))
  ]

  unfoldable pub segment : Text → Option Text
  unfolding segment_from is_japanese
  segment text = segment_from [] text
