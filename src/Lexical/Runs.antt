-- ===== src/Lexical/Runs.antt =====
-- What segment (src/pg_agmemory/lexical.py) does to a text.
use mathlib.Core.Option
use pg_agmemory.Prelude.{
  ℕ, ◌≤◌, ◌≡◌, refl, sym, Bool, true, false, Bool-cases, ◌||◌, ◌⊎◌, inl, inr, Option, none, some,
  List, [], ◌∷◌, ◌++◌, All, arith,
}
use mathlib.Core.Path.{subst}
use pg_agmemory.Text.{Text}
use pg_agmemory.Lexical.{
  between, is_japanese, join_tokens, replaced, close_run, segment_from, segment,
}

-- The iteration marks and the zero, Hiragana and Katakana, and the ideographs in their four ranges.
pub data IsJapanese (c : ℕ) : Type 0 where
  mark : 0x3005 ≤ c → c ≤ 0x3007 → IsJapanese c
  kana : 0x3040 ≤ c → c ≤ 0x30ff → IsJapanese c
  extension_a : 0x3400 ≤ c → c ≤ 0x4dbf → IsJapanese c
  unified : 0x4e00 ≤ c → c ≤ 0x9fff → IsJapanese c
  compatibility : 0xf900 ≤ c → c ≤ 0xfaff → IsJapanese c
  supplementary : 0x20000 ≤ c → c ≤ 0x2fa1f → IsJapanese c

-- The tokens one after the other, with a space between two.
pub data Joined : List Text → Text → Type 0 where
  no_token : Joined [] []
  one_token : (t : Text) → Joined (t ∷ []) t
  more_tokens :
      (t u : Text) (us : List Text) (rest : Text)
      → Joined (u ∷ us) rest
      → Joined (t ∷ u ∷ us) (t ++ 32 ∷ rest)

-- No character, or one that is not Japanese, comes first.
pub data Ends : Text → Type 0 where
  at_end : Ends []
  at_foreign : (c : ℕ) (t : Text) → ¬ IsJapanese c → Ends (c ∷ t)

-- A character that is not Japanese stays; a run of Japanese characters, as long as can be, becomes its
-- tokens, joined and set apart by spaces.
pub data Segmented (tokenize : Text → Option (List Text)) : Text → Text → Type 0 where
  finished : Segmented tokenize [] []
  foreign :
      (c : ℕ) (t u : Text)
      → ¬ IsJapanese c
      → Segmented tokenize t u
      → Segmented tokenize (c ∷ t) (c ∷ u)
  run :
      (c : ℕ) (r t u joined : Text) (tokens : List Text)
      → All IsJapanese (c ∷ r)
      → Ends t
      → tokenize (c ∷ r) ≡ some tokens
      → Joined tokens joined
      → Segmented tokenize t u
      → Segmented tokenize ((c ∷ r) ++ t) (32 ∷ (joined ++ 32 ∷ u))

bounds : (lo hi c : ℕ) → between lo hi c ≡ true → (lo ≤ c) × (c ≤ hi)
bounds lo hi c h = (ground arith, ground arith)

either_holds : (a b : Bool) → a || b ≡ true → (a ≡ true) ⊎ (b ≡ true)
either_holds true b h = inl refl
either_holds false b h = inr h

is_japanese-IsJapanese : (c : ℕ) → is_japanese c ≡ true → IsJapanese c
unfolding is_japanese
is_japanese-IsJapanese c h = elim (either_holds _ _ h) [
  | inl a ↦ let (l, u) = bounds _ _ c a in mark l u
  | inr h1 ↦ elim (either_holds _ _ h1) [
    | inl a ↦ let (l, u) = bounds _ _ c a in kana l u
    | inr h2 ↦ elim (either_holds _ _ h2) [
      | inl a ↦ let (l, u) = bounds _ _ c a in extension_a l u
      | inr h3 ↦ elim (either_holds _ _ h3) [
        | inl a ↦ let (l, u) = bounds _ _ c a in unified l u
        | inr h4 ↦ elim (either_holds _ _ h4) [
          | inl a ↦ let (l, u) = bounds _ _ c a in compatibility l u
          | inr a ↦ let (l, u) = bounds _ _ c a in supplementary l u
        ]
      ]
    ]
  ]
]

not-IsJapanese : (c : ℕ) → is_japanese c ≡ false → ¬ IsJapanese c
unfolding is_japanese
not-IsJapanese c h (mark a b) = ground arith
not-IsJapanese c h (kana a b) = ground arith
not-IsJapanese c h (extension_a a b) = ground arith
not-IsJapanese c h (unified a b) = ground arith
not-IsJapanese c h (compatibility a b) = ground arith
not-IsJapanese c h (supplementary a b) = ground arith

join_tokens-Joined : (tokens : List Text) → Joined tokens (join_tokens tokens)
unfolding join_tokens
join_tokens-Joined [] = no_token
join_tokens-Joined (t ∷ []) = one_token t
join_tokens-Joined (t ∷ u ∷ us) = more_tokens t u us _ (join_tokens-Joined (u ∷ us))

All-snoc : (l : Text) (c : ℕ) → All IsJapanese l → IsJapanese c → All IsJapanese (l ++ c ∷ [])
All-snoc [] c h j = (j, tt)
All-snoc (x ∷ l) c (h, hs) j = (h, All-snoc l c hs j)

snoc-append : (l : Text) (c : ℕ) (t : Text) → (l ++ c ∷ []) ++ t ≡ l ++ c ∷ t
snoc-append [] c t = refl
snoc-append (x ∷ l) c t = cc (snoc-append l c t)

module _ (tokenize : Text → Option (List Text)) where
  map-some :
      {A B : Type 0} (f : A → B) (o : Option A) (b : B)
      → Option.map f o ≡ some b
      → (a : A) × (o ≡ some a) × (b ≡ f a)
  map-some f none b h = absurd (cc h)
  map-some f (some a) b h = (a, refl, cc h)

  close_run_lem :
      (r t : Text) (o : Option Text) (out : Text)
      → All IsJapanese r
      → Ends t
      → ((u : Text) → o ≡ some u → Segmented tokenize t u)
      → close_run tokenize r o ≡ some out
      → Segmented tokenize (r ++ t) out
  unfolding close_run replaced
  close_run_lem [] t o out all ends rest h = rest out h
  close_run_lem (c ∷ r) t none out all ends rest h = absurd (cc h)
  close_run_lem (c ∷ r) t (some u) out all ends rest h =
      let (tokens, cut, made) = map-some _ (tokenize (c ∷ r)) out h in
      subst (λ v. Segmented tokenize ((c ∷ r) ++ t) v) (sym made)
        (run c r t u _ tokens all ends cut (join_tokens-Joined tokens) (rest u refl))

  segment_from_lem :
      (r t out : Text)
      → All IsJapanese r
      → segment_from tokenize r t ≡ some out
      → Segmented tokenize (r ++ t) out
  unfolding segment_from
  segment_from_lem r [] out all h =
      close_run_lem r [] (some []) out all at_end
        (λ u e. let same : [] ≡ u = cc e in subst (λ v. Segmented tokenize [] v) same finished) h
  segment_from_lem r (c ∷ t) out all h = elim (Bool-cases (is_japanese c)) [
    | inl ours ↦
        subst (λ v. Segmented tokenize v out) (snoc-append r c t)
          (segment_from_lem (r ++ c ∷ []) t out (All-snoc r c all (is_japanese-IsJapanese c ours))
            (rw (ours, segment_from) at h))
    | inr other ↦
        close_run_lem r (c ∷ t) _ out all (at_foreign c t (not-IsJapanese c other))
          (λ u e.
            let (v, below, made) = map-some _ (segment_from tokenize [] t) u e in
            subst (λ w. Segmented tokenize (c ∷ t) w) (sym made)
              (foreign c t v (not-IsJapanese c other) (segment_from_lem [] t v tt below)))
          (rw (other, segment_from) at h)
  ]

  -- A text that segment returns is the given one with each character that is not Japanese left as it
  -- is, and each run of Japanese characters, as long as can be, replaced by the tokenizer's tokens of
  -- it, with a space before, after and between them.
  pub segment-Segmented :
      (text out : Text) → segment tokenize text ≡ some out → Segmented tokenize text out
  unfolding segment
  segment-Segmented text out h = segment_from_lem [] text out tt h
