-- ===== src/Text/Json.antt =====
-- json.dumps of a str and str.encode(), over code points.
use Prim.Native.Char.{code}
use mathlib.Core.List.{append_assoc}
use Prim.Native.String.{String}
use pg_agmemory.Prelude.{
  ℕ, ◌+◌, ◌-◌, ◌/◌, ◌%◌, List, [], ◌∷◌, ◌++◌, ◌≤◌, ltb, ◌==◌, if◌then◌else◌, ◌≡◌, refl, arith,
  length, length-append,
}

abbrev pub Text : Type 0
Text = List ℕ

-- The code points of a literal.
unfoldable pub codes : String → Text
codes String.[] = []
codes (String.◌∷◌ c s) = code c ∷ codes s

-- One lower-case hexadecimal digit.
unfoldable pub hex_digit : ℕ → ℕ
hex_digit d = if ltb d 10 then 48 + d else 87 + d

-- `\uXXXX`
unicode_escape : ℕ → Text
unfolding hex_digit
unicode_escape c =
    92
    ∷ 117
    ∷ hex_digit (c / 4096 % 16)
    ∷ hex_digit (c / 256 % 16)
    ∷ hex_digit (c / 16 % 16)
    ∷ hex_digit (c % 16)
    ∷ []

-- The escapes that json.dumps writes whether or not it keeps to ASCII.
short_escape : ℕ → Text → Text
short_escape c other =
    if c == 34
    then 92 ∷ 34 ∷ []
    else if c == 92
    then 92 ∷ 92 ∷ []
    else if c == 10
    then 92 ∷ 110 ∷ []
    else if c == 13
    then 92 ∷ 114 ∷ []
    else if c == 9
    then 92 ∷ 116 ∷ []
    else if c == 12
    then 92 ∷ 102 ∷ []
    else if c == 8
    then 92 ∷ 98 ∷ []
    else other

-- ensure_ascii=False
escape : ℕ → Text
unfolding short_escape unicode_escape
escape c = short_escape c (if ltb c 32 then unicode_escape c else c ∷ [])

escape_all : Text → Text
unfolding escape
escape_all [] = []
escape_all (c ∷ t) = escape c ++ escape_all t

-- json.dumps(text, ensure_ascii=False)
unfoldable pub json_string : Text → Text
unfolding escape_all
json_string t = 34 ∷ (escape_all t ++ 34 ∷ [])

-- ensure_ascii=True: a code point past 0xffff is written as a surrogate pair.
escape_ascii : ℕ → Text
unfolding short_escape unicode_escape
escape_ascii c = short_escape c (
    if ltb c 32
    then unicode_escape c
    else if ltb c 127
    then c ∷ []
    else if ltb c 65536
    then unicode_escape c
    else unicode_escape (55296 + (c - 65536) / 1024) ++ unicode_escape (56320 + (c - 65536) % 1024))

escape_ascii_all : Text → Text
unfolding escape_ascii
escape_ascii_all [] = []
escape_ascii_all (c ∷ t) = escape_ascii c ++ escape_ascii_all t

-- json.dumps(text)
unfoldable pub json_string_ascii : Text → Text
unfolding escape_ascii_all
json_string_ascii t = 34 ∷ (escape_ascii_all t ++ 34 ∷ [])

-- The UTF-8 bytes of one code point.
unfoldable pub utf8_char : ℕ → List ℕ
utf8_char c =
    if ltb c 128
    then c ∷ []
    else if ltb c 2048
    then (192 + c / 64) ∷ (128 + c % 64) ∷ []
    else if ltb c 65536
    then (224 + c / 4096) ∷ (128 + c / 64 % 64) ∷ (128 + c % 64) ∷ []
    else (240 + c / 262144) ∷ (128 + c / 4096 % 64) ∷ (128 + c / 64 % 64) ∷ (128 + c % 64) ∷ []

-- text.encode()
unfoldable pub encode : Text → List ℕ
unfolding utf8_char
encode [] = []
encode (c ∷ t) = utf8_char c ++ encode t

pub encode-append : (s t : Text) → length (encode (s ++ t)) ≡ length (encode s) + length (encode t)
unfolding encode
encode-append [] t = omega arith
encode-append (c ∷ s) t = omega (
  arith,
  encode-append s t,
  length-append (utf8_char c) (encode (s ++ t)),
  length-append (utf8_char c) (encode s),
)

json_string_test : json_string (codes "a\"b") ≡ 34 ∷ 97 ∷ 92 ∷ 34 ∷ 98 ∷ 34 ∷ []
unfolding json_string codes
json_string_test = refl

encode_test :
    encode (233 ∷ 12354 ∷ 128512 ∷ []) ≡ 195 ∷ 169 ∷ 227 ∷ 129 ∷ 130 ∷ 240 ∷ 159 ∷ 152 ∷ 128 ∷ []
unfolding encode
encode_test = refl

escape_all-append : (s t : Text) → escape_all (s ++ t) ≡ escape_all s ++ escape_all t
unfolding escape_all
escape_all-append [] t = refl
escape_all-append (c ∷ s) t = rw (escape_all-append s t, append_assoc)

-- A longer text has a serialization of at least as many bytes.
pub encode-json_string_le :
    (s t : Text) → length (encode (json_string s)) ≤ length (encode (json_string (s ++ t)))
unfolding json_string encode
encode-json_string_le s t = rw escape_all-append (
    omega (
      arith,
      encode-append (escape_all s) (34 ∷ []),
      encode-append (escape_all s ++ escape_all t) (34 ∷ []),
      encode-append (escape_all s) (escape_all t),
      length-append (utf8_char 34) (encode (escape_all s ++ 34 ∷ [])),
      length-append (utf8_char 34) (encode ((escape_all s ++ escape_all t) ++ 34 ∷ [])),
    ))
