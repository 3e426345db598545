-- ===== src/Text/Uuid.antt =====
-- str(UUID): a UUID is its 128-bit number.
use pg_agmemory.Prelude.{ℕ, zero, suc, ◌/◌, ◌%◌, [], ◌∷◌, ◌++◌, ◌≡◌, refl}
use pg_agmemory.Text.Json.{Text, codes, hex_digit}

-- The `k` lowest hexadecimal digits of `n`.
hex : ℕ → ℕ → Text
unfolding hex_digit
hex zero n = []
hex (suc k) n = hex k (n / 16) ++ hex_digit (n % 16) ∷ []

unfoldable pub uuid_text : ℕ → Text
unfolding hex
uuid_text u =
    hex 8 (u / 0x1000000000000000000000000)
    ++ (45
        ∷ (hex 4 (u / 0x100000000000000000000)
            ++ (45
                ∷ (hex 4 (u / 0x10000000000000000)
                    ++ (45 ∷ (hex 4 (u / 0x1000000000000) ++ (45 ∷ hex 12 u)))))))

uuid_text_test :
    uuid_text 0x0123456789abcdef0123456789abcdef ≡ codes "01234567-89ab-cdef-0123-456789abcdef"
unfolding uuid_text codes
uuid_text_test = refl
