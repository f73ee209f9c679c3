-- ===== src/Shared/Ids.antt =====
-- src/pyiamkit/shared/ids.py: an identifier is a UUID, a number of 128 bits; `str` writes it with 32
-- hexadecimal digits in five groups.
use Prim.Native.Nat.{◌/◌, ◌%◌, ◌^◌}
use pyiamkit.Prelude.{ℕ, zero, suc, ◌+◌, [], ◌∷◌, ◌++◌, Text, ltb, if◌then◌else◌}

abbrev hex_digit : ℕ → ℕ
hex_digit d = if ltb d 10 then b'0' + d else d + 87

unfoldable pub hex_digits : ℕ → ℕ → Text
hex_digits zero n = []
hex_digits (suc k) n = hex_digits k (n / 16) ++ hex_digit (n % 16) ∷ []

unfoldable pub id_text : ℕ → Text
unfolding hex_digits
id_text n =
    hex_digits 8 (n / 2 ^ 96)
    ++ (b'-' ∷ hex_digits 4 (n / 2 ^ 80))
    ++ (b'-' ∷ hex_digits 4 (n / 2 ^ 64))
    ++ (b'-' ∷ hex_digits 4 (n / 2 ^ 48))
    ++ (b'-' ∷ hex_digits 12 n)
