-- ===== src/Tests/Ascii.antt =====
-- A concrete choice of the functions on texts.
use pyiamkit.Prelude.{
  ℕ, ◌≡◌, refl, ◌||◌, true, false, [], ◌∷◌, Text, Unicode, is_space, leb, ◌&&◌, ◌+◌, Bool,
  if◌then◌else◌, arith,
}

-- Unicode cut down to ASCII: the case of the letters, and the letters and digits.
abbrev is_upper : ℕ → Bool
is_upper c = leb b'A' c && leb c b'Z'

unfoldable pub lower_char : ℕ → ℕ
lower_char c = if is_upper c then c + 32 else c

lower_char_idem : (c : ℕ) → lower_char (lower_char c) ≡ lower_char c
unfolding lower_char
lower_char_idem c = ground arith

unfoldable pub lower : Text → Text
unfolding lower_char
lower [] = []
lower (c ∷ s) = lower_char c ∷ lower s

pub lower_text_idem : (s : Text) → lower (lower s) ≡ lower s
unfolding lower
lower_text_idem [] = refl
lower_text_idem (c ∷ s) = ground (arith, lower_char_idem c, lower_text_idem s)

abbrev is_ascii_alnum : ℕ → Bool
is_ascii_alnum c = is_upper c || (leb b'a' c && leb c b'z') || (leb b'0' c && leb c b'9')

pub ascii_alnum-space : (c : ℕ) → is_ascii_alnum c ≡ true → is_space c ≡ false
unfolding is_space
ascii_alnum-space c h = ground arith

abbrev pub ascii : Unicode
ascii = record {
  lower = lower;
  is_alnum = is_ascii_alnum;
  lower_idem = lower_text_idem;
  alnum-space = ascii_alnum-space;
}
