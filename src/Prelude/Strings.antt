-- ===== src/Prelude/Strings.antt =====
-- A `str` as the list of its code points, and the `str` methods that the program calls.
use Prim.Native.Nat.{ℕ}
use Prim.Native.Char.{code}
use Prim.Native.String.{String}
use mathlib.Core.Path.{◌≡◌, refl}
use mathlib.Core.Logic.{◌↔◌}
use mathlib.Core.Bool.{Bool, true, false, not, ◌&&◌, ◌||◌}
use mathlib.Core.Option.{Option, none, some}
use mathlib.Core.List.{List, [], ◌∷◌}
use native.Mathlib.Omega.{arith}
use pyiamkit.Prelude.Tests.{leb, ◌==◌, if◌then◌else◌}
use pyiamkit.Prelude.Lists.{Eq, all}

abbrev pub Text : Type 0
Text = List ℕ

abbrev pub codes : String → Text
codes String.[] = []
codes (String.◌∷◌ c s) = code c ∷ codes s

abbrev pub text_beq : Text → Text → Bool
text_beq [] [] = true
text_beq [] (_ ∷ _) = false
text_beq (_ ∷ _) [] = false
text_beq (a ∷ s) (b ∷ t) = a == b && text_beq s t

pub text_beq_iff : (s t : Text) → (text_beq s t ≡ true) ↔ (s ≡ t)
text_beq_iff [] [] = ground arith
text_beq_iff [] (_ ∷ _) = ground arith
text_beq_iff (_ ∷ _) [] = ground arith
text_beq_iff (a ∷ s) (b ∷ t) = ground (arith, text_beq_iff s t)

instance abbrev pub text_eq : Eq Text
text_eq = record { beq = text_beq; beq_iff = text_beq_iff }

-- The code points that `str.strip` takes for white space.
unfoldable pub is_space : ℕ → Bool
is_space c =
    (leb 0x09 c && leb c 0x0d)
    || (leb 0x1c c && leb c 0x20)
    || c == 0x85
    || c == 0xa0
    || c == 0x1680
    || (leb 0x2000 c && leb c 0x200a)
    || c == 0x2028
    || c == 0x2029
    || c == 0x202f
    || c == 0x205f
    || c == 0x3000

pub lstrip : Text → Text
lstrip [] = []
lstrip (c ∷ s) = if is_space c then lstrip s else c ∷ s

-- A white-space character goes if nothing is left of what follows it.
abbrev keep_unless_blank : ℕ → Text → Text
keep_unless_blank c [] = if is_space c then [] else c ∷ []
keep_unless_blank c (d ∷ s) = c ∷ d ∷ s

pub rstrip : Text → Text
rstrip [] = []
rstrip (c ∷ s) = keep_unless_blank c (rstrip s)

unfoldable pub strip : Text → Text
unfolding lstrip rstrip is_space
strip s = rstrip (lstrip s)

-- `bool(s)`.
abbrev pub nonempty : Text → Bool
nonempty [] = false
nonempty (_ ∷ _) = true

-- `s.partition(c)`: what stands before the first `c` and behind it, or `none` if there is no `c`.
abbrev before_part : ℕ → Option (Text × Text) → Option (Text × Text)
before_part d none = none
before_part d (some (head, tail)) = some (d ∷ head, tail)

pub partition : ℕ → Text → Option (Text × Text)
partition c [] = none
partition c (d ∷ s) = if d == c then some ([], s) else before_part d (partition c s)

-- `None if value is None else value.strip() or None`.
abbrev pub strip_or_none : Option Text → Option Text
strip_or_none none = none
strip_or_none (some s) = elim (strip s) [ [] ↦ none | c ∷ t ↦ some (c ∷ t) ]

lstrip_idem : (s : Text) → lstrip (lstrip s) ≡ lstrip s
unfolding lstrip
lstrip_idem [] = refl
lstrip_idem (c ∷ s) = ground (arith, lstrip_idem s)

keep-rstrip :
    (c : ℕ) (t : Text) → rstrip t ≡ t → rstrip (keep_unless_blank c t) ≡ keep_unless_blank c t
unfolding rstrip
keep-rstrip c [] h = ground arith
keep-rstrip c (d ∷ s) h = ground arith

rstrip_idem : (s : Text) → rstrip (rstrip s) ≡ rstrip s
unfolding rstrip
rstrip_idem [] = refl
rstrip_idem (c ∷ s) = keep-rstrip c (rstrip s) (rstrip_idem s)

lstrip-keep :
    (c : ℕ) (t : Text) → is_space c ≡ false → lstrip (keep_unless_blank c t) ≡ keep_unless_blank c t
unfolding lstrip
lstrip-keep c [] h = ground arith
lstrip-keep c (d ∷ t) h = ground arith

lstrip-rstrip : (s : Text) → lstrip (rstrip (lstrip s)) ≡ rstrip (lstrip s)
unfolding lstrip rstrip
lstrip-rstrip [] = refl
lstrip-rstrip (c ∷ s) = ground (arith, lstrip-rstrip s, lstrip-keep c (rstrip s))

-- Stripping a second time changes nothing.
pub strip_idem : (s : Text) → strip (strip s) ≡ strip s
unfolding strip
strip_idem s = rw (lstrip-rstrip s) (rstrip_idem (lstrip s))

pub strip_or_none_idem : (o : Option Text) → strip_or_none (strip_or_none o) ≡ strip_or_none o
strip_or_none_idem none = refl
strip_or_none_idem (some s) = ground (arith, strip_idem s)

no_space : Text → Bool
no_space [] = true
no_space (c ∷ s) = not (is_space c) && no_space s

lstrip_clean : (s : Text) → no_space s ≡ true → lstrip s ≡ s
unfolding lstrip no_space
lstrip_clean [] h = refl
lstrip_clean (c ∷ s) h = ground arith

rstrip_clean : (s : Text) → no_space s ≡ true → rstrip s ≡ s
unfolding rstrip no_space
rstrip_clean [] h = refl
rstrip_clean (c ∷ []) h = ground arith
rstrip_clean (c ∷ d ∷ s) h = ground (arith, rstrip_clean (d ∷ s))

-- What the program takes from Python's Unicode tables: `str.lower` and `str.isalnum`, with the two
-- facts about them that it relies on.
pub record Unicode : Type 0 where
  pub lower : Text → Text
  pub is_alnum : ℕ → Bool
  pub lower_idem : (s : Text) → lower (lower s) ≡ lower s
  pub alnum-space : (c : ℕ) → is_alnum c ≡ true → is_space c ≡ false

module _ (u : Unicode) where
  -- `char.isalnum() or char == "-"`.
  abbrev pub is_slug_char : ℕ → Bool
  is_slug_char c = u.is_alnum c || c == b'-'

  slug_char-space : (c : ℕ) → is_slug_char c ≡ true → is_space c ≡ false
  unfolding is_space
  slug_char-space c h = ground (arith, u.alnum-space c)

  all_slug-no_space : (s : Text) → all is_slug_char s ≡ true → no_space s ≡ true
  unfolding no_space
  all_slug-no_space [] h = refl
  all_slug-no_space (c ∷ s) h = ground (arith, slug_char-space c, all_slug-no_space s)

  -- A text of letters, digits and hyphens has nothing to strip.
  pub strip_slug : (s : Text) → all is_slug_char s ≡ true → strip s ≡ s
  unfolding strip
  strip_slug s h =
      let clean : no_space s ≡ true = all_slug-no_space s h in
      rw (lstrip_clean s clean) (rstrip_clean s clean)
