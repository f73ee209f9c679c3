-- ===== src/Authorization/Governance/Decimals.antt =====
-- Python's `Decimal(text)` and its order `>`, as governance.py uses them. Digits are ASCII digits.
use Prim.Native.Nat.{◌^◌}
use pyiamkit.Prelude.{
  ℕ, suc, ◌+◌, ◌-◌, ◌*◌, Bool, true, false, not, ◌&&◌, ◌||◌, Option, none, some, ◌≡◌, refl, [], ◌∷◌,
  Text, strip, filter, all, text_beq, codes, ltb, leb, ◌==◌, if◌then◌else◌,
}

-- `finite negative c up down` is the number ± c * 10^up / 10^down.
pub data Decimal : Type 0 where
  finite : Bool → ℕ → ℕ → ℕ → Decimal
  infinite : Bool → Decimal
  nan : Decimal

abbrev is_digit : ℕ → Bool
is_digit c = leb b'0' c && leb c b'9'

-- The digits at the front, read after the value `acc` of `n` digits: their value, how many there
-- are, and the rest.
pub record Digits : Type 0 where
  pub value : ℕ
  pub count : ℕ
  pub rest : Text

read_digits : ℕ → ℕ → Text → Digits
read_digits acc n [] = record { value = acc; count = n; rest = [] }
read_digits acc n (c ∷ s) =
    let more = read_digits (acc * 10 + (c - b'0')) (suc n) s in
    if is_digit c then more else record { value = acc; count = n; rest = c ∷ s }

-- What stands behind the fraction of `frac` digits: nothing, or an exponent to the end.
read_power : Bool → Bool → ℕ → ℕ → Digits → Option Decimal
read_power negative down c frac d =
    if leb 1 d.count && text_beq d.rest []
    then some
        (if down then finite negative c 0 (frac + d.value) else finite negative c d.value frac)
    else none

read_sign : Text → Bool × Text
read_sign [] = (false, [])
read_sign (c ∷ s) =
    if c == b'-' then (true, s) else if c == b'+' then (false, s) else (false, c ∷ s)

read_exponent : Bool → ℕ → ℕ → Text → Option Decimal
unfolding read_power read_sign
read_exponent negative c frac [] = some (finite negative c 0 frac)
read_exponent negative c frac (e ∷ s) =
    let (down, t) = read_sign s in
    if e == b'e' then read_power negative down c frac (read_digits 0 0 t) else none

read_fraction : Bool → Digits → Option Decimal
unfolding read_digits read_exponent
read_fraction negative d = elim d.rest [
  | [] ↦ if leb 1 d.count then read_exponent negative d.value 0 [] else none
  | c ∷ s ↦
      if c == b'.'
      then (let f = read_digits d.value 0 s in
          if leb 1 (d.count + f.count) then read_exponent negative f.value f.count f.rest else none)
      else if leb 1 d.count
      then read_exponent negative d.value 0 (c ∷ s)
      else none
]

-- ASCII lower case: the parser ignores case.
abbrev lower_ascii : Text → Text
lower_ascii [] = []
lower_ascii (c ∷ s) = (if leb b'A' c && leb c b'Z' then c + 32 else c) ∷ lower_ascii s

abbrev drop_prefix : Text → Text → Option Text
drop_prefix [] s = some s
drop_prefix (_ ∷ _) [] = none
drop_prefix (p ∷ ps) (c ∷ s) = if p == c then drop_prefix ps s else none

abbrev only_digits : Option Text → Bool
only_digits none = false
only_digits (some s) = all is_digit s

-- `nan` and `snan`, which digits may follow.
is_nan : Text → Bool
is_nan s = only_digits (drop_prefix (codes "nan") s) || only_digits (drop_prefix (codes "snan") s)

-- The number behind the sign.
read_number : Bool → Text → Option Decimal
unfolding read_fraction read_digits is_nan
read_number negative s =
    if text_beq s (codes "inf") || text_beq s (codes "infinity")
    then some (infinite negative)
    else if is_nan s
    then some nan
    else read_fraction negative (read_digits 0 0 s)

-- `Decimal(text)`; `none` stands for `InvalidOperation`.
unfoldable pub parse_decimal : Text → Option Decimal
unfolding read_number read_sign
parse_decimal s =
    let (negative, t) = read_sign (lower_ascii (filter (λ c. not (c == b'_')) (strip s))) in
    read_number negative t

-- `a > b` between the numbers ± c * 10^up / 10^down.
abbrev greater_finite : Bool → ℕ → Bool → ℕ → Bool
greater_finite false a false b = ltb b a
greater_finite false a true b = ltb 0 (a + b)
greater_finite true a false b = false
greater_finite true a true b = ltb a b

-- `a > b`; `none` stands for the `InvalidOperation` that a NaN raises.
unfoldable pub greater : Decimal → Decimal → Option Bool
greater nan b = none
greater (finite _ _ _ _) nan = none
greater (infinite _) nan = none
greater (infinite m) (infinite n) = some (not m && n)
greater (infinite m) (finite _ _ _ _) = some (not m)
greater (finite _ _ _ _) (infinite n) = some n
greater (finite m a up down) (finite n b up' down') =
    some (greater_finite m (a * 10 ^ (up + down')) n (b * 10 ^ (up' + down)))

test_12_50 : parse_decimal (codes " 1_2.50 ") ≡ some (finite false 1250 0 2)
unfolding parse_decimal strip
test_12_50 = refl

test_exponents : parse_decimal (codes "-1.5E+3") ≡ some (finite true 15 3 1)
unfolding parse_decimal strip
test_exponents = refl

test_not_a_number :
    (parse_decimal (codes "12a") ≡ none)
    × (parse_decimal (codes ".") ≡ none)
    × (parse_decimal (codes "1e") ≡ none)
    × (parse_decimal (codes "NaN7") ≡ some nan)
    × (parse_decimal (codes "-Infinity") ≡ some (infinite true))
    × (parse_decimal (codes ".5") ≡ some (finite false 5 0 1))
unfolding parse_decimal strip
test_not_a_number = (refl, refl, refl, refl, refl, refl)

-- 0.30 exceeds 0.3 in no digit, and 1e3 exceeds 999.9.
test_greater :
    (greater (finite false 30 0 2) (finite false 3 0 1) ≡ some false)
    × (greater (finite false 1 3 0) (finite false 9999 0 1) ≡ some true)
    × (greater (finite false 0 0 0) (finite true 1 0 0) ≡ some true)
unfolding greater
test_greater = (refl, refl, refl)
