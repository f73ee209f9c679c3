-- ===== src/Shared/Time.antt =====
-- `datetime` as the program uses it: every aggregate's `_require_utc`, and the orders between
-- moments that have passed it.
use pyiamkit.Prelude.{ℕ, Bool, true, false, Option, none, some, Result, guard, ltb, leb}

-- `tzinfo is None`; `utcoffset() == timedelta(0)`; any other offset.
pub data Zone : Type 0 where
  naive utc shifted : Zone

-- `instant` counts the microseconds on the UTC axis.
pub record DateTime : Type 0 where
  pub instant : ℕ
  pub zone : Zone

abbrev pub zone_is_utc : Zone → Bool
zone_is_utc naive = false
zone_is_utc utc = true
zone_is_utc shifted = false

-- `not (value.tzinfo is None or value.utcoffset() != timedelta(0))`.
abbrev pub is_utc : DateTime → Bool
is_utc t = zone_is_utc t.zone

abbrev pub is_utc_or_none : Option DateTime → Bool
is_utc_or_none none = true
is_utc_or_none (some t) = is_utc t

-- `a < b` and `a <= b`.
abbrev pub before : DateTime → DateTime → Bool
before a b = ltb a.instant b.instant

abbrev pub up_to : DateTime → DateTime → Bool
up_to a b = leb a.instant b.instant

-- `valid_until is None or at < valid_until`.
abbrev pub before_end : DateTime → Option DateTime → Bool
before_end t none = true
before_end t (some u) = before t u

-- `_require_utc` raises `e`, the `ValueError` of the component.
abbrev pub require_utc : {E : Type 0} → E → DateTime → Result E (Unit {0})
require_utc e t = guard (is_utc t) e

abbrev pub require_utc_or_none : {E : Type 0} → E → Option DateTime → Result E (Unit {0})
require_utc_or_none e t = guard (is_utc_or_none t) e
