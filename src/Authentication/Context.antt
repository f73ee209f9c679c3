-- ===== src/Authentication/Context.antt =====
-- src/pyiamkit/authentication/domain/context.py: what a session knows of its authentication.
use pyiamkit.Prelude.{
  Bool, true, false, Option, none, some, Result, ok, ◌>>◌, guard, Text, strip_or_none,
}
use pyiamkit.Shared.{DateTime, up_to, require_utc, require_utc_or_none}
use pyiamkit.Authentication.Values.{
  AssuranceLevel, AuthenticationMethod, AuthenticationError, value_error,
}

pub record AuthenticationContext : Type 0 where
  pub method : AuthenticationMethod
  pub assurance_level : AssuranceLevel
  pub mfa : Bool
  pub authenticated_at : DateTime
  pub provider_id : Option Text
  pub device_id : Option Text
  pub network_zone : Option Text
  pub mfa_verified_at : Option DateTime
  pub mfa_factor_id : Option Text

-- `value is None or at <= value`, and `value is None or value <= at`.
abbrev pub up_to_or_none : DateTime → Option DateTime → Bool
up_to_or_none at none = true
up_to_or_none at (some t) = up_to at t

abbrev pub or_none_up_to : Option DateTime → DateTime → Bool
or_none_up_to none at = true
or_none_up_to (some t) at = up_to t at

abbrev pub is_given {ℓ} : {A : Type ℓ} → Option A → Bool
is_given none = false
is_given (some a) = true

-- The checks of a factor's identifier, which is given or not.
abbrev pub factor_ok : Option Text → Bool → Option DateTime → Bool
factor_ok none mfa verified = true
factor_ok (some _) true verified = is_given verified
factor_ok (some _) false verified = false

-- `__post_init__`.
unfoldable pub make_context :
    AuthenticationContext → Result AuthenticationError AuthenticationContext
make_context c = do
  require_utc value_error c.authenticated_at
  require_utc_or_none value_error c.mfa_verified_at
  guard (up_to_or_none c.authenticated_at c.mfa_verified_at) value_error
  let factor = strip_or_none c.mfa_factor_id
  guard (factor_ok factor c.mfa c.mfa_verified_at) value_error
  ok (record c {
    provider_id = strip_or_none c.provider_id;
    device_id = strip_or_none c.device_id;
    network_zone = strip_or_none c.network_zone;
    mfa_factor_id = factor;
  })
