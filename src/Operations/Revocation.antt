-- ===== src/Operations/Revocation.antt =====
-- src/pyiamkit/operations/revocation.py, and InMemoryRevocationRegistry of
-- operations/adapters/memory.py.
pub mod Keys
pub mod Recorded
pub mod Newest
use Prim.Native.String.{String}
use pyiamkit.Prelude.{
  ℕ, Bool, true, false, not, ◌&&◌, ◌||◌, Option, none, some, List, [], ◌∷◌, Result, ok, err, ◌>>=◌,
  ◌>>◌, guard, Text, strip, nonempty, text_beq, ltb, leb, ◌==◌, if◌then◌else◌,
}
use pyiamkit.Shared.{DateTime, before, up_to, before_end, require_utc, require_utc_or_none}
use pyiamkit.Authorization.Values.{AuthorizationError, value_error}

pub data RevocationTargetType : Type 0 where
  session identity membership role_binding tenant : RevocationTargetType

abbrev type_rank : RevocationTargetType → ℕ
type_rank RevocationTargetType.session = 0
type_rank RevocationTargetType.identity = 1
type_rank RevocationTargetType.membership = 2
type_rank RevocationTargetType.role_binding = 3
type_rank RevocationTargetType.tenant = 4

-- `==` of two target types.
abbrev pub type_beq : RevocationTargetType → RevocationTargetType → Bool
type_beq a b = type_rank a == type_rank b

abbrev pub target_value : RevocationTargetType → String
target_value RevocationTargetType.session = "session"
target_value RevocationTargetType.identity = "identity"
target_value RevocationTargetType.membership = "membership"
target_value RevocationTargetType.role_binding = "role_binding"
target_value RevocationTargetType.tenant = "tenant"

-- `target_type in _REACTIVABLE_TARGETS`.
abbrev pub is_reactivable : RevocationTargetType → Bool
is_reactivable t = elim t [ RevocationTargetType.session ↦ false | _ ↦ true ]

pub record RevocationMarker : Type 0 where
  pub target_type : RevocationTargetType
  pub target_id : Text
  pub revoked_at : DateTime
  pub reason_code : Text
  pub tenant_id : Option ℕ
  pub expires_at : Option DateTime
  pub source_version : Option ℕ

abbrev version_given : RevocationTargetType → Option ℕ → Bool
version_given t none = not (is_reactivable t)
version_given t (some v) = true

-- `__post_init__` of a marker.
unfoldable pub make_marker : RevocationMarker → Result AuthorizationError RevocationMarker
make_marker m = do
  let target_id = strip m.target_id
  let reason_code = strip m.reason_code
  guard (nonempty target_id) value_error
  guard (nonempty reason_code) value_error
  require_utc value_error m.revoked_at
  require_utc_or_none value_error m.expires_at
  guard (before_end m.revoked_at m.expires_at) value_error
  guard (version_given m.target_type m.source_version) value_error
  ok (record m { target_id = target_id; reason_code = reason_code })

-- The value of `is_active(at=at)` for a moment `at` in UTC.
abbrev pub active_marker_at : DateTime → RevocationMarker → Bool
active_marker_at at m = up_to m.revoked_at at && before_end at m.expires_at

unfoldable pub is_active : DateTime → RevocationMarker → Result AuthorizationError Bool
is_active at m = do require_utc value_error at; ok (active_marker_at at m)

abbrev pub applies_from : Option ℕ → ℕ → Bool
applies_from none current = true
applies_from (some v) current = leb current v

unfoldable pub applies_to : ℕ → RevocationMarker → Bool
applies_to current m = applies_from m.source_version current

-- `_is_older` and `_same_revision` compare the versions where both are given, else the moments.
abbrev pub older_than : Option ℕ → Option ℕ → Bool → Bool
older_than (some v) (some w) earlier = ltb v w
older_than (some v) none earlier = earlier
older_than none w earlier = earlier

unfoldable pub is_older : RevocationMarker → RevocationMarker → Bool
is_older m existing =
    older_than m.source_version existing.source_version (before m.revoked_at existing.revoked_at)

abbrev pub same_version : Option ℕ → Option ℕ → Bool → Bool
same_version (some v) (some w) same = v == w
same_version (some v) none same = same
same_version none w same = same

unfoldable pub same_revision : RevocationMarker → RevocationMarker → Bool
same_revision m existing =
    same_version m.source_version existing.source_version
      (m.revoked_at.instant == existing.revoked_at.instant)

abbrev pub option_beq : {A : Type 0} → (A → A → Bool) → Option A → Option A → Bool
option_beq beq none none = true
option_beq beq none (some b) = false
option_beq beq (some a) none = false
option_beq beq (some a) (some b) = beq a b

abbrev pub same_instant : DateTime → DateTime → Bool
same_instant a b = a.instant == b.instant

abbrev pub same_number : ℕ → ℕ → Bool
same_number a b = a == b

-- `existing == marker`, of two markers whose moments are in UTC.
unfoldable pub marker_beq : RevocationMarker → RevocationMarker → Bool
marker_beq a b =
    type_beq a.target_type b.target_type
    && text_beq a.target_id b.target_id
    && same_instant a.revoked_at b.revoked_at
    && text_beq a.reason_code b.reason_code
    && option_beq same_number a.tenant_id b.tenant_id
    && option_beq same_instant a.expires_at b.expires_at
    && option_beq same_number a.source_version b.source_version

-- `_markers`, by the type and the normalised identifier.
abbrev pub Markers : Type 0
Markers = List ((RevocationTargetType × Text) × RevocationMarker)

abbrev pub key_beq : RevocationTargetType × Text → RevocationTargetType × Text → Bool
key_beq (t, n) (u, k) = type_beq t u && text_beq n k

unfoldable pub find_marker : RevocationTargetType × Text → Markers → Option RevocationMarker
find_marker k [] = none
find_marker k ((j, m) ∷ ms) = if key_beq k j then some m else find_marker k ms

unfoldable pub store_marker : RevocationTargetType × Text → RevocationMarker → Markers → Markers
store_marker k m [] = (k, m) ∷ []
store_marker k m ((j, n) ∷ ms) = if key_beq k j then (k, m) ∷ ms else (j, n) ∷ store_marker k m ms

-- `_key`.
unfoldable pub make_key :
    RevocationTargetType → Text → Result AuthorizationError (RevocationTargetType × Text)
make_key t n = do
  let normalized = strip n
  guard (nonempty normalized) value_error
  ok (t, normalized)

-- `record`, by what is stored under the key.
abbrev pub kept_marker :
    RevocationTargetType × Text
    → RevocationMarker
    → Markers
    → Option RevocationMarker
    → Result AuthorizationError Markers
kept_marker k m ms none = ok (store_marker k m ms)
kept_marker k m ms (some existing) =
    if marker_beq existing m
    then ok (store_marker k m ms)
    else if is_older m existing
    then ok ms
    else if same_revision m existing
    then err value_error
    else ok (store_marker k m ms)

unfoldable pub record_marker : RevocationMarker → Markers → Result AuthorizationError Markers
unfolding make_key find_marker store_marker marker_beq is_older same_revision
record_marker m ms = do
  k ← make_key m.target_type m.target_id
  kept_marker k m ms (find_marker k ms)

unfoldable pub get :
    RevocationTargetType → Text → Markers → Result AuthorizationError (Option RevocationMarker)
unfolding make_key find_marker
get t n ms = do k ← make_key t n; ok (find_marker k ms)

abbrev active_or_none : DateTime → Option RevocationMarker → Result AuthorizationError Bool
active_or_none at none = ok false
active_or_none at (some m) = is_active at m

unfoldable pub is_revoked :
    RevocationTargetType → Text → DateTime → Markers → Result AuthorizationError Bool
unfolding get is_active
is_revoked t n at ms = do require_utc value_error at; found ← get t n ms; active_or_none at found
