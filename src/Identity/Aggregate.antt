-- ===== src/Identity/Aggregate.antt =====
-- src/pyiamkit/identity/domain/aggregates/identity.py: the Identity aggregate. A method returns the
-- changed aggregate or raises; every check stands before the first write.
pub mod Lifecycle
use Prim.Native.String.{String}
use pyiamkit.Prelude.{
  ℕ, suc, Bool, true, false, not, ◌&&◌, Option, none, some, List, [], ◌∷◌, ◌++◌, Result, ok, err,
  ◌>>=◌, ◌>>◌, guard, or_raise, Text, strip, strip_or_none, text_beq, length, any, leb, ◌==◌,
  if◌then◌else◌,
}
use pyiamkit.Shared.{DateTime, DomainEvent, MetaValue, require_utc, require_utc_or_none}
use pyiamkit.Identity.Values.{
  IdentityStatus, IdentityType, type_value, IdentityEventType, IdentityError, value_error,
  type_error, invalid_identity_transition, invalid_display_name, invalid_service_account,
  external_identity_already_linked, external_identity_link_not_found, identity_created,
  identity_activated, identity_suspended, identity_reactivated, identity_disabled,
  identity_archived, user_profile_updated, service_account_created, external_identity_linked,
  external_identity_unlinked, EmailAddress, User, ServiceAccount, make_service_account,
  IdentityProfile, of_user, of_service, ExternalIdentityLink, make_link,
}
pub use pyiamkit.Identity.Creation.{IdentityArgs, Identity, IdentityResult, event, changed}
unfoldable pub use pyiamkit.Identity.Creation.{
  normalize_display_name, validate_profile, init, rehydrate, create_user, create_service_account,
}

abbrev pub is_pending : IdentityStatus → Bool
is_pending s = elim s [ IdentityStatus.pending ↦ true | _ ↦ false ]

abbrev pub is_active : IdentityStatus → Bool
is_active s = elim s [ IdentityStatus.active ↦ true | _ ↦ false ]

abbrev pub is_suspended : IdentityStatus → Bool
is_suspended s = elim s [ IdentityStatus.suspended ↦ true | _ ↦ false ]

abbrev pub is_disabled : IdentityStatus → Bool
is_disabled s = elim s [ IdentityStatus.disabled ↦ true | _ ↦ false ]

-- `self.status in {ACTIVE, SUSPENDED}`.
abbrev pub is_in_use : IdentityStatus → Bool
is_in_use s = elim s [ IdentityStatus.active ↦ true | IdentityStatus.suspended ↦ true | _ ↦ false ]

-- `_require_status`, whose comparison is the test that it takes.
unfoldable pub require_status : (IdentityStatus → Bool) → Identity → Result IdentityError (Unit {0})
require_status expected i = guard (expected i.status) (invalid_identity_transition i.status)

unfoldable pub activate : DateTime → Identity → IdentityResult
unfolding require_status
activate at i = do
  require_status is_pending i
  require_utc value_error at
  ok (
      changed identity_activated at []
        (record (i.args) { status = IdentityStatus.active; activated_at = some at }) i)

unfoldable pub suspend : DateTime → Identity → IdentityResult
unfolding require_status
suspend at i = do
  require_status is_active i
  require_utc value_error at
  ok (
      changed identity_suspended at []
        (record (i.args) { status = IdentityStatus.suspended; suspended_at = some at }) i)

unfoldable pub reactivate : DateTime → Identity → IdentityResult
unfolding require_status
reactivate at i = do
  require_status is_suspended i
  require_utc value_error at
  ok (
      changed identity_reactivated at []
        (record (i.args) { status = IdentityStatus.active; suspended_at = none }) i)

-- The metadata of `disable`.
abbrev pub reason_entries : Option Text → List (String × MetaValue)
reason_entries none = []
reason_entries (some reason) = ("reason", MetaValue.text reason) ∷ []

unfoldable pub disable : Option Text → DateTime → Identity → IdentityResult
unfolding require_status
disable reason at i = do
  require_status is_in_use i
  require_utc value_error at
  ok (
      changed identity_disabled at (reason_entries reason)
        (record (i.args) { status = IdentityStatus.disabled; disabled_at = some at }) i)

unfoldable pub archive : DateTime → Identity → IdentityResult
unfolding require_status
archive at i = do
  require_status is_disabled i
  require_utc value_error at
  ok (
      changed identity_archived at []
        (record (i.args) { status = IdentityStatus.archived; archived_at = some at }) i)

-- The keyword arguments of `update_user_profile`, without `at`.
pub record ProfileUpdate : Type 0 where
  pub new_name : Text
  pub fields : User

-- `isinstance(self.profile, User)`.
abbrev pub is_user : IdentityProfile → Bool
is_user (of_user p) = true
is_user (of_service p) = false

-- The texts of a profile go through `_optional_text`.
abbrev pub normal_user : User → User
normal_user p = record p {
  first_name = strip_or_none p.first_name;
  last_name = strip_or_none p.last_name;
  locale = strip_or_none p.locale;
  timezone = strip_or_none p.timezone;
}

unfoldable pub update_user_profile : ProfileUpdate → DateTime → Identity → IdentityResult
unfolding normalize_display_name
update_user_profile new at i = do
  guard (is_user i.profile) (invalid_identity_transition i.status)
  require_utc value_error at
  name ← normalize_display_name new.new_name
  ok (
      changed user_profile_updated at []
        (record (i.args) { display_name = name; profile = of_user (normal_user new.fields) }) i)

-- The link is the one of a provider and a subject.
abbrev pub is_link : Text → Text → ExternalIdentityLink → Bool
is_link provider subject l = text_beq l.provider_id provider && text_beq l.external_subject subject

abbrev pub link_entries : ExternalIdentityLink → List (String × MetaValue)
link_entries l =
    ("provider_id", MetaValue.text l.provider_id)
    ∷ ("external_subject", MetaValue.text l.external_subject)
    ∷ []

unfoldable pub link_external_identity : Text → Text → DateTime → Identity → IdentityResult
unfolding make_link
link_external_identity provider subject at i = do
  l ← make_link provider subject at
  guard (not (any (is_link l.provider_id l.external_subject) i.external_links))
      (external_identity_already_linked l.provider_id l.external_subject)
  ok (
      changed external_identity_linked at (link_entries l)
        (record (i.args) { external_links = i.external_links ++ l ∷ [] }) i)

abbrev behind :
    ExternalIdentityLink
    → Option (ExternalIdentityLink × List ExternalIdentityLink)
    → Option (ExternalIdentityLink × List ExternalIdentityLink)
behind l none = none
behind l (some (found, rest)) = some (found, l ∷ rest)

-- The first link of the provider and the subject, and the list after `pop`.
unfoldable pub pop_link :
    Text
    → Text
    → List ExternalIdentityLink
    → Option (ExternalIdentityLink × List ExternalIdentityLink)
pop_link provider subject [] = none
pop_link provider subject (l ∷ links) =
    if is_link provider subject l
    then some (l, links)
    else behind l (pop_link provider subject links)

unfoldable pub unlink_external_identity : Text → Text → DateTime → Identity → IdentityResult
unlink_external_identity provider subject at i = do
  require_utc value_error at
  (l, links) ←
      or_raise (pop_link (strip provider) (strip subject) i.external_links)
        (external_identity_link_not_found provider subject)
  ok (
      changed external_identity_unlinked at (link_entries l)
        (record (i.args) { external_links = links }) i)

-- `pull_events`: the events, and the aggregate without them.
unfoldable pub pull_events : Identity → List (DomainEvent IdentityEventType) × Identity
pull_events i = (i.pending_events, record i { pending_events = [] })
