-- ===== src/Identity/Values.antt =====
-- src/pyiamkit/identity/domain: value objects, events and errors, and the parts of an Identity that
-- check themselves: an e-mail address, the profiles and an external link.
use Prim.Native.String.{String}
use pyiamkit.Prelude.{
  ℕ, Bool, true, false, not, ◌&&◌, Option, ◌∷◌, ◌++◌, Result, ok, ◌>>=◌, ◌>>◌, guard, or_raise,
  Text, strip, nonempty, partition, contains, nat_eq, Unicode, length, leb,
}
use pyiamkit.Shared.{DateTime, is_utc, is_utc_or_none}

pub data IdentityStatus : Type 0 where
  pending active suspended disabled archived : IdentityStatus

abbrev pub is_active : IdentityStatus → Bool
is_active s = elim s [ IdentityStatus.active ↦ true | _ ↦ false ]

pub data IdentityType : Type 0 where
  user service_account : IdentityType

-- The value of the type in an event.
abbrev pub type_value : IdentityType → String
type_value IdentityType.user = "user"
type_value IdentityType.service_account = "service_account"

pub data IdentityEventType : Type 0 where
  identity_created identity_activated identity_suspended : IdentityEventType
  identity_reactivated identity_disabled identity_archived : IdentityEventType
  user_profile_updated service_account_created : IdentityEventType
  external_identity_linked external_identity_unlinked : IdentityEventType

-- The classes of identity_errors.py, `ValueError` and `TypeError`. The message texts are left out.
pub data IdentityError : Type 0 where
  value_error type_error : IdentityError
  identity_not_found : ℕ → IdentityError
  invalid_identity_transition : IdentityStatus → IdentityError
  invalid_display_name invalid_service_account invalid_external_identity : IdentityError
  invalid_email_address : Text → IdentityError
  external_identity_already_linked external_identity_link_not_found : Text → Text → IdentityError

-- An address that has passed `__post_init__`.
pub record EmailAddress : Type 0 where
  pub value : Text

module _ (u : Unicode) where
  -- `local` and `domain`, of an address with a separator.
  unfoldable pub check_email : Text → Text × Text → Result IdentityError EmailAddress
  check_email address (mailbox, domain) = do
    guard
        (nonempty mailbox
          && nonempty domain
          && not (contains b' ' address)
          && contains b'.' domain
          && leb (length address) 320)
        (invalid_email_address address)
    ok (record { value = mailbox ++ (b'@' ∷ u.lower domain) })

  unfoldable pub parse_email : Text → Result IdentityError EmailAddress
  unfolding check_email
  parse_email value = do
    let address = strip value
    parts ← or_raise (partition b'@' address) (invalid_email_address address)
    check_email address parts

-- user.py.
pub record User : Type 0 where
  pub primary_email : Option EmailAddress
  pub email_verified : Bool
  pub first_name : Option Text
  pub last_name : Option Text
  pub locale : Option Text
  pub timezone : Option Text

-- service_account.py.
pub record ServiceAccount : Type 0 where
  pub name : Text
  pub owner_identity_id : ℕ
  pub purpose : Text
  pub environment : Option Text
  pub expires_at : Option DateTime

-- `__post_init__` of a ServiceAccount.
unfoldable pub make_service_account : ServiceAccount → Result IdentityError ServiceAccount
make_service_account a = do
  let name = strip a.name
  let purpose = strip a.purpose
  guard (nonempty name) invalid_service_account
  guard (nonempty purpose) invalid_service_account
  guard (is_utc_or_none a.expires_at) invalid_service_account
  ok (record a { name = name; purpose = purpose })

-- `IdentityProfile`, a union of two classes.
pub data IdentityProfile : Type 0 where
  of_user : User → IdentityProfile
  of_service : ServiceAccount → IdentityProfile

-- external_identity_link.py.
pub record ExternalIdentityLink : Type 0 where
  pub provider_id : Text
  pub external_subject : Text
  pub linked_at : DateTime

-- `__post_init__` of an ExternalIdentityLink.
unfoldable pub make_link : Text → Text → DateTime → Result IdentityError ExternalIdentityLink
make_link provider subject at = do
  let provider_id = strip provider
  let external_subject = strip subject
  guard (nonempty provider_id && nonempty external_subject) invalid_external_identity
  guard (is_utc at) invalid_external_identity
  ok (record { provider_id = provider_id; external_subject = external_subject; linked_at = at })
