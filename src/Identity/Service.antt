-- ===== src/Identity/Service.antt =====
-- src/pyiamkit/identity/application/service.py: IdentityApplicationService, on the in-memory
-- repository. The clock's moment and the new identifier are arguments.
pub mod Entries
pub mod Narrowing
pub mod Subjects
pub mod Links
use pyiamkit.Prelude.{
  ℕ, Bool, true, Option, none, some, List, ◌++◌, Result, ok, ◌>>=◌, ◌>>◌, guard, or_raise, Text,
  Unicode, ◌==◌,
}
use pyiamkit.Shared.{DateTime, DomainEvent, MetaValue}
use pyiamkit.Identity.Values.{
  IdentityEventType, IdentityError, identity_not_found, external_identity_already_linked,
  EmailAddress, parse_email, ServiceAccount,
}
use pyiamkit.Identity.Aggregate.{
  Identity, IdentityResult, ProfileUpdate, create_user, create_service_account, pull_events,
  activate, suspend, reactivate, disable, archive, update_user_profile,
}
use pyiamkit.Identity.Aggregate
use pyiamkit.Identity.Memory.{IdentityStore, get, save, find_by_external_subject}

-- The repository, and the events that the sink was given.
pub record State : Type 0 where
  pub items : IdentityStore
  pub published : List (DomainEvent IdentityEventType)

abbrev pub ServiceResult : Type 0
ServiceResult = Result IdentityError (Identity × State)

-- `_get_required`.
unfoldable pub get_required : ℕ → State → IdentityResult
get_required n st = do found ← get n st.items; or_raise found (identity_not_found n)

unfoldable pub save_and_publish : Identity → State → ServiceResult
unfolding pull_events
save_and_publish i st = do
  items ← save i st.items
  let (events, pulled) = pull_events i
  ok (pulled, record { items = items; published = st.published ++ events })

-- The shape of the methods that get, change, save and publish an Identity.
unfoldable pub change_identity : (Identity → IdentityResult) → ℕ → State → ServiceResult
unfolding get_required save_and_publish
change_identity method n st = do i ← get_required n st; i' ← method i; save_and_publish i' st

unfoldable pub activate_identity : DateTime → ℕ → State → ServiceResult
unfolding change_identity
activate_identity now = change_identity (activate now)

unfoldable pub suspend_identity : DateTime → ℕ → State → ServiceResult
unfolding change_identity
suspend_identity now = change_identity (suspend now)

unfoldable pub reactivate_identity : DateTime → ℕ → State → ServiceResult
unfolding change_identity
reactivate_identity now = change_identity (reactivate now)

unfoldable pub disable_identity : Option Text → DateTime → ℕ → State → ServiceResult
unfolding change_identity
disable_identity reason now = change_identity (disable reason now)

unfoldable pub archive_identity : DateTime → ℕ → State → ServiceResult
unfolding change_identity
archive_identity now = change_identity (archive now)

unfoldable pub unlink_external_identity : Text → Text → DateTime → ℕ → State → ServiceResult
unfolding change_identity
unlink_external_identity provider subject now =
    change_identity (Aggregate.unlink_external_identity provider subject now)

-- `existing is None or existing.id == identity.id`.
abbrev pub none_or_same : Option Identity → ℕ → Bool
none_or_same none n = true
none_or_same (some i) n = i.id == n

unfoldable pub link_external_identity : Text → Text → DateTime → ℕ → State → ServiceResult
unfolding get_required save_and_publish
link_external_identity provider subject now n st = do
  i ← get_required n st
  existing ← find_by_external_subject provider subject st.items
  guard (none_or_same existing i.id) (external_identity_already_linked provider subject)
  i' ← Aggregate.link_external_identity provider subject now i
  save_and_publish i' st

module _ (u : Unicode) where
  abbrev pub parse_optional : Option Text → Result IdentityError (Option EmailAddress)
  parse_optional none = ok none
  parse_optional (some value) = do email ← parse_email u value; ok (some email)

  unfoldable pub create_user_identity :
      ℕ → Text → Option Text → List (Text × MetaValue) → DateTime → State → ServiceResult
  unfolding save_and_publish
  create_user_identity new_id name email metadata now st = do
    address ← parse_optional email
    i ← create_user new_id name now address metadata
    save_and_publish i st

  -- The address of `new` is the text `email`, which is still to be parsed.
  unfoldable pub update_profile : ProfileUpdate → Option Text → DateTime → ℕ → State → ServiceResult
  unfolding get_required save_and_publish
  update_profile new email now n st = do
    i ← get_required n st
    address ← parse_optional email
    i' ←
        update_user_profile
          (record new { fields = record (new.fields) { primary_email = address } }) now i
    save_and_publish i' st

unfoldable pub create_service_identity :
    ℕ → Text → ServiceAccount → List (Text × MetaValue) → DateTime → State → ServiceResult
unfolding get_required save_and_publish
create_service_identity new_id name account metadata now st = do
  owner ← get_required account.owner_identity_id st
  i ← create_service_account new_id name account now metadata
  save_and_publish i st
