-- ===== src/Tests/Identity.antt =====
-- An identity through some of its calls, and a repository of two.
use pyiamkit.Prelude.{
  ℕ, ◌≡◌, refl, true, false, Option, none, some, List, [], ◌∷◌, ok, Text, In, strip, inl, inr,
}
use pyiamkit.Shared.{DateTime, run}
use pyiamkit.Identity.Values.{IdentityStatus, IdentityType, IdentityProfile, ExternalIdentityLink}
use pyiamkit.Identity.Aggregate.{Identity, IdentityArgs, init, rehydrate}
use pyiamkit.Identity.Aggregate.Lifecycle.{
  suspends, disables, Call, call, identity-rehydrates, init-IsValid,
}
use pyiamkit.Identity.Memory.{IdentityStore, linked, find_by_external_subject}
use pyiamkit.Identity.Service.Entries.{IsEntry, IsConsistent}
use pyiamkit.Identity.Service.Subjects.{find_by_external_subject-exact}
use pyiamkit.Identity.Service.Links.{ServiceCall, serve, service-IsConsistent}
use pyiamkit.Tests.Ascii.{ascii}
use pyiamkit.Tests.Data.{utc_at, noon, evening}

abbrev github_link : ExternalIdentityLink
github_link = record { provider_id = b'g' ∷ []; external_subject = b'4' ∷ []; linked_at = utc_at 2 }

abbrev person_args : IdentityArgs
person_args = record {
  id = 5;
  version = 1;
  type = IdentityType.user;
  status = IdentityStatus.active;
  display_name = b'A' ∷ [];
  profile = IdentityProfile.of_user (record {
    primary_email = none;
    email_verified = false;
    first_name = none;
    last_name = none;
    locale = none;
    timezone = none;
  });
  created_at = utc_at 1;
  updated_at = utc_at 2;
  activated_at = some (utc_at 2);
  suspended_at = none;
  disabled_at = none;
  archived_at = none;
  external_links = github_link ∷ [];
  metadata = [];
}

abbrev person : Identity
person = record { args = person_args; pending_events = [] }

abbrev calls : List (DateTime × Call)
calls =
    (noon, Call.links (b'h' ∷ []) (b'1' ∷ []))
    ∷ (noon, Call.status_call suspends)
    ∷ (evening, Call.status_call (disables none))
    ∷ []

person-init : init person_args ≡ ok person
unfolding init strip
person-init = refl

identity-rehydrates_example :
    rehydrate (run call calls person).args
    ≡ ok (record (run call calls person) { pending_events = [] })
identity-rehydrates_example = identity-rehydrates person_args person-init calls

abbrev one_person : IdentityStore
one_person = (5, person) ∷ []

person-IsEntry : IsEntry (5, person)
person-IsEntry = record {
  key = refl;
  valid = init-IsValid person_args person-init;
  no_events = refl;
}

same_key :
    (a b : ℕ × Identity) (p s : Text)
    → In a one_person
    → In b one_person
    → linked p s a.1 ≡ true
    → linked p s b.1 ≡ true
    → a.0 ≡ b.0
same_key a b p s (inl x) (inl y) h k = cc (x, y)
same_key a b p s (inl x) (inr j) h k = absurd j
same_key a b p s (inr i) j h k = absurd i

one_person-IsConsistent : IsConsistent one_person
one_person-IsConsistent = record { stored = (person-IsEntry, tt); exclusive = same_key }

find_by_external_subject-exact_example :
    (found : Option Identity) × (find_by_external_subject (b'g' ∷ []) (b'4' ∷ []) one_person
      ≡ ok found)
    × ((b : ℕ × Identity)
        → In b one_person
        → linked (strip (b'g' ∷ [])) (strip (b'4' ∷ [])) b.1 ≡ true
        → (i : Identity) × (found ≡ some i) × (i.id ≡ b.0))
    × ((i : Identity)
        → found ≡ some i
        → In (i.id, i) one_person × (linked (strip (b'g' ∷ [])) (strip (b'4' ∷ [])) i ≡ true))
find_by_external_subject-exact_example =
    find_by_external_subject-exact (b'g' ∷ []) (b'4' ∷ []) one_person one_person-IsConsistent

abbrev requests : List (DateTime × ServiceCall)
requests =
    (noon, ServiceCall.adds_link (b'h' ∷ []) (b'1' ∷ []) 5)
    ∷ (evening, ServiceCall.moves (disables none) 5)
    ∷ []

service-IsConsistent_example :
    IsConsistent (run (serve ascii) requests (record { items = one_person; published = [] })).items
service-IsConsistent_example =
    service-IsConsistent ascii requests (record { items = one_person; published = [] })
      one_person-IsConsistent
