-- ===== src/Authorization/Engine/Events.antt =====
-- What an audit event says of the decision that it records (src/pyiamkit/authorization/audit.py).
use Prim.Native.String.{String}
use pyiamkit.Prelude.{
  ℕ, ◌≡◌, refl, sym, subst, ◌↔◌, inl, inr, Bool, Option, none, some, List, In, In-append,
  In-append_left, In-append_right, Text, arith,
}
use pyiamkit.Shared.{MetaValue}
use pyiamkit.Authentication.Values.{AssuranceLevel}
use pyiamkit.Authorization.Requests.{ResourceDescriptor}
use pyiamkit.Authorization.Decisions.{
  AuthorizationDecision, allow, deny, audit_event, DecisionAuditEvent, entry, level_label, type_of,
  id_of, allowed_outcome, denied_outcome,
}

-- A field of the resource, where the decision has one.
abbrev of_resource : (ResourceDescriptor → Text) → Option ResourceDescriptor → Option Text
of_resource f none = none
of_resource f (some r) = some (f r)

-- An entry of an event's metadata: an identifier or a requirement that the decision carries.
pub data IsEntry (d : AuthorizationDecision) (p : String × MetaValue) : Type 0 where
  decision : p ≡ ("decision_id", MetaValue.id d.id) → IsEntry d p
  bound_role :
      (n : ℕ) → d.bound_role_id ≡ some n → p ≡ ("bound_role_id", MetaValue.id n) → IsEntry d p
  matched_binding :
      (n : ℕ)
      → d.matched_binding_id ≡ some n
      → p ≡ ("matched_binding_id", MetaValue.id n)
      → IsEntry d p
  matched_role :
      (n : ℕ) → d.matched_role_id ≡ some n → p ≡ ("matched_role_id", MetaValue.id n) → IsEntry d p
  matched_rule :
      (n : ℕ) → d.matched_rule_id ≡ some n → p ≡ ("matched_rule_id", MetaValue.id n) → IsEntry d p
  aal1 :
      d.required_assurance_level ≡ some AssuranceLevel.aal1
      → p ≡ ("required_assurance_level", MetaValue.label "aal1")
      → IsEntry d p
  aal2 :
      d.required_assurance_level ≡ some AssuranceLevel.aal2
      → p ≡ ("required_assurance_level", MetaValue.label "aal2")
      → IsEntry d p
  aal3 :
      d.required_assurance_level ≡ some AssuranceLevel.aal3
      → p ≡ ("required_assurance_level", MetaValue.label "aal3")
      → IsEntry d p
  mfa : (b : Bool) → d.required_mfa ≡ some b → p ≡ ("required_mfa", MetaValue.flag b) → IsEntry d p

-- The event `e` tells of the decision `d`.
pub record Tells (d : AuthorizationDecision) (e : DecisionAuditEvent) : Type 0 where
  pub moment : e.occurred_at ≡ d.evaluated_at
  pub actor : e.actor_id ≡ d.subject_id
  pub subject : e.subject_id ≡ d.subject_id
  pub tenant : e.tenant_id ≡ d.tenant_id
  pub action : e.action ≡ d.permission
  pub resource_type : e.resource_type ≡ of_resource (λ r. r.resource_type) d.resource
  pub resource_id : e.resource_id ≡ of_resource (λ r. r.resource_id) d.resource
  pub allows : (e.outcome ≡ allowed_outcome) ↔ (d.result ≡ allow)
  pub denies : (e.outcome ≡ denied_outcome) ↔ (d.result ≡ deny)
  pub reason : e.reason_code ≡ d.reason_code
  pub correlation : e.correlation_id ≡ d.correlation_id
  pub entries : (p : String × MetaValue) → In p e.metadata ↔ IsEntry d p

entry-In :
    {A : Type 0} (key : String) (f : A → MetaValue) (o : Option A) (p : String × MetaValue)
    → In p (entry key f o)
    → (a : A) × (o ≡ some a) × (p ≡ (key, f a))
entry-In key f none p i = absurd i
entry-In key f (some a) p (inl e) = (a, refl, e)
entry-In key f (some a) p (inr i) = absurd i

In-entry :
    {A : Type 0} (key : String) (f : A → MetaValue) (o : Option A) (p : String × MetaValue) (a : A)
    → o ≡ some a
    → p ≡ (key, f a)
    → In p (entry key f o)
In-entry key f o p a e q = subst (λ x. In p (entry key f x)) (sym e) (inl q)

assurance-IsEntry :
    (d : AuthorizationDecision) (p : String × MetaValue) (l : AssuranceLevel)
    → d.required_assurance_level ≡ some l
    → p ≡ ("required_assurance_level", MetaValue.label (level_label l))
    → IsEntry d p
assurance-IsEntry d p AssuranceLevel.aal1 e q = aal1 e q
assurance-IsEntry d p AssuranceLevel.aal2 e q = aal2 e q
assurance-IsEntry d p AssuranceLevel.aal3 e q = aal3 e q

-- The entries for the identifiers, and for the requirements of a governance rule.
abbrev ids : String → Option ℕ → List (String × MetaValue)
ids key o = entry key MetaValue.id o

abbrev level_meta : AssuranceLevel → MetaValue
level_meta l = MetaValue.label (level_label l)

abbrev levels : AuthorizationDecision → List (String × MetaValue)
levels d = entry "required_assurance_level" level_meta d.required_assurance_level

metadata-IsEntry :
    (d : AuthorizationDecision) (p : String × MetaValue)
    → In p (audit_event d).metadata
    → IsEntry d p
unfolding audit_event
metadata-IsEntry d p (inl e) = decision e
metadata-IsEntry d p (inr i) = elim (In-append p (ids "bound_role_id" d.bound_role_id) _ i) [
  | inl j ↦
      let (n, e, q) = entry-In "bound_role_id" MetaValue.id d.bound_role_id p j in bound_role n e q
  | inr i ↦ elim (In-append p (ids "matched_binding_id" d.matched_binding_id) _ i) [
    | inl j ↦
        let (n, e, q) = entry-In "matched_binding_id" MetaValue.id d.matched_binding_id p j in
        matched_binding n e q
    | inr i ↦ elim (In-append p (ids "matched_role_id" d.matched_role_id) _ i) [
      | inl j ↦
          let (n, e, q) = entry-In "matched_role_id" MetaValue.id d.matched_role_id p j in
          matched_role n e q
      | inr i ↦ elim (In-append p (ids "matched_rule_id" d.matched_rule_id) _ i) [
        | inl j ↦
            let (n, e, q) = entry-In "matched_rule_id" MetaValue.id d.matched_rule_id p j in
            matched_rule n e q
        | inr i ↦ elim (In-append p (levels d) _ i) [
          | inl j ↦
              let (l, e, q) =
                entry-In "required_assurance_level" level_meta d.required_assurance_level p j in
              assurance-IsEntry d p l e q
          | inr j ↦
              let (b, e, q) = entry-In "required_mfa" MetaValue.flag d.required_mfa p j in mfa b e q
        ]
      ]
    ]
  ]
]

level-In :
    (d : AuthorizationDecision) (p : String × MetaValue) (l : AssuranceLevel)
    → d.required_assurance_level ≡ some l
    → p ≡ ("required_assurance_level", level_meta l)
    → In p (audit_event d).metadata
unfolding audit_event
level-In d p l e q = inr (
    In-append_right p (ids "bound_role_id" d.bound_role_id) _ (
      In-append_right p (ids "matched_binding_id" d.matched_binding_id) _ (
        In-append_right p (ids "matched_role_id" d.matched_role_id) _ (
          In-append_right p (ids "matched_rule_id" d.matched_rule_id) _ (
            In-append_left p (levels d) _ (
              In-entry "required_assurance_level" level_meta d.required_assurance_level p l e
                q))))))

IsEntry-metadata :
    (d : AuthorizationDecision) (p : String × MetaValue)
    → IsEntry d p
    → In p (audit_event d).metadata
unfolding audit_event
IsEntry-metadata d p (decision q) = inl q
IsEntry-metadata d p (bound_role n e q) = inr (
    In-append_left p (ids "bound_role_id" d.bound_role_id) _
      (In-entry "bound_role_id" MetaValue.id d.bound_role_id p n e q))
IsEntry-metadata d p (matched_binding n e q) = inr (
    In-append_right p (ids "bound_role_id" d.bound_role_id) _ (
      In-append_left p (ids "matched_binding_id" d.matched_binding_id) _
        (In-entry "matched_binding_id" MetaValue.id d.matched_binding_id p n e q)))
IsEntry-metadata d p (matched_role n e q) = inr (
    In-append_right p (ids "bound_role_id" d.bound_role_id) _ (
      In-append_right p (ids "matched_binding_id" d.matched_binding_id) _ (
        In-append_left p (ids "matched_role_id" d.matched_role_id) _
          (In-entry "matched_role_id" MetaValue.id d.matched_role_id p n e q))))
IsEntry-metadata d p (matched_rule n e q) = inr (
    In-append_right p (ids "bound_role_id" d.bound_role_id) _ (
      In-append_right p (ids "matched_binding_id" d.matched_binding_id) _ (
        In-append_right p (ids "matched_role_id" d.matched_role_id) _ (
          In-append_left p (ids "matched_rule_id" d.matched_rule_id) _
            (In-entry "matched_rule_id" MetaValue.id d.matched_rule_id p n e q)))))
IsEntry-metadata d p (aal1 e q) = level-In d p AssuranceLevel.aal1 e q
IsEntry-metadata d p (aal2 e q) = level-In d p AssuranceLevel.aal2 e q
IsEntry-metadata d p (aal3 e q) = level-In d p AssuranceLevel.aal3 e q
IsEntry-metadata d p (mfa b e q) = inr (
    In-append_right p (ids "bound_role_id" d.bound_role_id) _ (
      In-append_right p (ids "matched_binding_id" d.matched_binding_id) _ (
        In-append_right p (ids "matched_role_id" d.matched_role_id) _ (
          In-append_right p (ids "matched_rule_id" d.matched_rule_id) _ (
            In-append_right p (levels d) _
              (In-entry "required_mfa" MetaValue.flag d.required_mfa p b e q))))))

type_of-eq : (o : Option ResourceDescriptor) → type_of o ≡ of_resource (λ r. r.resource_type) o
type_of-eq none = refl
type_of-eq (some r) = refl

id_of-eq : (o : Option ResourceDescriptor) → id_of o ≡ of_resource (λ r. r.resource_id) o
id_of-eq none = refl
id_of-eq (some r) = refl

outcome-result :
    (d : AuthorizationDecision)
    → (((audit_event d).outcome ≡ allowed_outcome) ↔ (d.result ≡ allow))
      × (((audit_event d).outcome ≡ denied_outcome) ↔ (d.result ≡ deny))
unfolding audit_event
outcome-result d = (ground arith, ground arith)

pub audit_event-Tells : (d : AuthorizationDecision) → Tells d (audit_event d)
unfolding audit_event
audit_event-Tells d = record {
  moment = refl;
  actor = refl;
  subject = refl;
  tenant = refl;
  action = refl;
  resource_type = type_of-eq d.resource;
  resource_id = id_of-eq d.resource;
  allows = (outcome-result d).0;
  denies = (outcome-result d).1;
  reason = refl;
  correlation = refl;
  entries = λ p. (metadata-IsEntry d p, IsEntry-metadata d p);
}
