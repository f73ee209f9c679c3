-- ===== src/Authorization/Governance/Constraints.antt =====
-- What the constraint evaluator and the dynamic separation of duties demand of a request.
use pyiamkit.Prelude.{
  ℕ, ◌≤◌, ◌≡◌, refl, ◌≢◌, ◌↔◌, inl, inr, true, false, Option, none, some, List, [], ◌∷◌,
  text_beq_iff, All, In, Option-cases, arith,
}
use pyiamkit.Shared.{id_text}
use pyiamkit.Authentication.Values.{assurance_rank}
use pyiamkit.Authorization.Requests.{
  AttributeValue, AuthenticationEvidence, AuthorizationRequest, GovernanceViolation,
}
use pyiamkit.Authorization.Governance.Decimals.{Decimal, parse_decimal, greater}
use pyiamkit.Authorization.Governance.{
  AuthorizationConstraint, numeric_maximum, attribute_equals, minimum_assurance,
  NumericMaximumConstraint, ResourceAttributeEqualsConstraint, MinimumAssuranceConstraint,
  DistinctActorSodRule, attribute_of, check_constraint, check_duty, first_violation,
  evaluate_constraints, evaluate_duties,
}

-- The loop returns nothing exactly if no rule reports a violation, and else what some rule reports.
module _ {R : Type 0} (check : R → Option GovernanceViolation) where
  pub first_violation-none :
      (rules : List R) → (first_violation check rules ≡ none) ↔ All (λ r. check r ≡ none) rules
  unfolding first_violation
  first_violation-none [] = ((λ _. tt), λ _. refl)
  first_violation-none (r ∷ rules) = ground (arith, first_violation-none rules)

  pub first_violation-some :
      (rules : List R) {v : GovernanceViolation}
      → first_violation check rules ≡ some v
      → (r : R) × In r rules × (check r ≡ some v)
  unfolding first_violation
  first_violation-some [] h = ground arith
  first_violation-some (r ∷ rules) {v} h = elim (Option-cases (check r)) [
    | inl e ↦ let (s, i, f) = first_violation-some rules {v = v} (ground arith) in (s, inr i, f)
    | inr (w, e) ↦ (r, inl refl, ground arith)
  ]

abbrev pub rule_id : AuthorizationConstraint → ℕ
rule_id (numeric_maximum rule) = rule.id
rule_id (attribute_equals rule) = rule.id
rule_id (minimum_assurance rule) = rule.id

-- What a constraint demands, in words of its own.
abbrev pub IsSatisfied : AuthorizationRequest → AuthorizationConstraint → Type 0
IsSatisfied request (minimum_assurance rule) =
    (e : AuthenticationEvidence) × (request.authentication ≡ some e)
    × (assurance_rank rule.minimum_assurance ≤ assurance_rank e.assurance_level)
    × (rule.require_mfa ≡ true → e.mfa ≡ true)
IsSatisfied request (numeric_maximum rule) =
    (raw : AttributeValue) × (d : Decimal) × (attribute_of rule.resource_attribute request.resource
      ≡ some raw)
    × (raw.is_bool ≡ false)
    × (parse_decimal raw.text ≡ some d)
    × (greater d rule.maximum ≡ some false)
IsSatisfied request (attribute_equals rule) =
    (raw : AttributeValue) × (attribute_of rule.resource_attribute request.resource ≡ some raw)
    × (raw.text ≡ rule.expected_value)

-- The three kinds, from left to right.
assurance-IsSatisfied :
    (request : AuthorizationRequest) (rule : MinimumAssuranceConstraint)
    → check_constraint request (minimum_assurance rule) ≡ none
    → IsSatisfied request (minimum_assurance rule)
unfolding check_constraint
assurance-IsSatisfied request rule h = elim (Option-cases request.authentication) [
  | inl e ↦ ground arith
  | inr (e, p) ↦ (e, p, ground arith, ground arith)
]

numeric-IsSatisfied :
    (request : AuthorizationRequest) (rule : NumericMaximumConstraint)
    → check_constraint request (numeric_maximum rule) ≡ none
    → IsSatisfied request (numeric_maximum rule)
unfolding check_constraint
numeric-IsSatisfied request rule h =
    elim (Option-cases (attribute_of rule.resource_attribute request.resource)) [
      | inl e ↦ ground arith
      | inr (raw, p) ↦ elim (Option-cases (parse_decimal raw.text)) [
        | inl e ↦ ground arith
        | inr (d, q) ↦ (raw, d, p, ground arith, q, ground arith)
      ]
    ]

equals-IsSatisfied :
    (request : AuthorizationRequest) (rule : ResourceAttributeEqualsConstraint)
    → check_constraint request (attribute_equals rule) ≡ none
    → IsSatisfied request (attribute_equals rule)
unfolding check_constraint
equals-IsSatisfied request rule h =
    elim (Option-cases (attribute_of rule.resource_attribute request.resource)) [
      | inl e ↦ ground arith
      | inr (raw, p) ↦ (raw, p, ground (arith, text_beq_iff raw.text rule.expected_value))
    ]

pub check_constraint-none :
    (request : AuthorizationRequest) (rule : AuthorizationConstraint)
    → (check_constraint request rule ≡ none) ↔ IsSatisfied request rule
unfolding check_constraint
check_constraint-none request (minimum_assurance rule) =
    (assurance-IsSatisfied request rule, λ (e, p, q, r). ground arith)
check_constraint-none request (numeric_maximum rule) =
    (numeric-IsSatisfied request rule, λ (raw, d, p, b, q, g). ground arith)
check_constraint-none request (attribute_equals rule) = (
  equals-IsSatisfied request rule,
  λ (raw, p, q). ground (arith, text_beq_iff raw.text rule.expected_value),
)

check_constraint-id :
    (request : AuthorizationRequest) (rule : AuthorizationConstraint) {v : GovernanceViolation}
    → check_constraint request rule ≡ some v
    → v.rule_id ≡ rule_id rule
unfolding check_constraint
check_constraint-id request (minimum_assurance rule) h = ground arith
check_constraint-id request (numeric_maximum rule) h = ground arith
check_constraint-id request (attribute_equals rule) h = ground arith

All-map {κ} :
    {R : Type 0} {P Q : R → Type κ} (f : (r : R) → P r → Q r) (rules : List R)
    → All P rules
    → All Q rules
All-map f [] h = tt
All-map f (r ∷ rules) h = (f r h.0, All-map f rules h.1)

-- The constraint evaluator reports nothing exactly if the request meets every constraint that is
-- listed for it: enough assurance and, where asked, MFA; a numeric attribute that is a number and
-- does not exceed its maximum; an attribute with the expected text.
pub evaluate_constraints-none :
    (rules : List AuthorizationConstraint) (request : AuthorizationRequest)
    → (evaluate_constraints rules request ≡ none) ↔ All (IsSatisfied request) rules
unfolding evaluate_constraints
evaluate_constraints-none rules request = (
  (λ h.
      All-map (λ r. (check_constraint-none request r).0) rules
        ((first_violation-none (check_constraint request) rules).0 h)),
  λ h.
      (first_violation-none (check_constraint request) rules).1
        (All-map (λ r. (check_constraint-none request r).1) rules h),
)

-- A violation that the constraint evaluator reports names a listed constraint that the request does
-- not meet.
pub evaluate_constraints-some :
    (rules : List AuthorizationConstraint) (request : AuthorizationRequest)
    {v : GovernanceViolation}
    → evaluate_constraints rules request ≡ some v
    → (rule : AuthorizationConstraint) × In rule rules
      × (v.rule_id ≡ rule_id rule)
      × (¬ (IsSatisfied request rule))
unfolding evaluate_constraints
evaluate_constraints-some rules request {v} h =
    let (rule, i, e) = first_violation-some (check_constraint request) rules {v = v} h in
    (
      rule,
      i,
      check_constraint-id request rule e,
      λ met. let n = (check_constraint-none request rule).1 met in ground arith,
    )

-- The second evidence is at least as strong as the first.
pub record IsStronger (weak strong : AuthenticationEvidence) : Type 0 where
  pub rank : assurance_rank weak.assurance_level ≤ assurance_rank strong.assurance_level
  pub mfa : weak.mfa ≡ true → strong.mfa ≡ true

abbrev pub with_evidence : AuthenticationEvidence → AuthorizationRequest → AuthorizationRequest
with_evidence e request = record request { authentication = some e }

stronger-IsSatisfied :
    (weak strong : AuthenticationEvidence) (request : AuthorizationRequest)
    → IsStronger weak strong
    → (rule : AuthorizationConstraint) → IsSatisfied (with_evidence weak request) rule
    → IsSatisfied (with_evidence strong request) rule
stronger-IsSatisfied weak strong request s (minimum_assurance rule) (e, p, q, m) =
    let same : weak ≡ e = ground arith in
    (strong, refl, ground (arith, s.rank), λ r. s.mfa (rw same (m r)))
stronger-IsSatisfied weak strong request s (numeric_maximum rule) h = h
stronger-IsSatisfied weak strong request s (attribute_equals rule) h = h

-- Stepping up never turns a request that the constraints let pass into one that they refuse.
pub evaluate_constraints-stronger :
    (rules : List AuthorizationConstraint) (request : AuthorizationRequest)
    (weak strong : AuthenticationEvidence)
    → IsStronger weak strong
    → evaluate_constraints rules (with_evidence weak request) ≡ none
    → evaluate_constraints rules (with_evidence strong request) ≡ none
evaluate_constraints-stronger rules request weak strong s h =
    (evaluate_constraints-none rules (with_evidence strong request)).1 (
      All-map (stronger-IsSatisfied weak strong request s) rules
        ((evaluate_constraints-none rules (with_evidence weak request)).0 h))

-- What a rule of distinct actors demands: the resource names an actor, who is not the subject.
abbrev pub HasOtherActor : AuthorizationRequest → DistinctActorSodRule → Type 0
HasOtherActor request rule =
    (actor : AttributeValue) × (attribute_of rule.resource_attribute request.resource ≡ some actor)
    × (actor.identity ≢ some request.subject_id)
    × (actor.text ≢ id_text request.subject_id)

check_duty-HasOtherActor :
    (request : AuthorizationRequest) (rule : DistinctActorSodRule)
    → check_duty request rule ≡ none
    → HasOtherActor request rule
unfolding check_duty
check_duty-HasOtherActor request rule h =
    elim (Option-cases (attribute_of rule.resource_attribute request.resource)) [
      | inl e ↦ ground arith
      | inr (actor, p) ↦ (
        actor,
        p,
        (λ q. ground arith),
        λ q. ground (arith, text_beq_iff actor.text (id_text request.subject_id)),
      )
    ]

HasOtherActor-check_duty :
    (request : AuthorizationRequest) (rule : DistinctActorSodRule)
    → HasOtherActor request rule
    → check_duty request rule ≡ none
unfolding check_duty
HasOtherActor-check_duty request rule (actor, p, q, r) =
    let same = text_beq_iff actor.text (id_text request.subject_id) in
    elim (Option-cases actor.identity) [ inl e ↦ ground arith | inr (n, e) ↦ ground arith ]

-- Dynamic separation of duties reports nothing exactly if, for every rule that is listed for the
-- request, the resource has the actor's attribute and the actor is not the subject.
pub evaluate_duties-none :
    (rules : List DistinctActorSodRule) (request : AuthorizationRequest)
    → (evaluate_duties rules request ≡ none) ↔ All (HasOtherActor request) rules
unfolding evaluate_duties
evaluate_duties-none rules request = (
  (λ h.
      All-map (check_duty-HasOtherActor request) rules
        ((first_violation-none (check_duty request) rules).0 h)),
  λ h.
      (first_violation-none (check_duty request) rules).1
        (All-map (HasOtherActor-check_duty request) rules h),
)
