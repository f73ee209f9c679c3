-- ===== src/Authorization/Engine/Outcomes.antt =====
-- What `authorize` and `require` return and record.
use pyiamkit.Prelude.{
  ℕ, ◌≡◌, refl, sym, ap, ◌∙◌, true, Option, List, In, none, some, Result, ok, err, arith,
}
use pyiamkit.Shared.{DateTime, is_utc, is_utc_or_none, before_end, up_to}
use pyiamkit.Tenancy.Membership.{Membership}
use pyiamkit.Tenancy.Membership
use pyiamkit.Authorization.RoleBinding.{RoleBinding}
use pyiamkit.Authorization.RoleBinding
use pyiamkit.Authorization.Requests.{AuthorizationRequest}
use pyiamkit.Authorization.Decisions.{AuthorizationDecision, allow, check_decision}
use pyiamkit.Authorization.Engine.Repositories.{Ports}
use pyiamkit.Authorization.Engine.Sink.{recorded-eq-ok}
use pyiamkit.Authorization.Engine.Soundness.{IsPermitted, evaluate-IsPermitted}
use pyiamkit.Authorization.Engine.{Stop, denied, raised, Grant, evaluate}
use pyiamkit.Authorization.Engine.Calls.{
  earlier_end, allow_decision, decide, authorize, AuditLog, AuditSink,
}

pub check_decision-eq :
    (d : AuthorizationDecision) {d' : AuthorizationDecision} → check_decision d ≡ ok d' → d' ≡ d
unfolding check_decision
check_decision-eq d h = ground arith

module _ (ports : Ports) (request : AuthorizationRequest) (now : DateTime) (new_id : ℕ) where
  decide-grant :
      {d : AuthorizationDecision}
      → decide ports new_id now request ≡ ok d
      → d.result ≡ allow
      → (g : Grant) × (evaluate ports request now ≡ ok g)
        × (d ≡ allow_decision new_id now request g)
  unfolding decide
  decide-grant {d} h a = go (evaluate ports request now) refl
    where
      go :
          (r : Result Stop Grant)
          → evaluate ports request now ≡ r
          → (g : Grant) × (evaluate ports request now ≡ ok g)
            × (d ≡ allow_decision new_id now request g)
      go (ok g) e =
          (g, e, check_decision-eq (allow_decision new_id now request g) (rw (e, decide) at h))
      go (err (denied x)) e = ground arith
      go (err (raised x)) e = ground arith

  -- A decision of `authorize` that allows comes from a grant for which every condition held at `now`
  -- (an active subject and tenant; the active Membership that the repository finds; a binding of the
  -- request's scope among the active ones that the repository lists; an active Role of the tenant with
  -- a path to the registered permission; and every governance rule that is listed), and it is the
  -- decision that reports this grant.
  pub authorize_sound :
      (sink : AuditSink) (log : AuditLog) {d : AuthorizationDecision}
      → (authorize ports sink new_id now request log).0 ≡ ok d
      → d.result ≡ allow
      → (g : Grant) × IsPermitted ports request now g × (d ≡ allow_decision new_id now request g)
  unfolding authorize
  authorize_sound sink log h a =
      let (g, e, same) =
        decide-grant (recorded-eq-ok sink (decide ports new_id now request) log h) a in
      (g, evaluate-IsPermitted ports request now e, same)

  earlier_end-before :
      (t : DateTime) (m b : Option DateTime)
      → before_end t (earlier_end m b) ≡ true
      → (before_end t m ≡ true) × (before_end t b ≡ true)
  earlier_end-before t none none h = ground arith
  earlier_end-before t none (some b) h = ground arith
  earlier_end-before t (some m) none h = ground arith
  earlier_end-before t (some m) (some b) h = ground arith

  -- At every moment from `now` on and before the `valid_until` of a decision that allows, a Membership
  -- and a binding under the identifiers that it carries are active by their own fields, and they are
  -- ones that the repositories gave at `now`: the active Membership of the subject in the tenant, and
  -- one of the subject's active bindings there.
  pub valid_until-active :
      (sink : AuditSink) (log : AuditLog) (d : AuthorizationDecision) (t : DateTime)
      → (authorize ports sink new_id now request log).0 ≡ ok d
      → d.result ≡ allow
      → up_to now t ≡ true
      → before_end t d.valid_until ≡ true
      → (m : Membership) × (b : RoleBinding) × (d.matched_membership_id ≡ some m.id)
        × (d.matched_binding_id ≡ some b.id)
        × (Membership.active_at t m.args ≡ true)
        × (RoleBinding.active_at t b.args ≡ true)
        × (ports.find_active request.subject_id request.tenant_id now ≡ ok (some m))
        × ((bs : List RoleBinding) × (ports.find_active_for_subject request.subject_id
                request.tenant_id now
              ≡ ok bs)
            × In b bs)
  unfolding allow_decision
  valid_until-active sink log d t h a from before_it =
      let (g, permitted, same) = authorize_sound sink log h a in
      let m = permitted.membership in
      let b = permitted.binding in
      let ends : before_end t (earlier_end g.membership.valid_until g.binding.valid_until) ≡ true =
        ap (λ (x : AuthorizationDecision). before_end t x.valid_until) (sym same) ∙ before_it in
      let (m_end, b_end) =
        earlier_end-before t g.membership.valid_until g.binding.valid_until ends in
      (
        g.membership,
        g.binding,
        ap (λ (x : AuthorizationDecision). x.matched_membership_id) same,
        ap (λ (x : AuthorizationDecision). x.matched_binding_id) same,
        ground (arith, m.active),
        ground (arith, b.active),
        permitted.membership_found,
        (let (bs, found, i, _) = permitted.listed in (bs, found, i)),
      )

  earlier_end-ok :
      (m b : Option DateTime)
      → is_utc_or_none m ≡ true
      → is_utc_or_none b ≡ true
      → before_end now m ≡ true
      → before_end now b ≡ true
      → (is_utc_or_none (earlier_end m b) ≡ true) × (before_end now (earlier_end m b) ≡ true)
  earlier_end-ok none none u v p q = ground arith
  earlier_end-ok none (some b) u v p q = ground arith
  earlier_end-ok (some m) none u v p q = ground arith
  earlier_end-ok (some m) (some b) u v p q = ground arith

  pub allow_decision-ok :
      (g : Grant)
      → is_utc now ≡ true
      → IsPermitted ports request now g
      → check_decision (allow_decision new_id now request g)
        ≡ ok (allow_decision new_id now request g)
  unfolding check_decision allow_decision
  allow_decision-ok g utc p =
      let m = p.membership in
      let b = p.binding in
      let (u, v) =
        earlier_end-ok g.membership.valid_until g.binding.valid_until m.valid.until_utc
          b.valid.until_utc (ground (arith, m.active)) (ground (arith, b.active)) in
      rw (utc, u, v)
