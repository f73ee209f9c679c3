-- ===== src/Authorization/Engine/Sink.antt =====
-- What the audit sink does to the decision of `authorize` (src/pyiamkit/authorization/engine.py).
use pyiamkit.Prelude.{
  ◌≡◌, refl, sym, subst, ◌⊎◌, inl, inr, Option, none, some, Result, ok, err, Option-cases, arith,
}
use pyiamkit.Authorization.Values.{AuthorizationError}
use pyiamkit.Authorization.Decisions.{AuthorizationDecision, audit_event, DecisionAuditEvent}
use pyiamkit.Authorization.Engine.Calls.{recorded, AuditLog, AuditSink}

-- What is returned after the audit is the decision that was made.
pub recorded-eq-ok :
    (sink : AuditSink) (r : Result AuthorizationError AuthorizationDecision) (log : AuditLog)
    {d : AuthorizationDecision}
    → (recorded sink r log).0 ≡ ok d
    → r ≡ ok d
recorded-eq-ok none (ok x) log h = h
recorded-eq-ok (some append) (ok x) log {d} h = elim (Option-cases (append (audit_event x) log)) [
  | inl e ↦ ground arith
  | inr (f, e) ↦ ground arith
]
recorded-eq-ok sink (err e) log h = absurd (ground arith)

-- What the sink raised on the event of `d`, after the events of `log`.
abbrev pub Raises : AuditSink → AuthorizationDecision → AuditLog → AuthorizationError → Type 0
Raises sink d log e =
    (append : DecisionAuditEvent → AuditLog → Option AuthorizationError) × (sink ≡ some append)
    × (append (audit_event d) log ≡ some e)

-- The sink, if there is one, raises nothing.
abbrev pub Accepts : AuditSink → Type 0
Accepts none = Unit
Accepts (some append) = (e : DecisionAuditEvent) (log : AuditLog) → append e log ≡ none

pub recorded-accepted :
    (sink : AuditSink) (d : AuthorizationDecision) (log : AuditLog)
    → Accepts sink
    → (recorded sink (ok d) log).0 ≡ ok d
recorded-accepted none d log accepts = refl
recorded-accepted (some append) d log accepts = rw (accepts (audit_event d) log)

-- What a sink raises on an event.
abbrev answer_of : AuditSink → DecisionAuditEvent → AuditLog → Option AuthorizationError
answer_of none event log = none
answer_of (some append) event log = append event log

-- The decision is returned where the sink raises nothing, or else what it raised on its event.
pub recorded-cases :
    (sink : AuditSink) (d : AuthorizationDecision) (log : AuditLog)
    → (((recorded sink (ok d) log).0 ≡ ok d) × ((e : AuthorizationError) → ¬ (Raises sink d log e)))
      ⊎ ((e : AuthorizationError) × Raises sink d log e × ((recorded sink (ok d) log).0 ≡ err e))
recorded-cases none d log = inl (refl, λ e (append, q, r). absurd (ground arith))
recorded-cases (some append) d log = elim (Option-cases (append (audit_event d) log)) [
  | inl e ↦ inl (
    rw e,
    λ f (taken, q, r).
        let same : append (audit_event d) log ≡ some f =
          subst (λ (x : AuditSink). answer_of x (audit_event d) log ≡ some f) (sym q) r in
        absurd (ground arith),
  )
  | inr (f, e) ↦ inr (f, (append, refl, e), ground arith)
]
