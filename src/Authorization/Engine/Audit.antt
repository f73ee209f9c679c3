-- ===== src/Authorization/Engine/Audit.antt =====
-- What `require` makes of a decision, and what a run of requests leaves in the audit sink.
use pyiamkit.Prelude.{
  ℕ, ◌≡◌, refl, sym, ◌∙◌, ◌↔◌, ◌⊎◌, inl, inr, Option, none, some, List, [], ◌∷◌, ◌++◌, Result, ok,
  err, map_err, ◌>>=◌, append_assoc, append-nil, if◌then◌else◌, Option-cases, subst, arith,
}
use pyiamkit.Shared.{DateTime}
use pyiamkit.Authorization.Values.{AuthorizationError}
use pyiamkit.Authorization.Requests.{AuthorizationRequest}
use pyiamkit.Authorization.Decisions.{
  AuthorizationDecision, allow, deny, audit_event, DecisionAuditEvent, allowed,
}
use pyiamkit.Authorization.Engine.Repositories.{Ports}
use pyiamkit.Authorization.Engine.Events.{Tells, audit_event-Tells}
use pyiamkit.Authorization.Engine.Calls.{
  decide, recorded, authorize, require, RequireError, authorization_denied, other_error, AuditLog,
  AuditSink,
}

-- A call of `authorize`: the new decision's identifier, the clock's moment and the request, on the
-- ports as they are then.
pub record Call : Type 0 where
  pub ports : Ports
  pub new_id : ℕ
  pub now : DateTime
  pub request : AuthorizationRequest

-- A run of calls, one after the other, on one audit log; a caller goes on after an exception.
pub authorize_all :
    AuditSink
    → List Call
    → AuditLog
    → List (Result AuthorizationError AuthorizationDecision) × AuditLog
authorize_all sink [] log = ([], log)
authorize_all sink (c ∷ cs) log =
    let (r, log') = authorize c.ports sink c.new_id c.now c.request log in
    let (rs, log'') = authorize_all sink cs log' in (r ∷ rs, log'')

abbrev pub decisions :
    List (Result AuthorizationError AuthorizationDecision) → List AuthorizationDecision
decisions [] = []
decisions (ok d ∷ rs) = d ∷ decisions rs
decisions (err _ ∷ rs) = decisions rs

-- The events tell of the decisions, one of each, in order.
abbrev pub TellsAll : List AuthorizationDecision → List DecisionAuditEvent → Type 0
TellsAll [] [] = Unit
TellsAll (d ∷ ds) (e ∷ es) = Tells d e × TellsAll ds es
TellsAll [] (_ ∷ _) = ⊥
TellsAll (_ ∷ _) [] = ⊥

-- What a run leaves in the log, by its results: with a sink the events of the decisions that it
-- returned, and without one nothing.
abbrev pub LogTells :
    AuditSink
    → AuditLog
    → List (Result AuthorizationError AuthorizationDecision) × AuditLog
    → Type 0
LogTells none log run = run.1 ≡ log
LogTells (some _) log run =
    (events : List DecisionAuditEvent) × (run.1 ≡ log ++ events) × TellsAll (decisions run.0) events

recorded-log :
    (append : DecisionAuditEvent → AuditLog → Option AuthorizationError)
    (r : Result AuthorizationError AuthorizationDecision) (log : AuditLog)
    → ((d : AuthorizationDecision) × (recorded (some append) r log
          ≡ (ok d, log ++ audit_event d ∷ [])))
      ⊎ ((e : AuthorizationError) × (recorded (some append) r log ≡ (err e, log)))
recorded-log append (ok d) log = elim (Option-cases (append (audit_event d) log)) [
  | inl e ↦ inl (d, rw e)
  | inr (f, e) ↦ inr (f, rw e)
]
recorded-log append (err e) log = inr (e, refl)

-- The rest of a run, behind the result and the log of its first call.
abbrev After :
    (DecisionAuditEvent → AuditLog → Option AuthorizationError)
    → List Call
    → AuditLog
    → Result AuthorizationError AuthorizationDecision × AuditLog
    → Type 0
After append cs log s =
    let (rs, log') = authorize_all (some append) cs s.1 in
    LogTells (some append) log (s.0 ∷ rs, log')

recorded-none :
    (r : Result AuthorizationError AuthorizationDecision) (log : AuditLog)
    → (recorded none r log).1 ≡ log
recorded-none (ok d) log = refl
recorded-none (err e) log = refl

audited :
    (append : DecisionAuditEvent → AuditLog → Option AuthorizationError) (cs : List Call)
    (log : AuditLog)
    → LogTells (some append) log (authorize_all (some append) cs log)
unfolding authorize_all authorize
audited append [] log = ([], sym (append-nil log), tt)
audited append (c ∷ cs) log =
    elim (recorded-log append (decide c.ports c.new_id c.now c.request) log) [
      | inl (d, e) ↦
          let (events, q, t) = audited append cs (log ++ audit_event d ∷ []) in
          subst (After append cs log) (sym e) (
            audit_event d ∷ events,
            q ∙ append_assoc log (audit_event d ∷ []) events,
            (audit_event-Tells d, t),
          )
      | inr (f, e) ↦ subst (After append cs log) (sym e) (audited append cs log)
    ]

unaudited : (cs : List Call) (log : AuditLog) → (authorize_all none cs log).1 ≡ log
unfolding authorize_all authorize
unaudited [] log = refl
unaudited (c ∷ cs) log =
    subst (λ l. (authorize_all none cs l).1 ≡ log)
      (sym (recorded-none (decide c.ports c.new_id c.now c.request) log)) (unaudited cs log)

-- With a sink, whatever it raises, a run of requests appends one
-- event for each decision that it returned, allowing or denying, in the order of the calls, and
-- nothing else; each event has the outcome, the reason, the subject, the tenant, the permission, the
-- resource, the moment and the correlation of its decision, and its metadata are exactly the
-- identifiers and requirements that the decision carries. Without a sink nothing is appended.
pub authorize_all-audited :
    (sink : AuditSink) (cs : List Call) (log : AuditLog)
    → LogTells sink log (authorize_all sink cs log)
authorize_all-audited none cs log = unaudited cs log
authorize_all-audited (some append) cs log = audited append cs log

-- The result of `require`, from that of `authorize`.
abbrev required :
    Result AuthorizationError AuthorizationDecision → Result RequireError AuthorizationDecision
required r = map_err other_error r >>= λ d. if allowed d then ok d else err (authorization_denied d)

required-ok :
    (r : Result AuthorizationError AuthorizationDecision) (d : AuthorizationDecision)
    → (required r ≡ ok d) ↔ ((r ≡ ok d) × (d.result ≡ allow))
required-ok (ok x) d = ground arith
required-ok (err e) d = ground arith

required-denied :
    (r : Result AuthorizationError AuthorizationDecision) (d : AuthorizationDecision)
    → (required r ≡ err (authorization_denied d)) ↔ ((r ≡ ok d) × (d.result ≡ deny))
required-denied (ok x) d = ground arith
required-denied (err e) d = ground arith

required-error :
    (r : Result AuthorizationError AuthorizationDecision) (e : AuthorizationError)
    → (required r ≡ err (other_error e)) ↔ (r ≡ err e)
required-error (ok x) d = ground arith
required-error (err e) d = ground arith

-- `require` returns exactly the decisions of `authorize` that allow, raises AuthorizationDenied with
-- exactly those that deny, passes every other exception on, and records what `authorize` records.
pub require-authorize :
    (ports : Ports) (sink : AuditSink) (new_id : ℕ) (now : DateTime)
    (request : AuthorizationRequest) (log : AuditLog) (d : AuthorizationDecision)
    → (((require ports sink new_id now request log).0 ≡ ok d)
        ↔ (((authorize ports sink new_id now request log).0 ≡ ok d) × (d.result ≡ allow)))
      × (((require ports sink new_id now request log).0 ≡ err (authorization_denied d))
          ↔ (((authorize ports sink new_id now request log).0 ≡ ok d) × (d.result ≡ deny)))
      × ((e : AuthorizationError)
          → (((require ports sink new_id now request log).0 ≡ err (other_error e))
              ↔ ((authorize ports sink new_id now request log).0 ≡ err e)))
      × ((require ports sink new_id now request log).1
          ≡ (authorize ports sink new_id now request log).1)
unfolding require authorize
require-authorize ports sink new_id now request log d =
    let r = (authorize ports sink new_id now request log).0 in
    (required-ok r d, required-denied r d, required-error r, refl)
