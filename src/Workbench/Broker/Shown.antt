-- ===== src/Workbench/Broker/Shown.antt =====
-- To whom a status is shown.
use sentinel_security_platfo.Base.{
  ℕ, ◌<◌, String, true, false, Option, none, some, ◌≡◌, refl, inl, inr, arith, ◌==◌, Option-cases,
  eq_iff, ok, err, ◌>>=◌, then-ok, require, ap, ◌∙◌, Bool, if◌then◌else◌,
}
use sentinel_security_platfo.Base.Dict.{lookup}
use sentinel_security_platfo.Base.Table.{find}
use sentinel_security_platfo.Workbench.Broker.{
  Broker, BrokerCall, SessionState, and_then, command_key,
}
use sentinel_security_platfo.Workbench.Broker.Config.{BrokerConfig, assert_origin}
use sentinel_security_platfo.Workbench.Broker.Protocol.{
  BrokerViolation, inexact_origin, not_loopback, other_origin,
}
use sentinel_security_platfo.Workbench.Broker.Sessions.{
  authorize_session, check_csrf, compare_digest, is_live, require_origin,
}
use sentinel_security_platfo.Workbench.Broker.Queue.{
  BrokerStatus, Credentials, authorize, find_command, check_owner, session_of, owned_status,
  owner_from_row, require_command_owner, status_of,
}
use sentinel_security_platfo.Workbench.Broker.Steps.{require_command_owner-IsQuiet}
use sentinel_security_platfo.Workbench.Broker.History.{Finds}
use sentinel_security_platfo.Workbench.Broker.Ownership.{IsTruthful, IsOwner}

check_owner-ok :
    (owner : Option String) (session : String)
    → check_owner owner session ≡ ok tt
    → (owner ≡ some session) × ((session == "") ≡ false)
unfolding check_owner compare_digest
check_owner-ok none session h = cc
check_owner-ok (some owner) session h =
    (ground (arith, eq_iff owner session), ground (arith, eq_iff owner session))

-- The owner that a call goes by: the remembered one, or else the row's.
unfoldable owner_of : String → Broker → Option String
unfolding find_command
owner_of id b = elim (lookup id b.memory.command_sessions) [
  | some owner ↦ some owner
  | none ↦ session_of (find_command id b)
]

require_command_owner-result :
    (id session : String) (b : Broker)
    → (require_command_owner id session b).1 ≡ check_owner (owner_of id b) session
unfolding require_command_owner owner_from_row owner_of
require_command_owner-result id session b = ground arith

then_status :
    (id : String) (b : Broker) (x : BrokerCall Unit)
    → x.0.database ≡ b.database
    → (and_then x (λ _ b0. (b0, status_of id b0))).1 ≡ (x.1 >>= λ _. status_of id b)
unfolding status_of find_command
then_status id b (b0, ok a) quiet = rw quiet refl
then_status id b (b0, err e) quiet = refl

owned_status-result :
    (id session : String) (b : Broker)
    → (owned_status id session b).1 ≡ (check_owner (owner_of id b) session >>= λ _. status_of id b)
unfolding owned_status
owned_status-result id session b = rw (← require_command_owner-result id session b) (
    then_status id b (require_command_owner id session b)
      (require_command_owner-IsQuiet id session b))

owner_of-IsOwner :
    (id session : String) (b : Broker)
    → IsTruthful b
    → owner_of id b ≡ some session
    → (session == "") ≡ false
    → IsOwner id session b.database.rows
unfolding owner_of find_command
owner_of-IsOwner id session b truthful h given =
    elim (Option-cases (lookup id b.memory.command_sessions)) [
      | inr (owner, e) ↦ truthful id session (ground (arith, e, h)) given
      | inl e ↦ elim (Option-cases (find command_key id b.database.rows)) [
        | inl f ↦ ground (arith, e, f, h)
        | inr (r, f) ↦ (r, f, ground (arith, e, f, h))
      ]
    ]

-- Who is shown the status owns the command, and is shown the row's status.
pub owned_status-IsOwner :
    (id session : String) (st : BrokerStatus) (b : Broker)
    → IsTruthful b
    → (owned_status id session b).1 ≡ ok st
    → Finds
        (λ r. (r.session_id ≡ some session) × (st ≡ record { command_id = id; status = r.status }))
        id
        b.database.rows
unfolding status_of find_command
owned_status-IsOwner id session st b truthful h =
    let (u, allowed, shown) =
      then-ok (check_owner (owner_of id b) session) (λ _. status_of id b) st
        (rw (← owned_status-result id session b) h) in
    let (owner, given) = check_owner-ok (owner_of id b) session allowed in
    let (r, found, owns) = owner_of-IsOwner id session b truthful owner given in
    (r, found, (owns, ground (arith, found, shown)))

-- The session of the request is one that the process opened, the request comes from the origin of
-- the UI with that session's CSRF token, and the session has not expired.
pub record IsProven (c : BrokerConfig) (now : ℕ) (q : Credentials) (p : Broker) : Type 0 where
  pub from_ui : q.origin ≡ some c.ui_origin
  pub session : SessionState
  pub opened : lookup q.session_id p.memory.sessions ≡ some session
  pub csrf : q.csrf_token ≡ session.csrf_token
  pub unexpired : now < session.expires_at

same_origin :
    (given expected : String) → require (given == expected) other_origin ≡ ok tt → given ≡ expected
same_origin given expected h = ground (arith, eq_iff given expected)

chosen :
    (refused loopback : Bool) (origin given : String) (e0 e1 : BrokerViolation)
    → (if refused then err e0 else if loopback then ok origin else err e1) ≡ ok given
    → origin ≡ given
chosen refused loopback origin given e0 e1 h = ground arith

origin-eq :
    (c : BrokerConfig) (origin : Option String)
    → require_origin c origin ≡ ok tt
    → origin ≡ some c.ui_origin
unfolding require_origin assert_origin
origin-eq c none h = cc
origin-eq c (some origin) h =
    let (given, asserted, same) = then-ok (assert_origin (some origin)) _ tt h in
    let here : origin ≡ given = chosen _ _ origin given inexact_origin not_loopback asserted in
    ap some (here ∙ same_origin given c.ui_origin same)

csrf-eq :
    (session : SessionState) (csrf : String)
    → check_csrf (some session) csrf ≡ ok tt
    → csrf ≡ session.csrf_token
unfolding check_csrf compare_digest
csrf-eq session csrf h = ground (arith, eq_iff session.csrf_token csrf)

session-live :
    (now : ℕ) (session : Option SessionState) (csrf : String)
    → is_live now session ≡ true
    → check_csrf session csrf ≡ ok tt
    → (st : SessionState) × (session ≡ some st) × (csrf ≡ st.csrf_token) × (now < st.expires_at)
session-live now none csrf live h = cc
session-live now (some st) csrf live h = (st, refl, csrf-eq st csrf h, ground arith)

authorized :
    (c : BrokerConfig) (now : ℕ) (q : Credentials) (p : Broker)
    → (authorize c now q p).1 ≡ ok tt
    → (require_origin c q.origin ≡ ok tt)
      × (is_live now (lookup q.session_id p.memory.sessions) ≡ true)
      × (check_csrf (lookup q.session_id p.memory.sessions) q.csrf_token ≡ ok tt)
unfolding authorize_session
authorized c now q p h = ground arith

pub authorize-IsProven :
    (c : BrokerConfig) (now : ℕ) (q : Credentials) (p : Broker)
    → (authorize c now q p).1 ≡ ok tt
    → IsProven c now q p
authorize-IsProven c now q p h =
    let (from_ui, live, checked) = authorized c now q p h in
    let (st, opened, csrf, unexpired) =
      session-live now (lookup q.session_id p.memory.sessions) q.csrf_token live checked in
    record {
      from_ui = origin-eq c q.origin from_ui;
      session = st;
      opened = opened;
      csrf = csrf;
      unexpired = unexpired;
    }
