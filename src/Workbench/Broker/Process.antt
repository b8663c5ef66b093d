-- ===== src/Workbench/Broker/Process.antt =====
-- One process of the broker, from its opening on: its own calls, and what other processes write to
-- the database in between.
use sentinel_security_platfo.Base.{
  ℕ, String, Bool, none, some, ◌≡◌, refl, inl, inr, arith, ◌==◌, if◌then◌else◌, Bool-cases, ok, err,
}
use sentinel_security_platfo.Base.Json.{Json}
use sentinel_security_platfo.Base.Table.{find}
use sentinel_security_platfo.Base.Dict.{lookup}
use sentinel_security_platfo.Workbench.Broker.{
  Broker, BrokerCall, Database, Library, command_key, and_then,
}
use sentinel_security_platfo.Workbench.Broker.Config.{BrokerConfig}
use sentinel_security_platfo.Workbench.Broker.Protocol.{BrokerCommand, no_command_id}
use sentinel_security_platfo.Workbench.Broker.Sessions.{
  BootstrapRequest, authorize_session, bootstrap, consume_startup, forget_session, open_session,
}
use sentinel_security_platfo.Workbench.Broker.Queue.{
  BrokerStatus, Credentials, accept_command, authorize, enqueue, idempotency_of, owned_status,
  remember_command, status_for_session, submit_command,
}
use sentinel_security_platfo.Workbench.Broker.Worker.{command_for_worker, details_of, open_broker}
use sentinel_security_platfo.Workbench.Broker.Steps.{
  RowsWrite, keep, enqueue-IsWriting, owned_status-IsQuiet, authorize_session-IsQuiet,
  bootstrap-IsWriting, command_for_worker-IsWriting, open_broker-Write,
}
use sentinel_security_platfo.Workbench.Broker.History.{
  BrokerHistory, BrokerHistory-IsUnique, Finds, IsUnique, Write-IsUnique, BrokerHistory_induction,
}
use sentinel_security_platfo.Workbench.Broker.Ownership.{
  IsTruthful, IsOwner, Write-IsOwner, enqueue-IsTruthful, forgetful-IsTruthful,
  owned_status-IsTruthful,
}
use sentinel_security_platfo.Workbench.Broker.Shown.{
  IsProven, authorize-IsProven, owned_status-IsOwner,
}

-- A fresh command id is no row's. The worker's calls change only the database, as `others` do.
pub data Process (l : Library) (c : BrokerConfig) (b : Broker) : Broker → Type 0 where
  opened : (recover : Bool) → Process l c b (open_broker recover b)
  bootstraps :
      {p : Broker} (r : BootstrapRequest) (now : ℕ) (id csrf : String)
      → Process l c b p
      → Process l c b (bootstrap l c r now id csrf p).0
  submits :
      {p : Broker} (now : ℕ) (id : String) (q : Credentials) (envelope : Json)
      → find command_key id p.database.rows ≡ none
      → Process l c b p
      → Process l c b (submit_command l c now id q envelope p).0
  asks :
      {p : Broker} (now : ℕ) (q : Credentials) (id : String)
      → Process l c b p
      → Process l c b (status_for_session c now q id p).0
  resolves :
      {p : Broker} (id : String) → Process l c b p → Process l c b (command_for_worker id p).0
  others :
      {p : Broker} {d : Database}
      → BrokerHistory l p.database d
      → Process l c b p
      → Process l c b (record p { database = d })

-- What a process keeps of its database and its memory.
abbrev IsSound : Broker → Type 0
IsSound b = IsUnique b.database.rows × IsTruthful b

forgetful-IsSound :
    (b b0 : Broker)
    → b0.memory.command_sessions ≡ b.memory.command_sessions
    → RowsWrite b.database.rows b0.database.rows
    → IsSound b
    → IsSound b0
forgetful-IsSound b b0 same w (unique, truthful) =
    (Write-IsUnique _ _ w unique, forgetful-IsTruthful b b0 same w truthful)

open_broker-IsSound :
    (recover : Bool) (b : Broker) → IsUnique b.database.rows → IsSound (open_broker recover b)
unfolding open_broker lookup
open_broker-IsSound recover b unique = (
  Write-IsUnique _ _ (open_broker-Write recover b) unique,
  λ id owner found given. absurd (ground arith),
)

-- What holds after a call, from what holds before it and of each that follows.
and_then-ends :
    {A B : Type 0} (P Q : Broker → Type 0) (x : BrokerCall A) (k : A → Broker → BrokerCall B)
    → ((b0 : Broker) → P b0 → Q b0)
    → ((a : A) (b0 : Broker) → P b0 → Q (k a b0).0)
    → P x.0
    → Q (and_then x k).0
and_then-ends P Q (b0, ok a) k stop go h = go a b0 h
and_then-ends P Q (b0, err e) k stop go h = stop b0 h

bootstrap-owners :
    (l : Library) (c : BrokerConfig) (r : BootstrapRequest) (now : ℕ) (id csrf : String)
    (b : Broker)
    → (bootstrap l c r now id csrf b).0.memory.command_sessions ≡ b.memory.command_sessions
unfolding bootstrap consume_startup open_session
bootstrap-owners l c r now id csrf b = ground arith

command_for_worker-owners :
    (id : String) (b : Broker)
    → (command_for_worker id b).0.memory.command_sessions ≡ b.memory.command_sessions
unfolding command_for_worker details_of remember_command
command_for_worker-owners id b = ground arith

authorize-owners :
    (c : BrokerConfig) (now : ℕ) (q : Credentials) (b : Broker)
    → (authorize c now q b).0.memory.command_sessions ≡ b.memory.command_sessions
unfolding authorize_session forget_session
authorize-owners c now q b = ground arith

authorize-IsSound :
    (c : BrokerConfig) (now : ℕ) (q : Credentials) (b : Broker)
    → IsSound b
    → IsSound (authorize c now q b).0
authorize-IsSound c now q b sound =
    forgetful-IsSound b (authorize c now q b).0 (authorize-owners c now q b)
      (rw (authorize_session-IsQuiet c now q.origin q.session_id q.csrf_token b) keep) sound

-- Ready for a fresh command id.
abbrev IsReady : String → Broker → Type 0
IsReady id b = IsSound b × (find command_key id b.database.rows ≡ none)

enqueue-IsSound :
    (id key session : String) (command : BrokerCommand) (b : Broker)
    → IsReady id b
    → IsSound (enqueue id key session command b).0
enqueue-IsSound id key session command b ((unique, truthful), fresh) = (
  Write-IsUnique _ _ (enqueue-IsWriting id key session command b) unique,
  enqueue-IsTruthful id key session command b fresh unique truthful,
)

submit_command-IsSound :
    (l : Library) (c : BrokerConfig) (now : ℕ) (id : String) (q : Credentials) (envelope : Json)
    (b : Broker)
    → IsReady id b
    → IsSound (submit_command l c now id q envelope b).0
unfolding submit_command
submit_command-IsSound l c now id q envelope b (sound, fresh) =
    let ready : IsReady id (authorize c now q b).0 = (
      authorize-IsSound c now q b sound,
      rw (authorize_session-IsQuiet c now q.origin q.session_id q.csrf_token b) fresh,
    ) in
    and_then-ends (IsReady id) IsSound (authorize c now q b) _ (λ b0 h. h.0)
      (λ u b0 h.
        and_then-ends (IsReady id) IsSound (b0, accept_command c envelope)
          (λ command b1. enqueue id (idempotency_of l command) q.session_id command b1)
          (λ b1 h1. h1.0)
          (λ command b1 h1.
            enqueue-IsSound id (idempotency_of l command) q.session_id command b1 h1)
          h)
      ready

status_for_session-IsSound :
    (c : BrokerConfig) (now : ℕ) (q : Credentials) (id : String) (b : Broker)
    → IsSound b
    → IsSound (status_for_session c now q id b).0
unfolding status_for_session
status_for_session-IsSound c now q id b sound =
    and_then-ends IsSound IsSound (authorize c now q b)
      (λ _ b0. if id == "" then (b0, err no_command_id) else owned_status id q.session_id b0)
      (λ b0 h. h)
      (λ u b0 h. elim (Bool-cases (id == "")) [
        | inl blank ↦ rw blank h
        | inr given ↦ rw given (
          (rw (owned_status-IsQuiet id q.session_id b0) h.0),
          owned_status-IsTruthful id q.session_id b0 h.1,
        )
      ])
      (authorize-IsSound c now q b sound)

Process-IsSound :
    {l : Library} {c : BrokerConfig} {b p : Broker}
    → IsUnique b.database.rows
    → Process l c b p
    → IsSound p
Process-IsSound {b = b} unique (opened recover) = open_broker-IsSound recover b unique
Process-IsSound {l} {c} unique (bootstraps {p = p} r now id csrf steps) =
    forgetful-IsSound p (bootstrap l c r now id csrf p).0 (bootstrap-owners l c r now id csrf p)
      (bootstrap-IsWriting l c r now id csrf p) (Process-IsSound unique steps)
Process-IsSound {l} {c} unique (submits {p = p} now id q envelope fresh steps) =
    submit_command-IsSound l c now id q envelope p (Process-IsSound unique steps, fresh)
Process-IsSound {l} {c} unique (asks {p = p} now q id steps) =
    status_for_session-IsSound c now q id p (Process-IsSound unique steps)
Process-IsSound {l} {c} unique (resolves {p = p} id steps) =
    forgetful-IsSound p (command_for_worker id p).0 (command_for_worker-owners id p)
      (command_for_worker-IsWriting id p) (Process-IsSound unique steps)
Process-IsSound {l} {c} unique (others {p = p} {d = d} hist steps) =
    let (keyed, truthful) = Process-IsSound unique steps in
    (
      BrokerHistory-IsUnique hist keyed,
      λ id owner found given.
          BrokerHistory_induction (IsOwner id owner) (Write-IsOwner id owner) hist
            (truthful id owner found given),
    )

and_then-ok :
    {A B : Type 0} (x : BrokerCall A) (k : A → Broker → BrokerCall B) (b : B)
    → (and_then x k).1 ≡ ok b
    → (a : A) × (x.1 ≡ ok a) × ((k a x.0).1 ≡ ok b)
and_then-ok (b0, ok a) k b h = (a, refl, h)
and_then-ok (b0, err e) k b h = cc

given_status :
    (id : String) (st : BrokerStatus) (b0 : Broker) (x : BrokerCall BrokerStatus)
    → (if id == "" then (b0, err no_command_id) else x).1 ≡ ok st
    → x.1 ≡ ok st
given_status id st b0 x = elim (Bool-cases (id == "")) [
  | inl blank ↦ rw blank λ h. cc
  | inr given ↦ rw given λ h. h
]

-- The status of a command is shown only to the session that the table names as its owner: the
-- process has that session open and unexpired, and the request shows its CSRF token and comes from
-- the UI's origin. It is the status in the table, whatever the process did since it was opened,
-- with fresh command ids, and whatever other processes wrote to the database in between.
pub status_for_session-IsOwner :
    {l : Library} {c : BrokerConfig} {b p : Broker} (now : ℕ) (q : Credentials) (id : String)
    (st : BrokerStatus)
    → IsUnique b.database.rows
    → Process l c b p
    → (status_for_session c now q id p).1 ≡ ok st
    → Finds
        (λ r.
          (r.session_id ≡ some q.session_id) × (st ≡ record { command_id = id; status = r.status }))
        id
        p.database.rows
      × IsProven c now q p
unfolding status_for_session
status_for_session-IsOwner {c = c} {p = p} now q id st unique steps shown =
    let x : BrokerCall Unit = authorize c now q p in
    let (u, allowed, shown0) =
      and_then-ok x
        (λ _ b0. if id == "" then (b0, err no_command_id) else owned_status id q.session_id b0) st
        shown in
    let sound : IsSound x.0 = authorize-IsSound c now q p (Process-IsSound unique steps) in
    let shown1 : (owned_status id q.session_id x.0).1 ≡ ok st =
      given_status id st x.0 (owned_status id q.session_id x.0) shown0 in
    (
      rw (← authorize_session-IsQuiet c now q.origin q.session_id q.csrf_token p)
          (owned_status-IsOwner id q.session_id st x.0 sound.1 shown1),
      authorize-IsProven c now q p allowed,
    )
