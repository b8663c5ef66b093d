-- ===== src/Workbench/Broker/Steps.antt =====
-- What a method of the broker writes to the table of commands: one of five kinds of write.
use sentinel_security_platfo.Base.{
  ℕ, String, Bool, true, false, ◌&&◌, Option, List, ◌∷◌, ok, err, ◌≡◌, refl, inl, inr, any,
  count_if, nat_eq, arith, ◌==◌, if◌then◌else◌, Bool-cases, Option-cases,
}
use sentinel_security_platfo.Base.Json.{Json}
use sentinel_security_platfo.Base.Dict.{lookup}
use sentinel_security_platfo.Base.Table.{update_where}
use sentinel_security_platfo.Workbench.Broker.{
  Broker, BrokerCall, CommandRow, CommandStatus, Library, queued, running, succeeded, failed,
  and_then, is_running,
}
use sentinel_security_platfo.Workbench.Broker.Protocol.{BrokerCommand, no_command_id}
use sentinel_security_platfo.Workbench.Broker.Config.{BrokerConfig}
use sentinel_security_platfo.Workbench.Broker.Sessions.{
  BootstrapRequest, bootstrap, consume_startup, open_session, authorize_session, forget_session,
}
use sentinel_security_platfo.Workbench.Broker.Queue.{
  Credentials, conflicts, enqueue, find_key, insert_command, known_row, new_row, owned_status,
  owner_from_row, remember_command, remember_key, remember_owner, require_command_owner, set_rows,
  status_for_session, submit_command, find_command, session_or_blank, status_of,
}
use sentinel_security_platfo.Workbench.Broker.Worker.{
  authorizable, authorize_worker_claim, claim_next, claimable, command_for_worker, details_of,
  finish_worker_command, oldest_queued, open_broker, running_as, set_claimed, set_command_status,
  set_consumed,
}

-- A status that no statement of the source moves on.
abbrev pub is_settled : CommandStatus → Bool
is_settled queued = false
is_settled running = false
is_settled _ = true

pub data RowsWrite (s : List CommandRow) : List CommandRow → Type 0 where
  keep : RowsWrite s s
  book :
      (id key session : String) (command : BrokerCommand)
      → any (conflicts id key) s ≡ false
      → RowsWrite s (new_row id key session command ∷ s)
  claim : (id digest : String) → RowsWrite s (update_where (claimable id) (set_claimed digest) s)
  consume :
      (id digest : String) → RowsWrite s (update_where (authorizable id digest) set_consumed s)
  settle :
      (test : CommandRow → Bool) (to : CommandStatus)
      → ((r : CommandRow) → test r ≡ true → is_running r.status ≡ true)
      → is_settled to ≡ true
      → RowsWrite s (update_where test (set_command_status to) s)

-- A call of which only the memory's part is known to change.
abbrev IsQuiet : {A : Type 0} → Broker → BrokerCall A → Type 0
IsQuiet b x = x.0.database ≡ b.database

-- A call that writes to the table of commands what `RowsWrite` allows.
abbrev IsWriting : {A : Type 0} → Broker → BrokerCall A → Type 0
IsWriting b x = RowsWrite b.database.rows x.0.database.rows

IsQuiet-IsWriting : {A : Type 0} (b : Broker) (x : BrokerCall A) → IsQuiet b x → IsWriting b x
IsQuiet-IsWriting b x quiet = rw quiet keep

and_then-IsQuiet :
    {A B : Type 0} (b : Broker) (x : BrokerCall A) (k : A → Broker → BrokerCall B)
    → IsQuiet b x
    → ((a : A) (b0 : Broker) → IsQuiet b0 (k a b0))
    → IsQuiet b (and_then x k)
and_then-IsQuiet b (b0, ok a) k quiet rest = cc (rest a b0, quiet)
and_then-IsQuiet b (b0, err e) k quiet rest = quiet

and_then-IsWriting :
    {A B : Type 0} (b : Broker) (x : BrokerCall A) (k : A → Broker → BrokerCall B)
    → IsQuiet b x
    → ((a : A) (b0 : Broker) → IsWriting b0 (k a b0))
    → IsWriting b (and_then x k)
and_then-IsWriting b (b0, ok a) k quiet rest = rw (← quiet) (rest a b0)
and_then-IsWriting b (b0, err e) k quiet rest = rw quiet keep

pub authorize_session-IsQuiet :
    (c : BrokerConfig) (now : ℕ) (origin : Option String) (id csrf : String) (b : Broker)
    → IsQuiet b (authorize_session c now origin id csrf b)
unfolding authorize_session forget_session
authorize_session-IsQuiet c now origin id csrf b = ground arith

pub require_command_owner-IsQuiet :
    (id session : String) (b : Broker) → IsQuiet b (require_command_owner id session b)
unfolding require_command_owner owner_from_row remember_owner
require_command_owner-IsQuiet id session b = ground arith

pub owned_status-IsQuiet :
    (id session : String) (b : Broker) → IsQuiet b (owned_status id session b)
unfolding owned_status
owned_status-IsQuiet id session b = search (and_then-IsQuiet, require_command_owner-IsQuiet)

insert_command-IsWriting :
    (id key session : String) (command : BrokerCommand) (b : Broker)
    → IsWriting b (insert_command id key session command b)
unfolding insert_command remember_owner remember_key remember_command set_rows
insert_command-IsWriting id key session command b =
    elim (Bool-cases (any (conflicts id key) b.database.rows)) [
      | inl taken ↦ rw taken keep
      | inr free ↦ rw free (book id key session command free)
    ]

pub known_row-IsQuiet :
    (key session : String) (r : CommandRow) (b : Broker) → IsQuiet b (known_row key session r b)
unfolding known_row remember_owner remember_key
known_row-IsQuiet key session r b =
    let b0 : Broker =
      remember_owner r.command_id (session_or_blank r.session_id)
        (remember_key key r.command_id b) in
    owned_status-IsQuiet r.command_id session b0

pub enqueue-IsWriting :
    (id key session : String) (command : BrokerCommand) (b : Broker)
    → IsWriting b (enqueue id key session command b)
unfolding enqueue
enqueue-IsWriting id key session command b = elim (Option-cases (lookup key b.memory.idempotency)) [
  | inr (known, e) ↦ rw (enqueue, e, owned_status-IsQuiet known session b) keep
  | inl e ↦ elim (Option-cases (find_key key b.database.rows)) [
    | inr (r, found) ↦ rw (enqueue, e, found, known_row-IsQuiet key session r b) keep
    | inl fresh ↦ rw (enqueue, e, fresh) (insert_command-IsWriting id key session command b)
  ]
]

pub submit_command-IsWriting :
    (l : Library) (c : BrokerConfig) (now : ℕ) (id : String) (q : Credentials) (envelope : Json)
    (b : Broker)
    → IsWriting b (submit_command l c now id q envelope b)
unfolding submit_command
submit_command-IsWriting l c now id q envelope b =
    search (and_then-IsWriting, authorize_session-IsQuiet, enqueue-IsWriting)

pub status_for_session-IsQuiet :
    (c : BrokerConfig) (now : ℕ) (q : Credentials) (id : String) (b : Broker)
    → IsQuiet b (status_for_session c now q id b)
unfolding status_for_session
status_for_session-IsQuiet c now q id b =
    let owned : (b0 : Broker)
        → IsQuiet b0
            (if id == "" then (b0, err no_command_id) else owned_status id q.session_id b0) =
      λ b0. elim (Bool-cases (id == "")) [
        | inl blank ↦ rw blank refl
        | inr given ↦ rw given (owned_status-IsQuiet id q.session_id b0)
      ] in
    search (and_then-IsQuiet, authorize_session-IsQuiet, owned)

pub status_for_session-IsWriting :
    (c : BrokerConfig) (now : ℕ) (q : Credentials) (id : String) (b : Broker)
    → IsWriting b (status_for_session c now q id b)
status_for_session-IsWriting c now q id b = rw (status_for_session-IsQuiet c now q id b) keep

bootstrap-rows :
    (l : Library) (c : BrokerConfig) (r : BootstrapRequest) (now : ℕ) (id csrf : String)
    (b : Broker)
    → (bootstrap l c r now id csrf b).0.database.rows ≡ b.database.rows
unfolding bootstrap consume_startup open_session
bootstrap-rows l c r now id csrf b = ground arith

pub bootstrap-IsWriting :
    (l : Library) (c : BrokerConfig) (r : BootstrapRequest) (now : ℕ) (id csrf : String)
    (b : Broker)
    → IsWriting b (bootstrap l c r now id csrf b)
bootstrap-IsWriting l c r now id csrf b = rw (bootstrap-rows l c r now id csrf b) keep

pub command_for_worker-IsQuiet : (id : String) (b : Broker) → IsQuiet b (command_for_worker id b)
unfolding command_for_worker details_of remember_command
command_for_worker-IsQuiet id b = ground arith

pub command_for_worker-IsWriting :
    (id : String) (b : Broker) → IsWriting b (command_for_worker id b)
command_for_worker-IsWriting id b = rw (command_for_worker-IsQuiet id b) keep

pub claim_next-Write :
    (l : Library) (capability : String) (b : Broker)
    → RowsWrite b.database.rows (claim_next l capability b).0.database.rows
unfolding claim_next set_rows
claim_next-Write l capability b = elim (Option-cases (oldest_queued b.database.rows)) [
  | inl e ↦ rw (claim_next, e) keep
  | inr (r, e) ↦ rw (claim_next, e) (claim r.command_id (l.sha256 capability))
]

pub authorize_worker_claim-Write :
    (l : Library) (id capability : String) (b : Broker)
    → RowsWrite b.database.rows (authorize_worker_claim l id capability b).0.database.rows
unfolding authorize_worker_claim set_rows
authorize_worker_claim-Write l id capability b =
    let test = authorizable id (l.sha256 capability) in
    elim (Bool-cases (capability == "")) [
      | inl blank ↦ rw blank keep
      | inr given ↦ rw given elim (Bool-cases (nat_eq (count_if test b.database.rows) 1)) [
        | inl one ↦ rw one (consume id (l.sha256 capability))
        | inr other ↦ rw other keep
      ]
    ]

both_right : (x y : Bool) → (x && y) ≡ true → y ≡ true
both_right x y h = ground arith

pub finish_worker_command-IsWriting :
    (id : String) (succeeded_ : Bool) (b : Broker)
    → IsWriting b (finish_worker_command id succeeded_ b)
unfolding finish_worker_command set_rows
finish_worker_command-IsWriting id succeeded_ b =
    let to : CommandStatus = if succeeded_ then succeeded else failed in
    let done : is_settled to ≡ true = ground arith in
    elim (Option-cases (find_command id b)) [
      | inl e ↦ rw (finish_worker_command, status_of, e) keep
      | inr (r, e) ↦ elim (Bool-cases (is_running r.status)) [
        | inl on ↦
            rw (finish_worker_command, status_of, e, on)
              (settle (running_as id) to
                (λ x sel. both_right (x.command_id == id) (is_running x.status) sel) done)
        | inr off ↦ rw (finish_worker_command, status_of, e, off) keep
      ]
    ]

pub open_broker-Write :
    (recover : Bool) (b : Broker) → RowsWrite b.database.rows (open_broker recover b).database.rows
unfolding open_broker
open_broker-Write true b = settle (λ r. is_running r.status) failed (λ r e. e) refl
open_broker-Write false b = keep
