-- ===== src/Workbench/Broker/Ownership.antt =====
-- The owners of commands, as one process remembers them and as the table has them.
use sentinel_security_platfo.Base.{
  String, false, Option, none, some, List, [], ◌∷◌, ◌≡◌, refl, inl, inr, any, is_some, arith, ◌==◌,
  if◌then◌else◌, Bool-cases, Option-cases, eq_iff,
}
use sentinel_security_platfo.Base.Dict.{lookup, lookup-put}
use sentinel_security_platfo.Base.Table.{find}
use sentinel_security_platfo.Workbench.Broker.{Broker, CommandRow, command_key}
use sentinel_security_platfo.Workbench.Broker.Protocol.{BrokerCommand}
use sentinel_security_platfo.Workbench.Broker.Queue.{
  enqueue, find_command, find_key, insert_command, known_row, new_row, conflicts, owned_status,
  owner_from_row, remember_command, remember_key, remember_owner, require_command_owner, set_rows,
  session_or_blank,
}
use sentinel_security_platfo.Workbench.Broker.Steps.{RowsWrite, keep, book}
use sentinel_security_platfo.Workbench.Broker.History.{Finds, IsUnique, Write-Finds}

-- The table has the owner of the command.
abbrev pub IsOwner : String → String → List CommandRow → Type 0
IsOwner id owner = Finds (λ r. r.session_id ≡ some owner) id

pub Write-IsOwner :
    (id owner : String) (s t : List CommandRow)
    → RowsWrite s t
    → IsOwner id owner s
    → IsOwner id owner t
Write-IsOwner id owner =
    Write-Finds (λ r. r.session_id ≡ some owner) id (λ d digest x sel h. h) (λ d digest x sel h. h)
      (λ to x terminal h. h)

-- Each owner that the process remembers, if it is one, is the table's.
abbrev pub IsTruthful : Broker → Type 0
IsTruthful b =
    (id owner : String)
    → lookup id b.memory.command_sessions ≡ some owner
    → (owner == "") ≡ false
    → IsOwner id owner b.database.rows

-- A call that leaves the remembered owners alone.
pub forgetful-IsTruthful :
    (b b0 : Broker)
    → b0.memory.command_sessions ≡ b.memory.command_sessions
    → RowsWrite b.database.rows b0.database.rows
    → IsTruthful b
    → IsTruthful b0
forgetful-IsTruthful b b0 same w truthful id owner found given =
    Write-IsOwner id owner b.database.rows b0.database.rows w
      (truthful id owner (rw (← same) found) given)

remember_owner-IsTruthful :
    (id owner : String) (b : Broker)
    → ((owner == "") ≡ false → IsOwner id owner b.database.rows)
    → IsTruthful b
    → IsTruthful (remember_owner id owner b)
unfolding remember_owner
remember_owner-IsTruthful id owner b right truthful j other found given =
    elim (Bool-cases (id == j)) [
      | inl e ↦
          let same_id : id ≡ j = (eq_iff id j).0 e in
          let same : owner ≡ other =
            ground (arith, lookup-put id j owner b.memory.command_sessions) in
          rw (← same_id, ← same) (right (rw same given))
      | inr e ↦
          truthful j other (ground (arith, lookup-put id j owner b.memory.command_sessions)) given
    ]

owner_from_row-IsTruthful :
    (id : String) (b : Broker) → IsTruthful b → IsTruthful (owner_from_row id b).0
unfolding find_command owner_from_row
owner_from_row-IsTruthful id b truthful =
    elim (Option-cases (find command_key id b.database.rows)) [
      | inl e ↦ rw (owner_from_row, find_command, e) truthful
      | inr (r, e) ↦ elim (Option-cases r.session_id) [
        | inl s ↦ rw (owner_from_row, find_command, e, s) truthful
        | inr (owner, s) ↦
            rw (owner_from_row, find_command, e, s)
              (remember_owner-IsTruthful id owner b (λ given. (r, e, s)) truthful)
      ]
    ]

require_command_owner-state :
    (id session : String) (b : Broker)
    → (require_command_owner id session b).0
      ≡ (if is_some (lookup id b.memory.command_sessions) then b else (owner_from_row id b).0)
unfolding require_command_owner
require_command_owner-state id session b = ground arith

owned_status-state :
    (id session : String) (b : Broker)
    → (owned_status id session b).0 ≡ (require_command_owner id session b).0
unfolding owned_status
owned_status-state id session b = ground arith

pub owned_status-IsTruthful :
    (id session : String) (b : Broker) → IsTruthful b → IsTruthful (owned_status id session b).0
owned_status-IsTruthful id session b truthful =
    rw (owned_status-state id session b, require_command_owner-state id session b)
      elim (Bool-cases (is_some (lookup id b.memory.command_sessions))) [
        | inl e ↦ rw e truthful
        | inr e ↦ rw e (owner_from_row-IsTruthful id b truthful)
      ]

find-fresh :
    (id key : String) (s : List CommandRow)
    → find command_key id s ≡ none
    → find_key key s ≡ none
    → any (conflicts id key) s ≡ false
unfolding any find find_key
find-fresh id key [] no_id no_key = refl
find-fresh id key (x ∷ s) no_id no_key = ground (arith, find-fresh id key s)

insert_command-IsTruthful :
    (id key session : String) (command : BrokerCommand) (b : Broker)
    → any (conflicts id key) b.database.rows ≡ false
    → IsTruthful b
    → IsTruthful (insert_command id key session command b).0
unfolding insert_command set_rows remember_command remember_key find
insert_command-IsTruthful id key session command b free truthful =
    let row : CommandRow = new_row id key session command in
    let b1 : Broker =
      set_rows (row ∷ b.database.rows) (remember_command id command (remember_key key id b)) in
    let booked : IsTruthful b1 =
      forgetful-IsTruthful b b1 refl (book id key session command free) truthful in
    rw free (
      remember_owner-IsTruthful id session b1 (λ given. (row, ground (arith, eq_iff id id), refl))
        booked)

find_key-find :
    (key : String) (r : CommandRow) (s : List CommandRow)
    → find_key key s ≡ some r
    → IsUnique s
    → find command_key r.command_id s ≡ some r
unfolding find_key find
find_key-find key r [] found unique = cc
find_key-find key r (x ∷ s) found unique = ground (
  arith,
  find_key-find key r s,
  unique.0,
  unique.1,
  eq_iff x.command_id r.command_id,
  eq_iff x.idempotency_key key,
)

given_owner :
    (o : Option String) → (session_or_blank o == "") ≡ false → o ≡ some (session_or_blank o)
given_owner none given = ground arith
given_owner (some owner) given = refl

known_row-IsTruthful :
    (key session : String) (r : CommandRow) (b : Broker)
    → find command_key r.command_id b.database.rows ≡ some r
    → IsTruthful b
    → IsTruthful (known_row key session r b).0
unfolding known_row remember_key
known_row-IsTruthful key session r b there truthful =
    let b0 : Broker = remember_key key r.command_id b in
    let owner = session_or_blank r.session_id in
    let owns : (owner == "") ≡ false → IsOwner r.command_id owner b.database.rows =
      λ given. (r, there, given_owner r.session_id given) in
    owned_status-IsTruthful r.command_id session (remember_owner r.command_id owner b0) (
      remember_owner-IsTruthful r.command_id owner b0 owns
        (forgetful-IsTruthful b b0 refl keep truthful))

pub enqueue-IsTruthful :
    (id key session : String) (command : BrokerCommand) (b : Broker)
    → find command_key id b.database.rows ≡ none
    → IsUnique b.database.rows
    → IsTruthful b
    → IsTruthful (enqueue id key session command b).0
unfolding enqueue
enqueue-IsTruthful id key session command b fresh unique truthful =
    elim (Option-cases (lookup key b.memory.idempotency)) [
      | inr (known, e) ↦ rw (enqueue, e) (owned_status-IsTruthful known session b truthful)
      | inl e ↦ elim (Option-cases (find_key key b.database.rows)) [
        | inr (r, found) ↦
            rw (enqueue, e, found)
              (known_row-IsTruthful key session r b
                (find_key-find key r b.database.rows found unique) truthful)
        | inl new ↦
            rw (enqueue, e, new)
              (insert_command-IsTruthful id key session command b
                (find-fresh id key b.database.rows fresh new) truthful)
      ]
    ]
