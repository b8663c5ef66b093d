-- ===== src/Workbench/Broker/Startup.antt =====
-- The startup capability serves once, in all the processes that are ever opened on the database.
use sentinel_security_platfo.Base.{
  ℕ, String, Bool, true, false, ◌≡◌, refl, inl, inr, any, arith, Option-cases, eq_iff, ok, err,
  Result-cases,
}
use sentinel_security_platfo.Base.Json.{Json, is_in}
use sentinel_security_platfo.Base.Dict.{lookup}
use sentinel_security_platfo.Workbench.Broker.{
  Broker, BrokerCall, Database, Library, Memory, and_then,
}
use sentinel_security_platfo.Workbench.Broker.Protocol.{BrokerCommand, BrokerViolation}
use sentinel_security_platfo.Workbench.Broker.Config.{BrokerConfig}
use sentinel_security_platfo.Workbench.Broker.Sessions.{
  BootstrapRequest, BrokerSession, bootstrap, consume_startup, open_session,
}
use sentinel_security_platfo.Workbench.Broker.Queue.{
  Credentials, find_key, enqueue, insert_command, remember_command, remember_key, remember_owner,
  set_rows, submit_command,
}
use sentinel_security_platfo.Workbench.Broker.Worker.{
  authorize_worker_claim, claim_next, finish_worker_command, open_broker,
}
use sentinel_security_platfo.Workbench.Broker.Steps.{
  authorize_session-IsQuiet, command_for_worker-IsQuiet, known_row-IsQuiet, owned_status-IsQuiet,
  status_for_session-IsQuiet,
}
use sentinel_security_platfo.Workbench.Broker.History.{
  BrokerCalls, BrokerHistory, and_call, asks, authorizes, bootstraps, claims, finishes, on, opens,
  resolves, start, submits,
}

-- The capability's digest is in the table `broker_startup`.
abbrev IsConsumed : String → Database → Type 0
IsConsumed digest d = is_in digest d.startups ≡ true

-- A call that leaves the table `broker_startup` as it is.
abbrev IsAloof : {A : Type 0} → Broker → BrokerCall A → Type 0
IsAloof b x = x.0.database.startups ≡ b.database.startups

insert_command-IsAloof :
    (id key session : String) (command : BrokerCommand) (b : Broker)
    → IsAloof b (insert_command id key session command b)
unfolding insert_command set_rows remember_command remember_key remember_owner
insert_command-IsAloof id key session command b = ground arith

enqueue-IsAloof :
    (id key session : String) (command : BrokerCommand) (b : Broker)
    → IsAloof b (enqueue id key session command b)
unfolding enqueue
enqueue-IsAloof id key session command b = elim (Option-cases (lookup key b.memory.idempotency)) [
  | inr (known, e) ↦ rw (enqueue, e, owned_status-IsQuiet known session b) refl
  | inl e ↦ elim (Option-cases (find_key key b.database.rows)) [
    | inr (r, found) ↦ rw (enqueue, e, found, known_row-IsQuiet key session r b) refl
    | inl new ↦ rw (enqueue, e, new) (insert_command-IsAloof id key session command b)
  ]
]

and_then-IsAloof :
    {A B : Type 0} (b : Broker) (x : BrokerCall A) (k : A → Broker → BrokerCall B)
    → x.0.database ≡ b.database
    → ((a : A) (b0 : Broker) → IsAloof b0 (k a b0))
    → IsAloof b (and_then x k)
and_then-IsAloof b (b0, ok a) k quiet rest = rw (← quiet) (rest a b0)
and_then-IsAloof b (b0, err e) k quiet rest = rw quiet refl

submit_command-IsAloof :
    (l : Library) (c : BrokerConfig) (now : ℕ) (id : String) (q : Credentials) (envelope : Json)
    (b : Broker)
    → IsAloof b (submit_command l c now id q envelope b)
unfolding submit_command
submit_command-IsAloof l c now id q envelope b =
    search (and_then-IsAloof, authorize_session-IsQuiet, enqueue-IsAloof)

claim_next-startups :
    (l : Library) (capability : String) (b : Broker)
    → (claim_next l capability b).0.database.startups ≡ b.database.startups
unfolding claim_next set_rows
claim_next-startups l capability b = ground arith

authorize_worker_claim-startups :
    (l : Library) (id capability : String) (b : Broker)
    → (authorize_worker_claim l id capability b).0.database.startups ≡ b.database.startups
unfolding authorize_worker_claim set_rows
authorize_worker_claim-startups l id capability b = ground arith

finish_worker_command-IsAloof :
    (id : String) (succeeded_ : Bool) (b : Broker)
    → IsAloof b (finish_worker_command id succeeded_ b)
unfolding finish_worker_command set_rows
finish_worker_command-IsAloof id succeeded_ b = ground arith

bootstrap-IsConsumed :
    (l : Library) (c : BrokerConfig) (r : BootstrapRequest) (now : ℕ) (id csrf digest : String)
    (b : Broker)
    → IsConsumed digest b.database
    → IsConsumed digest (bootstrap l c r now id csrf b).0.database
unfolding bootstrap consume_startup open_session is_in any
bootstrap-IsConsumed l c r now id csrf digest b h = ground arith

Calls-IsConsumed :
    (digest : String) {l : Library} {d e : Database}
    → BrokerCalls l d e
    → IsConsumed digest d
    → IsConsumed digest e
unfolding open_broker
Calls-IsConsumed digest {d = d} (opens m recover) h = h
Calls-IsConsumed digest {l} {d} (bootstraps m c r now id csrf) h =
    bootstrap-IsConsumed l c r now id csrf digest (on m d) h
Calls-IsConsumed digest {l} {d} (submits m c now id q envelope) h =
    rw (submit_command-IsAloof l c now id q envelope (on m d)) h
Calls-IsConsumed digest {l} {d} (asks m c now q id) h =
    rw (status_for_session-IsQuiet c now q id (on m d)) h
Calls-IsConsumed digest {l} {d} (claims m capability) h =
    rw (claim_next-startups l capability (on m d)) h
Calls-IsConsumed digest {l} {d} (authorizes m id capability) h =
    rw (authorize_worker_claim-startups l id capability (on m d)) h
Calls-IsConsumed digest {l} {d} (resolves m id) h = rw (command_for_worker-IsQuiet id (on m d)) h
Calls-IsConsumed digest {l} {d} (finishes m id succeeded_) h =
    rw (finish_worker_command-IsAloof id succeeded_ (on m d)) h

BrokerHistory-IsConsumed :
    (digest : String) {l : Library} {d e : Database}
    → BrokerHistory l d e
    → IsConsumed digest d
    → IsConsumed digest e
BrokerHistory-IsConsumed digest start h = h
BrokerHistory-IsConsumed digest (and_call hist call) h =
    Calls-IsConsumed digest call (BrokerHistory-IsConsumed digest hist h)

-- A bootstrap that opens a session has consumed the capability, and the digest was not there.
bootstrap-ok :
    (l : Library) (c : BrokerConfig) (r : BootstrapRequest) (now : ℕ) (id csrf : String)
    (s : BrokerSession) (b : Broker)
    → (bootstrap l c r now id csrf b).1 ≡ ok s
    → (is_in (l.sha256 c.startup_capability) b.database.startups ≡ false)
      × IsConsumed (l.sha256 c.startup_capability) (bootstrap l c r now id csrf b).0.database
unfolding bootstrap consume_startup open_session is_in any
bootstrap-ok l c r now id csrf s b h =
    let digest : String = l.sha256 c.startup_capability in
    (ground arith, ground (arith, eq_iff digest digest))

-- Once a bootstrap has opened a session, no other does with the same startup capability, in this or
-- any other process, whatever calls and restarts come between.
pub bootstrap-once :
    (l : Library) (c c0 : BrokerConfig) (r r0 : BootstrapRequest) (now now0 : ℕ)
    (id csrf id0 csrf0 : String) (s : BrokerSession) (b : Broker) (m : Memory) {d : Database}
    → c0.startup_capability ≡ c.startup_capability
    → (bootstrap l c r now id csrf b).1 ≡ ok s
    → BrokerHistory l (bootstrap l c r now id csrf b).0.database d
    → (e : BrokerViolation) × ((bootstrap l c0 r0 now0 id0 csrf0 (on m d)).1 ≡ err e)
bootstrap-once l c c0 r r0 now now0 id csrf id0 csrf0 s b m {d} same opened_ hist =
    let (_, used) = bootstrap-ok l c r now id csrf s b opened_ in
    let after : IsConsumed (l.sha256 c0.startup_capability) d =
      rw same (BrokerHistory-IsConsumed (l.sha256 c.startup_capability) hist used) in
    elim (Result-cases (bootstrap l c0 r0 now0 id0 csrf0 (on m d)).1) [
      | inr (e, refused) ↦ (e, refused)
      | inl (s0, again) ↦
          let (free, _) = bootstrap-ok l c0 r0 now0 id0 csrf0 s0 (on m d) again in
          absurd (ground (arith, free, after))
    ]
