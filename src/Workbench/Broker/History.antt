-- ===== src/Workbench/Broker/History.antt =====
-- Histories of the broker's database: any calls of any processes on it, each with whatever its
-- memory and its configuration are, and any opening of the broker.
use sentinel_security_platfo.Base.{
  ℕ, String, Bool, true, false, none, some, List, [], ◌∷◌, ◌≡◌, refl, inl, inr, any, arith,
  Bool-cases, eq_iff,
}
use sentinel_security_platfo.Base.Json.{Json}
use sentinel_security_platfo.Base.Table.{
  find, update_where, IsKeyed, find-update_where, update_where-IsKeyed,
}
use sentinel_security_platfo.Workbench.Broker.{
  Broker, CommandRow, CommandStatus, Database, Library, Memory, command_key, queued, running,
  succeeded, failed, cancelled, is_queued, is_running,
}
use sentinel_security_platfo.Workbench.Broker.Config.{BrokerConfig}
use sentinel_security_platfo.Workbench.Broker.Sessions.{BootstrapRequest, bootstrap}
use sentinel_security_platfo.Workbench.Broker.Queue.{
  Credentials, conflicts, status_for_session, submit_command,
}
use sentinel_security_platfo.Workbench.Broker.Worker.{
  authorizable, authorize_worker_claim, claim_next, claimable, command_for_worker,
  finish_worker_command, open_broker, set_claimed, set_command_status, set_consumed,
}
use sentinel_security_platfo.Workbench.Broker.Steps.{
  RowsWrite, keep, book, claim, consume, settle, is_settled, submit_command-IsWriting,
  status_for_session-IsWriting, bootstrap-IsWriting, command_for_worker-IsWriting, claim_next-Write,
  authorize_worker_claim-Write, finish_worker_command-IsWriting, open_broker-Write,
}

-- A process on the database.
abbrev pub on : Memory → Database → Broker
on m d = record { memory = m; database = d }

pub data BrokerCalls (l : Library) (d : Database) : Database → Type 0 where
  opens : (m : Memory) (recover : Bool) → BrokerCalls l d (open_broker recover (on m d)).database
  bootstraps :
      (m : Memory) (c : BrokerConfig) (r : BootstrapRequest) (now : ℕ) (id csrf : String)
      → BrokerCalls l d (bootstrap l c r now id csrf (on m d)).0.database
  submits :
      (m : Memory) (c : BrokerConfig) (now : ℕ) (id : String) (q : Credentials) (envelope : Json)
      → BrokerCalls l d (submit_command l c now id q envelope (on m d)).0.database
  asks :
      (m : Memory) (c : BrokerConfig) (now : ℕ) (q : Credentials) (id : String)
      → BrokerCalls l d (status_for_session c now q id (on m d)).0.database
  claims :
      (m : Memory) (capability : String)
      → BrokerCalls l d (claim_next l capability (on m d)).0.database
  authorizes :
      (m : Memory) (id capability : String)
      → BrokerCalls l d (authorize_worker_claim l id capability (on m d)).0.database
  resolves :
      (m : Memory) (id : String) → BrokerCalls l d (command_for_worker id (on m d)).0.database
  finishes :
      (m : Memory) (id : String) (succeeded_ : Bool)
      → BrokerCalls l d (finish_worker_command id succeeded_ (on m d)).0.database

pub data BrokerHistory (l : Library) (d : Database) : Database → Type 0 where
  start : BrokerHistory l d d
  and_call : {e f : Database} → BrokerHistory l d e → BrokerCalls l e f → BrokerHistory l d f

Calls-RowsWrite : {l : Library} {d e : Database} → BrokerCalls l d e → RowsWrite d.rows e.rows
Calls-RowsWrite {d = d} (opens m recover) = open_broker-Write recover (on m d)
Calls-RowsWrite {l} {d} (bootstraps m c r now id csrf) =
    bootstrap-IsWriting l c r now id csrf (on m d)
Calls-RowsWrite {l} {d} (submits m c now id q envelope) =
    submit_command-IsWriting l c now id q envelope (on m d)
Calls-RowsWrite {l} {d} (asks m c now q id) = status_for_session-IsWriting c now q id (on m d)
Calls-RowsWrite {l} {d} (claims m capability) = claim_next-Write l capability (on m d)
Calls-RowsWrite {l} {d} (authorizes m id capability) =
    authorize_worker_claim-Write l id capability (on m d)
Calls-RowsWrite {l} {d} (resolves m id) = command_for_worker-IsWriting id (on m d)
Calls-RowsWrite {l} {d} (finishes m id succeeded_) =
    finish_worker_command-IsWriting id succeeded_ (on m d)

pub BrokerHistory_induction :
    (P : List CommandRow → Type 0)
    → ((s t : List CommandRow) → RowsWrite s t → P s → P t)
    → {l : Library} {d e : Database} → BrokerHistory l d e
    → P d.rows
    → P e.rows
BrokerHistory_induction P keeps start h = h
BrokerHistory_induction P keeps (and_call {e = e} {f = f} hist call) h =
    keeps e.rows f.rows (Calls-RowsWrite call) (BrokerHistory_induction P keeps hist h)

find-conflict :
    (id key : String) (r : CommandRow) (s : List CommandRow)
    → find command_key id s ≡ some r
    → any (conflicts id key) s ≡ true
unfolding find any
find-conflict id key r [] found = cc
find-conflict id key r (x ∷ s) found = ground (arith, find-conflict id key r s)

-- An update of rows that one row's test does not select keeps the row.
find-kept :
    (id : String) (r : CommandRow) (test : CommandRow → Bool) (f : CommandRow → CommandRow)
    (s : List CommandRow)
    → ((x : CommandRow) → test x ≡ true → command_key (f x) ≡ command_key x)
    → test r ≡ false
    → find command_key id s ≡ some r
    → find command_key id (update_where test f s) ≡ some r
find-kept id r test f s same off found =
    rw (find-update_where command_key test f same id s, found, off) refl

-- The row of a command id is there and has a property.
abbrev pub Finds : (CommandRow → Type 0) → String → List CommandRow → Type 0
Finds P id s = (r : CommandRow) × (find command_key id s ≡ some r) × P r

pub updated-Finds :
    (P : CommandRow → Type 0) (id : String) (test : CommandRow → Bool) (f : CommandRow → CommandRow)
    (s : List CommandRow)
    → ((x : CommandRow) → command_key (f x) ≡ command_key x)
    → ((x : CommandRow) → test x ≡ true → P x → P (f x))
    → Finds P id s
    → Finds P id (update_where test f s)
updated-Finds P id test f s same stays (r, found, h) = elim (Bool-cases (test r)) [
  | inl sel ↦ (
    f r,
    rw (find-update_where command_key test f (λ x e. same x) id s, found, sel) refl,
    stays r sel h,
  )
  | inr off ↦
      (r, rw (find-update_where command_key test f (λ x e. same x) id s, found, off) refl, h)
]

-- A property of one command's row that the three kinds of UPDATE keep.
pub Write-Finds :
    (P : CommandRow → Type 0) (id : String)
    → ((d digest : String) (x : CommandRow) → claimable d x ≡ true → P x → P (set_claimed digest x))
    → ((d digest : String) (x : CommandRow)
        → authorizable d digest x ≡ true
        → P x
        → P (set_consumed x))
    → ((to : CommandStatus) (x : CommandRow)
        → is_settled to ≡ true
        → P x
        → P (set_command_status to x))
    → (s t : List CommandRow) → RowsWrite s t
    → Finds P id s
    → Finds P id t
unfolding find
Write-Finds P id claimed consumed settled s t keep h = h
Write-Finds P id claimed consumed settled s t (book d key session command free) (r, found, h) =
    (r, ground (arith, find-conflict id key r s, eq_iff d id), h)
Write-Finds P id claimed consumed settled s t (claim d digest) h =
    updated-Finds P id (claimable d) (set_claimed digest) s (λ x. refl) (claimed d digest) h
Write-Finds P id claimed consumed settled s t (consume d digest) h =
    updated-Finds P id (authorizable d digest) set_consumed s (λ x. refl) (consumed d digest) h
Write-Finds P id claimed consumed settled s t (settle test to on_running terminal) h =
    updated-Finds P id test (set_command_status to) s (λ x. refl) (λ x sel. settled to x terminal) h

pub settled_idle :
    (x : CommandStatus) → is_settled x ≡ true → (is_queued x ≡ false) × (is_running x ≡ false)
settled_idle queued h = cc
settled_idle running h = cc
settled_idle succeeded h = (refl, refl)
settled_idle failed h = (refl, refl)
settled_idle cancelled h = (refl, refl)

Write-settled :
    (id : String) (r : CommandRow)
    → is_settled r.status ≡ true
    → (s t : List CommandRow) → RowsWrite s t
    → find command_key id s ≡ some r
    → find command_key id t ≡ some r
unfolding find
Write-settled id r settled s t keep h = h
Write-settled id r settled s t (book d key session command free) h =
    ground (arith, find-conflict id key r s, eq_iff d id)
Write-settled id r settled s t (claim d digest) h =
    let idle = settled_idle r.status settled in
    find-kept id r (claimable d) (set_claimed digest) s (λ x e. refl) (ground (arith, idle.0)) h
Write-settled id r settled s t (consume d digest) h =
    let idle = settled_idle r.status settled in
    find-kept id r (authorizable d digest) set_consumed s (λ x e. refl) (ground (arith, idle.1)) h
Write-settled id r settled s t (settle test to on_running terminal) h =
    let idle = settled_idle r.status settled in
    find-kept id r test (set_command_status to) s (λ x e. refl)
      (ground (arith, idle.1, on_running r)) h

-- A command whose status is succeeded, failed or cancelled keeps its row as it is, whatever calls,
-- of whatever processes, and restarts follow: it is never queued, claimed or settled again.
pub BrokerHistory-settled :
    (id : String) (r : CommandRow) {l : Library} {d e : Database}
    → is_settled r.status ≡ true
    → BrokerHistory l d e
    → find command_key id d.rows ≡ some r
    → find command_key id e.rows ≡ some r
BrokerHistory-settled id r settled =
    BrokerHistory_induction (λ s. find command_key id s ≡ some r) (Write-settled id r settled)

-- The PRIMARY KEY and the UNIQUE constraint of the table.
abbrev pub IsUnique : List CommandRow → Type 0
IsUnique s = IsKeyed command_key s × IsKeyed (λ r. r.idempotency_key) s

fresh_keys :
    (id key : String) (s : List CommandRow)
    → any (conflicts id key) s ≡ false
    → (find command_key id s ≡ none) × (find (λ r. r.idempotency_key) key s ≡ none)
unfolding any find
fresh_keys id key [] free = (refl, refl)
fresh_keys id key (x ∷ s) free =
    let rest : any (conflicts id key) s ≡ false = ground arith in
    let (a, b) = fresh_keys id key s rest in (ground arith, ground arith)

pub Write-IsUnique : (s t : List CommandRow) → RowsWrite s t → IsUnique s → IsUnique t
Write-IsUnique s t keep h = h
Write-IsUnique s t (book id key session command free) h =
    let (a, b) = fresh_keys id key s free in ((a, h.0), (b, h.1))
Write-IsUnique s t (claim id digest) h = (
  update_where-IsKeyed command_key (claimable id) (set_claimed digest) (λ r e. refl) s h.0,
  update_where-IsKeyed (λ r. r.idempotency_key) (claimable id) (set_claimed digest) (λ r e. refl) s
      h.1,
)
Write-IsUnique s t (consume id digest) h = (
  update_where-IsKeyed command_key (authorizable id digest) set_consumed (λ r e. refl) s h.0,
  update_where-IsKeyed (λ r. r.idempotency_key) (authorizable id digest) set_consumed (λ r e. refl)
      s h.1,
)
Write-IsUnique s t (settle test to on_running terminal) h = (
  update_where-IsKeyed command_key test (set_command_status to) (λ r e. refl) s h.0,
  update_where-IsKeyed (λ r. r.idempotency_key) test (set_command_status to) (λ r e. refl) s h.1,
)

-- No command id and no idempotency key ever has two rows: one command of given fields is queued at
-- most once.
pub BrokerHistory-IsUnique :
    {l : Library} {d e : Database} → BrokerHistory l d e → IsUnique d.rows → IsUnique e.rows
BrokerHistory-IsUnique = BrokerHistory_induction IsUnique Write-IsUnique
