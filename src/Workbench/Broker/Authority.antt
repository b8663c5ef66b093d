-- ===== src/Workbench/Broker/Authority.antt =====
-- A worker's capability serves once.
use sentinel_security_platfo.Base.{
  String, Bool, true, false, not, ◌&&◌, ◌||◌, List, ◌≡◌, refl, inl, inr, count_if, arith, ◌==◌,
  if◌then◌else◌, Bool-cases, Option-cases, eq_iff,
}
use sentinel_security_platfo.Base.Table.{find, update_where, find-update_where, find-key, IsKeyed}
use sentinel_security_platfo.Base.Count.{count_if-key, row_passes}
use sentinel_security_platfo.Workbench.Broker.{
  Broker, CommandRow, Database, Library, Memory, command_key, is_queued, is_running,
}
use sentinel_security_platfo.Workbench.Broker.Queue.{set_rows}
use sentinel_security_platfo.Workbench.Broker.Worker.{
  authorizable, authorize_worker_claim, set_consumed, awaits,
}
use sentinel_security_platfo.Workbench.Broker.Steps.{RowsWrite, authorize_worker_claim-Write}
use sentinel_security_platfo.Workbench.Broker.History.{
  BrokerHistory, BrokerHistory_induction, IsUnique, Write-IsUnique, Finds, Write-Finds, on,
  settled_idle,
}

-- The row is neither waiting for a claim nor waiting for its worker.
abbrev is_spent : CommandRow → Bool
is_spent r = not (is_queued r.status) && (not (is_running r.status) || r.worker_capability_consumed)

abbrev IsSpent : String → List CommandRow → Type 0
IsSpent = Finds (λ r. is_spent r ≡ true)

Write-IsSpent : (id : String) (s t : List CommandRow) → RowsWrite s t → IsSpent id s → IsSpent id t
Write-IsSpent id s t w =
    Write-Finds (λ r. is_spent r ≡ true) id (λ d digest x sel spent. ground arith)
      (λ d digest x sel spent. ground arith)
      (λ to x terminal spent. let idle = settled_idle to terminal in ground (arith, idle.0, idle.1))
      s t w

authorizable-count :
    (id digest : String) (s : List CommandRow)
    → IsKeyed command_key s
    → count_if (authorizable id digest) s
      ≡ (if row_passes (awaits digest) (find command_key id s) then 1 else 0)
authorizable-count id digest s keyed = count_if-key command_key (awaits digest) id s keyed

-- What the call is, by the row that the command id finds.
authorize_worker_claim-row :
    (l : Library) (id capability : String) (b : Broker)
    → IsUnique b.database.rows
    → authorize_worker_claim l id capability b ≡ (
        if not (capability == "")
          && row_passes (awaits (l.sha256 capability)) (find command_key id b.database.rows)
        then (
          set_rows
              (update_where (authorizable id (l.sha256 capability)) set_consumed b.database.rows)
              b,
          true,
        )
        else (b, false))
unfolding authorize_worker_claim
authorize_worker_claim-row l id capability b unique =
    rw (authorizable-count id (l.sha256 capability) b.database.rows unique.0)
      (elim (Bool-cases (capability == "")) [
        | inl blank ↦ rw blank refl
        | inr given ↦
            rw given
              elim (Bool-cases
                (row_passes (awaits (l.sha256 capability)) (find command_key id b.database.rows))) [
                  | inl e ↦ rw e refl
                  | inr e ↦ rw e refl
                ]
      ])

-- Whoever is let through leaves the row spent.
accepted-IsSpent :
    (l : Library) (id capability : String) (b : Broker)
    → IsUnique b.database.rows
    → (authorize_worker_claim l id capability b).1 ≡ true
    → IsSpent id (authorize_worker_claim l id capability b).0.database.rows
unfolding set_rows
accepted-IsSpent l id capability b unique =
    rw (authorize_worker_claim-row l id capability b unique) (
      let digest = l.sha256 capability in
      elim (Option-cases (find command_key id b.database.rows)) [
        | inl e ↦ rw e λ accepted. absurd (ground arith)
        | inr (r, e) ↦ elim (Bool-cases (not (capability == "") && awaits digest r)) [
          | inr off ↦ rw (e, off) λ accepted. absurd (ground arith)
          | inl sel ↦
              rw (e, sel)
                λ accepted.
                  let here : r.command_id ≡ id = find-key command_key id r b.database.rows e in
                  let chosen : authorizable id digest r ≡ true =
                    ground (arith, eq_iff r.command_id id) in
                  (
                    set_consumed r,
                    rw
                        (
                          find-update_where command_key (authorizable id digest) set_consumed
                              (λ x t. refl) id b.database.rows,
                          e,
                          chosen,
                        )
                        refl,
                    ground arith,
                  )
        ]
      ])

refused_if_spent :
    (l : Library) (id capability : String) (b : Broker)
    → IsUnique b.database.rows
    → IsSpent id b.database.rows
    → (authorize_worker_claim l id capability b).1 ≡ false
refused_if_spent l id capability b unique (r, found, spent) =
    rw (authorize_worker_claim-row l id capability b unique, found) ground arith

-- Once a worker's claim on a command is accepted, no later claim on it is, with this or any other
-- capability, by any process, whatever calls and restarts come between.
pub authorize_worker_claim-once :
    (l : Library) (id capability later : String) (b : Broker) (m : Memory) {d : Database}
    → IsUnique b.database.rows
    → (authorize_worker_claim l id capability b).1 ≡ true
    → BrokerHistory l (authorize_worker_claim l id capability b).0.database d
    → (authorize_worker_claim l id later (on m d)).1 ≡ false
authorize_worker_claim-once l id capability later b m {d} unique accepted hist =
    let (after_unique, spent) =
      BrokerHistory_induction (λ s. IsUnique s × IsSpent id s)
        (λ s t w h. (Write-IsUnique s t w h.0, Write-IsSpent id s t w h.1)) hist
        (
          Write-IsUnique _ _ (authorize_worker_claim-Write l id capability b) unique,
          accepted-IsSpent l id capability b unique accepted,
        ) in
    refused_if_spent l id later (on m d) after_unique spent
