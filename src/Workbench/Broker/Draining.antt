-- ===== src/Workbench/Broker/Draining.antt =====
-- Claims, oldest command first, until no command waits.
use sentinel_security_platfo.Base.{
  ℕ, suc, ◌+◌, ◌≤◌, String, Bool, true, false, ◌||◌, none, some, List, [], ◌∷◌, ◌≡◌, refl, inl, inr,
  count_if, length, arith, Option-cases, eq_iff,
}
use sentinel_security_platfo.Base.Table.{find, update_where, IsKeyed}
use sentinel_security_platfo.Base.Count.{count_if-key}
use sentinel_security_platfo.Workbench.Broker.{
  Broker, CommandRow, Library, command_key, is_queued, is_running,
}
use sentinel_security_platfo.Workbench.Broker.Queue.{set_rows}
use sentinel_security_platfo.Workbench.Broker.Worker.{
  claim_next, claimable, oldest_queued, set_claimed,
}
use sentinel_security_platfo.Workbench.Broker.Steps.{claim_next-Write}
use sentinel_security_platfo.Workbench.Broker.History.{
  Finds, IsUnique, Write-IsUnique, updated-Finds,
}

-- One claim for each fresh capability.
unfoldable pub claim_all : Library → List String → Broker → Broker
claim_all l [] b = b
claim_all l (capability ∷ capabilities) b = claim_all l capabilities (claim_next l capability b).0

abbrev pub waiting : List CommandRow → ℕ
waiting s = count_if (λ r. is_queued r.status) s

oldest_queued-find :
    (r : CommandRow) (s : List CommandRow)
    → IsKeyed command_key s
    → oldest_queued s ≡ some r
    → (find command_key r.command_id s ≡ some r) × (is_queued r.status ≡ true)
unfolding oldest_queued find
oldest_queued-find r [] keyed h = cc
oldest_queued-find r (x ∷ s) keyed h = elim (Option-cases (oldest_queued s)) [
  | inl e ↦ ground (arith, e, eq_iff x.command_id r.command_id)
  | inr (first, e) ↦
      let same : first ≡ r = ground (arith, e) in
      let (found, queued) = oldest_queued-find r s keyed.1 (ground (arith, e, same)) in
      (ground (arith, found, keyed.0, eq_iff x.command_id r.command_id), queued)
]

oldest_queued-waiting : (s : List CommandRow) → oldest_queued s ≡ none → waiting s ≡ 0
unfolding oldest_queued count_if
oldest_queued-waiting [] h = refl
oldest_queued-waiting (x ∷ s) h = ground (arith, oldest_queued-waiting s)

claimed-waiting :
    (id digest : String) (s : List CommandRow)
    → waiting (update_where (claimable id) (set_claimed digest) s) + count_if (claimable id) s
      ≡ waiting s
unfolding update_where count_if
claimed-waiting id digest [] = refl
claimed-waiting id digest (x ∷ s) = ground (arith, claimed-waiting id digest s)

claim_next-waiting :
    (l : Library) (capability : String) (b : Broker) (n : ℕ)
    → IsUnique b.database.rows
    → waiting b.database.rows ≤ suc n
    → waiting (claim_next l capability b).0.database.rows ≤ n
unfolding claim_next set_rows
claim_next-waiting l capability b n unique bound =
    elim (Option-cases (oldest_queued b.database.rows)) [
      | inl e ↦ rw (claim_next, e) omega (arith, oldest_queued-waiting b.database.rows e)
      | inr (r, e) ↦
          let (found, waits) = oldest_queued-find r b.database.rows unique.0 e in
          let one : count_if (claimable r.command_id) b.database.rows ≡ 1 = ground (
            arith,
            found,
            waits,
            count_if-key command_key (λ x. is_queued x.status) r.command_id b.database.rows
                unique.0,
          ) in
          rw (claim_next, e) omega
            (arith, one, bound, claimed-waiting r.command_id (l.sha256 capability) b.database.rows)
    ]

claim_all-waiting :
    (l : Library) (capabilities : List String) (b : Broker)
    → IsUnique b.database.rows
    → waiting b.database.rows ≤ length capabilities
    → waiting (claim_all l capabilities b).database.rows ≡ 0
unfolding claim_all
claim_all-waiting l [] b unique bound = omega (arith, bound)
claim_all-waiting l (capability ∷ capabilities) b unique bound =
    claim_all-waiting l capabilities (claim_next l capability b).0
      (Write-IsUnique _ _ (claim_next-Write l capability b) unique)
      (claim_next-waiting l capability b (length capabilities) unique bound)

-- Waiting for a worker or with one.
abbrev is_pending : CommandRow → Bool
is_pending r = is_queued r.status || is_running r.status

claim_next-pending :
    (l : Library) (capability id : String) (b : Broker)
    → Finds (λ r. is_pending r ≡ true) id b.database.rows
    → Finds (λ r. is_pending r ≡ true) id (claim_next l capability b).0.database.rows
unfolding claim_next set_rows
claim_next-pending l capability id b h = elim (Option-cases (oldest_queued b.database.rows)) [
  | inl e ↦ rw (claim_next, e) h
  | inr (r, e) ↦
      rw (claim_next, e)
        (updated-Finds (λ x. is_pending x ≡ true) id (claimable r.command_id)
          (set_claimed (l.sha256 capability)) b.database.rows (λ x. refl) (λ x sel h. ground arith)
          h)
]

claim_all-pending :
    (l : Library) (capabilities : List String) (id : String) (b : Broker)
    → Finds (λ r. is_pending r ≡ true) id b.database.rows
    → Finds (λ r. is_pending r ≡ true) id (claim_all l capabilities b).database.rows
unfolding claim_all
claim_all-pending l [] id b h = h
claim_all-pending l (capability ∷ capabilities) id b h =
    claim_all-pending l capabilities id (claim_next l capability b).0
      (claim_next-pending l capability id b h)

none_waiting :
    (id : String) (r : CommandRow) (s : List CommandRow)
    → find command_key id s ≡ some r
    → waiting s ≡ 0
    → is_queued r.status ≡ false
unfolding find count_if
none_waiting id r [] found none_left = cc
none_waiting id r (x ∷ s) found none_left = ground (arith, none_waiting id r s)

-- With as many claims as commands wait, each command that waits is given to a worker: its row is
-- running after them, and no command waits.
pub claim_all-running :
    (l : Library) (capabilities : List String) (id : String) (b : Broker)
    → IsUnique b.database.rows
    → waiting b.database.rows ≤ length capabilities
    → Finds (λ r. is_queued r.status ≡ true) id b.database.rows
    → Finds (λ r. is_running r.status ≡ true) id (claim_all l capabilities b).database.rows
      × (waiting (claim_all l capabilities b).database.rows ≡ 0)
claim_all-running l capabilities id b unique bound (r, found, queued) =
    let drained = claim_all-waiting l capabilities b unique bound in
    let (after, there, pending) =
      claim_all-pending l capabilities id b (r, found, ground (arith, queued)) in
    (
      (
        after,
        there,
        ground (
          arith,
          pending,
          none_waiting id after (claim_all l capabilities b).database.rows there drained,
        ),
      ),
      drained,
    )
