-- ===== src/Workbench/Cmc/History.antt =====
-- Histories of the CMC store.
use sentinel_security_platfo.Base.{
  suc, some, ◌≤◌, String, ◌≡◌, refl, inl, inr, Bool, true, false, ◌&&◌, ◌||◌, [], ◌∷◌, any,
  count_if, nat_eq, arith, ◌==◌, if◌then◌else◌, Bool-cases, eq_iff,
}
use sentinel_security_platfo.Base.Table.{find, update_where, find-update_where}
use sentinel_security_platfo.Base.Count.{count_if-update_where, count_if_of_any}
use sentinel_security_platfo.Workbench.Cmc.{
  ActiveRequestViolation, not_revocable, not_dispatchable, CmcStatus, reserved, dispatched,
  succeeded, rejected, revoked, unknown, CmcRequest, CmcStore, is_reserved, is_dispatched,
  set_cmc_status, open_cmc, conflicts, reserve_cmc, reserved_as, move_reserved, revoke_cmc,
  dispatch_cmc,
}

pub data CmcCalls (s : CmcStore) : CmcStore → Type 0 where
  opens : CmcCalls s (open_cmc s)
  reserves : (digest nonce : String) → CmcCalls s (reserve_cmc digest nonce s).0
  revokes : (digest : String) → CmcCalls s (revoke_cmc digest s).0
  dispatches : (digest : String) → CmcCalls s (dispatch_cmc digest s).0

pub data CmcHistory (s : CmcStore) : CmcStore → Type 0 where
  start : CmcHistory s s
  and_call : {t u : CmcStore} → CmcHistory s t → CmcCalls t u → CmcHistory s u

-- The UPDATEs: an open loses what was dispatched, the others move reserved rows.
data Moves : CmcStatus → CmcStatus → Type 0 where
  lose : Moves dispatched unknown
  revoke : Moves reserved revoked
  dispatch : Moves reserved dispatched

data CmcWrite (s : CmcStore) : CmcStore → Type 0 where
  keep : CmcWrite s s
  book :
      (digest nonce : String)
      → any (conflicts digest nonce) s ≡ false
      → CmcWrite s (record { request_digest = digest; nonce = nonce; cmc_status = reserved } ∷ s)
  change :
      (test : CmcRequest → Bool) (to : CmcStatus)
      → ((r : CmcRequest) → test r ≡ true → Moves r.cmc_status to)
      → CmcWrite s (update_where test (set_cmc_status to) s)

is_reserved-eq : (x : CmcStatus) → is_reserved x ≡ true → x ≡ reserved
is_reserved-eq reserved h = refl
is_reserved-eq dispatched h = cc
is_reserved-eq succeeded h = cc
is_reserved-eq rejected h = cc
is_reserved-eq revoked h = cc
is_reserved-eq unknown h = cc

is_dispatched-eq : (x : CmcStatus) → is_dispatched x ≡ true → x ≡ dispatched
is_dispatched-eq reserved h = cc
is_dispatched-eq dispatched h = refl
is_dispatched-eq succeeded h = cc
is_dispatched-eq rejected h = cc
is_dispatched-eq revoked h = cc
is_dispatched-eq unknown h = cc

both_right : (x y : Bool) → (x && y) ≡ true → y ≡ true
both_right x y h = ground arith

move_reserved-CmcWrite :
    (digest : String) (to : CmcStatus) (s : CmcStore)
    → Moves reserved to
    → CmcWrite s (
        if nat_eq (count_if (reserved_as digest) s) 1
        then update_where (reserved_as digest) (set_cmc_status to) s
        else s)
move_reserved-CmcWrite digest to s legal =
    elim (Bool-cases (nat_eq (count_if (reserved_as digest) s) 1)) [
      | inl one ↦ rw one (
          change (reserved_as digest) to (λ r sel.
            rw (is_reserved-eq r.cmc_status (both_right (r.request_digest == digest) _ sel)) legal))
      | inr other ↦ rw other keep
    ]

move_reserved-state :
    (digest : String) (to : CmcStatus) (e : ActiveRequestViolation) (s : CmcStore)
    → (move_reserved digest to e s).0 ≡ (
        if nat_eq (count_if (reserved_as digest) s) 1
        then update_where (reserved_as digest) (set_cmc_status to) s
        else s)
unfolding move_reserved
move_reserved-state digest to e s = elim (Bool-cases (nat_eq (count_if (reserved_as digest) s) 1)) [
  | inl one ↦ rw one refl
  | inr other ↦ rw other refl
]

CmcCalls-CmcWrite : {s t : CmcStore} → CmcCalls s t → CmcWrite s t
unfolding open_cmc reserve_cmc revoke_cmc dispatch_cmc
CmcCalls-CmcWrite {s} opens =
    change (λ r. is_dispatched r.cmc_status) unknown
      (λ r sel. rw (is_dispatched-eq r.cmc_status sel) lose)
CmcCalls-CmcWrite {s} (reserves digest nonce) = elim (Bool-cases (digest == "" || nonce == "")) [
  | inl blank ↦ rw blank keep
  | inr labelled ↦ rw labelled elim (Bool-cases (any (conflicts digest nonce) s)) [
    | inl taken ↦ rw taken keep
    | inr free ↦ rw free (book digest nonce free)
  ]
]
CmcCalls-CmcWrite {s} (revokes digest) =
    rw (move_reserved-state digest revoked not_revocable s)
      (move_reserved-CmcWrite digest revoked s revoke)
CmcCalls-CmcWrite {s} (dispatches digest) =
    rw (move_reserved-state digest dispatched not_dispatchable s)
      (move_reserved-CmcWrite digest dispatched s dispatch)

CmcHistory_induction :
    (P : CmcStore → Type 0)
    → ((s t : CmcStore) → CmcWrite s t → P s → P t)
    → {s t : CmcStore} → CmcHistory s t
    → P s
    → P t
CmcHistory_induction P keeps start h = h
CmcHistory_induction P keeps (and_call {t = t} {u = u} hist call) h =
    keeps t u (CmcCalls-CmcWrite call) (CmcHistory_induction P keeps hist h)

-- No request digest and no nonce has two rows.
abbrev pub IsSingleUse : CmcStore → Type 0
IsSingleUse s =
    ((digest : String) → count_if (λ r. r.request_digest == digest) s ≤ 1)
    × ((nonce : String) → count_if (λ r. r.nonce == nonce) s ≤ 1)

any_wider :
    (test wide : CmcRequest → Bool)
    → ((r : CmcRequest) → test r ≡ true → wide r ≡ true)
    → (s : CmcStore) → any wide s ≡ false
    → any test s ≡ false
unfolding any
any_wider test wide h [] none_found = refl
any_wider test wide h (r ∷ s) none_found = ground (arith, h r, any_wider test wide h s)

book_one :
    (key : CmcRequest → String) (x k : String) (s : CmcStore)
    → count_if (λ r. key r == x) s ≡ 0
    → count_if (λ r. key r == k) s ≤ 1
    → (if x == k then suc (count_if (λ r. key r == k) s) else count_if (λ r. key r == k) s) ≤ 1
book_one key x k s free old = elim (Bool-cases (x == k)) [
  | inl e ↦
      let same : x ≡ k = (eq_iff x k).0 e in
      let gone : count_if (λ r. key r == k) s ≡ 0 = rw (← same) free in rw (e, gone) (omega arith)
  | inr e ↦ rw e old
]

Write-IsSingleUse : (s t : CmcStore) → CmcWrite s t → IsSingleUse s → IsSingleUse t
unfolding count_if
Write-IsSingleUse s t keep h = h
Write-IsSingleUse s t (book digest nonce free) h =
    let no_digest =
      count_if_of_any (λ r. r.request_digest == digest) s
        (any_wider (λ r. r.request_digest == digest) (conflicts digest nonce) (λ r e. ground arith)
          s free) in
    let no_nonce =
      count_if_of_any (λ r. r.nonce == nonce) s
        (any_wider (λ r. r.nonce == nonce) (conflicts digest nonce) (λ r e. ground arith) s free) in
    (
      λ d. book_one (λ r. r.request_digest) digest d s no_digest (h.0 d),
      λ n. book_one (λ r. r.nonce) nonce n s no_nonce (h.1 n),
    )
Write-IsSingleUse s t (change test to moves) h = (
  λ d. omega (
    arith,
    h.0 d,
    count_if-update_where (λ r. r.request_digest == d) test (set_cmc_status to) (λ r sel e. e) s,
  ),
  λ n. omega (
    arith,
    h.1 n,
    count_if-update_where (λ r. r.nonce == n) test (set_cmc_status to) (λ r sel e. e) s,
  ),
)

-- In a store where no request digest and no nonce has two rows, this stays so, whatever calls and
-- restarts follow.
pub CmcHistory-IsSingleUse : {s t : CmcStore} → CmcHistory s t → IsSingleUse s → IsSingleUse t
CmcHistory-IsSingleUse = CmcHistory_induction IsSingleUse Write-IsSingleUse

abbrev pub cmc_key : CmcRequest → String
cmc_key r = r.request_digest

find-conflict :
    (digest nonce : String) (r : CmcRequest) (s : CmcStore)
    → find cmc_key digest s ≡ some r
    → any (conflicts digest nonce) s ≡ true
unfolding find any
find-conflict digest nonce r [] found = cc
find-conflict digest nonce r (x ∷ s) found = ground (arith, find-conflict digest nonce r s)

-- A status that no UPDATE of the source selects.
abbrev pub is_closed : CmcStatus → Bool
is_closed reserved = false
is_closed dispatched = false
is_closed _ = true

moves_open : {x y : CmcStatus} → Moves x y → is_closed x ≡ false
moves_open lose = refl
moves_open revoke = refl
moves_open dispatch = refl

Write-closed :
    (digest : String) (r : CmcRequest)
    → is_closed r.cmc_status ≡ true
    → (s t : CmcStore) → CmcWrite s t
    → find cmc_key digest s ≡ some r
    → find cmc_key digest t ≡ some r
unfolding find
Write-closed digest r closed s t keep h = h
Write-closed digest r closed s t (book d n free) h =
    ground (arith, find-conflict digest n r s, eq_iff d digest)
Write-closed digest r closed s t (change test to moves) h =
    let open_row : (b : CmcRequest) → test b ≡ true → is_closed b.cmc_status ≡ false =
      λ b sel. moves_open (moves b sel) in
    ground (
      arith,
      find-update_where cmc_key test (set_cmc_status to) (λ b sel. refl) digest s,
      open_row r,
    )

-- A CMC request that was revoked, or whose outcome is unknown or settled, keeps its row through any
-- calls and restarts: it is never reserved or dispatched again.
pub CmcHistory-closed :
    (digest : String) (r : CmcRequest) {s t : CmcStore}
    → is_closed r.cmc_status ≡ true
    → CmcHistory s t
    → find cmc_key digest s ≡ some r
    → find cmc_key digest t ≡ some r
CmcHistory-closed digest r closed =
    CmcHistory_induction (λ s. find cmc_key digest s ≡ some r) (Write-closed digest r closed)
