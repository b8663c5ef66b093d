-- ===== src/Charter/Execute/Settled.antt =====
-- How `execute` ends: the state that each outcome of the transport leaves, and what an answer means.
use sentinel_security_platfo.Base.{
  sym, ap, ◌∙◌, ℕ, String, ◌≤◌, ◌<◌, ◌≡◌, refl, ◌≢◌, ◌⊎◌, inl, inr, true, false, Option, none, some,
  List, ok, err, ◌==◌, eq_iff, arith, Bool-cases, Result-cases, ltb, length,
}
use sentinel_security_platfo.Base.Table.{find-update}
use sentinel_security_platfo.Charter.Spec.{
  CharterRequestError, Checked, RequestSpec, CharterApproval, validate_spec, mint_failed,
  outcome_unknown, invalid_transport, over_cap,
}
use sentinel_security_platfo.Charter.Store.{
  RequestState, dispatched, unknown, terminal, RequestRow, RequestStore, request_state,
  find_request, write_state, set_state, row_id, mark_unknown,
}
use sentinel_security_platfo.Charter.Store.Moves.{request_state-write_state}
use sentinel_security_platfo.Charter.Guard.{bytes, not_bytes}
use sentinel_security_platfo.Charter.Guard.Media.{Text}
use sentinel_security_platfo.Charter.Execute.{
  Executor, Outcome, Receipt, Io, Status, int, negative, not_int, Reply, raised, not_an_observation,
  observation, response_receipt, status_matches_policy, conclude, receive, send, execute, after,
  response_cap,
}
use sentinel_security_platfo.Charter.Execute.Stages.{
  IsCleared, IsRefused, in_flight, state-in_flight, cleared-act, act-cases, mark_unknown-dispatched,
  give_up-dispatched, terminalize_response-dispatched,
}

abbrev row_receipt : Option RequestRow → Option String
row_receipt none = none
row_receipt (some r) = r.receipt_digest

-- The receipt digest on a request's row.
unfoldable pub receipt_of : String → RequestStore → Option String
unfolding find_request
receipt_of i s = row_receipt (find_request i s)

-- A request in flight that is settled in some state, with a receipt or none.
abbrev IsSettled : String → RequestState → Checked Receipt → Outcome → Type 0
IsSettled i state result o = (request_state i o.store ≡ some state) × (o.result ≡ result)

-- The end that each outcome of the transport has: an answer of at most the cap is settled with its
-- receipt, a failed mint ends the request, and every other outcome is unknown.
abbrev pub Ends : Executor → RequestSpec → Option String → Reply → Outcome → Type 0
Ends x spec none reply o = IsSettled spec.request_id terminal (err mint_failed) o
Ends x spec (some token) raised o = IsSettled spec.request_id unknown (err outcome_unknown) o
Ends x spec (some token) not_an_observation o =
    IsSettled spec.request_id unknown (err invalid_transport) o
Ends x spec (some token) (observation status not_bytes types) o =
    IsSettled spec.request_id unknown (err over_cap) o
Ends x spec (some token) (observation status (bytes body) types) o =
    (response_cap < length body → IsSettled spec.request_id unknown (err over_cap) o)
    × (length body ≤ response_cap
        → IsSettled spec.request_id terminal (conclude x spec status body types) o
          × (receipt_of spec.request_id o.store
              ≡ some (response_receipt x spec.request_id status body)))

module _ (x : Executor) (spec : RequestSpec) (s : RequestStore)
    (flying : request_state spec.request_id s ≡ some dispatched) where
  written :
      (state : RequestState) (receipt : Option String)
      → request_state spec.request_id (write_state spec.request_id state receipt x.settled_at s)
        ≡ some state
  written state receipt = ground (
    arith,
    flying,
    request_state-write_state spec.request_id spec.request_id state receipt x.settled_at s,
    eq_iff spec.request_id spec.request_id,
  )

  written_receipt :
      (state : RequestState) (d : String)
      → receipt_of spec.request_id (write_state spec.request_id state (some d) x.settled_at s)
        ≡ some d
  unfolding receipt_of write_state request_state
  written_receipt state d = ground (
    arith,
    flying,
    find-update row_id (set_state state (some d)) (λ r. refl) spec.request_id spec.request_id
        s.requests,
    eq_iff spec.request_id spec.request_id,
  )

  lost-IsSettled :
      (e : CharterRequestError) (io : List Io)
      → IsSettled spec.request_id unknown
          (err e)
          (after (mark_unknown spec.request_id x.settled_at s) io (err e))
  lost-IsSettled e io =
      rw (mark_unknown-dispatched spec.request_id x.settled_at s flying)
        (written unknown none, refl)

  receive-Ends :
      (token : String) (io : List Io) (reply : Reply)
      → Ends x spec (some token) reply (receive x spec io s reply)
  unfolding receive
  receive-Ends token io raised = lost-IsSettled outcome_unknown io
  receive-Ends token io not_an_observation = lost-IsSettled invalid_transport io
  receive-Ends token io (observation status not_bytes types) = lost-IsSettled over_cap io
  receive-Ends token io (observation status (bytes body) types) =
      elim (Bool-cases (ltb response_cap (length body))) [
        | inl e ↦ rw e (λ over. lost-IsSettled over_cap io, λ within. absurd (ground arith))
        | inr e ↦
            let d = response_receipt x spec.request_id status body in
            rw (e, terminalize_response-dispatched spec.request_id d x.settled_at s flying)
              (
                λ over. absurd (ground arith),
                λ within. ((written terminal (some d), refl), written_receipt terminal d),
              )
      ]

  send-Ends : (m : Option String) → Ends x spec m x.reply (send x spec s m)
  unfolding send
  send-Ends none =
      rw (give_up-dispatched spec.request_id x.settled_at s flying) (written terminal none, refl)
  send-Ends (some token) = receive-Ends token _ x.reply

-- How a cleared call of `execute` ends, as it runs by itself: the request is terminal with the
-- receipt of the response if an answer of at most 64 KiB came back, terminal without one if no
-- token was minted, and otherwise unknown.
pub execute-Ends :
    (x : Executor) (spec : RequestSpec) (a : CharterApproval) (s : RequestStore)
    → IsCleared x spec a s
    → x.api_key ≢ ""
    → Ends x spec x.mint x.reply (execute x spec a s)
unfolding execute
execute-Ends x spec a s g key =
    rw (g.valid, execute, has_key x.api_key key, cleared-act x spec a s g)
      (send-Ends x spec (in_flight x spec a s) (state-in_flight x spec a s) x.mint)
  where
    has_key : (k : String) → k ≢ "" → (k == "") ≡ false
    has_key k h = ground (arith, eq_iff k "")

-- The status that a method may come back with.
abbrev pub IsExpected : String → ℕ → Type 0
IsExpected method n =
    ((method ≡ "GET") × (200 ≤ n) × (n < 300)) ⊎ ((method ≡ "POST") × (400 ≤ n) × (n < 500))

pub status-IsExpected :
    (method : String) (n : ℕ) → status_matches_policy method (int n) ≡ true → IsExpected method n
unfolding status_matches_policy
status-IsExpected method n h = ground (arith, eq_iff method "GET", eq_iff method "POST")

conclude-ok :
    (x : Executor) (spec : RequestSpec) (status : Status) (body : List ℕ) (types : List Text)
    (r : Receipt)
    → conclude x spec status body types ≡ ok r
    → (n : ℕ) × (status ≡ int n) × IsExpected spec.method n
unfolding conclude
conclude-ok x spec (int n) body types r h =
    elim (Bool-cases (status_matches_policy spec.method (int n))) [
      | inl e ↦ (n, refl, status-IsExpected spec.method n e)
      | inr e ↦ absurd (ground arith)
    ]
conclude-ok x spec negative body types r h = cc
conclude-ok x spec not_int body types r h = cc

-- What a receipt that `execute` returns vouches for.
pub record IsAnswered (x : Executor) (spec : RequestSpec) (a : CharterApproval) (s : RequestStore)
    : Type 0 where
  pub cleared : IsCleared x spec a s
  pub n : ℕ
  pub body : List ℕ
  pub types : List Text
  pub reply : x.reply ≡ observation (int n) (bytes body) types
  pub within : length body ≤ response_cap
  pub expected : IsExpected spec.method n
  pub settled : request_state spec.request_id (execute x spec a s).store ≡ some terminal

execute-cases :
    (x : Executor) (spec : RequestSpec) (a : CharterApproval) (s : RequestStore)
    → (IsCleared x spec a s × (x.api_key ≢ "")) ⊎ IsRefused x spec a s (execute x spec a s)
unfolding execute
execute-cases x spec a s = elim (Result-cases (validate_spec x.platform spec)) [
  | inr (e, h) ↦ inr (rw (h, execute) (refl, λ r k. cc))
  | inl (u, h) ↦ elim (Bool-cases (x.api_key == "")) [
    | inl missing ↦ inr (rw (h, execute, missing) (refl, λ r k. cc))
    | inr key ↦ elim (act-cases x spec a s) [
      | inl g ↦ inl (g, ground (arith, eq_iff x.api_key ""))
      | inr refused ↦ inr (rw (h, execute, key) refused)
    ]
  ]
]

-- An end with a receipt is that of an answer within the cap.
record IsAnswer (x : Executor) (spec : RequestSpec) (reply : Reply) (o : Outcome) : Type 0 where
  n : ℕ
  body : List ℕ
  types : List Text
  came : reply ≡ observation (int n) (bytes body) types
  within : length body ≤ response_cap
  expected : IsExpected spec.method n
  settled : request_state spec.request_id o.store ≡ some terminal

Ends-ok :
    (x : Executor) (spec : RequestSpec) (m : Option String) (reply : Reply) (o : Outcome)
    (r : Receipt)
    → Ends x spec m reply o
    → o.result ≡ ok r
    → IsAnswer x spec reply o
Ends-ok x spec none reply o r e h = absurd (ground (arith, e.1))
Ends-ok x spec (some token) raised o r e h = absurd (ground (arith, e.1))
Ends-ok x spec (some token) not_an_observation o r e h = absurd (ground (arith, e.1))
Ends-ok x spec (some token) (observation status not_bytes types) o r e h =
    absurd (ground (arith, e.1))
Ends-ok x spec (some token) (observation status (bytes body) types) o r e h =
    elim (Bool-cases (ltb response_cap (length body))) [
      | inl over ↦ let settled = (e.0 (ground arith)).1 in absurd (ground (arith, settled))
      | inr fits ↦
          let within : length body ≤ response_cap = ground arith in
          let ((settled, result), receipt) = e.1 within in
          let (n, is_int, expected) = conclude-ok x spec status body types r (sym result ∙ h) in
          record {
            n = n;
            body = body;
            types = types;
            came = ap (λ z. observation z (bytes body) types) is_int;
            within = within;
            expected = expected;
            settled = settled;
          }
    ]

-- A receipt that `execute` returns means that the request was cleared, that the transport answered
-- with at most 64 KiB and a status that its method expects, and that the request is terminal.
pub execute-ok :
    (x : Executor) (spec : RequestSpec) (a : CharterApproval) (s : RequestStore) (r : Receipt)
    → (execute x spec a s).result ≡ ok r
    → IsAnswered x spec a s
execute-ok x spec a s r h = elim (execute-cases x spec a s) [
  | inr refused ↦ absurd (refused.1 r h)
  | inl (g, key) ↦
      let answer =
        Ends-ok x spec x.mint x.reply (execute x spec a s) r (execute-Ends x spec a s g key) h in
      record {
        cleared = g;
        n = answer.n;
        body = answer.body;
        types = answer.types;
        reply = answer.came;
        within = answer.within;
        expected = answer.expected;
        settled = answer.settled;
      }
]
