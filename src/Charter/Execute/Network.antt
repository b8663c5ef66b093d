-- ===== src/Charter/Execute/Network.antt =====
-- What `execute` lets out: at most one mint and one request, and only for a cleared request.
use sentinel_security_platfo.Base.{
  String, ◌≡◌, refl, ◌≢◌, ◌⊎◌, inl, inr, true, Option, none, some, List, [], ◌∷◌, ok, err, ◌==◌,
  eq_iff, arith, Bool-cases, Result-cases, ltb, length, All, if◌then◌else◌,
}
use Prim.Native.String.{◌++◌}
use sentinel_security_platfo.Charter.Spec.{
  Checked, RequestSpec, CharterApproval, validate_spec, charter_origin, charter_search_path,
  charter_basket_path,
}
use sentinel_security_platfo.Charter.Spec.Validation.{IsCharterTarget, validate_spec-target}
use sentinel_security_platfo.Charter.Store.{RequestStore, request_state, is_revoked}
use sentinel_security_platfo.Charter.Guard.{bytes, not_bytes}
use sentinel_security_platfo.Charter.Execute.{
  Executor, Io, Request, minted, sent, Reply, raised, not_an_observation, observation, request_of,
  receive, send, act, execute, after, response_cap,
}
use sentinel_security_platfo.Charter.Execute.Stages.{IsCleared, in_flight, cleared-act, act-cases}

after-io : (m : RequestStore × Checked Unit) (io : List Io) (r : Checked _) → (after m io r).io ≡ io
after-io (t, ok u) io r = refl
after-io (t, err e) io r = refl

receive-io :
    (x : Executor) (spec : RequestSpec) (io : List Io) (s : RequestStore) (reply : Reply)
    → (receive x spec io s reply).io ≡ io
unfolding receive
receive-io x spec io s raised = after-io _ io _
receive-io x spec io s not_an_observation = after-io _ io _
receive-io x spec io s (observation status not_bytes types) = after-io _ io _
receive-io x spec io s (observation status (bytes body) types) =
    elim (Bool-cases (ltb response_cap (length body))) [
      | inl e ↦ rw e (after-io _ io _)
      | inr e ↦ rw e (after-io _ io _)
    ]

List-cases {ℓ} : {A : Type ℓ} (xs : List A) → (xs ≡ []) ⊎ (xs ≢ [])
List-cases [] = inl refl
List-cases (x ∷ xs) = inr (λ e. cc)

-- The calls that a cleared request makes: a mint, and after its success the one request.
abbrev pub Sends : Executor → RequestSpec → List Io → Type 0
Sends x spec io =
    ((x.mint ≡ none) × (io ≡ minted ∷ []))
    ⊎ ((token : String) × (x.mint ≡ some token)
        × (io ≡ minted ∷ sent (request_of x spec token) ∷ []))

send-Sends :
    (x : Executor) (spec : RequestSpec) (s : RequestStore) (m : Option String)
    → x.mint ≡ m
    → Sends x spec (send x spec s m).io
unfolding send
send-Sends x spec s none e = inl (e, after-io _ _ _)
send-Sends x spec s (some token) e = inr (token, e, receive-io x spec _ s x.reply)

-- A request to the charter service: what its url, method and body are.
abbrev pub IsCharterRequest : String → Request → Type 0
IsCharterRequest query r =
    ((r.method ≡ "GET")
      × (((query ≡ "") × (r.url ≡ charter_origin ++ charter_search_path))
          ⊎ ((query ≢ "") × (r.url ≡ charter_origin ++ (charter_search_path ++ ("?" ++ query)))))
      × (r.body ≡ ""))
    ⊎ ((r.method ≡ "POST") × (r.url ≡ charter_origin ++ charter_basket_path))

abbrev pub IsCharterCall : String → Io → Type 0
IsCharterCall query minted = Unit
IsCharterCall query (sent r) = IsCharterRequest query r

search_url :
    (path query : String)
    → path ≡ charter_search_path
    → ((query ≡ "")
        × (charter_origin ++ (path ++ (if query == "" then "" else "?" ++ query))
            ≡ charter_origin ++ charter_search_path))
      ⊎ ((query ≢ "")
          × (charter_origin ++ (path ++ (if query == "" then "" else "?" ++ query))
              ≡ charter_origin ++ (charter_search_path ++ ("?" ++ query))))
search_url path query e = elim (Bool-cases (query == "")) [
  | inl blank ↦ inl ((eq_iff query "").0 blank, rw (blank, e) refl)
  | inr given ↦ inr (ground (arith, given, eq_iff query ""), rw (given, e) refl)
]

request_of-IsCharterRequest :
    (x : Executor) (spec : RequestSpec) (token : String)
    → IsCharterTarget spec.method spec.path spec.query spec.body
    → IsCharterRequest spec.query (request_of x spec token)
unfolding request_of
request_of-IsCharterRequest x spec token (inl (get, path, body)) =
    inl (get, search_url spec.path spec.query path, body)
request_of-IsCharterRequest x spec token (inr (post, path, query)) =
    inr (post, rw (path, query) refl)

module _ (x : Executor) (spec : RequestSpec) (a : CharterApproval) (s : RequestStore) where
  abbrev pub UsesNetwork : List Io → Type 0
  UsesNetwork io = (io ≡ []) ⊎ (IsCleared x spec a s × (x.api_key ≢ "") × Sends x spec io)

  act-UsesNetwork : x.api_key ≢ "" → UsesNetwork (act x spec a s).io
  act-UsesNetwork key = elim (act-cases x spec a s) [
    | inr refused ↦ inl refused.0
    | inl g ↦ inr (
      g,
      key,
      rw (cleared-act x spec a s g) (send-Sends x spec (in_flight x spec a s) x.mint refl),
    )
  ]

  -- `execute` stays off the network, or the request was cleared and an API key is there: the spec
  -- is admissible, the approval verified and fresh, the request new, not revoked and within its
  -- quotas. Then it mints one token and, if that succeeds, sends the spec's request once.
  pub execute-UsesNetwork : UsesNetwork (execute x spec a s).io
  unfolding execute
  execute-UsesNetwork = elim (Result-cases (validate_spec x.platform spec)) [
    | inr (e, h) ↦ rw (h, execute) (inl refl)
    | inl (u, h) ↦
        rw (h, execute)
          elim (Bool-cases (x.api_key == "")) [
            | inl missing ↦ rw missing (inl refl)
            | inr key ↦ rw key (act-UsesNetwork (ground (arith, eq_iff x.api_key "")))
          ]
  ]

  execute-cleared : (execute x spec a s).io ≢ [] → IsCleared x spec a s
  execute-cleared h = elim execute-UsesNetwork [ inl e ↦ absurd (h e) | inr (g, key, sends) ↦ g ]

  -- A request that the store knows already, in whatever state, is not sent again, whatever
  -- approval comes with it; nor is one that was revoked.
  pub execute-io_known :
      (request_state spec.request_id s ≢ none) ⊎ (is_revoked spec.request_id s ≡ true)
      → (execute x spec a s).io ≡ []
  unfolding request_state
  execute-io_known known = elim (List-cases (execute x spec a s).io) [
    | inl e ↦ e
    | inr used ↦ let g = execute-cleared used in absurd (not_known g known)
  ]
    where
      not_known :
          IsCleared x spec a s
          → ¬ ((request_state spec.request_id s ≢ none) ⊎ (is_revoked spec.request_id s ≡ true))
      not_known g (inl k) = k (rw g.new)
      not_known g (inr r) = ground (arith, g.live, r)

  -- What goes out besides the mint is a request to one of the two charter urls: the GET of the
  -- search at the charter origin, with the spec's query after a "?" if it has one and no body, or
  -- the POST to the basket there, with no query.
  pub execute-target : All (IsCharterCall spec.query) (execute x spec a s).io
  execute-target = elim execute-UsesNetwork [
    | inl e ↦ rw e tt
    | inr (g, key, inl (unminted, e)) ↦ rw e (tt, tt)
    | inr (g, key, inr (token, minted_, e)) ↦
        let target = validate_spec-target x.platform spec g.valid in
        rw e (tt, (request_of-IsCharterRequest x spec token target, tt))
  ]
