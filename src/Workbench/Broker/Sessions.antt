-- ===== src/Workbench/Broker/Sessions.antt =====
-- workbench/host_broker.py: `bootstrap`, `cors_headers` and `_authorize_session`, the browser's side
-- of the broker.
use sentinel_security_platfo.Base.{
  ℕ, String, Bool, true, false, not, ◌&&◌, ◌||◌, Option, none, some, List, [], ◌∷◌, ok, err, ◌>>=◌,
  ◌>>◌, require, commit, rollback, run_txn, all, codes, occurs_in, is_some, leb, ◌+◌, ◌*◌, map,
  ◌==◌, if◌then◌else◌,
}
use sentinel_security_platfo.Base.Json.{Fields, get, has_fields, is_in, is_string}
use sentinel_security_platfo.Base.Dict.{Dict, lookup, put, pop}
use sentinel_security_platfo.Workbench.Broker.{Broker, BrokerCall, Library, SessionState, and_then}
use sentinel_security_platfo.Workbench.Broker.Protocol.{
  Checked, other_origin, capability_in_url, capability_in_header, capability_in_referrer,
  not_json_content, bad_capability, capability_consumed, other_method, other_headers, no_session,
  bad_csrf, not_ascii,
}
use sentinel_security_platfo.Workbench.Broker.Config.{BrokerConfig, assert_origin}

-- The session of a browser; the cookie's text is made of the session id and the TTL.
pub record BrokerSession : Type 0 where
  pub session_id : String
  pub csrf_token : String
  pub max_age : ℕ

pub record BootstrapRequest : Type 0 where
  pub origin : Option String
  pub body : Fields
  pub request_target : String
  pub request_headers : Dict String

-- `secrets.compare_digest`, which refuses a text that is not ASCII.
unfoldable pub compare_digest : String → String → Checked Bool
unfolding all
compare_digest a b =
    if all (λ c. leb c 127) (codes a) && all (λ c. leb c 127) (codes b)
    then ok (a == b)
    else err not_ascii

unfoldable pub require_origin : BrokerConfig → Option String → Checked Unit
unfolding assert_origin
require_origin c origin =
    assert_origin origin >>= λ given. require (given == c.ui_origin) other_origin

unfoldable lowered_headers : (String → String) → Dict String → Dict String → Dict String
unfolding put
lowered_headers lower [] done = done
lowered_headers lower ((key, value) ∷ headers) done =
    lowered_headers lower headers (put (lower key) value done)

abbrev header_or_blank : Option String → String
header_or_blank none = ""
header_or_blank (some value) = value

abbrev is_value : String → Option String → Bool
is_value expected none = false
is_value expected (some value) = value == expected

unfoldable check_bootstrap : Library → BrokerConfig → BootstrapRequest → Checked Unit
unfolding require_origin occurs_in lowered_headers lookup has_fields get is_string
check_bootstrap l c r =
    let headers = lowered_headers l.lower r.request_headers [] in
    require_origin c r.origin
    >> require
        (not (
          occurs_in (codes "?") (codes r.request_target)
          || occurs_in (codes "#") (codes r.request_target)))
        capability_in_url
    >> require
        (not (
          is_some (lookup "x-startup-capability" headers)
          || is_some (lookup "authorization" headers)))
        capability_in_header
    >> require
        (not (
          occurs_in (codes c.startup_capability)
            (codes (header_or_blank (lookup "referer" headers)))))
        capability_in_referrer
    >> require (is_value "application/json" (lookup "content-type" headers)) not_json_content
    >> require
        (has_fields ("startup_capability" ∷ []) r.body
          && is_string c.startup_capability (get "startup_capability" r.body))
        bad_capability

-- The transaction on `broker_startup`.
unfoldable pub consume_startup : Library → BrokerConfig → Broker → BrokerCall Unit
unfolding is_in
consume_startup l c b =
    let digest = l.sha256 c.startup_capability in
    run_txn b (
      if is_in digest b.database.startups
      then rollback capability_consumed
      else commit
          (record b { database = record b.database { startups = digest ∷ b.database.startups } })
          tt)

unfoldable pub open_session :
    Library → BrokerConfig → ℕ → String → String → Broker → BrokerCall BrokerSession
unfolding put
open_session l c now id csrf b =
    let state : SessionState = record { csrf_token = csrf; expires_at = now + c.ttl * l.second } in
    (
      record b { memory = record b.memory { sessions = put id state b.memory.sessions } },
      ok record { session_id = id; csrf_token = csrf; max_age = c.ttl },
    )

-- `now`, `id` and `csrf`: the clock's reading and the two fresh tokens.
unfoldable pub bootstrap :
    Library
    → BrokerConfig
    → BootstrapRequest
    → ℕ
    → String
    → String
    → Broker
    → BrokerCall BrokerSession
unfolding check_bootstrap consume_startup open_session
bootstrap l c r now id csrf b =
    and_then (b, check_bootstrap l c r)
      λ _ b0. and_then (consume_startup l c b0) λ _ b1. open_session l c now id csrf b1

abbrev content_type : String
content_type = "content-type"

unfoldable texts_equal : List String → List String → Bool
texts_equal [] [] = true
texts_equal (x ∷ xs) (y ∷ ys) = x == y && texts_equal xs ys
texts_equal _ _ = false

-- The dictionary of headers that a preflight is answered with, in the source's order.
unfoldable cors_headers :
    Library → BrokerConfig → Option String → String → List String → Checked (List (String × String))
unfolding require_origin texts_equal
cors_headers l c origin method requested =
    let lowered = map l.lower requested in
    require_origin c origin
    >> require (method == "POST") other_method
    >> require
        (texts_equal lowered (content_type ∷ [])
          || texts_equal lowered (content_type ∷ "x-workbench-csrf" ∷ []))
        other_headers
    >> ok (
        ("Access-Control-Allow-Origin", c.ui_origin)
        ∷ ("Access-Control-Allow-Credentials", "true")
        ∷ ("Access-Control-Allow-Methods", "POST, OPTIONS")
        ∷ ("Access-Control-Allow-Headers", "content-type, x-workbench-csrf")
        ∷ ("Vary", "Origin")
        ∷ [])

abbrev pub is_live : ℕ → Option SessionState → Bool
is_live now none = false
is_live now (some s) = not (leb s.expires_at now)

unfoldable pub check_csrf : Option SessionState → String → Checked Unit
unfolding compare_digest
check_csrf none csrf = err no_session
check_csrf (some s) csrf = compare_digest s.csrf_token csrf >>= λ same. require same bad_csrf

unfoldable pub forget_session : String → Broker → Broker
unfolding pop
forget_session id b = record b { memory = record b.memory { sessions = pop id b.memory.sessions } }

-- A session that has expired is dropped.
unfoldable pub authorize_session :
    BrokerConfig → ℕ → Option String → String → String → Broker → BrokerCall Unit
unfolding require_origin lookup check_csrf forget_session
authorize_session c now origin id csrf b =
    let session = lookup id b.memory.sessions in
    and_then (b, require_origin c origin)
      λ _ b0.
        if is_live now session
        then (b0, check_csrf session csrf)
        else (forget_session id b0, err no_session)
