-- ===== src/Workbench/Broker/Config.antt =====
-- workbench/host_broker.py: the checks of `HostBroker.__init__`.
use sentinel_security_platfo.Base.{
  ℕ, String, Bool, true, false, not, ◌&&◌, ◌||◌, Option, none, some, List, [], ◌∷◌, ok, err, ◌>>=◌,
  ◌>>◌, require, all, codes, starts_with, occurs_in, is_digest, text_length, leb, ◌==◌,
  if◌then◌else◌,
}
use sentinel_security_platfo.Base.Json.{is_in}
use sentinel_security_platfo.Workbench.Broker.Protocol.{
  Checked, inexact_origin, not_loopback, weak_capability, bad_digest, no_profile, no_pair,
  bad_commands, no_selection, bad_ttl, fixture_scan, b3_reading,
}

-- The constructor's arguments. A TTL below zero is refused as 0 is.
record Settings : Type 0 where
  pub ui_origin : Option String
  pub startup_capability : String
  pub config_digest : String
  pub allowed_profiles : List String
  pub allowed_pair_digests : List String
  pub session_ttl_seconds : ℕ
  pub allowed_commands : Option (List String)
  pub allowed_selection_manifest_digests : Option (List String)

pub record BrokerConfig : Type 0 where
  pub ui_origin : String
  pub startup_capability : String
  pub config_digest : String
  pub allowed_profiles : List String
  pub allowed_pair_digests : List String
  pub allowed_commands : List String
  pub allowed_selection_manifest_digests : List String
  pub ttl : ℕ

unfoldable pub assert_origin : Option String → Checked String
unfolding occurs_in starts_with
assert_origin none = err inexact_origin
assert_origin (some origin) =
    if origin == "null" || occurs_in (codes ",") (codes origin)
    then err inexact_origin
    else if starts_with (codes "http://127.0.0.1:") (codes origin)
    then ok origin
    else err not_loopback

abbrev is_empty : List String → Bool
is_empty [] = true
is_empty (x ∷ xs) = false

unfoldable default_commands : Option (List String) → List String
default_commands none = fixture_scan ∷ []
default_commands (some commands) = commands

unfoldable selection_digests : Option (List String) → List String
selection_digests none = []
selection_digests (some digests) = digests

unfoldable check_commands : List String → List String → Checked Unit
unfolding is_in all
check_commands commands selections =
    require
      (not (is_empty commands) && all (λ c. is_in c (fixture_scan ∷ b3_reading ∷ [])) commands)
      bad_commands
    >> require (all is_digest selections) bad_digest
    >> require (not (is_in b3_reading commands && is_empty selections)) no_selection

unfoldable configure : Settings → Checked BrokerConfig
unfolding assert_origin default_commands selection_digests check_commands all
configure s =
    let commands = default_commands s.allowed_commands in
    let selections = selection_digests s.allowed_selection_manifest_digests in
    assert_origin s.ui_origin >>= λ origin.
    require (leb 16 (text_length s.startup_capability)) weak_capability
    >> require (is_digest s.config_digest) bad_digest
    >> require (not (is_empty s.allowed_profiles) && all (λ p. not (p == "")) s.allowed_profiles)
        no_profile
    >> require (all is_digest s.allowed_pair_digests) bad_digest
    >> require (not (is_empty s.allowed_pair_digests)) no_pair
    >> check_commands commands selections
    >> require (leb 1 s.session_ttl_seconds) bad_ttl
    >> ok record {
      ui_origin = origin;
      startup_capability = s.startup_capability;
      config_digest = s.config_digest;
      allowed_profiles = s.allowed_profiles;
      allowed_pair_digests = s.allowed_pair_digests;
      allowed_commands = commands;
      allowed_selection_manifest_digests = selections;
      ttl = s.session_ttl_seconds;
    }
