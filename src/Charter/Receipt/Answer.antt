-- ===== src/Charter/Receipt/Answer.antt =====
-- From an answer of `execute` to the sealed receipt contract.
use sentinel_security_platfo.Base.{
  ℕ, ◌≤◌, String, ◌≡◌, ◌≢◌, refl, sym, ◌∙◌, inl, inr, true, false, Option, none, some, List, ok,
  length, is_digest, arith, ◌==◌, Bool-cases, eq_iff,
}
use mathlib.Core.Path.{subst}
use sentinel_security_platfo.Base.Json.{Json}
use sentinel_security_platfo.Charter.Spec.{RequestSpec, CharterApproval, validate_spec}
use sentinel_security_platfo.Charter.Spec.Validation.{validate_spec_iff}
use sentinel_security_platfo.Charter.Store.{RequestStore}
use sentinel_security_platfo.Charter.Guard.{
  ResponsePreview, accepted, bytes, guard_response_preview, quarantined,
}
use sentinel_security_platfo.Charter.Guard.Media.{Text}
use sentinel_security_platfo.Charter.Execute.{
  Executor, Outcome, Receipt, Reply, Status, observation, post_receipt, conclude, execute, int,
  preview_result, response_cap, response_receipt, status_matches_policy,
}
use sentinel_security_platfo.Charter.Execute.Settled.{
  Ends, execute-Ends, execute-ok, status-IsExpected,
}
use sentinel_security_platfo.Charter.Receipt.{validate_adapter_result}
use sentinel_security_platfo.Charter.Receipt.Sealed.{
  IsDict, IsMetadata, metadata, posted-ok, previewed-ok, quarantined-ok,
}
use sentinel_security_platfo.Charter.Receipt.Counted.{all_counts-IsCounted}
use sentinel_security_platfo.Charter.Receipt.Guarded.{
  IsScanning, IsSealable, guard_response_preview-IsSealable,
}

sealed-preview :
    (spec : RequestSpec) (n size : ℕ) (digest : String) (g : ResponsePreview) (value : Json)
    → IsMetadata spec (metadata spec.request_id n size digest)
    → spec.method ≡ "GET"
    → IsSealable g
    → IsDict (preview_result spec n size digest g) value
    → validate_adapter_result value spec ≡ ok value
sealed-preview spec n size digest (accepted preview truncated) value m get_ (short, small)
      (text, same, dict) =
    rw dict (
      previewed-ok spec (metadata spec.request_id n size digest) text truncated m get_
        (rw same short) (rw same small))
sealed-preview spec n size digest (quarantined counts) value m get_ (some_, counted) dict =
    rw dict (
      quarantined-ok spec (metadata spec.request_id n size digest) counts m get_ some_
        (all_counts-IsCounted counts counted))

conclude-sealed :
    (x : Executor) (spec : RequestSpec) (n : ℕ) (body : List ℕ) (types : List Text) (r : Receipt)
    (value : Json)
    → ((i : String) (status : Status) (b : List ℕ) → is_digest (x.receipt_hash i status b) ≡ true)
    → IsScanning x.scanner
    → spec.request_id ≢ ""
    → length body ≤ response_cap
    → conclude x spec (int n) body types ≡ ok r
    → IsDict r value
    → validate_adapter_result value spec ≡ ok value
unfolding conclude response_receipt
conclude-sealed x spec n body types r value digests scanning labelled within h dict =
    elim (Bool-cases (status_matches_policy spec.method (int n))) [
      | inr off ↦ absurd (ground (arith, off, h))
      | inl on ↦
          let digest : String = response_receipt x spec.request_id (int n) body in
          let m : IsMetadata spec (metadata spec.request_id n (length body) digest) = record {
            same = refl;
            labelled = labelled;
            expected = status-IsExpected spec.method n on;
            bounded = within;
            digest = digests spec.request_id (int n) _;
          } in
          elim (Bool-cases (spec.method == "POST")) [
            | inl post ↦
                let shape : post_receipt spec.request_id n (length body) digest ≡ r =
                  ground (arith, on, post, h) in
                rw (subst (λ z. IsDict z value) (sym shape) dict) (
                  posted-ok spec (metadata spec.request_id n (length body) digest) m
                    ((eq_iff spec.method "POST").0 post))
            | inr other ↦
                let g = guard_response_preview x.scanner (bytes body) types in
                let shape : preview_result spec n (length body) digest g ≡ r =
                  ground (arith, on, other, h) in
                let get_ : spec.method ≡ "GET" =
                  ground (arith, m.expected, other, eq_iff spec.method "POST") in
                sealed-preview spec n (length body) digest g value m get_
                  (guard_response_preview-IsSealable x.scanner body types scanning within)
                  (subst (λ z. IsDict z value) (sym shape) dict)
          ]
    ]

-- An end with a receipt is what `conclude` makes of the observation.
concluded :
    (x : Executor) (spec : RequestSpec) (mint : Option String) (reply : Reply) (o : Outcome)
    (r : Receipt) (n : ℕ) (body : List ℕ) (types : List Text)
    → Ends x spec mint reply o
    → reply ≡ observation (int n) (bytes body) types
    → o.result ≡ ok r
    → length body ≤ response_cap
    → conclude x spec (int n) body types ≡ ok r
concluded x spec none reply o r n body types ends came h within = absurd (ground (arith, ends.1, h))
concluded x spec (some token) reply o r n body types ends came h within =
    let here = subst (λ z. Ends x spec (some token) z o) came ends in sym ((here.1 within).0.1) ∙ h

not_blank : (k : String) → (k == "") ≡ false → k ≢ ""
not_blank k h = ground (arith, eq_iff k "")

-- The result that an answered request has.
execute-concludes :
    (x : Executor) (spec : RequestSpec) (a : CharterApproval) (s : RequestStore) (r : Receipt)
    (h : (execute x spec a s).result ≡ ok r)
    → let answer = execute-ok x spec a s r h in
      conclude x spec (int answer.n) answer.body answer.types ≡ ok r
unfolding execute
execute-concludes x spec a s r h =
    let answer = execute-ok x spec a s r h in
    elim (Bool-cases (x.api_key == "")) [
      | inl none_ ↦ absurd (no_key answer.cleared.valid none_ h)
      | inr key ↦
          concluded x spec x.mint x.reply (execute x spec a s) r answer.n answer.body answer.types
            (execute-Ends x spec a s answer.cleared (not_blank x.api_key key)) answer.reply h
            answer.within
    ]
  where
    no_key :
        validate_spec x.platform spec ≡ ok tt
        → (x.api_key == "") ≡ true
        → (execute x spec a s).result ≡ ok r
        → ⊥
    no_key valid none_ = rw (execute, valid, none_) λ h. ground (arith, h)

-- A receipt that `execute` returns, written as a dictionary, is accepted by the validator of the
-- sealed receipt contract, which returns it as it is: for a receipt hash that is a sha256 digest,
-- and a scanner that finds known classes, and in all fewer than 65,534 of them, in a response.
pub execute-validated :
    (x : Executor) (spec : RequestSpec) (a : CharterApproval) (s : RequestStore) (r : Receipt)
    (value : Json)
    → ((i : String) (status : Status) (b : List ℕ) → is_digest (x.receipt_hash i status b) ≡ true)
    → IsScanning x.scanner
    → (execute x spec a s).result ≡ ok r
    → IsDict r value
    → validate_adapter_result value spec ≡ ok value
execute-validated x spec a s r value digests scanning h dict =
    let answer = execute-ok x spec a s r h in
    let (c, admissible) = (validate_spec_iff x.platform spec).0 answer.cleared.valid in
    conclude-sealed x spec answer.n answer.body answer.types r value digests scanning
      admissible.has_request_id answer.within (execute-concludes x spec a s r h) dict
