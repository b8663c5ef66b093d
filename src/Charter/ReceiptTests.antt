-- ===== src/Charter/ReceiptTests.antt =====
-- A receipt of the executor at the sealed receipt contract.
use sentinel_security_platfo.Base.{
  ℕ, String, ◌≡◌, refl, true, false, List, ok, codes, is_digest, arith,
}
use sentinel_security_platfo.Base.Json.{Json, object}
use sentinel_security_platfo.Base.Table.{find, update}
use sentinel_security_platfo.Charter.Spec.{validate_spec, purpose_for}
use sentinel_security_platfo.Charter.Approval.{verify}
use sentinel_security_platfo.Charter.Store.{empty_store}
use sentinel_security_platfo.Charter.Guard.{guard_response_preview}
use sentinel_security_platfo.Charter.Execute.{Executor, Receipt, Status, execute, preview_receipt}
use sentinel_security_platfo.Charter.Fixtures.{approval, executor, spec}
use sentinel_security_platfo.Charter.Receipt.{validate_adapter_result}
use sentinel_security_platfo.Charter.Receipt.Sealed.{metadata, preview_fields}
use sentinel_security_platfo.Charter.Receipt.Answer.{execute-validated}
use sentinel_security_platfo.Charter.Receipt.Guarded.{IsScanning}

abbrev hash : String
hash = "0123456789abcdef0123456789abcdef0123456789abcdef0123456789abcdef"

abbrev hashing : Executor
hashing = record executor { receipt_hash = λ i s b. hash }

hash-IsDigest : (i : String) (status : Status) (b : List ℕ) → is_digest hash ≡ true
unfolding is_digest
hash-IsDigest i status b = refl

hashing-IsScanning : IsScanning hashing.scanner
hashing-IsScanning body text within decoded = (tt, omega arith)

abbrev receipt : Receipt
receipt = preview_receipt "r1" 200 2 hash (codes "[]") false

abbrev receipt_json : Json
receipt_json = object (preview_fields (metadata "r1" 200 2 hash) "[]" false)

hashing-run : (execute hashing spec approval empty_store).result ≡ ok receipt
unfolding execute validate_spec purpose_for find verify update guard_response_preview
hashing-run = refl

execute-validated_example : validate_adapter_result receipt_json spec ≡ ok receipt_json
execute-validated_example =
    execute-validated hashing spec approval empty_store receipt receipt_json hash-IsDigest
      hashing-IsScanning hashing-run ("[]", refl, refl)
