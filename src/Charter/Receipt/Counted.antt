-- ===== src/Charter/Receipt/Counted.antt =====
-- The reason counts of a quarantine are those that the sealed contract knows.
use sentinel_security_platfo.Base.{
  ℕ, ◌+◌, ◌≤◌, String, ◌≡◌, refl, inl, inr, true, List, [], ◌∷◌, All, any, length, nat_eq, leb,
  arith, ◌==◌, Bool-cases,
}
use sentinel_security_platfo.Base.Json.{is_in}
use sentinel_security_platfo.Charter.Guard.{
  Attempt, Counts, Scanner, add_attempts, add_count, add_findings, add_phones, attempt_name,
  attempts, objective_change, out_of_scope_tool, pii_reason, secret_disclosure, text_reasons,
}
use sentinel_security_platfo.Charter.Guard.Media.{Text}
use sentinel_security_platfo.Charter.Receipt.{all_counts, is_count, quarantine_codes}
use sentinel_security_platfo.Charter.Receipt.Sealed.{counts_fields}

abbrev pub total : Counts → ℕ
total [] = 0
total ((key, n) ∷ counts) = n + total counts

abbrev IsKnown : (String × ℕ) → Type 0
IsKnown (key, n) = (is_in key quarantine_codes ≡ true) × (1 ≤ n)

-- Known reasons that occur, in all at most `bound` times.
abbrev pub IsCounted : ℕ → Counts → Type 0
IsCounted bound counts = All IsKnown counts × (total counts ≤ bound)

pub all_counts-IsCounted :
    (counts : Counts) → IsCounted 65536 counts → all_counts (counts_fields counts) ≡ true
unfolding all_counts is_count
all_counts-IsCounted [] h = refl
all_counts-IsCounted ((key, n) ∷ counts) (((known, occurs), rest), bound) =
    let low : leb 1 n ≡ true = ground (arith, occurs) in
    let high : leb n 65536 ≡ true = ground (arith, bound) in
    rw (known, low, high) (all_counts-IsCounted counts (rest, omega (arith, bound)))

add_count-IsCounted :
    (bound : ℕ) (key : String) (n : ℕ) (counts : Counts)
    → is_in key quarantine_codes ≡ true
    → 1 ≤ n
    → IsCounted bound counts
    → IsCounted (bound + n) (add_count key n counts)
unfolding add_count
add_count-IsCounted bound key n [] known occurs h = (((known, occurs), tt), omega (arith, h.1))
add_count-IsCounted bound key n ((k, m) ∷ counts) known occurs (((known0, occurs0), rest), small) =
    elim (Bool-cases (k == key)) [
      | inl e ↦ rw e (((known0, omega (arith, occurs0)), rest), omega (arith, small))
      | inr e ↦
          let (after, less) =
            add_count-IsCounted (total counts) key n counts known occurs (rest, omega arith) in
          rw e (((known0, occurs0), after), omega (arith, small, less))
    ]

-- What the scrubber finds in a text.
abbrev IsFinding : (String × ℕ) → Type 0
IsFinding (cls, n) = (is_in (pii_reason cls) quarantine_codes ≡ true) × (1 ≤ n)

add_findings-IsCounted :
    (bound : ℕ) (findings reasons : Counts)
    → All IsFinding findings
    → IsCounted bound reasons
    → IsCounted (bound + total findings) (add_findings findings reasons)
unfolding add_findings
add_findings-IsCounted bound [] reasons h counted = (counted.0, omega (arith, counted.1))
add_findings-IsCounted bound ((cls, n) ∷ rest) reasons ((known, occurs), h) counted =
    let (all_known, small) =
      add_findings-IsCounted (bound + n) rest (add_count (pii_reason cls) n reasons) h
        (add_count-IsCounted bound (pii_reason cls) n reasons known occurs counted) in
    (all_known, omega (arith, small))

add_phones-IsCounted :
    (bound n : ℕ) (reasons : Counts)
    → IsCounted bound reasons
    → IsCounted (bound + n) (add_phones n reasons)
unfolding add_phones is_in any
add_phones-IsCounted bound n reasons counted = elim (Bool-cases (nat_eq n 0)) [
  | inl e ↦ rw e (counted.0, omega (arith, counted.1))
  | inr e ↦ rw e (add_count-IsCounted bound "pii-phone" n reasons refl (ground (arith, e)) counted)
]

attempt_known : (a : Attempt) → is_in (attempt_name a) quarantine_codes ≡ true
unfolding attempt_name is_in any
attempt_known objective_change = refl
attempt_known secret_disclosure = refl
attempt_known out_of_scope_tool = refl

add_attempts-IsCounted :
    (sc : Scanner) (text : Text) (bound : ℕ) (todo : List Attempt) (reasons : Counts)
    → IsCounted bound reasons
    → IsCounted (bound + length todo) (add_attempts sc text todo reasons)
unfolding add_attempts
add_attempts-IsCounted sc text bound [] reasons counted = (counted.0, omega (arith, counted.1))
add_attempts-IsCounted sc text bound (a ∷ rest) reasons counted =
    elim (Bool-cases (sc.search a text)) [
      | inl e ↦
          let (known, small) =
            add_attempts-IsCounted sc text (bound + 1) rest (add_count (attempt_name a) 1 reasons) (
              add_count-IsCounted bound (attempt_name a) 1 reasons (attempt_known a) (omega arith)
                counted) in
          rw e (known, omega (arith, small))
      | inr e ↦
          let (known, small) = add_attempts-IsCounted sc text bound rest reasons counted in
          rw e (known, omega (arith, small))
    ]

-- The scanner on a text: known classes, and fewer matches than a response has bytes.
abbrev pub IsScanned : Scanner → Text → Type 0
IsScanned sc text =
    All IsFinding (sc.redact text).1
    × (total (sc.redact text).1 + sc.phone_shapes (sc.redact text).0 + 3 ≤ 65536)

pub text_reasons-IsCounted :
    (sc : Scanner) (text : Text) → IsScanned sc text → IsCounted 65536 (text_reasons sc text)
unfolding text_reasons
text_reasons-IsCounted sc text (known, few) =
    let found = add_findings-IsCounted 0 (sc.redact text).1 [] known (tt, omega arith) in
    let phones =
      add_phones-IsCounted (0 + total (sc.redact text).1) (sc.phone_shapes (sc.redact text).0)
        (add_findings (sc.redact text).1 []) found in
    let (all_known, small) =
      add_attempts-IsCounted sc text _ attempts
        (add_phones (sc.phone_shapes (sc.redact text).0) (add_findings (sc.redact text).1 []))
        phones in
    (all_known, omega (arith, small, few))
