-- ===== src/Charter/Store/Open.antt =====
-- agent/charter_requests.py: `RequestStore.__init__`, the inspection of the schema and the retries on
-- a locked database file. `answers` says how SQLite takes each attempt. Pauses are not modelled.
use sentinel_security_platfo.Base.{
  ℕ, zero, suc, ◌+◌, ◌<◌, String, ◌≡◌, refl, ap, ◌∙◌, Bool, true, false, not, ◌&&◌, List, [], ◌∷◌,
  Result, ok, err, any, all, nat_eq, arith, ◌==◌, if◌then◌else◌,
}
use sentinel_security_platfo.Charter.Store.{RequestStore, empty_store, open_store}

pub data OpenError : Type 0 where
  store_unavailable schema_incompatible : OpenError

-- One line of PRAGMA table_info, without its default.
pub record Column : Type 0 where
  pub column : String
  pub column_type : String
  pub not_null : ℕ
  pub key_index : ℕ

pub record Table : Type 0 where
  pub table : String
  pub columns : List Column

pub record Disk : Type 0 where
  pub tables : List Table
  pub rows : RequestStore

abbrev column_of : String → String → ℕ → ℕ → Column
column_of name type not_null key_index = record {
  column = name;
  column_type = type;
  not_null = not_null;
  key_index = key_index;
}

unfoldable pub expected_tables : List Table
expected_tables =
    record {
      table = "requests";
      columns =
          column_of "id" "TEXT" 0 1
          ∷ column_of "run" "TEXT" 1 0
          ∷ column_of "method" "TEXT" 1 0
          ∷ column_of "path" "TEXT" 1 0
          ∷ column_of "query" "TEXT" 1 0
          ∷ column_of "state" "TEXT" 1 0
          ∷ column_of "ts" "REAL" 1 0
          ∷ column_of "spec_digest" "TEXT" 1 0
          ∷ column_of "receipt_digest" "TEXT" 0 0
          ∷ [];
    }
    ∷ record {
      table = "decisions";
      columns =
          column_of "nonce" "TEXT" 0 1
          ∷ column_of "request_id" "TEXT" 1 0
          ∷ column_of "decision" "TEXT" 1 0
          ∷ column_of "ts" "REAL" 1 0
          ∷ [];
    }
    ∷ record {
      table = "revocations";
      columns =
          column_of "request_id" "TEXT" 0 1
          ∷ column_of "nonce" "TEXT" 1 0
          ∷ column_of "ts" "REAL" 1 0
          ∷ [];
    }
    ∷ record {
      table = "events";
      columns =
          column_of "id" "TEXT" 1 0 ∷ column_of "state" "TEXT" 1 0 ∷ column_of "ts" "REAL" 1 0 ∷ [];
    }
    ∷ []

abbrev column_eq : Column → Column → Bool
column_eq c d =
    c.column == d.column
    && c.column_type == d.column_type
    && nat_eq c.not_null d.not_null
    && nat_eq c.key_index d.key_index

unfoldable pub columns_eq : List Column → List Column → Bool
columns_eq [] [] = true
columns_eq (c ∷ cs) (d ∷ ds) = column_eq c d && columns_eq cs ds
columns_eq _ _ = false

-- Each table of the file is expected, and each expected one is there with its columns.
unfoldable pub is_compatible : List Table → Bool
unfolding any all columns_eq expected_tables
is_compatible tables =
    all (λ t. any (λ e. e.table == t.table) expected_tables) tables
    && all (λ e. any (λ t. t.table == e.table && columns_eq t.columns e.columns) tables)
        expected_tables

abbrev pub has_tables : List Table → Bool
has_tables [] = false
has_tables (t ∷ tables) = true

-- The transaction of one attempt that gets the lock.
unfoldable pub inspect : ℕ → Disk → Disk × Result OpenError Unit
unfolding is_compatible expected_tables
inspect now d =
    if not (has_tables d.tables)
    then (record { tables = expected_tables; rows = open_store now empty_store }, ok tt)
    else if not (is_compatible d.tables)
    then (d, err schema_incompatible)
    else (record d { rows = open_store now d.rows }, ok tt)

-- An OperationalError that speaks of a lock, another one, or another DatabaseError.
pub data Answer : Type 0 where
  goes locked fails broken : Answer

-- The attempts that are left, from the one numbered `attempt`.
unfoldable pub attempts_from : ℕ → ℕ → (ℕ → Answer) → ℕ → Disk → Disk × Result OpenError Unit
unfolding inspect
attempts_from zero attempt answers now d = (d, err store_unavailable)
attempts_from (suc left) attempt answers now d =
    let later = attempts_from left (attempt + 1) answers now d in
    elim (answers attempt) [
      | goes ↦ inspect now d
      | locked ↦ later
      | fails ↦ (d, err store_unavailable)
      | broken ↦ (d, err schema_incompatible)
    ]

unfoldable pub init_store : (ℕ → Answer) → ℕ → Disk → Disk × Result OpenError Unit
unfolding attempts_from
init_store answers now d = attempts_from 20 0 answers now d

attempts_from-opens :
    (left attempt k : ℕ) (answers : ℕ → Answer) (now : ℕ) (d : Disk)
    → k < left
    → ((j : ℕ) → j < k → answers (attempt + j) ≡ locked)
    → answers (attempt + k) ≡ goes
    → attempts_from left attempt answers now d ≡ inspect now d
unfolding attempts_from
attempts_from-opens zero attempt k answers now d room busy free = absurd (omega arith)
attempts_from-opens (suc left) attempt zero answers now d room busy free =
    let first : attempt ≡ attempt + 0 = omega arith in
    let open_now : answers attempt ≡ goes = ap answers first ∙ free in
    rw (attempts_from, open_now) refl
attempts_from-opens (suc left) attempt (suc k) answers now d room busy free =
    let first : attempt ≡ attempt + 0 = omega arith in
    let held : answers attempt ≡ locked = ap answers first ∙ busy zero (omega arith) in
    let next : (j : ℕ) → attempt + 1 + j ≡ attempt + suc j = λ j. omega arith in
    rw (attempts_from, held)
      (attempts_from-opens left (attempt + 1) k answers now d (omega arith)
        (λ j lt. ap answers (next j) ∙ busy (suc j) (omega arith)) (ap answers (next k) ∙ free))

-- Up to nineteen attempts may find the file locked: as soon as one of the first twenty gets the
-- lock, the open is the inspection and recovery of the file as it was, done once.
pub init_store-opens :
    (k : ℕ) (answers : ℕ → Answer) (now : ℕ) (d : Disk)
    → k < 20
    → ((j : ℕ) → j < k → answers j ≡ locked)
    → answers k ≡ goes
    → init_store answers now d ≡ inspect now d
unfolding init_store
init_store-opens k answers now d room busy free =
    let same : (j : ℕ) → 0 + j ≡ j = λ j. omega arith in
    attempts_from-opens 20 0 k answers now d room (λ j lt. ap answers (same j) ∙ busy j lt)
      (ap answers (same k) ∙ free)
