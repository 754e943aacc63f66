-- ===== src/Dashboard/LogBuffer.antt =====
-- internal/dashboard/logbuffer.go: a ring of the last log lines. A slot that was never written
-- holds the zero entry. `split`, `index`, `slice`, `slice_from`, `slice_to` and `trim` stand for
-- strings.Split by "\n", strings.Index, the slice expressions of a text and strings.TrimSpace. The
-- events that a write publishes are in the order of the lines.
pub mod Ring
pub mod Recent
use gpu_scheduler.Common.{
  Bool, true, false, not, ◌&&◌, Option, none, some, List, [], ◌∷◌, ◌++◌, String, eq_str, ℕ, zero,
  suc, ◌+◌, ◌%◌, min, leb, ℤ, pos, negsuc, ◌+ℤ◌, ltb_ℤ, eqb_ℤ, leb_ℤ, length, get_elem?, set,
  if◌then◌else◌,
}

pub record LogEntry : Type 0 where
  pub timestamp : String
  pub category : String
  pub message : String
  pub raw : String

-- The functions on texts that parseLine calls.
pub record Texts : Type 0 where
  pub index : String → String → ℤ
  pub slice : String → ℤ → ℤ → String
  pub slice_to : String → ℤ → String
  pub slice_from : String → ℤ → String
  pub trim : String → String
  pub split_lines : String → List String

pub record LogBuffer : Type 0 where
  pub entries : List LogEntry
  pub size : ℕ
  pub at : ℕ
  pub count : ℕ

abbrev pub zero_entry : LogEntry
zero_entry = record { timestamp = ""; category = ""; message = ""; raw = "" }

abbrev replicate {ℓ} : {A : Type ℓ} → ℕ → A → List A
replicate zero x = []
replicate (suc n) x = x ∷ replicate n x

unfoldable pub new_log_buffer : ℕ → LogBuffer
new_log_buffer size = record { entries = replicate size zero_entry; size = size; at = 0; count = 0 }

unfoldable pub parse_line : Texts → String → LogEntry
parse_line tx line =
    let opened = tx.index line "[" in
    let closed = tx.index line "]" in
    if not (eqb_ℤ opened (negsuc 0)) && not (eqb_ℤ closed (negsuc 0)) && ltb_ℤ opened closed
    then record {
      timestamp = tx.trim (tx.slice_to line opened);
      category = tx.slice line (opened +ℤ pos 1) closed;
      message = tx.trim (tx.slice_from line (closed +ℤ pos 1));
      raw = line;
    }
    else record { timestamp = ""; category = "GENERAL"; message = line; raw = line }

-- The critical section of Write for one entry, on the size; `% 0` panics.
unfoldable pub put_at : LogBuffer → LogEntry → ℕ → Option LogBuffer
put_at lb entry zero = none
put_at lb entry (suc n) = some (record lb {
  entries = set lb.entries (lb.at % suc n) entry;
  at = lb.at + 1;
  count = lb.count + 1;
})

abbrev pub put : LogBuffer → LogEntry → Option LogBuffer
put lb entry = put_at lb entry lb.size

-- The loop of Write over the lines; empty ones are passed over.
unfoldable pub write_lines : Texts → LogBuffer → List String → Option LogBuffer
write_lines tx lb [] = some lb
write_lines tx lb (line ∷ lines) =
    if eq_str line ""
    then write_lines tx lb lines
    else elim (put lb (parse_line tx line)) [ none ↦ none | some lb' ↦ write_lines tx lb' lines ]

unfoldable pub write : Texts → LogBuffer → String → Option LogBuffer
write tx lb p = write_lines tx lb (tx.split_lines p)

-- The slot that GetRecent starts at.
unfoldable pub start_slot : LogBuffer → ℕ
start_slot lb = if leb lb.count lb.size then 0 else lb.at % lb.size

-- The loop of GetRecent, `todo` rounds from round `i` on, with the logs taken so far. The break
-- comes after a log is taken. An index out of range panics.
unfoldable pub recent_from : LogBuffer → ℤ → String → ℕ → ℕ → List LogEntry → Option (List LogEntry)
recent_from lb limit category zero i taken = some taken
recent_from lb limit category (suc todo) i taken =
    elim (get_elem? lb.entries ((start_slot lb + i) % lb.size)) [
      | none ↦ none
      | some entry ↦
          let passed = recent_from lb limit category todo (i + 1) taken in
          let more = recent_from lb limit category todo (i + 1) (taken ++ entry ∷ []) in
          if not (eq_str category "") && not (eq_str entry.category category)
          then passed
          else if leb_ℤ limit (pos (length (taken ++ entry ∷ [])))
          then some (taken ++ entry ∷ [])
          else more
    ]

unfoldable pub get_recent : LogBuffer → ℤ → String → Option (List LogEntry)
get_recent lb limit category = recent_from lb limit category (min lb.count lb.size) 0 []
