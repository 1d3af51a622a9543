-- ===== src/WalletRpc/Log.antt =====
-- The request log (crates/wallet-rpc/src/log.rs). The table is its rows with the newest first, which
-- is `ORDER BY id DESC`; whether SQLite takes a row is an argument, since its errors are swallowed.
-- A time goes through `i64` and comes back the same.
use strkd.Prelude.{
  ℕ, zero, suc, ◌≡◌, refl, String, Bool, true, false, Option, none, List, [], ◌∷◌, All, length,
  if◌then◌else◌,
}

pub record LogEntry : Type 0 where
  pub ts_unix_ms : ℕ
  pub method : String
  pub client : Option String
  pub network : Option String
  pub decision : String
  pub outcome : String
  -- The code, and whether it is negative.
  pub error_code : Option (Bool × ℕ)
  pub latency_ms : ℕ
  pub params_json : Option String
  pub result_json : Option String

pub record RequestLog : Type 0 where
  pub rows : List LogEntry
  pub full_payloads : Bool

unfoldable pub in_memory : Bool → RequestLog
in_memory full = record { rows = []; full_payloads = full }

unfoldable pub set_full_payloads : Bool → RequestLog → RequestLog
set_full_payloads on log = record log { full_payloads = on }

unfoldable pub redacted : Bool → LogEntry → LogEntry
redacted full entry =
    if full then entry else record entry { params_json = none; result_json = none }

unfoldable pub record_entry : Bool → LogEntry → RequestLog → RequestLog
record_entry taken entry log =
    if taken then record log { rows = redacted log.full_payloads entry ∷ log.rows } else log

unfoldable pub count : RequestLog → ℕ
count log = length log.rows

abbrev first_n : ℕ → List LogEntry → List LogEntry
first_n zero rows = []
first_n (suc n) [] = []
first_n (suc n) (row ∷ rows) = row ∷ first_n n rows

unfoldable pub recent : ℕ → RequestLog → List LogEntry
recent limit log = first_n limit log.rows

-- The entry holds no payload.
abbrev pub IsSummary : LogEntry → Type 0
IsSummary entry = (entry.params_json ≡ none) × (entry.result_json ≡ none)

-- The operations on a log whose payloads stay off.
pub data Quiet : RequestLog → RequestLog → Type 0 where
  rest : (log : RequestLog) → Quiet log log
  then_off : (log later : RequestLog) → Quiet log later → Quiet log (set_full_payloads false later)
  then_record :
      (log later : RequestLog) (taken : Bool) (entry : LogEntry)
      → Quiet log later
      → Quiet log (record_entry taken entry later)

first_n-IsSummary :
    (n : ℕ) (rows : List LogEntry) → All IsSummary rows → All IsSummary (first_n n rows)
first_n-IsSummary zero rows h = tt
first_n-IsSummary (suc n) [] h = tt
first_n-IsSummary (suc n) (row ∷ rows) h = (h.0, first_n-IsSummary n rows h.1)

abbrev IsQuiet : RequestLog → Type 0
IsQuiet log = (log.full_payloads ≡ false) × All IsSummary log.rows

record_entry-IsQuiet :
    (taken : Bool) (entry : LogEntry) (log : RequestLog)
    → IsQuiet log
    → IsQuiet (record_entry taken entry log)
unfolding record_entry redacted
record_entry-IsQuiet true entry log h = (h.0, rw h.0 ((refl, refl), h.1))
record_entry-IsQuiet false entry log h = h

Quiet-IsQuiet : (log later : RequestLog) → Quiet log later → IsQuiet log → IsQuiet later
unfolding set_full_payloads
Quiet-IsQuiet log _ (rest _) h = h
Quiet-IsQuiet log _ (then_off _ later s) h = (refl, (Quiet-IsQuiet log later s h).1)
Quiet-IsQuiet log _ (then_record _ later taken entry s) h =
    record_entry-IsQuiet taken entry later (Quiet-IsQuiet log later s h)

-- Of a log that starts empty with payloads off, whatever is recorded as long as they stay off, no
-- entry that `recent` shows holds the parameters or the result of a request.
pub recent-IsSummary :
    (log : RequestLog) (limit : ℕ) → Quiet (in_memory false) log → All IsSummary (recent limit log)
unfolding recent in_memory
recent-IsSummary log limit s = first_n-IsSummary limit log.rows (Quiet-IsQuiet _ log s (refl, tt)).1
