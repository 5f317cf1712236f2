-- ===== src/Store/Log.antt =====
-- Reading, replaying and extending the event log (store.ts).
use georesearch_dsh.Prelude.{
  ℕ, suc, String, Bool, true, false, ◌&&◌, not, Option, none, some, List, [], ◌∷◌, ◌++◌, ◌==◌,
  nat_eq, if◌then◌else◌, Result, ok, err, Failure, geo_research_error, ◌>>=◌,
}
use georesearch_dsh.Contracts.Json.{Sha256Digest}
use georesearch_dsh.Contracts.State.{ProjectReducerState}
use georesearch_dsh.Contracts.Event.{ProjectEventData, ProjectEvent, ProjectEventBody, unsupported}
use georesearch_dsh.Reducer.{reduce_project_event}
use georesearch_dsh.Store.Disk.{
  Line, entry, not_object, not_json, blank, LogFile, Encoding, is_sha256_digest,
}

abbrev pub log_corrupt : Failure
log_corrupt = geo_research_error "PROJECT_EVENT_LOG_CORRUPT"

abbrev pub recovery_required : Failure
recovery_required = geo_research_error "PROJECT_RECOVERY_REQUIRED"

-- `a === b` for digests that may be null
abbrev pub same_hash : Option Sha256Digest → Option Sha256Digest → Bool
same_hash none none = true
same_hash (some a) (some b) = a == b
same_hash _ _ = false

-- `record.type.length > 0`; the types that the reducer knows are not empty
abbrev pub has_type : ProjectEventData → Bool
has_type (unsupported t _) = not (t == "")
has_type _ = true

-- The events, and whether a torn tail was cut off.
pub record EventLog : Type 0 where
  pub events : List ProjectEvent
  pub truncated_tail : Bool

abbrev pub logged : Bool → List ProjectEvent → Result EventLog
logged truncated events = ok (record { events = events; truncated_tail = truncated })

abbrev pub torn : Line → Bool
torn not_json = true
torn blank = true
torn _ = false

module _ (p : Encoding) where
  open p use {digest_event, canonical_utc}

  unfoldable pub metadata_valid : ProjectEvent → ℕ → Option Sha256Digest → Bool
  metadata_valid e expected_seq previous =
      nat_eq e.event_schema_version 1
      && nat_eq e.reducer_version 1
      && nat_eq e.seq expected_seq
      && same_hash e.previous_hash previous
      && has_type e.content
      && is_sha256_digest e.operation_key
      && is_sha256_digest e.request_digest
      && is_sha256_digest e.hash
      && canonical_utc e.time

  unfoldable pub parse_event : Line → ℕ → Option Sha256Digest → Result ProjectEvent
  unfolding metadata_valid
  parse_event (entry e) expected_seq previous =
      if metadata_valid e expected_seq previous
      then if digest_event e.body == e.hash then ok e else err log_corrupt
      else err log_corrupt
  parse_event not_object expected_seq previous = err recovery_required
  parse_event _ expected_seq previous = err log_corrupt

  -- The loop of `readEventLog`. A line that is blank or no JSON is corrupt, too.
  unfoldable pub parse_lines : ℕ → Option Sha256Digest → List Line → Result (List ProjectEvent)
  parse_lines seq previous [] = ok []
  parse_lines seq previous (l ∷ ls) = parse_event l seq previous >>= λ e.
      parse_lines (suc seq) (some e.hash) ls >>= λ es. ok (e ∷ es)

  unfoldable pub read_tail : Bool → LogFile → Option Line → Result EventLog × LogFile
  read_tail truncate file none = (parse_lines 1 none file.lines >>= logged false, file)
  read_tail truncate file (some t) =
      if torn t
      then if truncate
        then (
          parse_lines 1 none file.lines >>= logged true,
          record { lines = file.lines; tail = none },
        )
        else (err log_corrupt, file)
      else (parse_lines 1 none (file.lines ++ t ∷ []) >>= logged false, file)

  -- The result, and the file that is left: a torn tail is cut off before the lines are read.
  unfoldable pub read_event_log : Bool → LogFile → Result EventLog × LogFile
  unfolding read_tail
  read_event_log truncate file = read_tail truncate file file.tail

-- A tail that no newline ends counts as a line, if it is no torn one.
abbrev pub is_whole : Option Line → Bool
is_whole none = true
is_whole (some t) = not (torn t)

-- It becomes a line of its own when the next event is written.
abbrev pub tail_line : Option Line → List Line
tail_line none = []
tail_line (some t) = t ∷ []

-- The log with its tail as a line of its own: the text up to and with the separator.
abbrev pub separated : LogFile → LogFile
separated file = record { lines = file.lines ++ tail_line file.tail; tail = none }

unfoldable pub append_event : LogFile → ProjectEvent → LogFile
append_event file e = record {
  lines = (file.lines ++ tail_line file.tail) ++ entry e ∷ [];
  tail = none;
}

-- The loop of `replayEvents`.
unfoldable pub replay_from :
    Option ProjectReducerState → List ProjectEvent → Result (Option ProjectReducerState)
replay_from current [] = ok current
replay_from current (e ∷ es) = reduce_project_event current e >>= λ s. replay_from (some s) es

abbrev pub checked_project : String → Option ProjectReducerState → Result ProjectReducerState
checked_project project_id none = err log_corrupt
checked_project project_id (some s) = if s.project_id == project_id then ok s else err log_corrupt

unfoldable pub replay_events : String → List ProjectEvent → Result ProjectReducerState
unfolding replay_from
replay_events project_id events = replay_from none events >>= checked_project project_id

module _ (p : Encoding) where
  open p use {digest_event}

  unfoldable pub create_event : ProjectEventBody → ProjectEvent
  create_event body = record { body = body; hash = digest_event body }
