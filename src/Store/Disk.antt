-- ===== src/Store/Disk.antt =====
-- The two files of a project, `events.jsonl` and `state.json`, by what a reader can make of their text
-- (store.ts); and the tests of digests (packages/contracts/src/index.ts).
use Prim.Native.Char.{code}
use georesearch_dsh.Prelude.{
  ℕ, zero, suc, String, Bool, true, false, ◌&&◌, ◌||◌, Option, none, some, List, leb, nat_eq, ◌≡◌,
}
use georesearch_dsh.Contracts.Json.{Sha256Digest}
use georesearch_dsh.Contracts.State.{ProjectReducerState, ProjectStateFile}
use georesearch_dsh.Contracts.Event.{ProjectEvent, ProjectEventBody}

-- A line of `events.jsonl`. `entry` is an object with the fields of an event at their types; whether
-- their values are right is for the reader to test. `misfit` is any other object.
pub data Line : Type 0 where
  entry : ProjectEvent → Line
  misfit not_object not_json blank : Line

-- The lines that a newline ends, and the text behind the last newline, if there is any.
pub record LogFile : Type 0 where
  pub lines : List Line
  pub tail : Option Line

-- `state.json`: an object with the fields of a state file at their types and `schemaVersion` apart,
-- another object, other JSON, or a text that does not parse.
pub data StateText : Type 0 where
  state_file : ℕ → ProjectStateFile → StateText
  misfit not_object not_json : StateText

-- A file that does not exist has no text; `events.jsonl` then reads as an empty one.
pub record Disk : Type 0 where
  pub log : LogFile
  pub state : Option StateText

-- What the digest of a state file is taken over.
pub record StateBody : Type 0 where
  pub project_id : String
  pub generation : ℕ
  pub last_event_seq : ℕ
  pub last_event_hash : Option Sha256Digest
  pub state : ProjectReducerState

-- `/^sha256:[0-9a-f]{64}$/`
is_hex : ℕ → Bool
is_hex c = leb b'0' c && leb c b'9' || leb b'a' c && leb c b'f'

hex_digits : ℕ → String → Bool
unfolding is_hex
hex_digits zero String.[] = true
hex_digits (suc n) (String.◌∷◌ c s) = is_hex (code c) && hex_digits n s
hex_digits _ _ = false

after_prefix : String → String → Option String
after_prefix String.[] s = some s
after_prefix (String.◌∷◌ c p) (String.◌∷◌ d s) =
    let rest = after_prefix p s in elim (nat_eq (code c) (code d)) [ true ↦ rest | false ↦ none ]
after_prefix (String.◌∷◌ c p) String.[] = none

abbrev hex_rest : Option String → Bool
unfolding hex_digits
hex_rest none = false
hex_rest (some s) = hex_digits 64 s

unfoldable pub is_sha256_digest : String → Bool
unfolding hex_digits after_prefix
is_sha256_digest s = hex_rest (after_prefix "sha256:" s)

-- What the store computes with and this library does not: the digests of `digestJson`, which are
-- SHA-256 over canonical JSON, the canonical JSON of a state, the test of a UTC time
-- stamp, and the id of a project's binding, `binding-` and the hex digits of a digest of the project's id.
pub record Encoding : Type 0 where
  pub digest_event : ProjectEventBody → Sha256Digest
  pub digest_state : StateBody → Sha256Digest
  pub canonical_state : ProjectReducerState → String
  pub canonical_utc : String → Bool
  pub binding_id : String → String
  pub digest_event_format : (b : ProjectEventBody) → is_sha256_digest (digest_event b) ≡ true
  pub digest_state_format : (b : StateBody) → is_sha256_digest (digest_state b) ≡ true
