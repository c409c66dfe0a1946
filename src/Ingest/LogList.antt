-- ===== src/Ingest/LogList.antt =====
-- src/ingest/log_list.rs: the list of logs, parsed, and filtered by operator. serde_json gives the raw
-- list, with the keys of each `state`, and the crate base64 decodes: both are parameters.
pub mod Laws
use ctwatch.Base.{
  ℕ, Bool, true, false, List, [], ◌∷◌, ◌++◌, map, Option, none, some, if◌then◌else◌, filter, any,
}
use ctwatch.Base.Text.{Text, text, beq, contains, trim, split, ends_with, eq_ignore_ascii_case}
use ctwatch.Base.Result.{Result, ok, err, json_error, base64_error, http_error, ◌>>=◌}

pub data LogState : Type 0 where
  usable pending qualified readonly retired rejected unknown : LogState

pub record CtLog : Type 0 where
  pub log_id : List ℕ
  pub url : Text
  pub operator : Text
  pub state : LogState

-- A JSON value, as far as `parse_state` looks: an object has its keys.
pub data Value : Type 0 where
  object : List Text → Value
  other : Value

pub record RawLog : Type 0 where
  pub log_id : Text
  pub url : Text
  pub state : Value

pub record RawOperator : Type 0 where
  pub name : Text
  pub logs : List RawLog

pub record RawList : Type 0 where
  pub operators : List RawOperator

-- `serde_json::from_str::<RawList>` and `STANDARD.decode`
pub record Decoders : Type 0 where
  pub from_str : Text → Option RawList
  pub decode : Text → Option (List ℕ)

unfoldable pub parse_state : Value → LogState
parse_state other = unknown
parse_state (object keys) =
    if contains keys (text "usable")
    then usable
    else if contains keys (text "pending")
    then pending
    else if contains keys (text "qualified")
    then qualified
    else if contains keys (text "readonly")
    then readonly
    else if contains keys (text "retired")
    then retired
    else if contains keys (text "rejected")
    then rejected
    else unknown

unfoldable pub with_slash : Text → Text
unfolding ends_with
with_slash url = if ends_with b'/' url then url else url ++ b'/' ∷ []

module _ (d : Decoders) where
  unfoldable pub parse_log : Text → RawLog → Result CtLog
  unfolding with_slash parse_state
  parse_log operator log = elim (d.decode log.log_id) [
    | none ↦ err base64_error
    | some log_id ↦ ok (record {
      log_id = log_id;
      url = with_slash log.url;
      operator = operator;
      state = parse_state log.state;
    })
  ]

  -- The two loops push on one list, and the first error ends both.
  unfoldable pub parse_logs : Text → List RawLog → Result (List CtLog)
  unfolding parse_log
  parse_logs operator [] = ok []
  parse_logs operator (log ∷ logs) =
      parse_log operator log >>= λ l. parse_logs operator logs >>= λ ls. ok (l ∷ ls)

  unfoldable pub parse_operators : List RawOperator → Result (List CtLog)
  unfolding parse_logs
  parse_operators [] = ok []
  parse_operators (op ∷ ops) =
      parse_logs op.name op.logs >>= λ ls. parse_operators ops >>= λ more. ok (ls ++ more)

  unfoldable pub parse_log_list : Text → Result (List CtLog)
  unfolding parse_operators
  parse_log_list raw = elim (d.from_str raw) [
    | none ↦ err json_error
    | some list ↦ parse_operators list.operators
  ]

  -- The body is what the request got: any failure of it is an error.
  unfoldable pub fetch_log_list : Option Text → Result (List CtLog)
  unfolding parse_log_list
  fetch_log_list response = elim response [
    | none ↦ err http_error
    | some body ↦ parse_log_list body
  ]

unfoldable pub is_allowed : Text → CtLog → Bool
is_allowed allowlist l =
    any (λ a. eq_ignore_ascii_case a l.operator) (map trim (split b',' allowlist))

unfoldable pub filter_operators : List CtLog → Text → List CtLog
unfolding is_allowed
filter_operators logs allowlist =
    if beq (trim allowlist) (text "*") then logs else filter (is_allowed allowlist) logs

-- `matches!(l.state, LogState::Usable)`, which `serve` and `backfill` filter by
unfoldable pub is_usable : CtLog → Bool
is_usable l = elim l.state [ usable ↦ true | _ ↦ false ]
