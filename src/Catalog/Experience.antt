-- ===== src/Catalog/Experience.antt =====
-- The record of an execution, crates/bastion-domain/src/catalog/experience.rs. A time is a number of
-- nanoseconds; the random id and the readings of the clock are arguments. `metadata` is the text of a
-- JSON value, which is only copied.

pub mod Laws
use bastion.Base.{
  ℕ, ◌+◌, ◌-◌, ◌/◌, ◌^◌, ◌%◌, Bool, true, false, Option, none, some, [], ◌∷◌, ◌++◌, leb, nat_eq,
  if◌then◌else◌, Text, ◌==◌, codes,
}
use bastion.Base.Int.{ℤ, pos, ℤ_eq}
use bastion.Base.Chars.{len_utf8}

pub data ExperienceStatus : Type 0 where
  success failure timeout cancelled : ExperienceStatus

unfoldable pub is_terminal_experience : ExperienceStatus → Bool
is_terminal_experience ExperienceStatus.success = true
is_terminal_experience ExperienceStatus.failure = true
is_terminal_experience _ = false

pub record ExperienceRecord : Type 0 where
  pub id : Text
  pub trace_id : Option Text
  pub tool_name : Text
  pub sandbox_id : Option Text
  pub started_at : ℕ
  pub finished_at : Option ℕ
  pub exit_code : Option ℤ
  pub stdout_summary : Text
  pub stderr_summary : Text
  pub status : ExperienceStatus
  pub metadata : Text

unfoldable pub new_experience : Text → ℕ → Text → ExperienceRecord
new_experience id now tool_name = record {
  id = id;
  trace_id = none;
  tool_name = tool_name;
  sandbox_id = none;
  started_at = now;
  finished_at = none;
  exit_code = none;
  stdout_summary = [];
  stderr_summary = [];
  status = ExperienceStatus.failure;
  metadata = codes "{}";
}

unfoldable pub with_trace_id : Text → ExperienceRecord → ExperienceRecord
with_trace_id trace_id r = record r { trace_id = some trace_id }

unfoldable pub with_sandbox_id : Text → ExperienceRecord → ExperienceRecord
with_sandbox_id sandbox_id r = record r { sandbox_id = some sandbox_id }

unfoldable pub with_metadata : Text → ExperienceRecord → ExperienceRecord
with_metadata metadata r = record r { metadata = metadata }

unfoldable pub completed : ℤ → ℕ → ExperienceRecord → ExperienceRecord
completed exit_code now r = record r {
  exit_code = some exit_code;
  finished_at = some now;
  status = if exit_code == pos 0 then ExperienceStatus.success else ExperienceStatus.failure;
}

unfoldable pub timed_out : ℕ → ExperienceRecord → ExperienceRecord
timed_out now r = record r { status = ExperienceStatus.timeout; finished_at = some now }

unfoldable pub cancelled_at : ℕ → ExperienceRecord → ExperienceRecord
cancelled_at now r = record r { status = ExperienceStatus.cancelled; finished_at = some now }

-- `str::len`.
abbrev pub byte_len : Text → ℕ
byte_len [] = 0
byte_len (c ∷ s) = len_utf8 c + byte_len s

-- `&output[..floor_char_boundary(output, idx)]`: the characters that end within `idx` bytes.
unfoldable pub head_within : ℕ → Text → Text
head_within idx [] = []
head_within idx (c ∷ s) =
    let rest = head_within (idx - len_utf8 c) s in if leb (len_utf8 c) idx then c ∷ rest else []

-- `&output[ceil_char_boundary(output, idx)..]`: the characters that begin at or after `idx` bytes.
unfoldable pub tail_from : ℕ → Text → Text
tail_from idx [] = []
tail_from idx (c ∷ s) =
    let rest = tail_from (idx - len_utf8 c) s in if nat_eq idx 0 then c ∷ s else rest

abbrev pub truncated_mark : Text
truncated_mark = codes "\n... [truncated: showing head and tail] ...\n"

unfoldable pub summarize_output : Text → Text
unfolding head_within tail_from
summarize_output output =
    if leb (byte_len output) 1024
    then output
    else head_within 512 output ++ truncated_mark ++ tail_from (byte_len output - 512) output

unfoldable pub with_stdout : Text → ExperienceRecord → ExperienceRecord
unfolding summarize_output
with_stdout stdout r = record r { stdout_summary = summarize_output stdout }

unfoldable pub with_stderr : Text → ExperienceRecord → ExperienceRecord
unfolding summarize_output
with_stderr stderr r = record r { stderr_summary = summarize_output stderr }

-- `(finished - started).num_milliseconds() as u64`: towards zero, and below it in two's complement.
abbrev millis_between : ℕ → ℕ → ℕ
millis_between started finished =
    if leb started finished
    then (finished - started) / 1000000
    else (2 ^ 64 - (started - finished) / 1000000) % 2 ^ 64

abbrev elapsed : ℕ → Option ℕ → Option ℕ
elapsed started none = none
elapsed started (some finished) = some (millis_between started finished)

unfoldable pub duration_ms : ExperienceRecord → Option ℕ
duration_ms r = elapsed r.started_at r.finished_at
