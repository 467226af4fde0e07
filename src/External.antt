-- ===== src/External.antt =====
-- What the program calls in serde_json, uuid, chrono, cron, SQLite and the floating-point unit, as the fields of one
-- record that the definitions take. `none` is the error of a call that returns a `Result`.
use khronos.Prelude.{ℕ, String, Bool, List, Option, none, some, ◌≡◌}
use khronos.Values.{Value, DateTime, Uuid, F64, Args}
use khronos.Core.Activity.{RetryPolicy}
use khronos.Core.Schedule.{Timeouts}

pub record External : Type 0 where
  -- serde_json::to_string and from_str, at each type that the program stores
  pub value_to_string : Value → Option String
  pub value_from_str : String → Option Value
  pub retry_to_string : RetryPolicy → Option String
  pub retry_from_str : String → Option RetryPolicy
  pub strings_to_string : List String → Option String
  pub strings_from_str : String → Option (List String)
  pub args_to_string : Args → Option String
  pub args_from_str : String → Option Args
  pub timeouts_to_string : Timeouts → Option String
  pub timeouts_from_str : String → Option Timeouts
  -- serde_json::Map::from_iter over texts, as a `Value`, and `Value::to_string`
  pub map_from_iter : Args → Value
  pub value_display : Value → String
  -- Uuid::to_string and parse_str
  pub uuid_to_string : Uuid → String
  pub uuid_parse_str : String → Option Uuid
  -- DateTime::format with "%Y-%m-%d %H:%M:%S"
  pub format : DateTime → String
  -- NaiveDateTime::parse_from_str with and_utc, DateTime::parse_from_str: the format, then the text
  pub naive_parse : String → String → Option DateTime
  pub zoned_parse : String → String → Option DateTime
  -- `t + chrono::Duration::seconds(n)`, n the bit pattern of an i64
  pub seconds_later : DateTime → ℕ → DateTime
  -- `t.signed_duration_since(from).num_seconds()`, the bit pattern of an i64
  pub seconds_since : DateTime → DateTime → ℕ
  -- f64: `*`, `powi` and `as i64`
  pub f64_mul : F64 → F64 → F64
  pub f64_powi : F64 → ℕ → F64
  pub f64_as_i64 : F64 → ℕ
  -- SQLite: whether it compiles a statement's text, and `text LIKE pattern`, the pattern first
  pub sqlite_prepares : String → Bool
  pub like : String → String → Bool
  -- cron::Schedule::from_str, as the first time of its `upcoming(Utc)` by the clock's reading
  pub cron_from_str : String → Option (DateTime → Option DateTime)

-- a clock reading: `Utc::now()`, and the text of SQLite's `datetime('now')`
pub record Now : Type 0 where
  pub utc : DateTime
  pub sql : String

-- `parse_from_str` of a time with an offset fails where the format has no offset, as chrono documents
pub record NeedsOffset (x : External) (fmt : String) : Type 0 where
  pub fails : (s : String) → x.zoned_parse fmt s ≡ none

-- a value that is written as a text from which it is read back, as serde_json documents for the types
-- that derive both directions
pub record Survives {A : Type 0} (write : A → Option String) (read : String → Option A) (a : A)
    : Type 0 where
  pub text : String
  pub written : write a ≡ some text
  pub read_back : read text ≡ some a
