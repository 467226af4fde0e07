-- ===== src/Values.antt =====
-- The third-party values that the program carries: serde_json's `Value` by its public constructors,
-- `DateTime<Utc>` as the nanoseconds since the epoch, `Uuid` as its 128-bit number, `f64` as its
-- 64-bit pattern. What the libraries compute on them is in External.antt.
use khronos.Prelude.{ℕ, String, Bool, List, Option, none, some, ◌%◌, ◌+◌, ◌-◌, ◌^◌, ltb}

mutual
  pub data Value : Type 0 where
    null : Value
    bool : Bool → Value
    number : String → Value
    string : String → Value
    array : Items → Value
    object : Fields → Value

  -- the entries of an object, by key
  pub data Fields : Type 0 where
    end : Fields
    field : String → Value → Fields → Fields

  pub data Items : Type 0 where
    no_items : Items
    item : Value → Items → Items

-- `Value::as_str`
abbrev pub as_str : Value → Option String
as_str (string s) = some s
as_str _ = none

abbrev pub DateTime : Type 0
DateTime = ℕ

abbrev pub Uuid : Type 0
Uuid = ℕ

abbrev pub F64 : Type 0
F64 = ℕ

-- the patterns of 0.0, 1.0 and 2.0
abbrev pub f64_zero : F64
f64_zero = 0

abbrev pub f64_one : F64
f64_one = 0x3ff0000000000000

abbrev pub f64_two : F64
f64_two = 0x4000000000000000

-- `BTreeMap<String, String>` and `HashMap<String, String>`, as the pairs in iteration order
abbrev pub Args : Type 0
Args = List (String × String)

-- machine words: `as u32`, `as i32`, `as i64` and `as u64` between the widths used, as bit patterns
abbrev pub as_u32 : ℕ → ℕ
as_u32 n = n % 2 ^ 32

abbrev pub as_64 : ℕ → ℕ
as_64 n = n % 2 ^ 64

-- `a - b` of u32, wrapped
abbrev pub sub_u32 : ℕ → ℕ → ℕ
sub_u32 a b = (a + 2 ^ 32 - b) % 2 ^ 32

-- `a < b` of i64, on bit patterns
abbrev pub i64_ltb : ℕ → ℕ → Bool
i64_ltb a b = ltb ((a + 2 ^ 63) % 2 ^ 64) ((b + 2 ^ 63) % 2 ^ 64)
