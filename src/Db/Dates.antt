-- ===== src/Db/Dates.antt =====
-- format_datetime and the two versions of parse_datetime, over chrono's formats.
use khronos.Prelude.{String, Option, none, some, List, [], ◌∷◌, ◌≡◌, arith}
use mathlib.Core.Option
use khronos.Prelude.Result.{Result, ok, err}
use khronos.Values.{DateTime}
use khronos.External.{External, NeedsOffset}
use khronos.Db.Error.{DbError, bad_datetime}

module _ (x : External) where
  unfoldable pub format_datetime : Option DateTime → Option String
  format_datetime dt = Option.map (λ d. x.format d) dt

-- the loop over formats: the first that parses
abbrev pub try_formats :
    (String → String → Option DateTime) → List String → String → Option DateTime
try_formats parse [] s = none
try_formats parse (fmt ∷ fmts) s =
    let rest = try_formats parse fmts s in elim (parse fmt s) [ some d ↦ some d | none ↦ rest ]

abbrev pub parsed : String → Option DateTime → Option DateTime → Result DateTime DbError
parsed s (some d) later = ok d
parsed s none (some d) = ok d
parsed s none none = err (bad_datetime s)

module _ (x : External) where
  -- workflows.rs, schedules.rs and scheduler.rs
  unfoldable pub parse_datetime : String → Result DateTime DbError
  parse_datetime s =
      parsed s
        (try_formats x.naive_parse
          ("%Y-%m-%d %H:%M:%S%.f" ∷ "%Y-%m-%d %H:%M:%S" ∷ "%Y-%m-%dT%H:%M:%S%.f"
            ∷ "%Y-%m-%dT%H:%M:%S" ∷ [])
          s)
        (try_formats x.zoned_parse ("%Y-%m-%dT%H:%M:%S%.fZ" ∷ "%Y-%m-%dT%H:%M:%SZ" ∷ []) s)

  -- activities.rs
  unfoldable pub parse_step_datetime : String → Result DateTime DbError
  parse_step_datetime s =
      parsed s
        (try_formats x.zoned_parse
          ("%Y-%m-%d %H:%M:%S" ∷ "%Y-%m-%dT%H:%M:%S%.fZ" ∷ "%Y-%m-%dT%H:%M:%SZ"
            ∷ "%Y-%m-%dT%H:%M:%S" ∷ [])
          s)
        (try_formats x.naive_parse ("%Y-%m-%d %H:%M:%S%.f" ∷ "%Y-%m-%dT%H:%M:%S%.f" ∷ []) s)

-- `%.f` takes a fraction or nothing, as chrono documents: it parses whatever the plain format parses
pub record FractionIsOptional (x : External) (plain fraction : String) : Type 0 where
  pub accepts : (s : String) → x.naive_parse fraction s ≡ none → x.naive_parse plain s ≡ none

module _ (x : External) (date_only : NeedsOffset x "%Y-%m-%d %H:%M:%S")
    (iso : NeedsOffset x "%Y-%m-%dT%H:%M:%S") (iso_z : NeedsOffset x "%Y-%m-%dT%H:%M:%SZ")
    (iso_fz : NeedsOffset x "%Y-%m-%dT%H:%M:%S%.fZ")
    (plain : FractionIsOptional x "%Y-%m-%d %H:%M:%S" "%Y-%m-%d %H:%M:%S%.f")
    (plain_iso : FractionIsOptional x "%Y-%m-%dT%H:%M:%S" "%Y-%m-%dT%H:%M:%S%.f") where
  -- The two versions of parse_datetime agree on every text, given that chrono refuses to read a time
  -- with an offset by a format that has none, and that `%.f` takes a fraction or nothing.
  parse_step_datetime-eq-parse_datetime :
      (s : String) → parse_step_datetime x s ≡ parse_datetime x s
  unfolding parse_step_datetime parse_datetime
  parse_step_datetime-eq-parse_datetime s = ground (
    arith,
    date_only.fails s,
    iso.fails s,
    iso_z.fails s,
    iso_fz.fails s,
    plain.accepts s,
    plain_iso.accepts s,
  )
