-- ===== src/Scheduler/Cron.antt =====
-- server/src/scheduler/cron_parser.cpp: cron expressions. `std::stoi` and `localtime_r` are
-- parameters. An exception of any kind is `rejected`; `undefined` is a signed overflow.
pub mod Lookup
pub mod Range
pub mod Field
pub mod Next
use task_hub.Prelude.{
  ℕ, Text, Bool, List, Option, ℤ, ◌∷◌, [], false, if◌then◌else◌, none, suc, true, ◌*◌, ◌+◌, ◌-◌,
  is_empty, ltb, ltb_ℤ, some, text_eq, zero, ◌&&◌, ◌++◌, ◌/◌, ◌==◌, leb_ℤ, pos, text, pos_part,
  ◌||◌,
}

pub data Parsed (A : Type 0) : Type 0 where
  parsed : A → Parsed A
  rejected undefined : Parsed A

-- `std::tm`, as far as it is read. `tm_mon` counts from 0.
pub record Tm : Type 0 where
  pub tm_min : ℕ
  pub tm_hour : ℕ
  pub tm_mday : ℕ
  pub tm_mon : ℕ
  pub tm_wday : ℕ

pub record CronExpr : Type 0 where
  pub minutes : List ℕ
  pub hours : List ℕ
  pub days : List ℕ
  pub months : List ℕ
  pub weekdays : List ℕ

-- `find` of a character with the two `substr` around it.
unfoldable pub break_at : ℕ → Text → Option (Text × Text)
break_at c [] = none
break_at c (x ∷ xs) =
    let rest = break_at c xs in
    if x == c
    then some ([], xs)
    else elim rest [ none ↦ none | some (before, after) ↦ some (x ∷ before, after) ]

-- `for (int v = range_start; v <= range_end; v += step)` on 32-bit ints.
unfoldable pub range_values : ℕ → ℕ → ℕ → ℕ → Parsed (List ℕ)
range_values zero v last step = undefined
range_values (suc fuel) v last step =
    let rest = range_values fuel (v + step) last step in
    if ltb last v
    then parsed []
    else if ltb 2147483647 (v + step)
    then undefined
    else elim rest [ parsed vs ↦ parsed (v ∷ vs) | rejected ↦ rejected | undefined ↦ undefined ]

-- `seen[i] = 1`, and the reading of it.
unfoldable pub mark : ℕ → List Bool → List Bool
mark i [] = []
mark zero (b ∷ bs) = true ∷ bs
mark (suc i) (b ∷ bs) = b ∷ mark i bs

unfoldable pub is_set : ℕ → List Bool → Bool
is_set i [] = false
is_set zero (b ∷ bs) = b
is_set (suc i) (b ∷ bs) = is_set i bs

unfoldable pub zeros : ℕ → List Bool
zeros zero = []
zeros (suc n) = false ∷ zeros n

-- `for (int v : values) seen[v - min] = 1`.
unfoldable pub mark_all : ℕ → List ℕ → List Bool → List Bool
mark_all low [] seen = seen
mark_all low (v ∷ vs) seen = mark_all low vs (mark (v - low) seen)

-- The values that are marked, in order.
unfoldable pub collect : ℕ → List Bool → List ℕ
collect v [] = []
collect v (b ∷ bs) = let rest = collect (suc v) bs in if b then v ∷ rest else rest

-- The tokens between commas. A comma at the end opens no token.
unfoldable pub tokens : Text → Text → List Text
tokens cur [] = cur ∷ []
tokens cur (c ∷ cs) =
    let more = tokens [] cs in
    let longer = tokens (cur ++ c ∷ []) cs in
    if c == b',' then (if is_empty cs then cur ∷ [] else cur ∷ more) else longer

unfoldable pub skip_spaces : Text → Text
skip_spaces [] = []
skip_spaces (c ∷ cs) = let rest = skip_spaces cs in if c == b' ' then rest else c ∷ cs

-- The characters up to a space, and the rest.
unfoldable pub take_field : Text → Text × Text
take_field [] = ([], [])
take_field (c ∷ cs) =
    let (f, rest) = take_field cs in if c == b' ' then ([], c ∷ cs) else (c ∷ f, rest)

-- At most so many fields, and what is left of the text.
unfoldable pub split_fields : ℕ → Text → List Text × Text
split_fields zero s = ([], s)
split_fields (suc n) s = elim (skip_spaces s) [
  | [] ↦ ([], [])
  | c ∷ cs ↦
      let (f, rest) = take_field (c ∷ cs) in let (fs, left) = split_fields n rest in (f ∷ fs, left)
]

-- `range_start < min || range_end > max || range_start > range_end`.
unfoldable pub checked : ℕ → ℕ → ℤ → ℤ → Parsed (ℕ × ℕ)
checked low high first last =
    if ltb_ℤ first (pos low) || ltb_ℤ (pos high) last || ltb_ℤ last first
    then rejected
    else parsed (pos_part first, pos_part last)

module _ (stoi : Text → Option ℤ) where
  unfoldable pub step_of : Text → Parsed ℕ
  step_of s = if is_empty s then rejected else elim (stoi s) [
    | none ↦ rejected
    | some k ↦ if leb_ℤ k (pos 0) then rejected else parsed (pos_part k)
  ]

  -- The bounds of a range: of `*`, of one value, or of two values with a dash between them.
  unfoldable pub bounds_of : ℕ → ℕ → Text → Parsed (ℕ × ℕ)
  bounds_of low high base =
      if text_eq base (text "*") then parsed (low, high) else elim (break_at b'-' base) [
        | none ↦ elim (stoi base) [ none ↦ rejected | some v ↦ checked low high v v ]
        | some (before, after) ↦
            if is_empty before || is_empty after then rejected else elim (stoi before) [
              | none ↦ rejected
              | some first ↦ elim (stoi after) [
                | none ↦ rejected
                | some last ↦ checked low high first last
              ]
            ]
      ]

  -- The base of a token and its step.
  unfoldable pub base_and_step : Text → Parsed (Text × ℕ)
  base_and_step token = elim (break_at b'/' token) [
    | none ↦ parsed (token, 1)
    | some (base, after) ↦ elim (step_of after) [
      | parsed k ↦ parsed (base, k)
      | rejected ↦ rejected
      | undefined ↦ undefined
    ]
  ]

  unfoldable pub parse_range : ℕ → ℕ → Text → Parsed (List ℕ)
  parse_range low high token = if is_empty token then rejected else elim (base_and_step token) [
    | rejected ↦ rejected
    | undefined ↦ undefined
    | parsed (base, step) ↦ elim (bounds_of low high base) [
      | rejected ↦ rejected
      | undefined ↦ undefined
      | parsed (first, last) ↦ range_values (last + 2) first last step
    ]
  ]

  -- The loop over the tokens.
  unfoldable pub mark_tokens : ℕ → ℕ → List Text → List Bool → Parsed (List Bool)
  mark_tokens low high [] seen = parsed seen
  mark_tokens low high (t ∷ ts) seen = elim (parse_range low high t) [
    | rejected ↦ rejected
    | undefined ↦ undefined
    | parsed vs ↦ mark_tokens low high ts (mark_all low vs seen)
  ]

  unfoldable pub parse_field : ℕ → ℕ → Text → Parsed (List ℕ)
  parse_field low high field =
      if is_empty field
      then rejected
      else elim (mark_tokens low high (tokens [] field) (zeros (high - low + 1))) [
        | rejected ↦ rejected
        | undefined ↦ undefined
        | parsed seen ↦ let vs = collect low seen in if is_empty vs then rejected else parsed vs
      ]

  unfoldable pub parse_fields : List Text → Parsed CronExpr
  parse_fields (f1 ∷ f2 ∷ f3 ∷ f4 ∷ f5 ∷ []) = elim (parse_field 0 59 f1) [
    | rejected ↦ rejected
    | undefined ↦ undefined
    | parsed v1 ↦ elim (parse_field 0 23 f2) [
      | rejected ↦ rejected
      | undefined ↦ undefined
      | parsed v2 ↦ elim (parse_field 1 31 f3) [
        | rejected ↦ rejected
        | undefined ↦ undefined
        | parsed v3 ↦ elim (parse_field 1 12 f4) [
          | rejected ↦ rejected
          | undefined ↦ undefined
          | parsed v4 ↦ elim (parse_field 0 6 f5) [
            | rejected ↦ rejected
            | undefined ↦ undefined
            | parsed v5 ↦
                parsed (record { minutes = v1; hours = v2; days = v3; months = v4; weekdays = v5 })
          ]
        ]
      ]
    ]
  ]
  parse_fields _ = rejected

  unfoldable pub parse : Text → Parsed CronExpr
  parse spec =
      let (fields, left) = split_fields 5 spec in
      if is_empty (skip_spaces left) then parse_fields fields else rejected

-- The lookup tables, and the tests of one candidate.
unfoldable pub lookup : ℕ → List ℕ → List Bool
lookup size vs = mark_all 0 vs (zeros size)

unfoldable pub candidate_matches : CronExpr → Tm → Bool
candidate_matches e tm =
    is_set (tm.tm_mon + 1) (lookup 13 e.months)
    && is_set tm.tm_mday (lookup 32 e.days)
    && is_set tm.tm_wday (lookup 7 e.weekdays)
    && is_set tm.tm_hour (lookup 24 e.hours)
    && is_set tm.tm_min (lookup 60 e.minutes)

module _ (localtime : ℕ → Tm) where
  -- So many candidates, from a minute on; a minute is 60 units of `std::time_t`.
  unfoldable pub check_from : CronExpr → ℕ → ℕ → Option ℕ
  check_from e zero minute = none
  check_from e (suc checks) minute = elim (candidate_matches e (localtime (minute * 60))) [
    | true ↦ some minute
    | false ↦ check_from e checks (suc minute)
  ]

  -- The next minute, from a time in nanoseconds. `none` is the exception.
  unfoldable pub next_minute : CronExpr → ℕ → Option ℕ
  next_minute e now = check_from e (365 * 24 * 60) (now / 60000000000 + 1)
