-- ===== src/Tests/CronTests.antt =====
-- An expression, and a clock of whole days.
use task_hub.Scheduler.Cron.Next.{IsCalendar, Matches, next_minute_first}
use task_hub.Scheduler.Cron.Field.{InTokens, parse_field-mem}
use task_hub.Scheduler.Cron.{
  CronExpr, Tm, next_minute, parse_field, check_from, mark_tokens, tokens, candidate_matches,
  parse_range, is_set, bounds_of, lookup, base_and_step, mark_all, step_of, checked, mark,
  range_values, zeros, break_at, collect, parsed,
}
use mathlib.Core.List.Memᴰ
use task_hub.Prelude.{
  ℕ, text, [], ◌∷◌, ◌≡◌, refl, arith, ◌≤◌, ◌+◌, ◌-◌, ◌*◌, ◌%◌, ◌/◌, ◌<◌, Text, Option, ℤ, some, pos,
  if◌then◌else◌, ltb, none, text_eq,
}

-- A reading of decimal digits.
abbrev digits : ℕ → Text → Option ℤ
digits n [] = some (pos n)
digits n (c ∷ cs) = if ltb c b'0' then none else digits (n * 10 + (c - b'0')) cs

abbrev read : Text → Option ℤ
read = digits 0

-- Every day is the first of January, and a Thursday.
abbrev pub clock : ℕ → Tm
clock t = record {
  tm_min = t / 60 % 60;
  tm_hour = t / 3600 % 24;
  tm_mday = 1;
  tm_mon = 0;
  tm_wday = 4;
}

clock-IsCalendar : (t : ℕ) → IsCalendar (clock t)
clock-IsCalendar t = omega arith

abbrev pub five_past : CronExpr
five_past = record {
  minutes = 5 ∷ [];
  hours = 0 ∷ 1 ∷ [];
  days = 1 ∷ [];
  months = 1 ∷ [];
  weekdays = 4 ∷ [];
}

pub next_found : next_minute clock five_past 0 ≡ some 5
unfolding next_minute check_from candidate_matches is_set lookup mark_all mark zeros
next_found = refl

next_minute_first_example :
    (0 / 60000000000 < 5)
    × (5 ≤ 0 / 60000000000 + 525600)
    × Matches five_past (clock (5 * 60))
    × ((u : ℕ) → 0 / 60000000000 < u → u < 5 → ¬ Matches five_past (clock (u * 60)))
next_minute_first_example = (next_minute_first clock five_past 0 clock-IsCalendar).0 5 next_found

field_parsed : parse_field read 0 59 (text "10-14/2,3") ≡ parsed (3 ∷ 10 ∷ 12 ∷ 14 ∷ [])
unfolding parse_field mark_tokens parse_range bounds_of base_and_step step_of checked range_values
    break_at tokens mark_all mark zeros collect text_eq
field_parsed = refl

parse_field-mem_example : InTokens read 0 59 (tokens [] (text "10-14/2,3")) 12
parse_field-mem_example =
    ((parse_field-mem read 0 59 (text "10-14/2,3") (3 ∷ 10 ∷ 12 ∷ 14 ∷ []) (omega arith)
          field_parsed).0
        12).0
      (Memᴰ.tail (Memᴰ.tail (Memᴰ.head refl)))
