-- ===== src/Tests/LogTests.antt =====
-- A buffer of two records.
use task_hub.Log.Numbered.{IsLog, append-IsLog}
use task_hub.Log.Buffer.{
  Bufs, LogRecord, PerTaskBuf, append, default_record, push_record, get_or_create,
}
use task_hub.Runner.Task.{TaskId-Eq, task_id_eq, TaskId}
use task_hub.Prelude.{
  text, [], ◌∷◌, ◌≡◌, refl, arith, Text-Eq, ◌+◌, ◌<◌, find, put, some, Bool-cases, text_eq, inl,
  inr,
}
use task_hub.Tests.DagTests.{named}

abbrev line : LogRecord
line = record default_record { task_id = named (text "a"); seq = 4 }

abbrev next_line : LogRecord
next_line = record line { seq = 5 }

abbrev kept : PerTaskBuf
kept = record { q = line ∷ next_line ∷ []; next_seq = 6; last_touch = 0 }

kept-IsLog : IsLog 2 kept
kept-IsLog = record {
  first = 4;
  numbered = (refl, (refl, tt));
  up_to_next = refl;
  bounded = omega arith;
}

abbrev one_buf : Bufs
one_buf = (named (text "a"), kept) ∷ []

one_buf-IsLog :
    (key : TaskId) (b : PerTaskBuf)
    → find key one_buf ≡ some b
    → IsLog 2 b × (b.next_seq + 1 < 18446744073709551616)
unfolding find
one_buf-IsLog key b e = elim (Bool-cases (task_id_eq (named (text "a")) key)) [
  | inl q ↦ let same : kept ≡ b = ground arith in rw (← same) (kept-IsLog, omega arith)
  | inr q ↦ ground arith
]

abbrev after_append : PerTaskBuf
after_append = push_record 2 line (record kept { last_touch = 9 })

append_found : find (named (text "a")) (append 2 9 line one_buf).1 ≡ some after_append
unfolding append find put get_or_create task_id_eq text_eq
append_found = refl

append-IsLog_example : IsLog 2 after_append
append-IsLog_example =
    append-IsLog 2 9 line one_buf one_buf-IsLog (named (text "a")) after_append append_found
