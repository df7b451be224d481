-- ===== src/Log/Buffer.antt =====
-- server/src/log/log_record.h and task_log_buffer.cpp. The wall-clock time of a record is left
-- out; the steady clock, in nanoseconds, is an argument of the calls that read it.
use task_hub.Prelude.{
  ℕ, Text, List, ◌+◌, ◌-◌, ◌%◌, ◌/◌, ◌++◌, [], erase, find, if◌then◌else◌, put, ℤ, ◌∷◌, is_empty,
  ltb, none, pos, suc, leb, length, some, drop,
}
use task_hub.Runner.Task.{TaskId, TaskId-Eq}

pub data LogLevel : Type 0 where
  debug info warn error : LogLevel

pub data LogStream : Type 0 where
  no_stream stdout stderr event : LogStream

pub record LogRecord : Type 0 where
  pub task_id : TaskId
  pub dag_run_id : Text
  pub cron_job_id : Text
  pub worker_id : Text
  pub run_id : Text
  pub level : LogLevel
  pub stream : LogStream
  pub message : Text
  pub duration_ms : ℤ
  pub attempt : ℤ
  pub fields : List (Text × Text)
  pub seq : ℕ

abbrev pub default_record : LogRecord
default_record = record {
  task_id = record { value = []; run_id = [] };
  dag_run_id = [];
  cron_job_id = [];
  worker_id = [];
  run_id = [];
  level = LogLevel.info;
  stream = LogStream.event;
  message = [];
  duration_ms = pos 0;
  attempt = pos 0;
  fields = [];
  seq = 0;
}

pub record PerTaskBuf : Type 0 where
  pub q : List LogRecord
  pub next_seq : ℕ
  pub last_touch : ℕ

-- `TaskKey` holds the two fields of a task's id.
abbrev pub Bufs : Type 0
Bufs = List (TaskId × PerTaskBuf)

unfoldable pub get_or_create : ℕ → TaskId → Bufs → PerTaskBuf
get_or_create now id bufs = elim (find id bufs) [
  | none ↦ record { q = []; next_seq = 1; last_touch = now }
  | some b ↦ record b { last_touch = now }
]

-- `while (b.q.size() > _perTaskMaxRecords) b.q.pop_front()`.
unfoldable pub trim : ℕ → List LogRecord → List LogRecord
trim max [] = []
trim max (r ∷ rs) = let rest = trim max rs in if ltb max (suc (length rs)) then rest else r ∷ rs

unfoldable pub stored_record : LogRecord → PerTaskBuf → LogRecord
stored_record rec b = record rec {
  run_id = if is_empty rec.run_id then rec.task_id.run_id else rec.run_id;
  seq = b.next_seq;
}

-- One buffer after a record; the sequence number is of 64 bits.
unfoldable pub push_record : ℕ → LogRecord → PerTaskBuf → PerTaskBuf
push_record max rec b = record b {
  q = trim max (b.q ++ stored_record rec b ∷ []);
  next_seq = (b.next_seq + 1) % 18446744073709551616;
}

-- The record as it is stored, and the buffers.
unfoldable pub append : ℕ → ℕ → LogRecord → Bufs → LogRecord × Bufs
append max now rec bufs =
    let b = get_or_create now rec.task_id bufs in
    (stored_record rec b, put rec.task_id (push_record max rec b) bufs)

unfoldable pub append_stdout : ℕ → ℕ → TaskId → Text → Bufs → LogRecord × Bufs
append_stdout max now id message bufs =
    append max now
      (record default_record {
        task_id = id;
        run_id = id.run_id;
        level = LogLevel.info;
        stream = LogStream.stdout;
        message = message;
      })
      bufs

unfoldable pub append_stderr : ℕ → ℕ → TaskId → Text → Bufs → LogRecord × Bufs
append_stderr max now id message bufs =
    append max now
      (record default_record {
        task_id = id;
        run_id = id.run_id;
        level = LogLevel.warn;
        stream = LogStream.stderr;
        message = message;
      })
      bufs

-- The loop of `get`, after so many records have been collected.
unfoldable pub page : ℕ → ℕ → ℕ → List LogRecord → List LogRecord
page from_seq limit count [] = []
page from_seq limit count (r ∷ rs) =
    let next = page from_seq limit (suc count) rs in
    let skipped = page from_seq limit count rs in
    if leb from_seq r.seq then (if leb limit (suc count) then r ∷ [] else r ∷ next) else skipped

unfoldable pub next_from : ℕ → List LogRecord → ℕ
next_from from_seq [] = from_seq
next_from from_seq (r ∷ []) = (r.seq + 1) % 18446744073709551616
next_from from_seq (r ∷ x ∷ rs) = next_from from_seq (x ∷ rs)

unfoldable pub get : TaskId → ℕ → ℕ → Bufs → ℕ × List LogRecord
get id from_seq limit bufs = elim (find id bufs) [
  | none ↦ (from_seq, [])
  | some b ↦ let rs = page from_seq limit 0 b.q in (next_from from_seq rs, rs)
]

unfoldable pub tail : TaskId → ℕ → Bufs → List LogRecord
tail id n bufs = elim (find id bufs) [
  | none ↦ []
  | some b ↦ drop (if leb (length b.q) n then 0 else length b.q - n) b.q
]

unfoldable pub clear : TaskId → Bufs → Bufs
clear id bufs = erase id bufs

-- The age is in milliseconds.
unfoldable pub prune_older_than : ℕ → ℕ → Bufs → Bufs
prune_older_than now max_age [] = []
prune_older_than now max_age ((id, b) ∷ bufs) =
    let rest = prune_older_than now max_age bufs in
    if ltb max_age ((now - b.last_touch) / 1000000) then rest else (id, b) ∷ rest
