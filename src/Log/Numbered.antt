-- ===== src/Log/Numbered.antt =====
-- The sequence numbers in a buffer.
use task_hub.Runner.Task.{TaskId-Eq, TaskId, task_id_eq}
use native.Mathlib.Nat.{mod-eq_of_lt}
use task_hub.Prelude.{
  ℕ, List, [], ◌∷◌, ◌≡◌, refl, arith, ◌+◌, ◌-◌, ◌++◌, length, suc, Bool-cases, ◌≤◌, ltb, inl, inr,
  ◌<◌, take, find, ◌∙◌, length-append, some, Option-cases, find-put, drop, sym, ap, leb, zero,
}
use task_hub.Log.Buffer.{
  LogRecord, PerTaskBuf, trim, append, get_or_create, page, push_record, Bufs, stored_record,
}

-- The records are numbered from `s` on, without a gap.
abbrev pub Numbered : ℕ → List LogRecord → Type 0
Numbered s [] = Unit {0}
Numbered s (r ∷ rs) = (r.seq ≡ s) × Numbered (suc s) rs

-- A buffer holds at most `max` records, numbered without a gap up to the next number.
pub record IsLog (max : ℕ) (b : PerTaskBuf) : Type 0 where
  pub first : ℕ
  pub numbered : Numbered first b.q
  pub up_to_next : first + length b.q ≡ b.next_seq
  pub bounded : length b.q ≤ max

Numbered-append :
    (s : ℕ) (rs : List LogRecord) (r : LogRecord)
    → Numbered s rs
    → r.seq ≡ s + length rs
    → Numbered s (rs ++ r ∷ [])
Numbered-append s [] r n e = (omega arith, tt)
Numbered-append s (x ∷ rs) r n e = (n.0, Numbered-append (suc s) rs r n.1 (omega arith))

length-trim-le : (max : ℕ) (rs : List LogRecord) → length (trim max rs) ≤ max
unfolding trim
length-trim-le max [] = omega arith
length-trim-le max (r ∷ rs) = ground (arith, length-trim-le max rs)

-- What is trimmed is numbered up to the same number.
Numbered-trim :
    (max s : ℕ) (rs : List LogRecord)
    → Numbered s rs
    → (t : ℕ) × Numbered t (trim max rs) × (t + length (trim max rs) ≡ s + length rs)
unfolding trim
Numbered-trim max s [] n = (s, tt, refl)
Numbered-trim max s (r ∷ rs) n =
    let (t, m, e) = Numbered-trim max (suc s) rs n.1 in
    elim (Bool-cases (ltb max (suc (length rs)))) [
      | inl c ↦ rw c (t, m, omega arith)
      | inr c ↦ rw c (s, n, refl)
    ]

push_record-IsLog :
    (max : ℕ) (rec : LogRecord) (b : PerTaskBuf)
    → IsLog max b
    → b.next_seq + 1 < 18446744073709551616
    → IsLog max (push_record max rec b)
unfolding push_record stored_record
push_record-IsLog max rec b w h =
    let pushed = b.q ++ stored_record rec b ∷ [] in
    let (t, m, e) = Numbered-trim max w.first pushed (
      Numbered-append w.first b.q (stored_record rec b) w.numbered (omega (arith, w.up_to_next))) in
    record {
      first = t;
      numbered = m;
      up_to_next =
          e
          ∙ omega
              (arith, w.up_to_next, length-append b.q (stored_record rec b ∷ []), mod-eq_of_lt h);
      bounded = length-trim-le max pushed;
    }

get_or_create-IsLog :
    (max now : ℕ) (id : TaskId) (bufs : Bufs)
    → ((key : TaskId) (b : PerTaskBuf)
        → find key bufs ≡ some b
        → IsLog max b × (b.next_seq + 1 < 18446744073709551616))
    → IsLog max (get_or_create now id bufs)
      × ((get_or_create now id bufs).next_seq + 1 < 18446744073709551616)
unfolding get_or_create
get_or_create-IsLog max now id bufs w = elim (Option-cases (find id bufs)) [
  | inl e ↦
      rw (e, get_or_create)
        (record { first = 1; numbered = tt; up_to_next = refl; bounded = omega arith }, omega arith)
  | inr (b, e) ↦
      let (l, h) = w id b e in
      rw (e, get_or_create)
        (
          record {
            first = l.first;
            numbered = l.numbered;
            up_to_next = l.up_to_next;
            bounded = l.bounded;
          },
          h,
        )
]

-- Whatever is appended, while no sequence number reaches the end of its 64 bits, every buffer holds
-- at most the configured number of records, and these are numbered without a gap up to the next
-- number.
pub append-IsLog :
    (max now : ℕ) (rec : LogRecord) (bufs : Bufs)
    → ((key : TaskId) (b : PerTaskBuf)
        → find key bufs ≡ some b
        → IsLog max b × (b.next_seq + 1 < 18446744073709551616))
    → (key : TaskId) (b : PerTaskBuf) → find key (append max now rec bufs).1 ≡ some b
    → IsLog max b
unfolding append
append-IsLog max now rec bufs w key b e =
    let (l, h) = get_or_create-IsLog max now rec.task_id bufs w in
    let found =
      find-put rec.task_id key (push_record max rec (get_or_create now rec.task_id bufs)) bufs in
    elim (Bool-cases (task_id_eq rec.task_id key)) [
      | inl q ↦
          let same : push_record max rec (get_or_create now rec.task_id bufs) ≡ b = ground arith in
          rw (← same) (push_record-IsLog max rec (get_or_create now rec.task_id bufs) l h)
      | inr q ↦ (w key b (ground arith)).0
    ]

drop-nil : (n : ℕ) → drop {A = LogRecord} n [] ≡ []
drop-nil zero = refl
drop-nil (suc n) = refl

-- From a record that is asked for on, so many are given as there is room for.
page-take :
    (from_seq limit count s : ℕ) (room : ℕ) (rs : List LogRecord)
    → Numbered s rs
    → from_seq ≤ s
    → limit ≡ count + suc room
    → page from_seq limit count rs ≡ take (suc room) rs
unfolding page
page-take from_seq limit count s room [] n h l = refl
page-take from_seq limit count s zero (r ∷ rs) n h l = ground arith
page-take from_seq limit count s (suc room) (r ∷ rs) n h l =
    ground
      (arith, page-take from_seq limit (suc count) (suc s) room rs n.1 (omega arith) (omega arith))

-- From records numbered without a gap, the loop of `get` takes those from the number that is asked
-- for on, as many as the limit allows, for a limit of at least 1.
pub page-Numbered :
    (from_seq room s : ℕ) (rs : List LogRecord)
    → Numbered s rs
    → page from_seq (suc room) 0 rs ≡ take (suc room) (drop (from_seq - s) rs)
unfolding page
page-Numbered from_seq room s [] n = sym (ap (take (suc room)) (drop-nil (from_seq - s)))
page-Numbered from_seq room s (r ∷ rs) n = elim (Bool-cases (leb from_seq s)) [
  | inl e ↦
      let z : from_seq - s ≡ 0 = ground arith in
      rw z (page-take from_seq (suc room) 0 s room (r ∷ rs) n (ground arith) (omega arith))
  | inr e ↦
      let z : from_seq - s ≡ suc (from_seq - suc s) = ground arith in
      rw z (ground (arith, page-Numbered from_seq room (suc s) rs n.1))
]
