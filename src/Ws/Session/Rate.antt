-- ===== src/Ws/Session/Rate.antt =====
-- server/src/ws/ws_server_beast.cpp: how many commands a session handles in ten seconds.
use task_hub.Auth.Manager.{AuthManager}
use task_hub.Prelude.{
  ℕ, ◌≤◌, ◌≡◌, [], ◌∷◌, ◌++◌, ◌+◌, List, bit, leb, length, arith, refl, Text, length-append,
  Text-Eq, false, true, Bool-cases, if◌then◌else◌, inl, inr,
}
use task_hub.Ws.Session.{
  drop_old, window, max_commands_per_window, handle_command, new_session, WsSession, Environment,
}
use task_hub.Ws.Session.Guards.{handle_command-times}

-- The times, of a list, that are not before the window of a time.
unfoldable pub recent_count : ℕ → List ℕ → ℕ
recent_count now [] = 0
recent_count now (t ∷ ts) = bit (leb now (t + window)) + recent_count now ts

recent_count-le : (now : ℕ) (ts : List ℕ) → recent_count now ts ≤ length ts
unfolding recent_count
recent_count-le now [] = omega arith
recent_count-le now (t ∷ ts) = ground (arith, recent_count-le now ts)

recent_count-drop_old : (now : ℕ) (ts : List ℕ) → recent_count now ts ≤ length (drop_old now ts)
unfolding recent_count drop_old
recent_count-drop_old now [] = omega arith
recent_count-drop_old now (t ∷ ts) =
    ground (arith, recent_count-drop_old now ts, recent_count-le now ts)

drop_old-drop_old :
    (now last : ℕ) (ts : List ℕ) → last ≤ now → drop_old now (drop_old last ts) ≡ drop_old now ts
unfolding drop_old
drop_old-drop_old now last [] h = refl
drop_old-drop_old now last (t ∷ ts) h = ground (arith, drop_old-drop_old now last ts h)

drop_old-append :
    (now : ℕ) (ts : List ℕ) → drop_old now (ts ++ now ∷ []) ≡ drop_old now ts ++ now ∷ []
unfolding drop_old
drop_old-append now [] = ground arith
drop_old-append now (t ∷ ts) = ground (arith, drop_old-append now ts)

recent_count-later :
    (now last : ℕ) (ts : List ℕ) → last ≤ now → recent_count now ts ≤ recent_count last ts
unfolding recent_count
recent_count-later now last [] h = omega arith
recent_count-later now last (t ∷ ts) h = ground (arith, recent_count-later now last ts h)

abbrev pub still_open : WsSession → ℕ → List ℕ → List ℕ
still_open after now ts = if after.is_closed then ts else ts ++ now ∷ []

-- The commands that come to a session until it closes, one after the other: the session, the times of
-- those that it has handled, which are those after which it is still open, and the time of the last
-- command.
pub data Handled : WsSession → List ℕ → ℕ → Type 0 where
  fresh : Handled new_session [] 0
  comes :
      {s : WsSession} {ts : List ℕ} {last : ℕ} (m : Environment) (now auth_now worker_now : ℕ)
      (payload : Text) (a : AuthManager)
      → Handled s ts last
      → s.is_closed ≡ false
      → last ≤ now
      → Handled
          (handle_command m now auth_now worker_now payload s a).0
          (still_open (handle_command m now auth_now worker_now payload s a).0 now ts)
          now

full_closes :
    (m : Environment) (now auth_now worker_now : ℕ) (payload : Text) (s : WsSession)
    (a : AuthManager)
    → leb max_commands_per_window (length (drop_old now s.cmd_timestamps)) ≡ true
    → (handle_command m now auth_now worker_now payload s a).0.is_closed ≡ true
unfolding handle_command
full_closes m now auth_now worker_now payload s a e = ground arith

Handled-times :
    {s : WsSession} {ts : List ℕ} {last : ℕ}
    → Handled s ts last
    → (recent_count last ts ≤ 30)
      × (s.is_closed ≡ false
          → (s.cmd_timestamps ≡ drop_old last ts)
            × (length s.cmd_timestamps ≤ max_commands_per_window))
unfolding drop_old recent_count
Handled-times fresh = (omega arith, λ o. (refl, omega arith))
Handled-times (comes {s} {ts} {last} m now auth_now worker_now payload a h stayed later) =
    let (few, kept) = Handled-times h in
    let (same, bound) = kept stayed in
    let after = (handle_command m now auth_now worker_now payload s a).0 in
    let times = handle_command-times m now auth_now worker_now payload s a in
    let full = full_closes m now auth_now worker_now payload s a in
    elim (Bool-cases after.is_closed) [
      | inl closed ↦
          rw closed (
            omega (arith, few, recent_count-later now last ts later),
            λ o. ground (arith, closed, o),
          )
      | inr stays ↦
          let facts : (after.cmd_timestamps ≡ drop_old now (ts ++ now ∷ []))
              × (length after.cmd_timestamps ≤ max_commands_per_window) =
            ground (
              arith,
              stays,
              full,
              same,
              times,
              drop_old-drop_old now last ts later,
              drop_old-append now ts,
              length-append (drop_old now s.cmd_timestamps) (now ∷ []),
            ) in
          rw stays (ground (arith, facts, recent_count-drop_old now (ts ++ now ∷ [])), λ o. facts)
    ]

-- Whatever commands come to a session, one after the other in time and until it closes: at most thirty
-- of those that it has handled, and after which it was still open, are of the ten seconds before the
-- last command.
pub handles_thirty_at_most :
    {s : WsSession} {ts : List ℕ} {last : ℕ} → Handled s ts last → recent_count last ts ≤ 30
handles_thirty_at_most h = (Handled-times h).0
