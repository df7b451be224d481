-- ===== src/Ws/Hub/Delivery.antt =====
-- server/src/ws/ws_log_streamer.cpp: which sessions receive a record.
use task_hub.Ws.Protocol.{channel_task_logs}
use task_hub.Ws.Session.{contains}
use mathlib.Core.List.{append-nil, append_assoc}
use task_hub.Prelude.{
  ℕ, Text, ◌≡◌, ◌++◌, [], ◌∷◌, List, map, is_empty, if◌then◌else◌, arith, All, length, ◌≤◌, ◌+◌,
  true, length-append, Bool-cases, inl, inr, ◌<◌,
}
use task_hub.Json.{Json}
use task_hub.Log.Buffer.{LogRecord}
use task_hub.Ws.Hub.{Hub, Member, send_to, push_log, broadcast, build_log_json}

-- One copy of a text for each channel of a list that is among the subscriptions.
abbrev pub copies_for : List Text → Text → List Text → List Text
copies_for [] payload subscriptions = []
copies_for (c ∷ cs) payload subscriptions =
    if contains c subscriptions
    then payload ∷ copies_for cs payload subscriptions
    else copies_for cs payload subscriptions

-- The channels of a task in a run: of the task in this run, of the task in any, and of the run.
abbrev pub log_channels : Text → Text → List Text
log_channels task run =
    if is_empty run
    then channel_task_logs task [] ∷ []
    else channel_task_logs task run ∷ channel_task_logs task [] ∷ channel_task_logs [] run ∷ []

abbrev pub receives : List Text → Member → Member
receives texts m = record m {
  waiting = m.waiting + length texts;
  session = record m.session { sent = m.session.sent ++ texts };
}

-- No more than 509 of the 512 messages wait that a session may have waiting.
abbrev pub HasRoom : Member → Type 0
HasRoom m = m.is_live ≡ true → m.waiting + 3 ≤ 512

unfoldable pub live_members : Hub → Hub
live_members [] = []
live_members (m ∷ ms) = let rest = live_members ms in if m.is_live then m ∷ rest else rest

receives-nothing : (m : Member) → receives [] m ≡ m
receives-nothing m = ground (arith, append-nil m.session.sent)

send_to-receives :
    (p : Text) (texts : List Text) (m : Member)
    → m.waiting + length texts < 512
    → send_to p (receives texts m) ≡ receives (texts ++ p ∷ []) m
unfolding send_to
send_to-receives p texts m room =
    ground (arith, append_assoc m.session.sent texts (p ∷ []), length-append texts (p ∷ []), room)

-- If each session that lives has room for three more messages, a record that is pushed reaches every session of the hub that lives, once for each channel of its
-- task and run that the session has subscribed to, and no other; the dead sessions are removed.
pub push_log-receives :
    (dump : Json → Text) (now_ms : ℕ) (r : LogRecord) (hub : Hub)
    → All HasRoom hub
    → push_log dump now_ms r hub
      ≡ map
          (λ m.
            receives
              (copies_for
                (log_channels r.task_id.value r.task_id.run_id)
                (dump (build_log_json now_ms r))
                m.session.subscriptions)
              m)
          (live_members hub)
unfolding push_log broadcast live_members
push_log-receives dump now_ms r [] h = ground arith
push_log-receives dump now_ms r (m ∷ ms) h =
    let p = dump (build_log_json now_ms r) in
    let rest = push_log-receives dump now_ms r ms h.1 in
    elim (Bool-cases m.is_live) [
      | inr dead ↦ ground (arith, dead, rest)
      | inl live ↦
          let room = h.0 live in
          ground (
            arith,
            live,
            rest,
            receives-nothing m,
            send_to-receives p [] m (omega (arith, room)),
            send_to-receives p (p ∷ []) m (omega (arith, room)),
            send_to-receives p (p ∷ p ∷ []) m (omega (arith, room)),
          )
    ]
