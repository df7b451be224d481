-- ===== src/Ws/Hub.antt =====
-- server/src/ws/ws_hub.cpp, ws_log_streamer.cpp and ws_protocol.h: the sessions of the hub, and the
-- records that are pushed to them; server/src/ws/ws_server_beast.cpp: `send`. The post of a message
-- and its handling are one; nothing is written while a record is pushed.
use task_hub.Runner.ConfigJson.{params_to_fields}
use task_hub.Prelude.{
  ℕ, Text, ◌≡◌, ◌++◌, [], ◌∷◌, ◌||◌, ◌==◌, not, List, Bool, true, suc, map, is_empty, text,
  if◌then◌else◌, pos, leb, false,
}
use task_hub.Json.{Json, string, object_of, unsigned, integer, object}
use task_hub.Ws.Session.{WsSession, contains, send_text, new_session}
use task_hub.Ws.Protocol.{channel_task_logs}
use task_hub.Log.Buffer.{LogRecord, LogLevel, LogStream}
pub mod Delivery

-- A weak pointer, which is live while the session exists; `id` tells the sessions apart, and `waiting`
-- is the length of the session's queue of messages that wait to be written.
pub record Member : Type 0 where
  pub id : ℕ
  pub is_live : Bool
  pub waiting : ℕ
  pub session : WsSession

abbrev pub max_pending_messages : ℕ
max_pending_messages = 512

abbrev pub Hub : Type 0
Hub = List Member

unfoldable pub add_session : ℕ → WsSession → Hub → Hub
add_session id s hub = hub ++ record { id = id; is_live = true; waiting = 0; session = s } ∷ []

unfoldable pub remove_session : ℕ → Hub → Hub
remove_session id [] = []
remove_session id (m ∷ ms) =
    let rest = remove_session id ms in if not m.is_live || m.id == id then rest else m ∷ rest

unfoldable pub session_count : Hub → ℕ
session_count [] = 0
session_count (m ∷ ms) = let rest = session_count ms in if m.is_live then suc rest else rest

-- A session with too many messages that wait is closed and leaves the hub, which is what a pointer to
-- it that is dead does.
unfoldable pub send_to : Text → Member → Member
send_to payload m =
    if leb max_pending_messages m.waiting
    then record m { is_live = false }
    else record m { waiting = suc m.waiting; session = send_text payload m.session }

-- To every session, whether it is known or not.
unfoldable pub broadcast_all : Text → Hub → Hub
broadcast_all payload [] = []
broadcast_all payload (m ∷ ms) =
    let rest = broadcast_all payload ms in if m.is_live then send_to payload m ∷ rest else rest

-- To the sessions that have subscribed to the channel.
unfoldable pub broadcast : Text → Text → Hub → Hub
broadcast channel payload [] = []
broadcast channel payload (m ∷ ms) =
    let rest = broadcast channel payload ms in
    if m.is_live
    then (if contains channel m.session.subscriptions then send_to payload m else m) ∷ rest
    else rest

unfoldable pub level_int : LogLevel → ℕ
level_int LogLevel.debug = 0
level_int LogLevel.info = 1
level_int LogLevel.warn = 2
level_int LogLevel.error = 3

unfoldable pub stream_int : LogStream → ℕ
stream_int LogStream.no_stream = 0
stream_int LogStream.stdout = 1
stream_int LogStream.stderr = 2
stream_int LogStream.event = 3

unfoldable pub build_log_json : ℕ → LogRecord → Json
build_log_json now_ms r =
    let run =
      (if is_empty r.task_id.run_id then [] else (text "run_id", string r.task_id.run_id) ∷ []) in
    object_of (
      (text "type", string (text "log"))
      ∷ (text "task_id", string r.task_id.value)
      ∷ (run
          ++ (text "seq", unsigned r.seq)
            ∷ (text "ts_ms", integer (pos now_ms))
            ∷ (text "level", integer (pos (level_int r.level)))
            ∷ (text "stream", integer (pos (stream_int r.stream)))
            ∷ (text "message", string r.message)
            ∷ (text "duration_ms", integer r.duration_ms)
            ∷ (text "attempt", integer r.attempt)
            ∷ (text "fields", object (params_to_fields r.fields))
            ∷ []))

-- With the library's text of a value, in which what is not UTF-8 is replaced.
unfoldable pub push_log : (Json → Text) → ℕ → LogRecord → Hub → Hub
push_log dump now_ms r hub =
    let payload = dump (build_log_json now_ms r) in
    let task = r.task_id.value in
    let run = r.task_id.run_id in
    if is_empty run
    then broadcast (channel_task_logs task []) payload hub
    else broadcast (channel_task_logs [] run) payload (
        broadcast (channel_task_logs task []) payload
          (broadcast (channel_task_logs task run) payload hub))
