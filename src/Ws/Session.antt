-- ===== src/Ws/Session.antt =====
-- server/src/ws/ws_server_beast.cpp: what a session does with a command. The messages that it sends
-- are listed in order; the proxy that takes over a session is a parameter.
use task_hub.Json.{Json, JsonCalls, member, string, is_number_integer}
use task_hub.Prelude.{
  ℕ, Text, ◌++◌, ◌≡◌, Text-Eq, ◌+◌, List, [], ◌∷◌, text, ℤ, pos, none, some, is_empty,
  if◌then◌else◌, Option, Bool, false, true, ltb, leb, length, ◌=?◌, ◌||◌, leb_ℤ, ltb_ℤ,
}
use task_hub.Auth.Manager.{AuthManager, validate_token, User}
use task_hub.Worker.Selector.{WorkerInfo, Workers, is_alive}
use task_hub.Ws.Protocol.{
  WsOp, WsTopic, ClientCommand, parse_client_command, channel_task_logs, channel_task_events,
}
pub mod Guards
pub mod Rate

pub record WsSession : Type 0 where
  pub subscriptions : List Text
  pub authed : Bool
  pub proxy_mode : Bool
  pub auth_token : Text
  pub cmd_timestamps : List ℕ
  pub is_closed : Bool
  pub sent : List Text

abbrev pub new_session : WsSession
new_session = record {
  subscriptions = [];
  authed = false;
  proxy_mode = false;
  auth_token = [];
  cmd_timestamps = [];
  is_closed = false;
  sent = [];
}

-- What a command meets: the library's parser, with `none` for an exception, its conversions, the
-- printer of numbers, the registered workers, and whether a proxy connects to a host and a port.
pub record Environment : Type 0 where
  pub parse : Text → Option Json
  pub calls : JsonCalls
  pub print : ℤ → Text
  pub workers : Workers
  pub proxy_starts : Text → ℤ → Bool

-- `std::unordered_set`: insert and erase.
unfoldable pub contains : Text → List Text → Bool
contains c [] = false
contains c (d ∷ ds) = let rest = contains c ds in if d =? c then true else rest

unfoldable pub insert : Text → List Text → List Text
insert c cs = if contains c cs then cs else c ∷ cs

unfoldable pub erase_text : Text → List Text → List Text
erase_text c [] = []
erase_text c (d ∷ ds) = let rest = erase_text c ds in if d =? c then rest else d ∷ rest

abbrev pub max_commands_per_window : ℕ
max_commands_per_window = 30

-- Ten seconds, in nanoseconds.
abbrev pub window : ℕ
window = 10000000000

-- The commands of before the window are forgotten, from the front.
unfoldable pub drop_old : ℕ → List ℕ → List ℕ
drop_old now [] = []
drop_old now (t ∷ ts) = let rest = drop_old now ts in if ltb (t + window) now then rest else t ∷ ts

abbrev pub send_text : Text → WsSession → WsSession
send_text m s = record s { sent = s.sent ++ m ∷ [] }

unfoldable pub find_worker : Text → Workers → Option WorkerInfo
find_worker id [] = none
find_worker id ((k, w) ∷ ws) = let rest = find_worker id ws in if w.id =? id then some w else rest

-- The channel of a command; the empty text is none.
unfoldable pub command_channel : ClientCommand → Text
command_channel cmd = elim cmd.topic [
  | WsTopic.task_logs ↦ channel_task_logs cmd.task_id cmd.run_id
  | WsTopic.task_events ↦ channel_task_events cmd.task_id cmd.run_id
  | WsTopic.unknown_topic ↦ []
]

unfoldable pub run_command : ClientCommand → WsSession → WsSession
run_command cmd s =
    let ch = command_channel cmd in
    elim cmd.op [
      | WsOp.subscribe ↦
          if is_empty ch then s else record s { subscriptions = insert ch s.subscriptions }
      | WsOp.unsubscribe ↦
          if is_empty ch then s else record s { subscriptions = erase_text ch s.subscriptions }
      | WsOp.ping ↦ send_text (text "{\"type\":\"pong\"}") s
      | _ ↦ s
    ]

unfoldable pub proxy_error : Text → WsSession → WsSession
proxy_error m = send_text (text "{\"type\":\"proxy_error\",\"message\":\"" ++ (m ++ text "\"}"))

-- The port that a command asks for, or else 8090; `none` is the exception of the conversion.
unfoldable pub ws_port : JsonCalls → Json → Option ℤ
ws_port c j = elim (member (text "ws_port") j) [
  | none ↦ some (pos 8090)
  | some v ↦
      if is_number_integer v
      then elim (c.get_int v) [
        | none ↦ none
        | some p ↦ if leb_ℤ p (pos 0) || ltb_ℤ (pos 65535) p then some (pos 8090) else some p
      ]
      else some (pos 8090)
]

unfoldable pub is_proxy_command : Json → Bool
is_proxy_command j = elim (member (text "op") j) [ some (string s) ↦ s =? text "proxy" | _ ↦ false ]

-- The session is given over to a worker's, without its subscriptions.
unfoldable pub start_proxy : Environment → Text → ℤ → WorkerInfo → WsSession → WsSession
start_proxy m id port w s =
    if m.proxy_starts w.host port
    then send_text
        (text "{\"type\":\"proxy_ready\",\"worker_id\":\""
          ++ (id ++ (text "\",\"ws_port\":" ++ (m.print port ++ text "}"))))
        (record s { subscriptions = []; proxy_mode = true })
    else proxy_error (text "proxy connect failed") s

-- With the port, and the worker of the id.
unfoldable pub proxy_named :
    Environment → ℕ → Text → Option ℤ → Option WorkerInfo → WsSession → WsSession
proxy_named m worker_now id none found s = s
proxy_named m worker_now id (some port) none s = proxy_error (text "worker not found") s
proxy_named m worker_now id (some port) (some w) s =
    if is_alive worker_now w
    then start_proxy m id port w s
    else proxy_error (text "worker not alive") s

unfoldable pub proxy_command : Environment → ℕ → Json → WsSession → WsSession
proxy_command m worker_now j s = elim (member (text "worker_id") j) [
  | some (string id) ↦
      if s.proxy_mode
      then proxy_error (text "proxy already active") s
      else proxy_named m worker_now id (ws_port m.calls j) (find_worker id m.workers) s
  | _ ↦ proxy_error (text "missing worker_id") s
]

unfoldable pub authed_command : Environment → ℕ → Json → WsSession → WsSession
authed_command m worker_now j s =
    if is_proxy_command j
    then proxy_command m worker_now j s
    else run_command (parse_client_command m.calls j) s

abbrev pub close : WsSession → WsSession
close s = record s { is_closed = true }

-- With the user of the token.
unfoldable pub welcome : Environment → ℕ → Json → Text → Option User → WsSession → WsSession
welcome m worker_now j token none s = close (record s { auth_token = token })
welcome m worker_now j token (some u) s =
    let known = record s { auth_token = token; authed = true } in
    elim (member (text "op") j) [
      | none ↦ send_text (text "{\"type\":\"authed\"}") known
      | some op ↦ authed_command m worker_now j known
    ]

-- The first message of a session carries its token.
unfoldable pub authenticate :
    Environment → ℕ → ℕ → Json → WsSession → AuthManager → WsSession × AuthManager
authenticate m auth_now worker_now j s a = elim (member (text "token") j) [
  | some (string token) ↦ (
    welcome m worker_now j token (validate_token auth_now token a).0 s,
    (validate_token auth_now token a).1,
  )
  | _ ↦ (close s, a)
]

-- The times are those of the steady clock, of the check of the token and of the check of a worker.
unfoldable pub handle_command :
    Environment → ℕ → ℕ → ℕ → Text → WsSession → AuthManager → WsSession × AuthManager
handle_command m now auth_now worker_now payload s a =
    let recent = drop_old now s.cmd_timestamps in
    let counted = record s { cmd_timestamps = recent ++ now ∷ [] } in
    if leb max_commands_per_window (length recent)
    then (close (record s { cmd_timestamps = recent }), a)
    else elim (m.parse payload) [
      | none ↦ (counted, a)
      | some j ↦
          if s.authed
          then (authed_command m worker_now j counted, a)
          else authenticate m auth_now worker_now j counted a
    ]

-- A message is a command, unless a proxy has the session, to which it is passed on.
unfoldable pub on_message :
    Environment → ℕ → ℕ → ℕ → Text → WsSession → AuthManager → WsSession × AuthManager
on_message m now auth_now worker_now payload s a =
    if s.proxy_mode then (s, a) else handle_command m now auth_now worker_now payload s a
