-- ===== src/Ws/Protocol.antt =====
-- server/src/ws/ws_protocol.h: commands and channels.
use task_hub.Json.{Json, JsonCalls, member, string, is_number_integer}
use task_hub.Prelude.{
  Text, ◌++◌, text, ℤ, pos, eqb_ℤ, none, some, is_empty, [], if◌then◌else◌, text_eq,
}

pub data WsOp : Type 0 where
  subscribe unsubscribe ping pong unknown_op : WsOp

pub data WsTopic : Type 0 where
  task_logs task_events unknown_topic : WsTopic

pub record ClientCommand : Type 0 where
  pub op : WsOp
  pub topic : WsTopic
  pub task_id : Text
  pub run_id : Text

unfoldable pub op_to_string : WsOp → Text
op_to_string subscribe = text "subscribe"
op_to_string unsubscribe = text "unsubscribe"
op_to_string ping = text "ping"
op_to_string pong = text "pong"
op_to_string unknown_op = text "unknown"

unfoldable pub topic_to_string : WsTopic → Text
topic_to_string task_events = text "task_events"
topic_to_string task_logs = text "task_logs"
topic_to_string unknown_topic = text "unknown"

unfoldable pub op_of_text : Text → WsOp
unfolding text_eq
op_of_text s =
    if text_eq s (text "subscribe")
    then subscribe
    else if text_eq s (text "unsubscribe")
    then unsubscribe
    else if text_eq s (text "ping")
    then ping
    else if text_eq s (text "pong")
    then pong
    else unknown_op

unfoldable pub op_of_int : ℤ → WsOp
op_of_int i =
    if eqb_ℤ i (pos 0)
    then subscribe
    else if eqb_ℤ i (pos 1)
    then unsubscribe
    else if eqb_ℤ i (pos 2)
    then ping
    else if eqb_ℤ i (pos 3)
    then pong
    else unknown_op

unfoldable pub topic_of_text : Text → WsTopic
unfolding text_eq
topic_of_text s =
    if text_eq s (text "task_logs")
    then task_logs
    else if text_eq s (text "task_events")
    then task_events
    else unknown_topic

unfoldable pub topic_of_int : ℤ → WsTopic
topic_of_int i =
    if eqb_ℤ i (pos 0) then task_logs else if eqb_ℤ i (pos 1) then task_events else unknown_topic

unfoldable pub text_field : Text → Json → Text
text_field key j = elim (member key j) [ some (string s) ↦ s | _ ↦ [] ]

-- An exception of the conversion makes the field unknown.
module _ (c : JsonCalls) where
  unfoldable pub parse_op_field : Text → Json → WsOp
  parse_op_field key j = elim (member key j) [
    | none ↦ unknown_op
    | some (string s) ↦ op_of_text s
    | some v ↦
        if is_number_integer v
        then elim (c.get_int v) [ none ↦ unknown_op | some i ↦ op_of_int i ]
        else unknown_op
  ]

  unfoldable pub parse_topic_field : Text → Json → WsTopic
  parse_topic_field key j = elim (member key j) [
    | none ↦ unknown_topic
    | some (string s) ↦ topic_of_text s
    | some v ↦
        if is_number_integer v
        then elim (c.get_int v) [ none ↦ unknown_topic | some i ↦ topic_of_int i ]
        else unknown_topic
  ]

  unfoldable pub parse_client_command : Json → ClientCommand
  parse_client_command j = record {
    op = parse_op_field (text "op") j;
    topic = parse_topic_field (text "topic") j;
    task_id = text_field (text "task_id") j;
    run_id = text_field (text "run_id") j;
  }

unfoldable pub channel_of : Text → Text → Text → Text
channel_of prefix task run =
    if is_empty run then prefix ++ task else prefix ++ (task ++ (text "." ++ run))

unfoldable pub channel_task_logs : Text → Text → Text
channel_task_logs = channel_of (text "task.logs.")

unfoldable pub channel_task_events : Text → Text → Text
channel_task_events = channel_of (text "task.events.")
