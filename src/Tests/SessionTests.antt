-- ===== src/Tests/SessionTests.antt =====
-- A session that has sent no token.

use task_hub.Log.Buffer.{default_record}
use task_hub.Ws.Hub.Delivery.{receives, copies_for, log_channels, live_members, push_log-receives}
use task_hub.Ws.Hub.{Hub, push_log}
use task_hub.Ws.Session.Rate.{
  Handled, comes, still_open, fresh, recent_count, handles_thirty_at_most,
}
use task_hub.Ws.Session.Guards.{no_answer_without_token}
use task_hub.Ws.Session.{Environment, on_message, new_session, handle_command, WsSession}
use task_hub.Prelude.{
  Text, ◌≤◌, ◌≡◌, ◌⊎◌, [], ◌∷◌, some, false, text, refl, Option, arith, map, true, Text-Eq,
}
use task_hub.Json.{Json, string, member, object, field, end}
use task_hub.Auth.Manager.{AuthManager, User, validate_token}
use task_hub.Tests.TemplateTests.{test_calls}

abbrev parse_ping : Text → Option Json
parse_ping s = some (object (field (text "op") (string (text "ping")) end))

abbrev around : Environment
around = record {
  parse = parse_ping;
  calls = test_calls;
  print = λ i. text "8090";
  workers = [];
  proxy_starts = λ h p. false;
}

abbrev nobody : AuthManager
nobody = record { users = []; sessions = [] }

no_answer_without_token_example :
    (((on_message around 5 5 5 (text "x") new_session nobody).0.authed ≡ false)
      × ((on_message around 5 5 5 (text "x") new_session nobody).0.subscriptions ≡ [])
      × ((on_message around 5 5 5 (text "x") new_session nobody).0.sent ≡ []))
    ⊎ ((j : Json) × (token : Text) × (u : User) × (around.parse (text "x") ≡ some j)
        × (member (text "token") j ≡ some (string token))
        × ((validate_token 5 token nobody).0 ≡ some u))
no_answer_without_token_example =
    no_answer_without_token around 5 5 5 (text "x") new_session nobody refl refl refl

abbrev first_command : WsSession
first_command = (handle_command around 5 5 5 (text "x") new_session nobody).0

one-Handled : Handled first_command (still_open first_command 5 []) 5
one-Handled = comes around 5 5 5 (text "x") nobody fresh refl (omega arith)

handles_thirty_at_most_example : recent_count 5 (still_open first_command 5 []) ≤ 30
handles_thirty_at_most_example = handles_thirty_at_most one-Handled

abbrev listener : WsSession
listener = record new_session { subscriptions = text "task.logs.a" ∷ [] }

abbrev one_member : Hub
one_member = record { id = 0; is_live = true; waiting = 0; session = listener } ∷ []

push_log-receives_example :
    push_log (λ j. text "log") 0 default_record one_member
    ≡ map
        (λ m.
          receives
            (copies_for
              (log_channels default_record.task_id.value default_record.task_id.run_id)
              (text "log")
              m.session.subscriptions)
            m)
        (live_members one_member)
push_log-receives_example =
    push_log-receives (λ j. text "log") 0 default_record one_member (λ e. omega arith, tt)
