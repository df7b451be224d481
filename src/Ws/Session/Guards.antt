-- ===== src/Ws/Session/Guards.antt =====
-- server/src/ws/ws_server_beast.cpp: what a session does not do: answer before it has a token that is
-- accepted, and handle commands without a limit.
use task_hub.Ws.Protocol.{ClientCommand, parse_client_command}
use task_hub.Worker.Selector.{WorkerInfo}
use task_hub.Ws.Session.{
  Environment, WsSession, run_command, start_proxy, proxy_command, authed_command, authenticate,
  proxy_error, welcome, find_worker, ws_port, proxy_named, handle_command, on_message, drop_old,
  max_commands_per_window,
}
use task_hub.Auth.Manager.{AuthManager, User, validate_token}
use task_hub.Json.{string, member, Json, is_string}
use task_hub.Prelude.{
  ℕ, ◌≡◌, text, Text, ℤ, [], some, ◌⊎◌, false, arith, Option, refl, none, true, Option-cases, inl,
  inr, ◌∷◌, ◌++◌, if◌then◌else◌, leb, length,
}

-- A member is a text, or else the command is answered without it.
Text-cases :
    (o : Option Json)
    → ((t : Text) × (o ≡ some (string t)))
      ⊎ (o ≡ none)
      ⊎ ((v : Json) × (o ≡ some v) × (is_string v ≡ false))
Text-cases none = inr (inl refl)
Text-cases (some (string t)) = inl (t, refl)
Text-cases (some v) = inr (inr (v, refl, refl))

module _ (m : Environment) (now auth_now worker_now : ℕ) where
  -- The times and whether the session is known stay.
  abbrev Keeps : WsSession → WsSession → Type 0
  Keeps s t = (t.cmd_timestamps ≡ s.cmd_timestamps) × (t.authed ≡ s.authed)

  run_command-Keeps : (cmd : ClientCommand) (s : WsSession) → Keeps s (run_command cmd s)
  unfolding run_command
  run_command-Keeps cmd s = ground arith

  start_proxy-Keeps :
      (id : Text) (port : ℤ) (w : WorkerInfo) (s : WsSession) → Keeps s (start_proxy m id port w s)
  unfolding start_proxy proxy_error
  start_proxy-Keeps id port w s = ground arith

  proxy_named-Keeps :
      (id : Text) (port : Option ℤ) (w : Option WorkerInfo) (s : WsSession)
      → Keeps s (proxy_named m worker_now id port w s)
  unfolding proxy_named proxy_error
  proxy_named-Keeps id none w s = ground arith
  proxy_named-Keeps id (some port) none s = ground arith
  proxy_named-Keeps id (some port) (some w) s = ground (arith, start_proxy-Keeps id port w s)

  proxy_command-Keeps : (j : Json) (s : WsSession) → Keeps s (proxy_command m worker_now j s)
  unfolding proxy_command proxy_error
  proxy_command-Keeps j s = elim (Text-cases (member (text "worker_id") j)) [
    | inl (id, e) ↦
        ground (arith, e, proxy_named-Keeps id (ws_port m.calls j) (find_worker id m.workers) s)
    | inr (inl e) ↦ ground (arith, e)
    | inr (inr (v, e, n)) ↦ ground (arith, e, n)
  ]

  authed_command-Keeps : (j : Json) (s : WsSession) → Keeps s (authed_command m worker_now j s)
  unfolding authed_command
  authed_command-Keeps j s =
      ground (arith, proxy_command-Keeps j s, run_command-Keeps (parse_client_command m.calls j) s)

  welcome-times :
      (j : Json) (token : Text) (user : Option User) (s : WsSession)
      → (welcome m worker_now j token user s).cmd_timestamps ≡ s.cmd_timestamps
  unfolding welcome
  welcome-times j token none s = refl
  welcome-times j token (some u) s =
      ground (arith, authed_command-Keeps j (record s { auth_token = token; authed = true }))

  authenticate-times :
      (j : Json) (s : WsSession) (a : AuthManager)
      → (authenticate m auth_now worker_now j s a).0.cmd_timestamps ≡ s.cmd_timestamps
  unfolding authenticate
  authenticate-times j s a = elim (Text-cases (member (text "token") j)) [
    | inl (token, e) ↦
        ground (arith, e, welcome-times j token (validate_token auth_now token a).0 s)
    | inr (inl e) ↦ ground (arith, e)
    | inr (inr (v, e, n)) ↦ ground (arith, e, n)
  ]

  -- What a token does that is accepted.
  authenticate-token :
      (j : Json) (s : WsSession) (a : AuthManager)
      → s.authed ≡ false
      → s.subscriptions ≡ []
      → s.sent ≡ []
      → (((authenticate m auth_now worker_now j s a).0.authed ≡ false)
          × ((authenticate m auth_now worker_now j s a).0.subscriptions ≡ [])
          × ((authenticate m auth_now worker_now j s a).0.sent ≡ []))
        ⊎ ((token : Text) × (u : User) × (member (text "token") j ≡ some (string token))
            × ((validate_token auth_now token a).0 ≡ some u))
  unfolding authenticate welcome
  authenticate-token j s a h k n = elim (Text-cases (member (text "token") j)) [
    | inl (token, e) ↦ elim (Option-cases (validate_token auth_now token a).0) [
      | inl f ↦ inl (ground (arith, e, f, h, k, n))
      | inr (u, f) ↦ inr (token, u, e, f)
    ]
    | inr (inl e) ↦ inl (ground (arith, e))
    | inr (inr (v, e, f)) ↦ inl (ground (arith, e, f))
  ]

  -- The times that are kept after a command.
  pub handle_command-times :
      (payload : Text) (s : WsSession) (a : AuthManager)
      → (handle_command m now auth_now worker_now payload s a).0.cmd_timestamps ≡ (
          if leb max_commands_per_window (length (drop_old now s.cmd_timestamps))
          then drop_old now s.cmd_timestamps
          else drop_old now s.cmd_timestamps ++ now ∷ [])
  unfolding handle_command
  handle_command-times payload s a =
      let counted = record s { cmd_timestamps = drop_old now s.cmd_timestamps ++ now ∷ [] } in
      elim (Option-cases (m.parse payload)) [
        | inl e ↦ ground (arith, e)
        | inr (j, e) ↦
            ground (arith, e, authed_command-Keeps j counted, authenticate-times j counted a)
      ]

  -- A session that has no accepted token yet answers nothing and subscribes to nothing, unless the
  -- message brings a token for which the manager has a user at that time.
  pub no_answer_without_token :
      (payload : Text) (s : WsSession) (a : AuthManager)
      → s.authed ≡ false
      → s.subscriptions ≡ []
      → s.sent ≡ []
      → (((on_message m now auth_now worker_now payload s a).0.authed ≡ false)
          × ((on_message m now auth_now worker_now payload s a).0.subscriptions ≡ [])
          × ((on_message m now auth_now worker_now payload s a).0.sent ≡ []))
        ⊎ ((j : Json) × (token : Text) × (u : User) × (m.parse payload ≡ some j)
            × (member (text "token") j ≡ some (string token))
            × ((validate_token auth_now token a).0 ≡ some u))
  unfolding on_message handle_command
  no_answer_without_token payload s a h k n =
      let counted = record s { cmd_timestamps = drop_old now s.cmd_timestamps ++ now ∷ [] } in
      elim (Option-cases (m.parse payload)) [
        | inl e ↦ inl (ground (arith, e, h, k, n))
        | inr (j, e) ↦ ground (arith, e, h, k, n, authenticate-token j counted a h k n)
      ]
