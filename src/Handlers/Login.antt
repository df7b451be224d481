-- ===== src/Handlers/Login.antt =====
-- server/src/handlers/auth_handler.cpp: a login with a name and a password.
use task_hub.Auth.Manager.{AuthManager, User, login, validate_token, token_ttl}
use task_hub.Execution.Remote.{text_member}
use task_hub.Handlers.Http.{Request, Response, respond_ok, respond_error, bad_request}
use task_hub.Json.{Json, JsonCalls, string, object_of}
use task_hub.Prelude.{
  ℕ, pos, Text, text, Text-Eq, ◌+◌, ◌≡◌, Bool, true, false, Option, none, some, [], ◌∷◌, find,
  if◌then◌else◌, arith, find-put_self, ◌==◌, ◌≤◌, =?_refl,
}

-- `text.find(part) != npos`.
unfoldable pub starts_with : Text → Text → Bool
starts_with [] s = true
starts_with (c ∷ cs) [] = false
starts_with (c ∷ cs) (d ∷ ds) = let rest = starts_with cs ds in if c == d then rest else false

unfoldable pub contains_part : Text → Text → Bool
contains_part part [] = starts_with part []
contains_part part (c ∷ cs) =
    let rest = contains_part part cs in if starts_with part (c ∷ cs) then true else rest

-- The token is the one that this login makes, at its time.
unfoldable pub login_user :
    JsonCalls → (Text → Option Json) → ℕ → Text → Request → AuthManager → Response × AuthManager
login_user c parse now token req a =
    if contains_part (text "application/json") req.content_type
    then elim (parse req.body) [
      | none ↦ (bad_request c (text "Invalid JSON body") (pos 1002), a)
      | some j ↦ elim (text_member (text "username") j) [
        | none ↦ (bad_request c (text "username and password required") (pos 1003), a)
        | some username ↦ elim (text_member (text "password") j) [
          | none ↦ (bad_request c (text "username and password required") (pos 1003), a)
          | some password ↦
              let (given, a') = login now token username password a in
              elim given [
                | none ↦
                    (respond_error c (pos 1004) (text "invalid_username_or_password") (pos 200), a')
                | some key ↦ (
                  respond_ok c (
                      object_of
                        ((text "token", string key) ∷ (text "username", string username) ∷ [])),
                  a',
                )
              ]
        ]
      ]
    ]
    else (bad_request c (text "Content-Type must be application/json") (pos 1001), a)

-- A request that names a user with the user's password is answered with the token and the name, and
-- that token is then accepted for the user for two hours.
pub login_user-validate_token :
    (c : JsonCalls) (parse : Text → Option Json) (now later : ℕ) (token name : Text) (req : Request)
    (a : AuthManager) (j : Json) (user : User)
    → contains_part (text "application/json") req.content_type ≡ true
    → parse req.body ≡ some j
    → text_member (text "username") j ≡ some name
    → text_member (text "password") j ≡ some user.password
    → find name a.users ≡ some user
    → user.username ≡ name
    → later ≤ now + token_ttl
    → let (r, a') = login_user c parse now token req a in
      (r
        ≡ respond_ok c
            (object_of ((text "token", string token) ∷ (text "username", string name) ∷ [])))
      × ((validate_token later token a').0 ≡ some user)
unfolding login_user login validate_token
login_user-validate_token c parse now later token name req a j user typed read named secret known
      own soon =
    let stored =
      find-put_self token (record { username = user.username; expire_time = now + token_ttl })
        a.sessions in
    ground (arith, typed, read, named, secret, known, own, stored, =?_refl user.password)
