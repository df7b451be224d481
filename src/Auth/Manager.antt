-- ===== src/Auth/Manager.antt =====
-- server/src/auth/auth_manager.cpp and user.h. Times are in nanoseconds, and the random token of a
-- login is an argument.
use task_hub.Prelude.{
  ℕ, Text, text, List, Text-Eq, ◌+◌, ◌&&◌, Memᴰ, Bool, Option, find, put, true, ◌∷◌, ◌≡◌, [], arith,
  none, some, if◌then◌else◌, refl, ◌⊎◌, Option-cases, ltb, not, erase, inl, ◌=?◌, inr, Bool-cases,
  text_eq_iff, find-put, find-erase, ap, ◌≤◌, ◌∙◌,
}

pub record User : Type 0 where
  pub username : Text
  pub password : Text
  pub is_admin : Bool

pub record Session : Type 0 where
  pub username : Text
  pub expire_time : ℕ

pub record AuthManager : Type 0 where
  pub users : List (Text × User)
  pub sessions : List (Text × Session)

-- Two hours, in nanoseconds.
abbrev pub token_ttl : ℕ
token_ttl = 7200000000000

abbrev pub admin : User
admin = record { username = text "admin"; password = text "123456"; is_admin = true }

unfoldable pub init : AuthManager → AuthManager
init s = record s { users = put (text "admin") admin s.users }

unfoldable pub login : ℕ → Text → Text → Text → AuthManager → Option Text × AuthManager
login now token username password s = elim (find username s.users) [
  | none ↦ (none, s)
  | some user ↦ if not (user.password =? password) then (none, s) else (
    some token,
    record s {
      sessions =
          put token (record { username = user.username; expire_time = now + token_ttl }) s.sessions;
    },
  )
]

unfoldable pub validate_token : ℕ → Text → AuthManager → Option User × AuthManager
validate_token now token s = elim (find token s.sessions) [
  | none ↦ (none, s)
  | some session ↦
      if ltb session.expire_time now
      then (none, record s { sessions = erase token s.sessions })
      else (find session.username s.users, s)
]

-- A call, and the calls of a history, the latest one first.
pub data Call : Type 0 where
  login_at : ℕ → Text → Text → Text → Call
  validate_at : ℕ → Text → Call

unfoldable pub run_calls : List Call → AuthManager → AuthManager
run_calls [] s = s
run_calls (login_at now token username password ∷ cs) s =
    (login now token username password (run_calls cs s)).1
run_calls (validate_at now token ∷ cs) s = (validate_token now token (run_calls cs s)).1

-- Some login of the history has opened the session, with the password of its user.
abbrev pub IsGranted : List Call → List (Text × User) → Text → Session → Type 0
IsGranted cs users token session =
    (t : ℕ) × (user : User) × Memᴰ (login_at t token session.username user.password) cs
    × (find session.username users ≡ some user)
    × (session.expire_time ≡ t + 7200000000000)

-- Each user is under the own name.
abbrev pub IsNamed : List (Text × User) → Type 0
IsNamed users = (name : Text) (user : User) → find name users ≡ some user → user.username ≡ name

IsGranted-later :
    (c : Call) (cs : List Call) (users : List (Text × User)) (token : Text) (session : Session)
    → IsGranted cs users token session
    → IsGranted (c ∷ cs) users token session
IsGranted-later c cs users token session (t, user, m, f, e) = (t, user, Memᴰ.tail m, f, e)

run_calls-users : (cs : List Call) (s : AuthManager) → (run_calls cs s).users ≡ s.users
unfolding run_calls login validate_token
run_calls-users [] s = refl
run_calls-users (login_at now token username password ∷ cs) s = ground (arith, run_calls-users cs s)
run_calls-users (validate_at now token ∷ cs) s = ground (arith, run_calls-users cs s)

login-session :
    (now : ℕ) (token username password : Text) (s : AuthManager) (key : Text) (session : Session)
    → find key (login now token username password s).1.sessions ≡ some session
    → (find key s.sessions ≡ some session)
      ⊎ ((user : User) × (find username s.users ≡ some user)
          × (user.password ≡ password)
          × (token ≡ key)
          × (session ≡ record { username = user.username; expire_time = now + token_ttl }))
unfolding login
login-session now token username password s key session h =
    elim (Option-cases (find username s.users)) [
      | inl e ↦ inl (ground arith)
      | inr (user, e) ↦ elim (Bool-cases ((user.password =? password) && (token =? key))) [
        | inr other ↦ inl ground (
          arith,
          e,
          find-put token key (record { username = user.username; expire_time = now + token_ttl })
              s.sessions,
        )
        | inl same ↦ inr (
          user,
          e,
          ground (arith, text_eq_iff user.password password),
          ground (arith, text_eq_iff token key),
          ground (
            arith,
            e,
            find-put token key (record { username = user.username; expire_time = now + token_ttl })
                s.sessions,
          ),
        )
      ]
    ]

find-nil : (key : Text) → find {V = Session} key [] ≡ none
unfolding find
find-nil key = refl

validate_token-sessions :
    (now : ℕ) (token : Text) (s : AuthManager) (key : Text) (session : Session)
    → find key (validate_token now token s).1.sessions ≡ some session
    → find key s.sessions ≡ some session
unfolding validate_token
validate_token-sessions now token s key session h = ground (arith, find-erase token key s.sessions)

-- With every user under the own name, each session of a history that began without one has been
-- granted by a login.
run_calls-IsGranted :
    (cs : List Call) (s : AuthManager)
    → IsNamed s.users
    → s.sessions ≡ []
    → (key : Text) (session : Session) → find key (run_calls cs s).sessions ≡ some session
    → IsGranted cs s.users key session
unfolding run_calls
run_calls-IsGranted [] s named closed key session h = ground (arith, find-nil key)
run_calls-IsGranted (login_at now token username password ∷ cs) s named closed key session h =
    elim (login-session now token username password (run_calls cs s) key session h) [
      | inl old ↦
          IsGranted-later _ cs s.users key session
            (run_calls-IsGranted cs s named closed key session old)
      | inr (user, f, p, k, q) ↦
          let g : find username s.users ≡ some user = rw (← run_calls-users cs s) f in
          let n : session.username ≡ username =
            ap (λ (x : Session). x.username) q ∙ named username user g in
          (now, user, Memᴰ.head (rw (k, n, p) refl), rw n g, ap (λ (x : Session). x.expire_time) q)
    ]
run_calls-IsGranted (validate_at now token ∷ cs) s named closed key session h =
    IsGranted-later _ cs s.users key session (
      run_calls-IsGranted cs s named closed key session
        (validate_token-sessions now token (run_calls cs s) key session h))

-- With every user under the own name and no session at first: a token is accepted only for a user
-- whose login, with the right password, has returned it at most two hours before.
pub validate_token-granted :
    (cs : List Call) (s : AuthManager) (now : ℕ) (token : Text) (user : User)
    → IsNamed s.users
    → s.sessions ≡ []
    → (validate_token now token (run_calls cs s)).0 ≡ some user
    → (t : ℕ) × Memᴰ (login_at t token user.username user.password) cs
      × (find user.username s.users ≡ some user)
      × (now ≤ t + 7200000000000)
unfolding validate_token
validate_token-granted cs s now token user named closed h =
    elim (Option-cases (find token (run_calls cs s).sessions)) [
      | inl e ↦ ground (arith, e)
      | inr (session, e) ↦
          let (t, u, m, f, x) = run_calls-IsGranted cs s named closed token session e in
          let g : some u ≡ some user = ground (arith, e, run_calls-users cs s, f) in
          let q : u ≡ user = ground (arith, g) in
          let n = named session.username u f in
          (t, rw (← q, n) m, rw (← q, n) f, ground (arith, e, x))
    ]
