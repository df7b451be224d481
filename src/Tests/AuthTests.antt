-- ===== src/Tests/AuthTests.antt =====
-- One login of the administrator, and a check of the token that it returned.
use task_hub.Auth.Manager.{
  AuthManager, init, Call, login_at, IsNamed, admin, validate_token, run_calls,
  validate_token-granted, login,
}
use task_hub.Prelude.{
  text, [], ◌∷◌, ◌≡◌, refl, arith, Text-Eq, ◌+◌, ◌≤◌, ◌=?◌, List, ℕ, Memᴰ, put, find, text_eq,
  Bool-cases, some, inl, text_eq_iff, inr,
}

abbrev started : AuthManager
started = init (record { users = []; sessions = [] })

abbrev history : List Call
history = login_at 10 (text "t1") (text "admin") (text "123456") ∷ []

started-IsNamed : IsNamed started.users
unfolding init put find
started-IsNamed name user e = elim (Bool-cases (text "admin" =? name)) [
  | inl q ↦ ground (arith, text_eq_iff (text "admin") name)
  | inr q ↦ ground arith
]

no_session : started.sessions ≡ []
unfolding init
no_session = refl

accepted : (validate_token 20 (text "t1") (run_calls history started)).0 ≡ some admin
unfolding init put find text_eq validate_token run_calls login
accepted = refl

validate_token-granted_example :
    (t : ℕ) × Memᴰ (login_at t (text "t1") admin.username admin.password) history
    × (find admin.username started.users ≡ some admin)
    × (20 ≤ t + 7200000000000)
validate_token-granted_example =
    validate_token-granted history started 20 (text "t1") admin started-IsNamed no_session accepted
