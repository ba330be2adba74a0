-- ===== src/Sessions/Tests.antt =====
-- A login and a logout. The digest and the check of the password stand in for the library's.
use hawklive.Prelude.{ℕ, ◌+◌, ◌≡◌, refl, Bool, true, none, some, [], ◌∷◌, ◌==◌, ltb, if◌then◌else◌}
use hawklive.Sessions.{User, Accounts, public_user, session_seconds, login, user_for_token}
use hawklive.Sessions.Lifetime.{login-user_for_token}

abbrev digest : ℕ → ℕ
digest token = token + 1

abbrev verify : ℕ → ℕ → ℕ → Bool
verify password salt hash = password + salt == hash

abbrev ann : User
ann = record {
  id = 1;
  customer_id = 2;
  username = 3;
  display_name = 4;
  password_salt = 5;
  password_hash = 12;
  role = 6;
  enabled = true;
}

abbrev accounts : Accounts
accounts = record {
  users = ann ∷ [];
  sessions = record { token_hash = 8; user_id = 1; created_at = 0; expires_at = 43200 } ∷ [];
}

login-user_for_token_example :
    ((login digest verify 100 20 3 7 accounts).0 ≡ some (20, public_user ann))
    × (user_for_token digest verify 500 (some 20) (login digest verify 100 20 3 7 accounts).1
        ≡ (if ltb 500 (100 + session_seconds) then some (public_user ann) else none))
login-user_for_token_example =
    login-user_for_token digest verify 100 500 20 3 7 accounts ann refl refl refl (refl, tt)
