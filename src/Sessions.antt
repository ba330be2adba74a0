-- ===== src/Sessions.antt =====
-- auth_service.py: the sessions of the dashboard's users. The password check, the drawing of a token
-- and its SHA-256 digest come from the standard library: the digest is the parameter `digest`, the
-- check is `verify`, and the drawn token is an argument. Names and tokens are numbers; times are
-- seconds. That a name is compared without its case is in the numbers given to names.
pub mod Lifetime
mod Tests
use hawklive.Prelude.{
  ℕ, ◌+◌, ◌*◌, Bool, true, false, not, ◌&&◌, Option, none, some, List, [], ◌∷◌, ◌++◌, filter, ltb,
  leb, ◌==◌, if◌then◌else◌,
}

pub record User : Type 0 where
  pub id : ℕ
  pub customer_id : ℕ
  pub username : ℕ
  pub display_name : ℕ
  pub password_salt : ℕ
  pub password_hash : ℕ
  pub role : ℕ
  pub enabled : Bool

pub record Session : Type 0 where
  pub token_hash : ℕ
  pub user_id : ℕ
  pub created_at : ℕ
  pub expires_at : ℕ

pub record Accounts : Type 0 where
  pub users : List User
  pub sessions : List Session

pub record PublicUser : Type 0 where
  pub id : ℕ
  pub customer_id : ℕ
  pub username : ℕ
  pub display_name : ℕ
  pub role : ℕ

abbrev pub session_seconds : ℕ
session_seconds = 12 * 60 * 60

abbrev pub public_user : User → PublicUser
public_user u = record {
  id = u.id;
  customer_id = u.customer_id;
  username = u.username;
  display_name = u.display_name;
  role = u.role;
}

abbrev pub find : {A : Type 0} → (A → Bool) → List A → Option A
find p [] = none
find p (x ∷ xs) = if p x then some x else find p xs

-- WHERE username = ? AND enabled = 1
abbrev pub named : ℕ → User → Bool
named username u = u.username == username && u.enabled

module _ (digest : ℕ → ℕ) (verify : ℕ → ℕ → ℕ → Bool) where
  abbrev pub opened : ℕ → ℕ → User → Session
  opened now token u = record {
    token_hash = digest token;
    user_id = u.id;
    created_at = now;
    expires_at = now + session_seconds;
  }

  abbrev pub login_as : ℕ → ℕ → ℕ → Accounts → Option User → Option (ℕ × PublicUser) × Accounts
  login_as now token password a none = (none, a)
  login_as now token password a (some u) =
      if verify password u.password_salt u.password_hash
      then (
        some (token, public_user u),
        record a {
          sessions = filter (λ s. ltb now s.expires_at) a.sessions ++ opened now token u ∷ [];
        },
      )
      else (none, a)

  -- `none` where AuthenticationError is raised; `token` is what is drawn.
  unfoldable pub login : ℕ → ℕ → ℕ → ℕ → Accounts → Option (ℕ × PublicUser) × Accounts
  login now token username password a =
      login_as now token password a (find (named username) a.users)

  -- The rows of the join: a session of the token that has not expired, and its user.
  abbrev pub user_of : Session → List User → Option User
  user_of s = find (λ u. u.id == s.user_id && u.enabled)

  unfoldable pub session_user : ℕ → ℕ → List User → List Session → Option User
  session_user now hash users [] = none
  session_user now hash users (s ∷ ss) =
      let rest = session_user now hash users ss in
      if s.token_hash == hash && ltb now s.expires_at
      then elim (user_of s users) [ none ↦ rest | some u ↦ some u ]
      else rest

  abbrev pub map_user : Option User → Option PublicUser
  map_user none = none
  map_user (some u) = some (public_user u)

  unfoldable pub user_for_token : ℕ → Option ℕ → Accounts → Option PublicUser
  user_for_token now none a = none
  user_for_token now (some token) a = map_user (session_user now (digest token) a.users a.sessions)

  unfoldable pub logout : Option ℕ → Accounts → Accounts
  logout none a = a
  logout (some token) a = record a {
    sessions = filter (λ s. not (s.token_hash == digest token)) a.sessions;
  }
