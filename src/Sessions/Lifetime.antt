-- ===== src/Sessions/Lifetime.antt =====
-- How long a token is good for.
use hawklive.Prelude.{
  ℕ, ◌+◌, ◌≤◌, ◌≡◌, refl, ap, ◌∙◌, inl, inr, Bool-cases, Bool, true, false, not, ◌&&◌, none, some,
  List, [], ◌∷◌, ◌++◌, arith, All, filter, ltb, ◌==◌, ==_refl, if◌then◌else◌,
}
use hawklive.Sessions.{
  User, Session, Accounts, public_user, named, find, login, session_seconds, opened, session_user,
  map_user, user_for_token, logout,
}

module _ (digest : ℕ → ℕ) (verify : ℕ → ℕ → ℕ → Bool) where
  no_session :
      (now hash : ℕ) (users : List User) (ss : List Session)
      → session_user digest verify now hash users (filter (λ s. not (s.token_hash == hash)) ss)
        ≡ none
  unfolding session_user
  no_session now hash users [] = refl
  no_session now hash users (s ∷ ss) = elim (Bool-cases (s.token_hash == hash)) [
    | inl e ↦ rw e (no_session now hash users ss)
    | inr e ↦ rw (e, e) (no_session now hash users ss)
  ]

  -- After a logout the token is nobody's, at any time, and in every session that it had.
  pub user_for_token-logout :
      (now token : ℕ) (a : Accounts)
      → user_for_token digest verify now (some token) (logout digest verify (some token) a) ≡ none
  unfolding user_for_token logout
  user_for_token-logout now token a =
      ap (map_user digest verify) (no_session now (digest token) a.users a.sessions)

  no_live_session :
      (now hash : ℕ) (users : List User) (ss : List Session)
      → All (λ s. s.expires_at ≤ now) ss
      → session_user digest verify now hash users ss ≡ none
  unfolding session_user
  no_live_session now hash users [] h = refl
  no_live_session now hash users (s ∷ ss) (h, hs) =
      let over : (s.token_hash == hash && ltb now s.expires_at) ≡ false = ground (arith, h) in
      rw over (no_live_session now hash users ss hs)

  others_skipped :
      (t now hash : ℕ) (users : List User) (ss : List Session) (new : Session)
      → All (λ s. (s.token_hash == hash) ≡ false) ss
      → session_user digest verify t hash users (filter (λ s. ltb now s.expires_at) ss ++ new ∷ [])
        ≡ session_user digest verify t hash users (new ∷ [])
  unfolding session_user
  others_skipped t now hash users [] new h = refl
  others_skipped t now hash users (s ∷ ss) new (h, hs) = elim (Bool-cases (ltb now s.expires_at)) [
    | inl e ↦ rw (e, h) (others_skipped t now hash users ss new hs)
    | inr e ↦ rw e (others_skipped t now hash users ss new hs)
  ]

  new_session :
      (t now token : ℕ) (users : List User) (u : User)
      → find (λ v. v.id == u.id && v.enabled) users ≡ some u
      → map_user digest verify (
          session_user digest verify t (digest token) users (opened digest verify now token u ∷ []))
        ≡ (if ltb t (now + session_seconds) then some (public_user u) else none)
  unfolding session_user
  new_session t now token users u found = elim (Bool-cases (ltb t (now + session_seconds))) [
    | inl e ↦ rw (==_refl (digest token), e, found) refl
    | inr e ↦ rw (==_refl (digest token), e) refl
  ]

  -- A login with the password of an enabled user gives out the drawn token, and that token, which no
  -- session had before, is the user's until the session's time is over and nobody's from then on.
  pub login-user_for_token :
      (now t token username password : ℕ) (a : Accounts) (u : User)
      → find (named username) a.users ≡ some u
      → verify password u.password_salt u.password_hash ≡ true
      → find (λ v. v.id == u.id && v.enabled) a.users ≡ some u
      → All (λ s. (s.token_hash == digest token) ≡ false) a.sessions
      → ((login digest verify now token username password a).0 ≡ some (token, public_user u))
        × (user_for_token digest verify t
              (some token)
              (login digest verify now token username password a).1
            ≡ (if ltb t (now + session_seconds) then some (public_user u) else none))
  unfolding login user_for_token
  login-user_for_token now t token username password a u named_u checked by_id fresh =
      rw (named_u, checked)
        (
          refl,
          ap (map_user digest verify) (
                others_skipped t now (digest token) a.users a.sessions
                  (opened digest verify now token u) fresh)
              ∙ new_session t now token a.users u by_id,
        )
