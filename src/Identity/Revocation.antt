-- ===== src/Identity/Revocation.antt =====
-- The changes that close the sessions of a user: none of them speaks for that user any more.
pub mod Changes
use cairnops.Common.{
  ℕ, ◌≡◌, ◌≢◌, refl, String, str_eq, Bool, true, false, ◌&&◌, ◌||◌, Option, none, some, List, [],
  ◌∷◌, ◌==◌, ltb, leb, if◌then◌else◌, not, arith, update_where, is_none, is_some, Bool-cases, subst,
  sym, ap, ◌∙◌, Option-cases, inl, inr, find?, select, All, All-mono, All-both, All-select,
  select_fits, find?-fits, All-update_where_to, some_eq,
}
use cairnops.Common.Result.{Error, Result, err, ok, ◌>>=◌, >>=-eq-ok, ok_eq}
use cairnops.Identity.Schema.{User, Session, Db, administrators, revoke_sessions}
use cairnops.Identity.Input.{normalize_username, validate_password}
use cairnops.Identity.Accounts.{
  mutate_account, update_account, set_account_activation, check_display_name, check_role,
  change_account, change_activation, write_account, write_activation, is_external,
}
use cairnops.Identity.Sessions.{
  authenticate, principal_of, is_open_session, is_in_service, can_log_in, verify_password,
}
use cairnops.Identity.Passwords.{
  change_password, set_password, recover_password, replace_password, write_password, is_local_user,
}

-- What closes the sessions of a user, with the database that it leaves.
pub data Revoking (user_id : ℕ) (db end : Db) : Type 0 where
  deactivated :
      (actor_id : ℕ)
      → set_account_activation actor_id user_id false db ≡ ok end
      → Revoking user_id db end
  role_changed :
      (actor_id : ℕ) (display_name : Option String) (role : String)
      → update_account actor_id user_id display_name (some role) db ≡ ok end
      → Revoking user_id db end
  password_changed :
      (argon2 : String → ℕ → ℕ) (salt : ℕ) (current next : String)
      → change_password argon2 salt user_id current next db ≡ ok end
      → Revoking user_id db end
  password_set :
      (argon2 : String → ℕ → ℕ) (salt id : ℕ) (next : String) (u : User)
      → set_password argon2 salt id next db ≡ ok (u, end)
      → u.id ≡ user_id
      → Revoking user_id db end
  password_recovered :
      (argon2 : String → ℕ → ℕ) (salt : ℕ) (username next : String) (u : User)
      → recover_password argon2 salt username next db ≡ ok (u, end)
      → u.id ≡ user_id
      → Revoking user_id db end

-- No session of the user is open.
abbrev IsShut : ℕ → Session → Type 0
IsShut user_id s = ((s.user_id == user_id) && is_none s.revoked_at) ≡ false

All-Unit : (xs : List Session) → All (λ s. Unit {0}) xs
All-Unit [] = tt
All-Unit (x ∷ xs) = (tt, All-Unit xs)

revoke_sessions-All-IsShut :
    (user_id : ℕ) (db : Db) → All (IsShut user_id) (revoke_sessions user_id db).sessions
unfolding revoke_sessions
revoke_sessions-All-IsShut user_id db =
    All-update_where_to (λ s. Unit {0}) (IsShut user_id)
      (λ s. (s.user_id == user_id) && is_none s.revoked_at)
      (λ s. record s { revoked_at = some db.now }) db.sessions (λ s t e. ground arith) (λ s t e. e)
      (All-Unit db.sessions)

abbrev IsOther : ℕ → Session → Type 0
IsOther user_id s = (s.user_id == user_id) ≡ false

open_session-IsOther :
    (now digest user_id : ℕ) (s : Session)
    → IsShut user_id s
    → is_open_session now digest s ≡ true
    → IsOther user_id s
unfolding is_open_session
open_session-IsOther now digest user_id s h o = ground arith

other_user :
    (id user_id : ℕ) (u : User)
    → is_in_service id u ≡ true
    → (id == user_id) ≡ false
    → u.id ≢ user_id
unfolding is_in_service
other_user id user_id u h k = ground arith

principal_of_other :
    (db : Db) (ss : List Session) (user_id : ℕ) (v : User)
    → All (IsOther user_id) ss
    → principal_of db ss ≡ some v
    → v.id ≢ user_id
unfolding principal_of is_in_service
principal_of_other db [] user_id v a h = cc
principal_of_other db (s ∷ ss) user_id v a h =
    elim (Option-cases (find? (is_in_service s.user_id) db.users)) [
      | inl e ↦ principal_of_other db ss user_id v a.1 (rw (e, principal_of) at h)
      | inr e ↦
          let same : e.0 ≡ v = some_eq (rw (e.1, principal_of) at h) in
          let own : is_in_service s.user_id e.0 ≡ true =
            find?-fits (is_in_service s.user_id) db.users (e.1) in
          subst (λ w. w.id ≢ user_id) same (other_user s.user_id user_id e.0 own a.0)
    ]

-- After the sessions of a user are revoked, no token speaks for that user.
pub revoke_sessions-authenticate :
    (sha256 : String → ℕ) (is_token : String → Bool) (token : String) (user_id : ℕ) (db later : Db)
    (v : User)
    → authenticate sha256 is_token token (revoke_sessions user_id db) ≡ ok (v, later)
    → v.id ≢ user_id
unfolding authenticate
revoke_sessions-authenticate sha256 is_token token user_id db later v h =
    let end : Db = revoke_sessions user_id db in
    let digest : ℕ = sha256 token in
    let opened : List Session = select (is_open_session end.now digest) end.sessions in
    elim (Bool-cases (is_token token)) [
      | inl e ↦ elim (Option-cases (principal_of end opened)) [
        | inl f ↦ cc (rw (e, f) at h)
        | inr f ↦
            subst (λ w. w.id ≢ user_id) (ap (λ x. x.0) (ok_eq (rw (e, f.1) at h)))
              (principal_of_other end opened user_id f.0
                (All-mono _ (IsOther user_id) opened
                  (λ s p. open_session-IsOther end.now digest user_id s p.0 p.1)
                  (All-both _ _ opened
                    (All-select (IsShut user_id) _ end.sessions
                      (revoke_sessions-All-IsShut user_id db))
                    (select_fits (is_open_session end.now digest) end.sessions)))
                (f.1))
      ]
      | inr e ↦ cc (rw e at h)
    ]
