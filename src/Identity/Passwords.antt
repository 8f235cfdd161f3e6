-- ===== src/Identity/Passwords.antt =====
-- internal/identity/password_reset.go: the three ways to a new password.
use cairnops.Common.{
  ℕ, String, str_eq, Bool, ◌&&◌, none, some, ◌==◌, if◌then◌else◌, find?, update_where,
}
use cairnops.Common.Result.{
  Error, invalid_input, not_found, invalid_credentials, Result, err, ok, ◌>>=◌,
}
use cairnops.Identity.Schema.{is_local, User, Db, revoke_sessions}
use cairnops.Identity.Input.{normalize_username, validate_password}
use cairnops.Identity.Accounts.{hash_password}
use cairnops.Identity.Sessions.{can_log_in, verify_password}

-- The WHERE of ChangePassword and SetPassword.
unfoldable pub is_local_user : ℕ → User → Bool
is_local_user user_id u = (u.id == user_id) && is_local u.regime

module _ (argon2 : String → ℕ → ℕ) where
  -- `salt` is the one that hashPassword draws.
  unfoldable pub write_password : ℕ → ℕ → String → Db → Db
  unfolding hash_password
  write_password salt user_id password db = record db {
    users =
        update_where (λ u. u.id == user_id)
          (λ u. record u { hash = some (hash_password argon2 salt password) }) db.users;
  }

  unfoldable pub change_password : ℕ → ℕ → String → String → Db → Result Db
  unfolding write_password is_local_user
  change_password salt user_id current next db = validate_password next >>= (λ _.
      if str_eq current next
      then err invalid_input
      else elim (find? (is_local_user user_id) db.users) [
        | none ↦ err not_found
        | some u ↦ verify_password argon2 current u.hash >>= (λ valid.
            if valid
            then ok (revoke_sessions user_id (write_password salt user_id next db))
            else err invalid_credentials)
      ])

  unfoldable pub replace_password : (User → Bool) → ℕ → String → Error → Db → Result (User × Db)
  unfolding write_password
  replace_password predicate salt next absent db = validate_password next >>= (λ _.
      elim (find? predicate db.users) [
        | none ↦ err absent
        | some u ↦ ok (u, revoke_sessions u.id (write_password salt u.id next db))
      ])

  unfoldable pub set_password : ℕ → ℕ → String → Db → Result (User × Db)
  unfolding replace_password is_local_user
  set_password salt user_id next db =
      replace_password (is_local_user user_id) salt next not_found db

  unfoldable pub recover_password : ℕ → String → String → Db → Result (User × Db)
  unfolding replace_password
  recover_password salt username next db =
      replace_password (can_log_in (normalize_username username)) salt next invalid_credentials db
