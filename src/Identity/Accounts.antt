-- ===== src/Identity/Accounts.antt =====
-- internal/identity/accounts.go: creating an account, changing one and taking it out of service.
use cairnops.Common.{
  ℕ, String, Bool, true, false, ◌&&◌, Option, none, some, [], ◌∷◌, ◌++◌, ◌==◌, ltb, if◌then◌else◌,
  not, find?, exists, count_where, update_where, is_none, coalesce, first_of_two,
}
use cairnops.Common.Result.{invalid_input, not_found, conflict, Result, err, ok, ◌>>=◌}
use cairnops.Common.Text.{trim_space}
use cairnops.Identity.Schema.{local, is_local, Hash, User, Db, administrators, revoke_sessions}
use cairnops.Identity.Input.{
  normalize_username, validate_identity_input, validate_display_name, validate_role, text_equal,
}

unfoldable pub hash_password : (String → ℕ → ℕ) → ℕ → String → Hash
hash_password argon2 salt password = record { salt = salt; key = argon2 password salt }

-- `new_id` is the uuid that PostgreSQL draws, `salt` the one that hashPassword draws; the usernames are
-- unique by an index on their lower case, which is how all of them are written.
unfoldable pub create_account :
    (String → ℕ → ℕ) → ℕ → ℕ → String → String → String → String → Db → Result Db
unfolding hash_password
create_account argon2 new_id salt username display_name role password db =
    let name = normalize_username username in
    let shown = trim_space display_name in
    validate_identity_input name shown password >>= (λ _. validate_role role) >>= (λ _.
      if exists (λ u. text_equal u.username name) db.users
      then err conflict
      else ok (record db {
        users =
            db.users
            ++ ((record {
              id = new_id;
              username = name;
              display_name = shown;
              hash = some (hash_password argon2 salt password);
              role = role;
              regime = local;
              deactivated_at = none;
              external_suspended_at = none;
            })
                ∷ []);
      }))

-- The guard around every change to an account.
unfoldable pub mutate_account : ℕ → (Db → Result Db) → Db → Result Db
mutate_account user_id apply db = elim (find? (λ u. u.id == user_id) db.users) [
  | none ↦ err not_found
  | some _ ↦
      apply db >>= (λ changed. if administrators changed == 0 then err conflict else ok changed)
]

unfoldable pub updated_row : Option String → Option String → User → User
updated_row display_name role u = record u {
  display_name = coalesce display_name u.display_name;
  role = coalesce role u.role;
}

unfoldable pub write_account : ℕ → Option String → Option String → Db → Db
unfolding updated_row
write_account user_id display_name role db = record db {
  users = update_where (λ u. u.id == user_id) (updated_row display_name role) db.users;
}

unfoldable pub is_external : ℕ → Db → Bool
is_external user_id db = exists (λ u. (u.id == user_id) && not (is_local u.regime)) db.users

-- The transaction of UpdateAccount.
unfoldable pub change_account : ℕ → Option String → Option String → Db → Result Db
unfolding write_account is_external
change_account user_id display_name none db = ok (write_account user_id display_name none db)
change_account user_id display_name (some role) db =
    if is_external user_id db
    then err conflict
    else ok (revoke_sessions user_id (write_account user_id display_name (some role) db))

-- The checks before the transaction of UpdateAccount, with the display name trimmed.
unfoldable pub check_display_name : Option String → Result (Option String)
check_display_name none = ok none
check_display_name (some name) =
    validate_display_name (trim_space name) >>= (λ _. ok (some (trim_space name)))

unfoldable pub check_role : ℕ → ℕ → Option String → Result {0} Unit
check_role actor_id user_id none = ok tt
check_role actor_id user_id (some role) =
    validate_role role >>= (λ _. if actor_id == user_id then err conflict else ok tt)

unfoldable pub update_account : ℕ → ℕ → Option String → Option String → Db → Result Db
unfolding check_display_name check_role mutate_account change_account
update_account actor_id user_id display_name role db =
    if is_none display_name && is_none role
    then err invalid_input
    else check_display_name display_name >>= (λ name.
      check_role actor_id user_id role
      >>= (λ _. mutate_account user_id (change_account user_id name role) db))

unfoldable pub activated_row : ℕ → Bool → User → User
activated_row now true u = record u { deactivated_at = none }
activated_row now false u = record u { deactivated_at = first_of_two u.deactivated_at (some now) }

unfoldable pub write_activation : ℕ → Bool → Db → Db
unfolding activated_row
write_activation user_id active db = record db {
  users = update_where (λ u. u.id == user_id) (activated_row db.now active) db.users;
}

-- The transaction of SetAccountActivation.
unfoldable pub change_activation : ℕ → Bool → Db → Result Db
unfolding write_activation
change_activation user_id true db = ok (write_activation user_id true db)
change_activation user_id false db =
    ok (revoke_sessions user_id (write_activation user_id false db))

unfoldable pub set_account_activation : ℕ → ℕ → Bool → Db → Result Db
unfolding mutate_account change_activation
set_account_activation actor_id user_id active db =
    if not active && actor_id == user_id
    then err conflict
    else mutate_account user_id (change_activation user_id active) db

-- `session.revoked_at IS NULL AND session.expires_at > now()`, of one user.
unfoldable pub count_active_sessions : ℕ → Db → ℕ
count_active_sessions user_id db =
    count_where (λ s. (s.user_id == user_id) && is_none s.revoked_at && ltb db.now s.expires_at)
      db.sessions
