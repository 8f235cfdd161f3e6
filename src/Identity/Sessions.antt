-- ===== src/Identity/Sessions.antt =====
-- internal/identity/identity.go: the first set-up, the ways into a session and out of it. `argon2`,
-- `sha256` and `is_token`, which says whether a text is 32 bytes in base64, are the libraries'.
use cairnops.Common.{
  ℕ, ◌+◌, ◌*◌, String, Bool, ◌&&◌, Option, none, some, List, [], ◌∷◌, ◌++◌, ◌==◌, ltb, leb,
  if◌then◌else◌, not, select, find?, exists, update_where, is_none, is_some,
}
use cairnops.Common.Result.{
  already_initialized, invalid_credentials, invalid_session, failed, Result, err, ok, ◌>>=◌,
}
use cairnops.Common.Text.{Text, trim_space}
use cairnops.Identity.Schema.{Regime, local, is_local, Hash, User, Session, Db, administrator}
use cairnops.Identity.Input.{
  normalize_username, validate_identity_input, validate_instance_name, matches_username, byte_count,
  text_equal,
}
use cairnops.Identity.Accounts.{hash_password}

abbrev pub hour : ℕ
hour = 3600 * 1000000000

abbrev pub session_lifetime : ℕ
session_lifetime = 12 * hour

abbrev pub external_session_lifetime : ℕ
external_session_lifetime = 10 * 365 * 24 * hour

unfoldable pub rename_instance : String → Db → Result Db
rename_instance name db =
    validate_instance_name (trim_space name) >>= (λ _. ok (record db { name = trim_space name }))

-- INSERT INTO cairnops_sessions.
unfoldable pub insert_session : ℕ → ℕ → ℕ → Db → Db
insert_session user_id digest expires_at db = record db {
  sessions =
      db.sessions
      ++ ((record {
        user_id = user_id;
        token_digest = digest;
        expires_at = expires_at;
        last_seen_at = db.now;
        revoked_at = none;
      })
          ∷ []);
}

unfoldable pub created_administrator : (String → ℕ → ℕ) → ℕ → ℕ → Text → String → String → User
unfolding hash_password
created_administrator argon2 new_id salt username display_name password = record {
  id = new_id;
  username = username;
  display_name = display_name;
  hash = some (hash_password argon2 salt password);
  role = administrator;
  regime = local;
  deactivated_at = none;
  external_suspended_at = none;
}

-- `clock` is the process's instant, `token` the secret that newSessionToken draws.
unfoldable pub initialize :
    (String → ℕ → ℕ)
    → (String → ℕ)
    → ℕ
    → ℕ
    → ℕ
    → String
    → String
    → String
    → String
    → String
    → Db
    → Result Db
unfolding created_administrator insert_session
initialize argon2 sha256 clock new_id salt token instance username display_name password db =
    let name = normalize_username username in
    let shown = trim_space display_name in
    validate_instance_name (trim_space instance)
    >>= (λ _. validate_identity_input name shown password)
    >>= (λ _.
        if is_some db.initialized_at
        then err already_initialized
        else ok
            (record (insert_session new_id (sha256 token) (clock + session_lifetime) (record db {
              users =
                  db.users ++ (created_administrator argon2 new_id salt name shown password ∷ []);
            })) { initialized_at = some db.now; name = trim_space instance }))

unfoldable pub create_session : (String → ℕ) → ℕ → String → ℕ → Regime → Db → Db
unfolding insert_session
create_session sha256 clock token user_id regime db =
    insert_session user_id (sha256 token)
      (clock + (if is_local regime then session_lifetime else external_session_lifetime)) db

-- `verifyPassword`, on a stored password that hashPassword wrote; a missing one is an error of the scan.
unfoldable pub verify_password : (String → ℕ → ℕ) → String → Option Hash → Result Bool
verify_password argon2 password none = err failed
verify_password argon2 password (some hash) = ok (argon2 password hash.salt == hash.key)

-- The WHERE of Login.
unfoldable pub can_log_in : Text → User → Bool
can_log_in name u = text_equal u.username name && is_none u.deactivated_at && is_local u.regime

unfoldable pub login :
    (String → ℕ → ℕ) → (String → ℕ) → ℕ → String → String → String → Db → Result Db
unfolding create_session verify_password can_log_in
login argon2 sha256 clock token username password db =
    let name = normalize_username username in
    if not (matches_username name && leb 1 (byte_count password) && leb (byte_count password) 128)
    then err invalid_credentials
    else elim (find? (can_log_in name) db.users) [
      | none ↦ err invalid_credentials
      | some u ↦ verify_password argon2 password u.hash >>= (λ valid.
          if valid
          then ok (create_session sha256 clock token u.id u.regime db)
          else err invalid_credentials)
    ]

-- The WHERE of NewSession.
unfoldable pub is_live_external : ℕ → User → Bool
is_live_external user_id u =
    (u.id == user_id)
    && not (is_local u.regime)
    && is_none u.deactivated_at
    && is_none u.external_suspended_at

unfoldable pub new_session : (String → ℕ) → ℕ → String → ℕ → Db → Result Db
unfolding create_session is_live_external
new_session sha256 clock token user_id db = elim (find? (is_live_external user_id) db.users) [
  | none ↦ err invalid_credentials
  | some u ↦ ok (create_session sha256 clock token u.id u.regime db)
]

-- The users that a session may speak for: the conditions of Authenticate on cairnops_users.
unfoldable pub is_in_service : ℕ → User → Bool
is_in_service user_id u =
    (u.id == user_id) && is_none u.deactivated_at && is_none u.external_suspended_at

-- The conditions of Authenticate on a session.
unfoldable pub is_open_session : ℕ → ℕ → Session → Bool
is_open_session now digest s =
    (s.token_digest == digest) && is_none s.revoked_at && ltb now s.expires_at

-- The rows of the join: a session and its user.
unfoldable pub principal_of : Db → List Session → Option User
unfolding is_in_service
principal_of db [] = none
principal_of db (s ∷ ss) =
    let rest = principal_of db ss in
    elim (find? (is_in_service s.user_id) db.users) [ none ↦ rest | some u ↦ some u ]

unfoldable pub touch_session : ℕ → Db → Db
touch_session digest db = record db {
  sessions =
      update_where
        (λ s. (s.token_digest == digest) && ltb (s.last_seen_at + 300 * 1000000000) db.now)
        (λ s. record s { last_seen_at = db.now }) db.sessions;
}

unfoldable pub authenticate : (String → ℕ) → (String → Bool) → String → Db → Result (User × Db)
unfolding is_open_session principal_of touch_session
authenticate sha256 is_token token db =
    if not (is_token token)
    then err invalid_session
    else elim (principal_of db (select (is_open_session db.now (sha256 token)) db.sessions)) [
      | none ↦ err invalid_session
      | some u ↦ ok (u, touch_session (sha256 token) db)
    ]

unfoldable pub logout : (String → ℕ) → (String → Bool) → String → Db → Result Db
logout sha256 is_token token db =
    let open_session : Session → Bool =
      λ s. (s.token_digest == sha256 token) && is_none s.revoked_at in
    if not (is_token token)
    then err invalid_session
    else if exists open_session db.sessions
    then ok (record db {
      sessions = update_where open_session (λ s. record s { revoked_at = some db.now }) db.sessions;
    })
    else err invalid_session
