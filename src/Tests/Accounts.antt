-- ===== src/Tests/Accounts.antt =====
-- The accounts of internal/identity at concrete inputs.
use cairnops.Common.{
  ℕ, ◌*◌, ◌+◌, ◌≡◌, ◌≢◌, refl, String, Bool, true, false, none, some, [], ◌∷◌, arith,
}
use cairnops.Common.Result.{ok}
use cairnops.Common.Text.{is_space, trim_left, trim_right, rune_count}
use cairnops.Identity.Schema.{
  local, User, Session, Db, administrator, is_administrator, administrators, revoke_sessions,
}
use cairnops.Identity.Input.{
  lower_rune, lower_runes, normalize_username, starts_username, continues_username, all_continue,
  matches_username, byte_count, validate_display_name, validate_instance_name, validate_password,
  validate_identity_input,
}
use cairnops.Identity.Accounts.{
  hash_password, mutate_account, activated_row, write_activation, change_activation,
  set_account_activation,
}
use cairnops.Identity.Sessions.{
  initialize, created_administrator, insert_session, is_in_service, is_open_session, principal_of,
  touch_session, authenticate,
}
use cairnops.Identity.Administrators.{here, later, set_up, time_passes, HasAdministrator}
use cairnops.Identity.Administrators.Runs.{Reach-HasAdministrator}
use cairnops.Identity.Administrators.Race.{mutual_deactivation, pair}
use cairnops.Identity.Revocation.{deactivated}
use cairnops.Identity.Revocation.Changes.{Revoking-authenticate}

abbrev argon2 : String → ℕ → ℕ
argon2 password salt = salt * 7 + 1

abbrev sha256 : String → ℕ
sha256 token = 5

abbrev is_token : String → Bool
is_token token = true

abbrev fresh : Db
fresh = record { now = 100; initialized_at = none; name = ""; users = []; sessions = [] }

unfoldable installed : Db
unfolding initialize created_administrator insert_session normalize_username lower_runes lower_rune
    trim_left trim_right is_space hash_password
installed = record fresh {
  initialized_at = some 100;
  name = "Home";
  users = created_administrator argon2 1 9 (normalize_username " Ada ") "Ada L" "twelve bytes" ∷ [];
  sessions = (insert_session 1 5 43200000000050 fresh).sessions;
}

installs :
    initialize argon2 sha256 50 1 9 "secret" "Home" " Ada " "Ada L" "twelve bytes" fresh
    ≡ ok installed
unfolding installed initialize created_administrator insert_session normalize_username lower_runes
    lower_rune trim_left trim_right is_space hash_password rune_count starts_username
    continues_username all_continue matches_username byte_count validate_display_name
    validate_instance_name validate_password validate_identity_input
installs = refl

Reach-HasAdministrator_example : HasAdministrator (record installed { now = 200 })
Reach-HasAdministrator_example =
    Reach-HasAdministrator {begin = fresh}
      (later
        (later here (
          set_up argon2 sha256 50 1 9 "secret" "Home" " Ada " "Ada L" "twelve bytes" installed
            installs))
        (time_passes 200))
      (λ h. cc)

abbrev admin : ℕ → User
admin id = record {
  id = id;
  username = [];
  display_name = "Admin";
  hash = some (record { salt = 1; key = 8 });
  role = administrator;
  regime = local;
  deactivated_at = none;
  external_suspended_at = none;
}

admin-is_administrator : (id : ℕ) → is_administrator (admin id) ≡ true
unfolding is_administrator
admin-is_administrator id = refl

mutual_deactivation_example :
    (set_account_activation 2 1 false (pair fresh (admin 1) (admin 2))
      ≡ ok (revoke_sessions 1 (write_activation 1 false (pair fresh (admin 1) (admin 2)))))
    × (set_account_activation 1 2 false (pair fresh (admin 1) (admin 2))
        ≡ ok (revoke_sessions 2 (write_activation 2 false (pair fresh (admin 1) (admin 2)))))
    × (administrators
          (write_activation 2 false (write_activation 1 false (pair fresh (admin 1) (admin 2))))
        ≡ 0)
mutual_deactivation_example =
    mutual_deactivation fresh (admin 1) (admin 2) (admin-is_administrator 1)
      (admin-is_administrator 2) (λ e. omega (arith, e))

-- Two administrators with a session each, for different tokens.
abbrev digest_of : String → ℕ
digest_of String.[] = 0
digest_of (String.◌∷◌ c s) = 1

abbrev session : ℕ → ℕ → Session
session id digest = record {
  user_id = id;
  token_digest = digest;
  expires_at = 1000;
  last_seen_at = 100;
  revoked_at = none;
}

abbrev two : Db
two = record (pair fresh (admin 1) (admin 2)) { sessions = session 1 0 ∷ session 2 1 ∷ [] }

abbrev one_left : Db
one_left = record two {
  users = record (admin 1) { deactivated_at = some 100 } ∷ admin 2 ∷ [];
  sessions = record (session 1 0) { revoked_at = some 100 } ∷ session 2 1 ∷ [];
}

deactivates : set_account_activation 2 1 false two ≡ ok one_left
unfolding set_account_activation mutate_account change_activation write_activation activated_row
    revoke_sessions administrators is_administrator
deactivates = refl

authenticates : authenticate digest_of is_token "b" one_left ≡ ok (admin 2, one_left)
unfolding authenticate principal_of is_in_service is_open_session touch_session
authenticates = refl

Revoking-authenticate_example : (admin 2).id ≢ 1
Revoking-authenticate_example =
    Revoking-authenticate 1 two one_left one_left digest_of is_token "b" (admin 2)
      (deactivated 2 deactivates) authenticates
