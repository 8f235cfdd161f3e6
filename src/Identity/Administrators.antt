-- ===== src/Identity/Administrators.antt =====
-- An instance that was set up keeps an active administrator through every accepted request.
pub mod Accounts
pub mod Kept
pub mod Runs
pub mod Race
use cairnops.Common.{
  ℕ, zero, suc, ◌+◌, ◌≤◌, ◌≡◌, refl, String, str_eq, Bool, true, false, ◌&&◌, Option, none, some,
  List, [], ◌∷◌, ◌++◌, ◌==◌, if◌then◌else◌, not, arith, count_where, update_where, is_none, is_some,
  Bool-cases, subst, sym, Option-cases, inl, inr, find?, exists, select,
}
use cairnops.Common.Result.{Error, Result, err, ok, ◌>>=◌, >>=-eq-ok, ok_eq}
use cairnops.Identity.Schema.{
  Regime, User, Session, Db, is_administrator, administrators, revoke_sessions,
}
use cairnops.Common.Text.{trim_space}
use cairnops.Identity.Input.{normalize_username, validate_identity_input, validate_role, text_equal}
use cairnops.Identity.Accounts.{
  create_account, mutate_account, update_account, set_account_activation, check_display_name,
  check_role, change_account, change_activation,
}
use cairnops.Identity.Sessions.{
  rename_instance, initialize, login, new_session, authenticate, logout,
}
use cairnops.Identity.Passwords.{change_password, set_password, recover_password}

-- A request that one transaction answers, with the database it leaves. The libraries' functions, the
-- random values and the clock are whatever they are.
pub data Request (db : Db) : Db → Type 0 where
  set_up :
      (argon2 : String → ℕ → ℕ) (sha256 : String → ℕ) (clock new_id salt : ℕ)
      (token instance username display_name password : String) (end : Db)
      → initialize argon2 sha256 clock new_id salt token instance username display_name password db
        ≡ ok end
      → Request db end
  renamed : (name : String) (end : Db) → rename_instance name db ≡ ok end → Request db end
  created :
      (argon2 : String → ℕ → ℕ) (new_id salt : ℕ) (username display_name role password : String)
      (end : Db)
      → create_account argon2 new_id salt username display_name role password db ≡ ok end
      → Request db end
  updated :
      (actor_id user_id : ℕ) (display_name role : Option String) (end : Db)
      → update_account actor_id user_id display_name role db ≡ ok end
      → Request db end
  activated :
      (actor_id user_id : ℕ) (active : Bool) (end : Db)
      → set_account_activation actor_id user_id active db ≡ ok end
      → Request db end
  password_changed :
      (argon2 : String → ℕ → ℕ) (salt user_id : ℕ) (current next : String) (end : Db)
      → change_password argon2 salt user_id current next db ≡ ok end
      → Request db end
  password_set :
      (argon2 : String → ℕ → ℕ) (salt user_id : ℕ) (next : String) (u : User) (end : Db)
      → set_password argon2 salt user_id next db ≡ ok (u, end)
      → Request db end
  password_recovered :
      (argon2 : String → ℕ → ℕ) (salt : ℕ) (username next : String) (u : User) (end : Db)
      → recover_password argon2 salt username next db ≡ ok (u, end)
      → Request db end
  logged_in :
      (argon2 : String → ℕ → ℕ) (sha256 : String → ℕ) (clock : ℕ) (token username password : String)
      (end : Db)
      → login argon2 sha256 clock token username password db ≡ ok end
      → Request db end
  entered :
      (sha256 : String → ℕ) (clock : ℕ) (token : String) (user_id : ℕ) (end : Db)
      → new_session sha256 clock token user_id db ≡ ok end
      → Request db end
  authenticated :
      (sha256 : String → ℕ) (is_token : String → Bool) (token : String) (u : User) (end : Db)
      → authenticate sha256 is_token token db ≡ ok (u, end)
      → Request db end
  logged_out :
      (sha256 : String → ℕ) (is_token : String → Bool) (token : String) (end : Db)
      → logout sha256 is_token token db ≡ ok end
      → Request db end
  time_passes : (now : ℕ) → Request db (record db { now = now })

pub data Reach (begin : Db) : Db → Type 0 where
  here : Reach begin begin
  later : {db end : Db} → Reach begin db → Request db end → Reach begin end

abbrev pub HasAdministrator : Db → Type 0
HasAdministrator db = is_some db.initialized_at ≡ true → 1 ≤ administrators db
