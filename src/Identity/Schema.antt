-- ===== src/Identity/Schema.antt =====
-- The rows of cairnops_users, cairnops_sessions and cairnops_installation. A uuid is a number; `now` is
-- the instant of the transaction. A stored password is its salt and the key that argon2 derives: the text
-- that holds both, with the parameters, is not modelled.
use cairnops.Common.{
  ℕ, String, str_eq, Bool, true, false, ◌&&◌, Option, some, List, is_none, is_some, count_where,
  update_where, ◌==◌,
}
use cairnops.Common.Text.{Text}

pub data Regime : Type 0 where
  local external : Regime

abbrev pub is_local : Regime → Bool
is_local local = true
is_local external = false

pub record Hash : Type 0 where
  pub salt : ℕ
  pub key : ℕ

pub record User : Type 0 where
  pub id : ℕ
  pub username : Text
  pub display_name : String
  pub hash : Option Hash
  pub role : String
  pub regime : Regime
  pub deactivated_at : Option ℕ
  pub external_suspended_at : Option ℕ

pub record Session : Type 0 where
  pub user_id : ℕ
  pub token_digest : ℕ
  pub expires_at : ℕ
  pub last_seen_at : ℕ
  pub revoked_at : Option ℕ

pub record Db : Type 0 where
  pub now : ℕ
  pub initialized_at : Option ℕ
  pub name : String
  pub users : List User
  pub sessions : List Session

abbrev pub administrator : String
administrator = "administrator"

-- The WHERE of mutateAccount's count.
unfoldable pub is_administrator : User → Bool
is_administrator u =
    str_eq u.role administrator && is_none u.deactivated_at && is_local u.regime && is_some u.hash

unfoldable pub administrators : Db → ℕ
unfolding is_administrator
administrators db = count_where is_administrator db.users

-- `revokeSessions`.
unfoldable pub revoke_sessions : ℕ → Db → Db
revoke_sessions user_id db = record db {
  sessions =
      update_where (λ s. (s.user_id == user_id) && is_none s.revoked_at)
        (λ s. record s { revoked_at = some db.now }) db.sessions;
}
