-- ===== src/Identity/Administrators/Runs.antt =====
-- Every run of requests keeps an administrator.
use cairnops.Common.{
  ℕ, ◌≡◌, refl, String, Bool, ◌&&◌, ◌==◌, is_none, Bool-cases, subst, inl, inr, exists,
}
use cairnops.Common.Result.{ok, ok_eq}
use cairnops.Identity.Schema.{Db}
use cairnops.Identity.Sessions.{logout}
use cairnops.Identity.Passwords.{set_password, recover_password}
use cairnops.Identity.Administrators.{
  Request, Reach, here, later, set_up, renamed, created, updated, activated, password_changed,
  password_set, password_recovered, logged_in, entered, authenticated, logged_out, time_passes,
  HasAdministrator,
}
use cairnops.Identity.Administrators.Accounts.{
  update_account-ok, set_account_activation-ok, create_account-IsKept, IsKept, keeps,
}
use cairnops.Identity.Administrators.Kept.{
  initialize-ok, rename_instance-IsKept, change_password-IsKept, replace_password-IsKept,
  login-IsKept, new_session-IsKept, authenticate-IsKept, same_users,
}

logout-IsKept :
    (sha256 : String → ℕ) (is_token : String → Bool) (token : String) (db end : Db)
    → logout sha256 is_token token db ≡ ok end
    → IsKept db end
unfolding logout
logout-IsKept sha256 is_token token db end h = elim (Bool-cases (is_token token)) [
  | inl e ↦
      elim (Bool-cases
        (exists (λ s. (s.token_digest == sha256 token) && is_none s.revoked_at) db.sessions)) [
          | inl f ↦ subst (IsKept db) (ok_eq (rw (e, f) at h)) (same_users db _ refl refl)
          | inr f ↦ cc (rw (e, f) at h)
        ]
  | inr e ↦ cc (rw e at h)
]

Request-HasAdministrator :
    {db end : Db} → Request db end → HasAdministrator db → HasAdministrator end
unfolding set_password recover_password
Request-HasAdministrator {db} {end} (set_up argon2 sha256 clock new_id salt token i n d p e q) h =
    λ x. initialize-ok argon2 sha256 clock new_id salt token i n d p db e q
Request-HasAdministrator {db} (renamed name e q) h =
    keeps db e (rename_instance-IsKept name db e q) h
Request-HasAdministrator {db} (created argon2 i salt n d r p e q) h =
    keeps db e (create_account-IsKept argon2 i salt n d r p db e q) h
Request-HasAdministrator {db} (updated a u d r e q) h = λ x. update_account-ok a u d r db e q
Request-HasAdministrator {db} (activated a u b e q) h = λ x. set_account_activation-ok a u b db e q
Request-HasAdministrator {db} (password_changed argon2 salt u c n e q) h =
    keeps db e (change_password-IsKept argon2 salt u c n db e q) h
Request-HasAdministrator {db} (password_set argon2 salt i n u e q) h =
    keeps db e (replace_password-IsKept argon2 _ salt n _ db e u q) h
Request-HasAdministrator {db} (password_recovered argon2 salt i n u e q) h =
    keeps db e (replace_password-IsKept argon2 _ salt n _ db e u q) h
Request-HasAdministrator {db} (logged_in argon2 sha256 c t n p e q) h =
    keeps db e (login-IsKept argon2 sha256 c t n p db e q) h
Request-HasAdministrator {db} (entered sha256 c t i e q) h =
    keeps db e (new_session-IsKept sha256 c t i db e q) h
Request-HasAdministrator {db} (authenticated sha256 is_token t u e q) h =
    keeps db e (authenticate-IsKept sha256 is_token t u db e q) h
Request-HasAdministrator {db} (logged_out sha256 is_token t e q) h =
    keeps db e (logout-IsKept sha256 is_token t db e q) h
Request-HasAdministrator {db} (time_passes now) h = keeps db _ (same_users db _ refl refl) h

-- Where an instance that was set up has an active local administrator with a password, or was not set up,
-- the same holds after every sequence of accepted requests, each one transaction after the other: setting up,
-- renaming, creating, updating, activating and deactivating accounts, changing, setting and recovering
-- passwords, opening, using and closing sessions, whatever the instants, the random values and the
-- libraries' functions are.
pub Reach-HasAdministrator :
    {begin end : Db} → Reach begin end → HasAdministrator begin → HasAdministrator end
Reach-HasAdministrator here h = h
Reach-HasAdministrator (later r q) h = Request-HasAdministrator q (Reach-HasAdministrator r h)
