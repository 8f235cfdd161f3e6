-- ===== src/Identity/Administrators/Kept.antt =====
-- The set-up creates an administrator; passwords and sessions take none away.
use cairnops.Common.{
  ℕ, ◌≤◌, ◌≡◌, refl, String, str_eq, Bool, true, ◌&&◌, [], ◌∷◌, ◌==◌, not, arith, is_none, is_some,
  Bool-cases, subst, Option-cases, inl, inr, find?, select, ap, leb,
}
use cairnops.Common.Result.{Error, ok, ◌>>=◌, >>=-eq-ok, ok_eq}
use cairnops.Identity.Schema.{
  Regime, User, Db, is_administrator, administrators, administrator, is_local, revoke_sessions,
}
use cairnops.Common.Text.{trim_space}
use cairnops.Identity.Input.{normalize_username, validate_identity_input}
use cairnops.Identity.Sessions.{rename_instance, initialize, login, new_session, authenticate}
use cairnops.Identity.Passwords.{change_password}
use cairnops.Identity.Administrators.Accounts.{count_where-append, count_where-update, IsKept}
use cairnops.Identity.Input.{
  validate_instance_name, matches_username, byte_count, validate_password,
}
use cairnops.Identity.Sessions.{
  created_administrator, insert_session, create_session, verify_password, can_log_in,
  is_live_external, principal_of, is_open_session, touch_session,
}
use cairnops.Identity.Passwords.{write_password, is_local_user, replace_password}

pub initialize-ok :
    (argon2 : String → ℕ → ℕ) (sha256 : String → ℕ) (clock new_id salt : ℕ)
    (token instance username display_name password : String) (db end : Db)
    → initialize argon2 sha256 clock new_id salt token instance username display_name password db
      ≡ ok end
    → 1 ≤ administrators end
unfolding initialize insert_session administrators is_administrator created_administrator
initialize-ok argon2 sha256 clock new_id salt token instance username display_name password db end
      h =
    let valid =
      >>=-eq-ok
        (validate_instance_name (trim_space instance) >>= (λ _.
          validate_identity_input (normalize_username username) (trim_space display_name) password))
        _ h in
    elim (Bool-cases (is_some db.initialized_at)) [
      | inl e ↦ cc (rw e at valid.2)
      | inr e ↦
          subst (λ k. 1 ≤ administrators k) (ok_eq (rw e at valid.2))
            (omega (
              arith,
              count_where-append is_administrator db.users (
                  created_administrator argon2 new_id salt (normalize_username username)
                    (trim_space display_name) password
                  ∷ []),
            ))
    ]

pub same_users :
    (db end : Db) → end.users ≡ db.users → end.initialized_at ≡ db.initialized_at → IsKept db end
unfolding administrators
same_users db end e i = record { administrators = rw e (omega arith); initialized_at = i }

pub rename_instance-IsKept :
    (name : String) (db end : Db) → rename_instance name db ≡ ok end → IsKept db end
unfolding rename_instance
rename_instance-IsKept name db end h =
    let two = >>=-eq-ok (validate_instance_name (trim_space name)) _ h in
    subst (IsKept db) (ok_eq (two.2)) (same_users db _ refl refl)

last_true : (a b c d : Bool) → (a && b && c && d) ≡ true → (a && b && c && true) ≡ true
last_true a b c d h = ground arith

-- A user that gets a password stays what it was.
write_password-IsKept :
    (argon2 : String → ℕ → ℕ) (salt user_id id : ℕ) (password : String) (db : Db)
    → IsKept db (revoke_sessions id (write_password argon2 salt user_id password db))
unfolding administrators write_password revoke_sessions is_administrator
write_password-IsKept argon2 salt user_id id password db = record {
  administrators =
      count_where-update is_administrator (λ u. u.id == user_id) _ db.users
        (λ x h.
          last_true (str_eq x.role administrator) (is_none x.deactivated_at) (is_local x.regime) _
            h);
  initialized_at = refl;
}

pub change_password-IsKept :
    (argon2 : String → ℕ → ℕ) (salt user_id : ℕ) (current next : String) (db end : Db)
    → change_password argon2 salt user_id current next db ≡ ok end
    → IsKept db end
unfolding change_password
change_password-IsKept argon2 salt user_id current next db end h =
    let valid = >>=-eq-ok (validate_password next) _ h in
    elim (Bool-cases (str_eq current next)) [
      | inl e ↦ cc (rw e at valid.2)
      | inr e ↦ elim (Option-cases (find? (is_local_user user_id) db.users)) [
        | inl f ↦ cc (rw (e, f) at valid.2)
        | inr f ↦
            let verified =
              >>=-eq-ok (verify_password argon2 current f.0.hash) _ (rw (e, f.1) at valid.2) in
            elim (Bool-cases verified.0) [
              | inl g ↦
                  subst (IsKept db) (ok_eq (rw g at verified.2))
                    (write_password-IsKept argon2 salt user_id user_id next db)
              | inr g ↦ cc (rw g at verified.2)
            ]
      ]
    ]

pub replace_password-IsKept :
    (argon2 : String → ℕ → ℕ) (predicate : User → Bool) (salt : ℕ) (next : String) (absent : Error)
    (db end : Db) (u : User)
    → replace_password argon2 predicate salt next absent db ≡ ok (u, end)
    → IsKept db end
unfolding replace_password
replace_password-IsKept argon2 predicate salt next absent db end u h =
    let valid = >>=-eq-ok (validate_password next) _ h in
    elim (Option-cases (find? predicate db.users)) [
      | inl f ↦ cc (rw f at valid.2)
      | inr f ↦
          subst (IsKept db) (ap (λ x. x.1) (ok_eq (rw (f.1) at valid.2)))
            (write_password-IsKept argon2 salt f.0.id f.0.id next db)
    ]

create_session-IsKept :
    (sha256 : String → ℕ) (clock : ℕ) (token : String) (user_id : ℕ) (regime : Regime) (db : Db)
    → IsKept db (create_session sha256 clock token user_id regime db)
unfolding create_session insert_session
create_session-IsKept sha256 clock token user_id regime db = same_users db _ refl refl

pub login-IsKept :
    (argon2 : String → ℕ → ℕ) (sha256 : String → ℕ) (clock : ℕ) (token username password : String)
    (db end : Db)
    → login argon2 sha256 clock token username password db ≡ ok end
    → IsKept db end
unfolding login
login-IsKept argon2 sha256 clock token username password db end h =
    elim (Bool-cases (
      not (
        matches_username (normalize_username username)
        && leb 1 (byte_count password)
        && leb (byte_count password) 128))) [
          | inl e ↦ cc (rw e at h)
          | inr e ↦
              elim (Option-cases (find? (can_log_in (normalize_username username)) db.users)) [
                | inl f ↦ cc (rw (e, f) at h)
                | inr f ↦
                    let verified =
                      >>=-eq-ok (verify_password argon2 password f.0.hash) _ (rw (e, f.1) at h) in
                    elim (Bool-cases verified.0) [
                      | inl g ↦
                          subst (IsKept db) (ok_eq (rw g at verified.2))
                            (create_session-IsKept sha256 clock token f.0.id f.0.regime db)
                      | inr g ↦ cc (rw g at verified.2)
                    ]
              ]
        ]

pub new_session-IsKept :
    (sha256 : String → ℕ) (clock : ℕ) (token : String) (user_id : ℕ) (db end : Db)
    → new_session sha256 clock token user_id db ≡ ok end
    → IsKept db end
unfolding new_session
new_session-IsKept sha256 clock token user_id db end h =
    elim (Option-cases (find? (is_live_external user_id) db.users)) [
      | inl f ↦ cc (rw (f, new_session) at h)
      | inr f ↦
          subst (IsKept db) (ok_eq (rw (f.1, new_session) at h))
            (create_session-IsKept sha256 clock token f.0.id f.0.regime db)
    ]

pub authenticate-IsKept :
    (sha256 : String → ℕ) (is_token : String → Bool) (token : String) (u : User) (db end : Db)
    → authenticate sha256 is_token token db ≡ ok (u, end)
    → IsKept db end
unfolding authenticate touch_session
authenticate-IsKept sha256 is_token token u db end h = elim (Bool-cases (is_token token)) [
  | inl e ↦
      elim (Option-cases
        (principal_of db (select (is_open_session db.now (sha256 token)) db.sessions))) [
          | inl f ↦ cc (rw (e, f) at h)
          | inr f ↦
              subst (IsKept db) (ap (λ x. x.1) (ok_eq (rw (e, f.1) at h)))
                (same_users db _ refl refl)
        ]
  | inr e ↦ cc (rw e at h)
]
