-- ===== src/Identity/Revocation/Changes.antt =====
-- Each change that closes sessions ends in `revokeSessions`.
use cairnops.Common.{
  ℕ, ◌≡◌, ◌≢◌, refl, String, str_eq, Bool, false, ◌&&◌, Option, some, ◌==◌, is_none, Bool-cases,
  subst, sym, ap, ◌∙◌, Option-cases, inl, inr, find?,
}
use cairnops.Common.Result.{Error, Result, ok, >>=-eq-ok, ok_eq}
use cairnops.Identity.Schema.{User, Db, administrators, revoke_sessions}
use cairnops.Identity.Input.{validate_password}
use cairnops.Identity.Accounts.{
  mutate_account, update_account, set_account_activation, check_display_name, check_role,
  change_account, change_activation, write_account, write_activation, is_external,
}
use cairnops.Identity.Sessions.{authenticate, verify_password}
use cairnops.Identity.Passwords.{
  change_password, set_password, recover_password, replace_password, write_password, is_local_user,
}
use cairnops.Identity.Revocation.{
  Revoking, deactivated, role_changed, password_changed, password_set, password_recovered,
  revoke_sessions-authenticate,
}

abbrev IsRevoked : ℕ → Db → Type 0
IsRevoked user_id end = (before : Db) × (end ≡ revoke_sessions user_id before)

mutate_account-eq :
    (user_id : ℕ) (apply : Db → Result Db) (db changed end : Db)
    → apply db ≡ ok changed
    → mutate_account user_id apply db ≡ ok end
    → end ≡ changed
unfolding mutate_account
mutate_account-eq user_id apply db changed end a h =
    elim (Option-cases (find? (λ u. u.id == user_id) db.users)) [
      | inl e ↦ cc (rw (e, mutate_account) at h)
      | inr e ↦ elim (Bool-cases (administrators changed == 0)) [
        | inl z ↦ cc (rw (e.1, a, z, mutate_account) at h)
        | inr z ↦ sym (ok_eq (rw (e.1, a, z, mutate_account) at h))
      ]
    ]

deactivated-IsRevoked :
    (actor_id user_id : ℕ) (db end : Db)
    → set_account_activation actor_id user_id false db ≡ ok end
    → IsRevoked user_id end
unfolding set_account_activation change_activation
deactivated-IsRevoked actor_id user_id db end h = elim (Bool-cases (actor_id == user_id)) [
  | inl e ↦ cc (rw e at h)
  | inr e ↦ (
    write_activation user_id false db,
    mutate_account-eq user_id (change_activation user_id false) db _ end refl (rw e at h),
  )
]

role_changed-IsRevoked :
    (actor_id user_id : ℕ) (display_name : Option String) (role : String) (db end : Db)
    → update_account actor_id user_id display_name (some role) db ≡ ok end
    → IsRevoked user_id end
unfolding update_account change_account mutate_account
role_changed-IsRevoked actor_id user_id display_name role db end h =
    elim (Bool-cases (is_none display_name && false)) [
      | inl e ↦ cc (rw e at h)
      | inr e ↦
          let named = >>=-eq-ok (check_display_name display_name) _ (rw e at h) in
          let allowed = >>=-eq-ok (check_role actor_id user_id (some role)) _ (named.2) in
          elim (Bool-cases (is_external user_id db)) [
            | inl x ↦ elim (Option-cases (find? (λ u. u.id == user_id) db.users)) [
              | inl f ↦ cc (rw (f, mutate_account) at allowed.2)
              | inr f ↦ cc (rw (f.1, x, mutate_account, change_account) at allowed.2)
            ]
            | inr x ↦ (
              write_account user_id named.0 (some role) db,
              mutate_account-eq user_id (change_account user_id named.0 (some role)) db _ end (rw x)
                  (allowed.2),
            )
          ]
    ]

password_changed-IsRevoked :
    (argon2 : String → ℕ → ℕ) (salt user_id : ℕ) (current next : String) (db end : Db)
    → change_password argon2 salt user_id current next db ≡ ok end
    → IsRevoked user_id end
unfolding change_password
password_changed-IsRevoked argon2 salt user_id current next db end h =
    let valid = >>=-eq-ok (validate_password next) _ h in
    elim (Bool-cases (str_eq current next)) [
      | inl e ↦ cc (rw e at valid.2)
      | inr e ↦ elim (Option-cases (find? (is_local_user user_id) db.users)) [
        | inl f ↦ cc (rw (e, f) at valid.2)
        | inr f ↦
            let verified =
              >>=-eq-ok (verify_password argon2 current f.0.hash) _ (rw (e, f.1) at valid.2) in
            elim (Bool-cases verified.0) [
              | inl g ↦
                  (write_password argon2 salt user_id next db, sym (ok_eq (rw g at verified.2)))
              | inr g ↦ cc (rw g at verified.2)
            ]
      ]
    ]

replace_password-IsRevoked :
    (argon2 : String → ℕ → ℕ) (predicate : User → Bool) (salt : ℕ) (next : String) (absent : Error)
    (db end : Db) (u : User)
    → replace_password argon2 predicate salt next absent db ≡ ok (u, end)
    → IsRevoked u.id end
unfolding replace_password
replace_password-IsRevoked argon2 predicate salt next absent db end u h =
    let valid = >>=-eq-ok (validate_password next) _ h in
    elim (Option-cases (find? predicate db.users)) [
      | inl f ↦ cc (rw f at valid.2)
      | inr f ↦
          let same : (f.0, revoke_sessions f.0.id (write_password argon2 salt f.0.id next db))
              ≡ (u, end) =
            ok_eq (rw (f.1) at valid.2) in
          (
            write_password argon2 salt f.0.id next db,
            sym (ap (λ x. x.1) same)
                ∙ ap (λ x. revoke_sessions x (write_password argon2 salt f.0.id next db))
                    (ap (λ x. x.0.id) same),
          )
    ]

Revoking-IsRevoked : (user_id : ℕ) (db end : Db) → Revoking user_id db end → IsRevoked user_id end
unfolding set_password recover_password
Revoking-IsRevoked user_id db end (deactivated a q) = deactivated-IsRevoked a user_id db end q
Revoking-IsRevoked user_id db end (role_changed a d r q) =
    role_changed-IsRevoked a user_id d r db end q
Revoking-IsRevoked user_id db end (password_changed argon2 s c n q) =
    password_changed-IsRevoked argon2 s user_id c n db end q
Revoking-IsRevoked user_id db end (password_set argon2 s i n u q same) =
    subst (λ x. IsRevoked x end) same (replace_password-IsRevoked argon2 _ s n _ db end u q)
Revoking-IsRevoked user_id db end (password_recovered argon2 s i n u q same) =
    subst (λ x. IsRevoked x end) same (replace_password-IsRevoked argon2 _ s n _ db end u q)

-- Right after a user was deactivated, given another role, or given a new password by any of the three
-- ways, Authenticate accepts no token as that user's.
pub Revoking-authenticate :
    (user_id : ℕ) (db end later : Db) (sha256 : String → ℕ) (is_token : String → Bool)
    (token : String) (v : User)
    → Revoking user_id db end
    → authenticate sha256 is_token token end ≡ ok (v, later)
    → v.id ≢ user_id
Revoking-authenticate user_id db end later sha256 is_token token v r h =
    let revoked : IsRevoked user_id end = Revoking-IsRevoked user_id db end r in
    revoke_sessions-authenticate sha256 is_token token user_id revoked.0 later v
      (subst (λ x. authenticate sha256 is_token token x ≡ ok (v, later)) (revoked.1) h)
