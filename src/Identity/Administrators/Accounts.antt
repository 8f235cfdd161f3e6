-- ===== src/Identity/Administrators/Accounts.antt =====
-- The changes to accounts leave an administrator, or take none away.
use cairnops.Common.{
  ℕ, ◌+◌, ◌≤◌, ◌≡◌, refl, String, Bool, true, false, ◌&&◌, Option, List, [], ◌∷◌, ◌++◌, ◌==◌,
  if◌then◌else◌, not, arith, count_where, update_where, is_none, Bool-cases, subst, Option-cases,
  inl, inr, find?, exists,
}
use cairnops.Common.Result.{Error, Result, err, ok, ◌>>=◌, >>=-eq-ok, ok_eq}
use cairnops.Identity.Schema.{User, Db, is_administrator, administrators}
use cairnops.Common.Text.{trim_space}
use cairnops.Identity.Input.{normalize_username, validate_identity_input, validate_role, text_equal}
use cairnops.Identity.Accounts.{
  create_account, mutate_account, update_account, set_account_activation, check_display_name,
  check_role, change_account, change_activation,
}
use cairnops.Identity.Administrators.{HasAdministrator}

pub count_where-append :
    (p : User → Bool) (xs ys : List User)
    → count_where p (xs ++ ys) ≡ count_where p xs + count_where p ys
count_where-append p [] ys = omega arith
count_where-append p (x ∷ xs) ys = ground (arith, count_where-append p xs ys)

pub count_where-update :
    (p q : User → Bool) (f : User → User) (xs : List User)
    → ((x : User) → p x ≡ true → p (f x) ≡ true)
    → count_where p xs ≤ count_where p (update_where q f xs)
count_where-update p q f [] h = omega arith
count_where-update p q f (x ∷ xs) h = ground (arith, h x, count_where-update p q f xs h)

positive : (n : ℕ) → (n == 0) ≡ false → 1 ≤ n
positive n h = ground arith

mutate_account-ok :
    (user_id : ℕ) (apply : Db → Result Db) (db end : Db)
    → mutate_account user_id apply db ≡ ok end
    → 1 ≤ administrators end
unfolding mutate_account
mutate_account-ok user_id apply db end h =
    elim (Option-cases (find? (λ u. u.id == user_id) db.users)) [
      | inl e ↦ cc (rw (e, mutate_account) at h)
      | inr e ↦
          let two =
            >>=-eq-ok (apply db)
              (λ changed. if administrators changed == 0 then err Error.conflict else ok changed)
              (rw (e.1, mutate_account) at h) in
          elim (Bool-cases (administrators two.0 == 0)) [
            | inl z ↦ cc (rw z at two.2)
            | inr z ↦ subst (λ k. 1 ≤ administrators k) (ok_eq (rw z at two.2)) (positive _ z)
          ]
    ]

-- The calls before the transaction of a result that is `ok` succeeded.
pub update_account-ok :
    (actor_id user_id : ℕ) (display_name role : Option String) (db end : Db)
    → update_account actor_id user_id display_name role db ≡ ok end
    → 1 ≤ administrators end
unfolding update_account
update_account-ok actor_id user_id display_name role db end h =
    elim (Bool-cases (is_none display_name && is_none role)) [
      | inl e ↦ cc (rw e at h)
      | inr e ↦
          let named = >>=-eq-ok (check_display_name display_name) _ (rw e at h) in
          let allowed = >>=-eq-ok (check_role actor_id user_id role) _ (named.2) in
          mutate_account-ok user_id (change_account user_id named.0 role) db end (allowed.2)
    ]

pub set_account_activation-ok :
    (actor_id user_id : ℕ) (active : Bool) (db end : Db)
    → set_account_activation actor_id user_id active db ≡ ok end
    → 1 ≤ administrators end
unfolding set_account_activation
set_account_activation-ok actor_id user_id active db end h =
    elim (Bool-cases (not active && actor_id == user_id)) [
      | inl e ↦ cc (rw e at h)
      | inr e ↦ mutate_account-ok user_id (change_activation user_id active) db end (rw e at h)
    ]

-- A change that leaves the users, or gives one a password.
pub record IsKept (db end : Db) : Type 0 where
  pub administrators : administrators db ≤ administrators end
  pub initialized_at : end.initialized_at ≡ db.initialized_at

pub keeps : (db end : Db) → IsKept db end → HasAdministrator db → HasAdministrator end
keeps db end k h i = omega (arith, k.administrators, h (rw k.initialized_at at i))

pub create_account-IsKept :
    (argon2 : String → ℕ → ℕ) (new_id salt : ℕ) (username display_name role password : String)
    (db end : Db)
    → create_account argon2 new_id salt username display_name role password db ≡ ok end
    → IsKept db end
unfolding create_account administrators
create_account-IsKept argon2 new_id salt username display_name role password db end h =
    let valid =
      >>=-eq-ok
        (validate_identity_input (normalize_username username) (trim_space display_name) password
          >>= (λ _. validate_role role))
        _ h in
    elim (Bool-cases (exists (λ u. text_equal u.username (normalize_username username)) db.users)) [
      | inl e ↦ cc (rw e at valid.2)
      | inr e ↦ subst (IsKept db) (ok_eq (rw e at valid.2)) (record {
        administrators = omega (arith, count_where-append is_administrator db.users _);
        initialized_at = refl;
      })
    ]
