-- ===== src/Identity/Administrators/Race.antt =====
-- Two changes to two accounts in transactions that overlap. Each locks the row it changes, and reads of
-- the other rows what was committed before: neither waits for the other or sees its write.
use cairnops.Common.{
  ℕ, ◌≡◌, ◌≢◌, refl, sym, true, false, some, [], ◌∷◌, ◌==◌, arith, Option-cases, inl, inr, find?,
  ap, ◌∙◌,
}
use cairnops.Common.Result.{Result, ok}
use cairnops.Identity.Schema.{User, Db, is_administrator, administrators, revoke_sessions}
use cairnops.Identity.Accounts.{
  mutate_account, set_account_activation, change_activation, write_activation, activated_row,
}

-- An instance whose users are these two.
abbrev pub pair : Db → User → User → Db
pair db a b = record db { users = a ∷ b ∷ [] }

deactivated-is_administrator :
    (now : ℕ) (u : User) → is_administrator (activated_row now false u) ≡ false
unfolding activated_row is_administrator
deactivated-is_administrator now u = elim (Option-cases u.deactivated_at) [
  | inl e ↦ ground (arith, e)
  | inr e ↦ ground (arith, e.1)
]

write_first :
    (db : Db) (a b : User)
    → a.id ≢ b.id
    → write_activation a.id false (pair db a b) ≡ pair db (activated_row db.now false a) b
unfolding write_activation
write_first db a b d = ground (arith, d)

write_second :
    (db : Db) (a b : User)
    → a.id ≢ b.id
    → write_activation b.id false (pair db a b) ≡ pair db a (activated_row db.now false b)
unfolding write_activation
write_second db a b d = ground (arith, d)

administrators-pair_first :
    (db : Db) (a b : User)
    → is_administrator a ≡ false
    → is_administrator b ≡ true
    → administrators (pair db a b) ≡ 1
unfolding administrators
administrators-pair_first db a b h k = rw (h, k)

administrators-pair_second :
    (db : Db) (a b : User)
    → is_administrator a ≡ true
    → is_administrator b ≡ false
    → administrators (pair db a b) ≡ 1
unfolding administrators
administrators-pair_second db a b h k = rw (h, k)

administrators-pair_none :
    (db : Db) (a b : User)
    → is_administrator a ≡ false
    → is_administrator b ≡ false
    → administrators (pair db a b) ≡ 0
unfolding administrators
administrators-pair_none db a b h k = rw (h, k)

administrators-revoke_sessions :
    (id : ℕ) (db : Db) → administrators (revoke_sessions id db) ≡ administrators db
unfolding administrators revoke_sessions
administrators-revoke_sessions id db = refl

mutate_account-accepts :
    (user_id : ℕ) (apply : Db → Result Db) (db changed : Db) (u : User)
    → find? (λ x. x.id == user_id) db.users ≡ some u
    → apply db ≡ ok changed
    → administrators changed ≡ 1
    → mutate_account user_id apply db ≡ ok changed
unfolding mutate_account
mutate_account-accepts user_id apply db changed u f a n = rw (mutate_account, f, a, n)

set_account_activation-other :
    (actor_id user_id : ℕ) (db : Db) (answer : Result Db)
    → actor_id ≢ user_id
    → mutate_account user_id (change_activation user_id false) db ≡ answer
    → set_account_activation actor_id user_id false db ≡ answer
unfolding set_account_activation
set_account_activation-other actor_id user_id db answer d h = ground (arith, d, h)

find_first : (db : Db) (a b : User) → find? (λ x. x.id == a.id) (pair db a b).users ≡ some a
find_first db a b = ground arith

find_second :
    (db : Db) (a b : User) → a.id ≢ b.id → find? (λ x. x.id == b.id) (pair db a b).users ≡ some b
find_second db a b d = ground (arith, d)

same_id : (now : ℕ) (u : User) → (activated_row now false u).id ≡ u.id
unfolding activated_row
same_id now u = refl

-- Two administrators who are the only users of the instance, where each deactivates the other in
-- transactions that overlap: each transaction, which does not see the other's uncommitted write, is
-- accepted, since it still counts one active administrator; with both writes committed, no administrator is left.
pub mutual_deactivation :
    (db : Db) (a b : User)
    → is_administrator a ≡ true
    → is_administrator b ≡ true
    → a.id ≢ b.id
    → (set_account_activation b.id a.id false (pair db a b)
        ≡ ok (revoke_sessions a.id (write_activation a.id false (pair db a b))))
      × (set_account_activation a.id b.id false (pair db a b)
          ≡ ok (revoke_sessions b.id (write_activation b.id false (pair db a b))))
      × (administrators (write_activation b.id false (write_activation a.id false (pair db a b)))
          ≡ 0)
unfolding change_activation
mutual_deactivation db a b p q d =
    let no_a : is_administrator (activated_row db.now false a) ≡ false =
      deactivated-is_administrator db.now a in
    let no_b : is_administrator (activated_row db.now false b) ≡ false =
      deactivated-is_administrator db.now b in
    (
      set_account_activation-other b.id a.id (pair db a b) _ (λ e. d (sym e))
          (mutate_account-accepts a.id (change_activation a.id false) (pair db a b) _ a
            (find_first db a b) refl
            (administrators-revoke_sessions a.id _
              ∙ ap administrators (write_first db a b d)
              ∙ administrators-pair_first db (activated_row db.now false a) b no_a q)),
      set_account_activation-other a.id b.id (pair db a b) _ d (
          mutate_account-accepts b.id (change_activation b.id false) (pair db a b) _ b
            (find_second db a b d) refl
            (administrators-revoke_sessions b.id _
              ∙ ap administrators (write_second db a b d)
              ∙ administrators-pair_second db a (activated_row db.now false b) p no_b)),
      ap (λ x. administrators (write_activation b.id false x)) (write_first db a b d)
          ∙ ap administrators (
              write_second db (activated_row db.now false a) b
                (λ e. d (sym (same_id db.now a) ∙ e)))
          ∙ administrators-pair_none db (activated_row db.now false a)
              (activated_row db.now false b) no_a no_b,
    )
