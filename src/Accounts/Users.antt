-- ===== src/Accounts/Users.antt =====
-- The statements of the user repository (app/repositories/user_repo.py), each inside the guard of
-- MySQL. The database is a parameter.
use scalable_content_platfor.Base.{ℕ, Bool, List, [], ◌∷◌, Option}
use scalable_content_platfor.Text.{Text, text_eq}
use scalable_content_platfor.Effects.{other, M, ◌>>=◌, pure, throw}
use scalable_content_platfor.Resilience.Policy.{mysql, DependencyPolicy}
use scalable_content_platfor.Resilience.Guard.{Runtime, guarded_read, guarded_write}
use scalable_content_platfor.Articles.{User}
use scalable_content_platfor.Articles.Repository.{scalar_one_or_none}

-- A row of `users`, with what its joined role adds.
pub record Account : Type 0 where
  pub user : User
  pub email : Text
  pub password_hash : Text

-- One session on the tables of users and roles. `session_get` is a lookup by primary key, and
-- `insert_user` adds a row with a role's id and flushes.
pub record UserDatabase (S : Type 0) : Type 0 where
  pub session_get : ℕ → M S (Option Account)
  pub select_users : (Account → Bool) → M S (List Account)
  pub select_roles : Text → M S (List ℕ)
  pub insert_user : Text → Text → ℕ → M S Account
  pub rollback : M S (Unit {0})

-- `scalar_one()`; no row and more than one are exceptions of SQLAlchemy.
unfoldable pub scalar_one : {S A : Type 0} → List A → M S A
scalar_one [] = throw (other 3)
scalar_one (r ∷ []) = pure r
scalar_one (r ∷ _ ∷ _) = throw (other 0)

module _ {S : Type 0} (runtime : Runtime S) (policy : DependencyPolicy) (db : UserDatabase S) where
  unfoldable pub get_by_id : ℕ → M S (Option Account)
  get_by_id user_id = guarded_read runtime db.rollback mysql policy (db.session_get user_id)

  unfoldable pub select_by_email : Text → M S (Option Account)
  unfolding scalar_one_or_none text_eq
  select_by_email email = do
    rows ← db.select_users (λ r. text_eq r.email email)
    scalar_one_or_none rows

  unfoldable pub get_by_email : Text → M S (Option Account)
  unfolding select_by_email
  get_by_email email = guarded_read runtime db.rollback mysql policy (select_by_email email)

  -- `_get_role`, and the body of `create`.
  unfoldable pub get_role : Text → M S ℕ
  unfolding scalar_one
  get_role role_name = do rows ← db.select_roles role_name; scalar_one rows

  unfoldable pub insert_with_role : Text → Text → Text → M S Account
  unfolding get_role
  insert_with_role email password_hash role_name = do
    role ← get_role role_name
    db.insert_user email password_hash role

  unfoldable pub create : Text → Text → Text → M S Account
  unfolding insert_with_role
  create email password_hash role_name =
      guarded_write runtime mysql policy (insert_with_role email password_hash role_name)
