-- ===== src/Articles/Repository.antt =====
-- The statements of the article repository (app/repositories/article_repo.py): the conditions that
-- they are built from, each run inside the guard of MySQL. The database and its driver are a
-- parameter, which takes a condition on rows where the source builds a WHERE clause. The identity
-- map is not modelled, so `expire_all` is left out.
use scalable_content_platfor.Base.{
  ℕ, Bool, true, not, ◌&&◌, ◌||◌, List, [], ◌∷◌, Option, none, some, is_some, ltb, ◌==◌,
}
use scalable_content_platfor.Text.{Text}
use scalable_content_platfor.Effects.{other, World, M, ◌>>=◌, pure, throw}
use scalable_content_platfor.Resilience.Policy.{mysql, DependencyPolicy}
use scalable_content_platfor.Resilience.Guard.{Runtime, guarded_read, guarded_write}
use scalable_content_platfor.Cache.Keys.{Datetime}
use scalable_content_platfor.Articles.{Article, ArticleSummaryOut}

-- One session on the database. `select_page` is `SELECT` of the summary columns with `ORDER BY
-- created_at DESC, id DESC LIMIT`; `update_where` gives the count of matched rows.
pub record Database (S : Type 0) : Type 0 where
  pub insert : ℕ → Text → Text → M S Article
  pub select_where : (Article → Bool) → M S (List Article)
  pub select_page : (Article → Bool) → ℕ → M S (List ArticleSummaryOut)
  pub update_where : (Article → Bool) → (Article → Article) → M S ℕ
  pub rollback : M S (Unit {0})
  pub utcnow : World S → Datetime

-- `Article.deleted_at.is_(None)`
abbrev pub is_live : Article → Bool
is_live r = not (is_some r.deleted_at)

-- The WHERE clause of `get`.
unfoldable pub is_live_article : ℕ → Article → Bool
is_live_article article_id r = r.id == article_id && is_live r

-- The WHERE clause of both compare-and-set statements.
unfoldable pub cas_matches : ℕ → Datetime → Article → Bool
cas_matches article_id expected_updated_at r =
    r.id == article_id && r.updated_at == expected_updated_at && is_live r

-- `created_at < after.0 or (created_at == after.0 and id < after.1)`
unfoldable pub is_after : Option (Datetime × ℕ) → Article → Bool
is_after none r = true
is_after (some (after_created_at, after_id)) r =
    ltb r.created_at after_created_at || (r.created_at == after_created_at && ltb r.id after_id)

abbrev pub by_author : Option ℕ → Article → Bool
by_author none r = true
by_author (some author_id) r = r.author_id == author_id

-- The WHERE clause of `build_list_query`.
unfoldable pub list_matches : Option (Datetime × ℕ) → Option ℕ → Article → Bool
unfolding is_after
list_matches after author_id r = is_live r && by_author author_id r && is_after after r

-- `scalar_one_or_none()`; more than one row is an exception of SQLAlchemy.
unfoldable pub scalar_one_or_none : {S A : Type 0} → List A → M S (Option A)
scalar_one_or_none [] = pure none
scalar_one_or_none (r ∷ []) = pure (some r)
scalar_one_or_none (r ∷ _ ∷ _) = throw (other 0)

-- `.values(title=title, body=body)`
abbrev pub replace_text : Text → Text → Article → Article
replace_text title body r = record r { title = title; body = body }

abbrev pub mark_deleted : Datetime → Article → Article
mark_deleted now r = record r { deleted_at = some now }

module _ {S : Type 0} (runtime : Runtime S) (policy : DependencyPolicy) (db : Database S) where
  unfoldable pub create : ℕ → Text → Text → M S Article
  create author_id title body = guarded_write runtime mysql policy (db.insert author_id title body)

  -- The body of `get`, inside its guard.
  unfoldable pub select_article : ℕ → M S (Option Article)
  unfolding scalar_one_or_none
  select_article article_id = do
    rows ← db.select_where (is_live_article article_id)
    scalar_one_or_none rows

  unfoldable pub get : ℕ → M S (Option Article)
  unfolding select_article
  get article_id = guarded_read runtime db.rollback mysql policy (select_article article_id)

  unfoldable pub list : ℕ → Option (Datetime × ℕ) → Option ℕ → M S (List ArticleSummaryOut)
  list limit after author_id =
      guarded_read runtime db.rollback mysql policy
        (db.select_page (list_matches after author_id) limit)

  unfoldable pub update_cas : ℕ → Datetime → Text → Text → M S ℕ
  update_cas article_id expected_updated_at title body =
      guarded_write runtime mysql policy
        (db.update_where (cas_matches article_id expected_updated_at) (replace_text title body))

  unfoldable pub soft_delete_cas : ℕ → Datetime → M S ℕ
  soft_delete_cas article_id expected_updated_at = guarded_write runtime mysql policy (λ w.
      db.update_where (cas_matches article_id expected_updated_at) (mark_deleted (db.utcnow w)) w)
