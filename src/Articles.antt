-- ===== src/Articles.antt =====
-- Articles and users as rows (app/models), and their response shapes (app/schemas/article.py).
pub mod Repository
pub mod Service
pub mod Pages
pub mod Reads
pub mod Writes
pub mod Kept
pub mod Coherent
pub mod Router
mod Examples
mod RolledBack
use scalable_content_platfor.Base.{ℕ, Bool, Option, List}
use scalable_content_platfor.Text.{Text, codes, text_eq}
use scalable_content_platfor.Cache.Keys.{Datetime}

pub record Article : Type 0 where
  pub id : ℕ
  pub author_id : ℕ
  pub title : Text
  pub body : Text
  pub created_at : Datetime
  pub updated_at : Datetime
  pub deleted_at : Option Datetime

pub record User : Type 0 where
  pub id : ℕ
  pub role_name : Text

unfoldable pub is_admin : User → Bool
unfolding text_eq
is_admin user = text_eq user.role_name (codes "admin")

pub record ArticleSummaryOut : Type 0 where
  pub id : ℕ
  pub author_id : ℕ
  pub title : Text
  pub created_at : Datetime
  pub updated_at : Datetime

pub record ArticleOut : Type 0 where
  pub summary : ArticleSummaryOut
  pub body : Text

-- `SUMMARY_COLUMNS` of a row, and the model's `model_validate`.
abbrev pub summary_of : Article → ArticleSummaryOut
summary_of a = record {
  id = a.id;
  author_id = a.author_id;
  title = a.title;
  created_at = a.created_at;
  updated_at = a.updated_at;
}

abbrev pub article_out : Article → ArticleOut
article_out a = record { summary = summary_of a; body = a.body }
