-- ===== src/Likes.antt =====
-- backend/src/likes/likes.service.ts and its entity: who likes which post.
pub mod Sets
mod Tests
use my_fans.Common.{
  ℕ, Bool, true, false, not, ◌&&◌, ◌||◌, Option, none, some, List, [], ◌∷◌, length, ◌==◌,
  if◌then◌else◌,
}
use my_fans.Common.Actions.{Result, ok, err}
use my_fans.Database.{Table}
use my_fans.Posts.{Post, post_key, find_post}
use my_fans.Subscriptions.Repository.{is_subscriber}
use my_fans.Posts
use my_fans.Subscriptions

pub record Like : Type 0 where
  pub id : ℕ
  pub user_id : ℕ
  pub post_id : ℕ

abbrev pub like_key : Like → ℕ
like_key l = l.id

abbrev pub by_on : (user_id post_id : ℕ) → Like → Bool
by_on user_id post_id l = (l.user_id == user_id) && (l.post_id == post_id)

-- @Unique('unique_like', ['userId', 'postId'])
abbrev pub unique_like : Like → Like → Bool
unique_like l x = by_on l.user_id l.post_id x

abbrev pub new_like : (user_id post_id id : ℕ) → Like
new_like user_id post_id id = record { id = id; user_id = user_id; post_id = post_id }

pub data LikeError : Type 0 where
  post_not_found forbidden like_not_found unique_violation : LikeError

-- 201 or 200.
pub data LikeStatus : Type 0 where
  created already_liked : LikeStatus

module _ (posts : Table post_key Posts.no_clash)
    (subs : Table Subscriptions.id_of Subscriptions.clash)
    (likes : Table like_key unique_like) where
  -- What the calls of the other two services read: their tables, and the clock.
  pub record Reads : Type 0 where
    pub posts_store : posts.Store
    pub subs_store : subs.Store
    pub now : ℕ

  unfoldable pub check_user_access : Reads → (user_id author_id : ℕ) → Bool → Bool
  check_user_access r user_id author_id is_premium =
      not is_premium || is_subscriber subs user_id author_id r.now r.subs_store

  unfoldable pub has_user_liked : (post_id user_id : ℕ) → likes.Store → Bool
  has_user_liked post_id user_id s = elim (likes.find_one (by_on user_id post_id) (λ _. 0) s) [
    | none ↦ false
    | some _ ↦ true
  ]

  unfoldable pub add_like :
      Reads → (post_id user_id : ℕ) → likes.Store → Result LikeError LikeStatus × likes.Store
  add_like r post_id user_id s = elim (find_post posts post_id r.posts_store) [
    | none ↦ (err post_not_found, s)
    | some p ↦
        if not (check_user_access r user_id p.author_id p.is_premium)
        then (err forbidden, s)
        else elim (likes.find_one (by_on user_id post_id) (λ _. 0) s) [
          | some _ ↦ (ok already_liked, s)
          | none ↦ elim (likes.insert (new_like user_id post_id) s) [
            | none ↦ (err unique_violation, s)
            | some (_, s') ↦ (ok created, s')
          ]
        ]
  ]

  unfoldable pub remove_like :
      Reads → (post_id user_id : ℕ) → likes.Store → Result LikeError (Unit {0}) × likes.Store
  remove_like r post_id user_id s = elim (find_post posts post_id r.posts_store) [
    | none ↦ (err post_not_found, s)
    | some _ ↦ elim (likes.find_one (by_on user_id post_id) (λ _. 0) s) [
      | none ↦ (err like_not_found, s)
      | some l ↦ (ok tt, likes.delete (λ x. x.id == l.id) s)
    ]
  ]

  unfoldable pub get_likes_count : ℕ → likes.Store → ℕ
  get_likes_count post_id s = length (likes.find (λ l. l.post_id == post_id) s)
