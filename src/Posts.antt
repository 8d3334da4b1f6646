-- ===== src/Posts.antt =====
-- backend/src/posts/posts.service.ts and its entities: posts, their deletion and its audit trail.
-- Texts are numbers.
pub mod Deletion
pub mod Feed
mod Tests
use my_fans.Common.{
  ℕ, Bool, true, false, not, ◌&&◌, Option, none, some, List, ◌∷◌, get_or, ◌==◌, if◌then◌else◌,
}
use my_fans.Common.Actions.{Result, ok, err}
use my_fans.Database.{Table}

pub record Post : Type 0 where
  pub id : ℕ
  pub title : ℕ
  pub content : ℕ
  pub author_id : ℕ
  pub is_published : Bool
  pub is_premium : Bool
  pub likes_count : ℕ
  pub created_at : ℕ
  pub deleted_at : Option ℕ
  pub deleted_by : Option ℕ

pub record PostAuditLog : Type 0 where
  pub id : ℕ
  pub post_id : ℕ
  pub deleted_by : ℕ
  pub created_at : ℕ

pub record CreatePostDto : Type 0 where
  pub title : ℕ
  pub content : ℕ
  pub is_published : Option Bool
  pub is_premium : Option Bool

pub record UpdatePostDto : Type 0 where
  pub title : Option ℕ
  pub content : Option ℕ
  pub is_published : Option Bool
  pub is_premium : Option Bool

pub data PostError : Type 0 where
  post_not_found not_author save_failed : PostError

-- PostDeletedEvent, without its instant.
pub record PostDeletedEvent : Type 0 where
  pub post_id : ℕ
  pub deleted_by : ℕ

abbrev pub post_key : Post → ℕ
post_key p = p.id

abbrev pub no_clash : Post → Post → Bool
no_clash _ _ = false

abbrev pub audit_key : PostAuditLog → ℕ
audit_key a = a.id

abbrev pub no_audit_clash : PostAuditLog → PostAuditLog → Bool
no_audit_clash _ _ = false

abbrev pub is_live : Post → Bool
is_live p = elim p.deleted_at [ none ↦ true | some _ ↦ false ]

-- { id, deletedAt: IsNull() }
abbrev pub live_post : ℕ → Post → Bool
live_post id p = (p.id == id) && is_live p

abbrev pub new_post : (author_id : ℕ) → CreatePostDto → (now id : ℕ) → Post
new_post author_id dto now id = record {
  id = id;
  title = dto.title;
  content = dto.content;
  author_id = author_id;
  is_published = get_or dto.is_published false;
  is_premium = get_or dto.is_premium false;
  likes_count = 0;
  created_at = now;
  deleted_at = none;
  deleted_by = none;
}

-- Object.assign(post, dto)
abbrev pub assign : UpdatePostDto → Post → Post
assign dto p = record p {
  title = get_or dto.title p.title;
  content = get_or dto.content p.content;
  is_published = get_or dto.is_published p.is_published;
  is_premium = get_or dto.is_premium p.is_premium;
}

abbrev pub marked_deleted : (deleted_by now : ℕ) → Post → Post
marked_deleted deleted_by now p = record p { deleted_at = some now; deleted_by = some deleted_by }

abbrev pub deletion : (post_id deleted_by now id : ℕ) → PostAuditLog
deletion post_id deleted_by now id = record {
  id = id;
  post_id = post_id;
  deleted_by = deleted_by;
  created_at = now;
}

module _ (posts : Table post_key no_clash) where
  unfoldable pub find_post : ℕ → posts.Store → Option Post
  find_post id s = posts.find_one (live_post id) (λ _. 0) s

  unfoldable pub create_post :
      ℕ → CreatePostDto → ℕ → posts.Store → Result PostError Post × posts.Store
  create_post author_id dto now s = elim (posts.insert (new_post author_id dto now) s) [
    | none ↦ (err save_failed, s)
    | some (p, s') ↦ (ok p, s')
  ]

  unfoldable pub update_post :
      ℕ → UpdatePostDto → ℕ → posts.Store → Result PostError Post × posts.Store
  unfolding find_post
  update_post id dto requester s = elim (find_post id s) [
    | none ↦ (err post_not_found, s)
    | some p ↦
        if not (p.author_id == requester)
        then (err not_author, s)
        else elim (posts.save (assign dto p) s) [
          | none ↦ (err save_failed, s)
          | some s' ↦ (ok (assign dto p), s')
        ]
  ]

  module _ (audit : Table audit_key no_audit_clash) where
    -- The posts, the audit log, and what was published on the event bus, newest first.
    pub record Blog : Type 0 where
      pub posts_store : posts.Store
      pub audit_store : audit.Store
      pub published : List PostDeletedEvent

    abbrev audited :
        (id deleted_by now : ℕ) → posts.Store → Blog → Result PostError (Unit {0}) × Blog
    audited id deleted_by now s st =
        elim (audit.insert (deletion id deleted_by now) st.audit_store) [
          | none ↦ (err save_failed, record st { posts_store = s })
          | some (_, a) ↦ (
            ok tt,
            record {
              posts_store = s;
              audit_store = a;
              published = record { post_id = id; deleted_by = deleted_by } ∷ st.published;
            },
          )
        ]

    unfoldable pub soft_delete : (id deleted_by now : ℕ) → Blog → Result PostError (Unit {0}) × Blog
    unfolding find_post
    soft_delete id deleted_by now st = elim (find_post id st.posts_store) [
      | none ↦ (err post_not_found, st)
      | some p ↦
          if not (p.author_id == deleted_by)
          then (err not_author, st)
          else elim (posts.save (marked_deleted deleted_by now p) st.posts_store) [
            | none ↦ (err save_failed, st)
            | some s ↦ audited id deleted_by now s st
          ]
    ]
