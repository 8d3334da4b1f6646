-- ===== src/Posts/Tests.antt =====
-- A post is deleted once.
use my_fans.Common.{◌≡◌, refl, true, false, none, some, [], ◌∷◌, Member}
use my_fans.Common.Actions.{ok, err}
use my_fans.Database.{Table}
use my_fans.Database.ListTable.{list_table}
use my_fans.Posts.{
  Post, PostAuditLog, UpdatePostDto, post_not_found, post_key, no_clash, audit_key, no_audit_clash,
  live_post, marked_deleted, deletion, Blog, find_post, update_post, soft_delete,
}
use my_fans.Posts.Deletion.{soft_delete_once}

abbrev posts : Table post_key no_clash
posts = list_table post_key no_clash

abbrev audit : Table audit_key no_audit_clash
audit = list_table audit_key no_audit_clash

abbrev post : Post
post = record {
  id = 4;
  title = 1;
  content = 2;
  author_id = 7;
  is_published = true;
  is_premium = false;
  likes_count = 0;
  created_at = 100;
  deleted_at = none;
  deleted_by = none;
}

abbrev before_it : Blog posts audit
before_it = record { posts_store = post ∷ []; audit_store = []; published = [] }

abbrev after_it : Blog posts audit
after_it = record {
  posts_store = marked_deleted 7 200 post ∷ [];
  audit_store = deletion 4 7 200 0 ∷ [];
  published = record { post_id = 4; deleted_by = 7 } ∷ [];
}

abbrev change : UpdatePostDto
change = record { title = some 3; content = none; is_published = none; is_premium = none }

deleted : soft_delete posts audit 4 7 200 before_it ≡ (ok tt, after_it)
unfolding soft_delete find_post
deleted = refl

soft_delete_once_example :
    ((p : Post) × Member p (post ∷ []) × (live_post 4 p ≡ true) × (p.author_id ≡ 7))
    × ((a : PostAuditLog) × (deletion 4 7 200 0 ∷ [] ≡ a ∷ [])
        × (a.post_id ≡ 4)
        × (a.deleted_by ≡ 7))
    × (after_it.published ≡ record { post_id = 4; deleted_by = 7 } ∷ [])
    × (soft_delete posts audit 4 9 300 after_it ≡ (err post_not_found, after_it))
    × (update_post posts 4 change 7 after_it.posts_store
        ≡ (err post_not_found, after_it.posts_store))
soft_delete_once_example =
    soft_delete_once posts audit 4 7 200 9 300 change 7 before_it after_it (tt, tt) deleted
