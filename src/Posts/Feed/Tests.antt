-- ===== src/Posts/Feed/Tests.antt =====
-- Feeds on lists of rows.
use my_fans.Common.{ℕ, ◌≡◌, ◌≢◌, refl, true, false, none, List, [], ◌∷◌, arith}
use my_fans.Database.{Table}
use my_fans.Database.ListTable.{list_table}
use my_fans.Database.Ordered.{Ordered}
use my_fans.Database.Sorting.{list_ordered}
use my_fans.Posts.{Post, post_key, no_clash}
use my_fans.Posts.Feed.{newer, find_feed, read_feed}
use my_fans.Posts.Feed.Pages.{newer_trans, read_feed_ends}

newer_total : (x y : Post) → x.id ≢ y.id → newer x y ≡ false → newer y x ≡ true
newer_total x y ne h = ground arith

abbrev posts : Table post_key no_clash
posts = list_table post_key no_clash

abbrev query : Ordered posts newer
query = list_ordered newer post_key no_clash newer_trans newer_total

abbrev post : ℕ → ℕ → ℕ → Post
post id author_id created_at = record {
  id = id;
  title = 1;
  content = 2;
  author_id = author_id;
  is_published = true;
  is_premium = false;
  likes_count = 0;
  created_at = created_at;
  deleted_at = none;
  deleted_by = none;
}

abbrev stored : List Post
stored = post 1 7 4000 ∷ post 2 9 6000 ∷ post 3 7 4000 ∷ post 4 8 9000 ∷ []

read_feed_ends_example :
    read_feed posts query 4 (7 ∷ 9 ∷ []) none 1 stored
    ≡ (post 2 9 6000 ∷ post 3 7 4000 ∷ post 1 7 4000 ∷ [], true)
read_feed_ends_example =
    read_feed_ends posts query 7 (9 ∷ []) 0 stored
      (
        (ground arith, (ground arith, (ground arith, tt))),
        ((ground arith, (ground arith, tt)), ((ground arith, tt), (tt, tt))),
      )
      (refl, (refl, (refl, (refl, tt))))

-- Two posts of one millisecond: the second page leaves one out.
skipped :
    read_feed posts query 4 (7 ∷ []) none 1 (post 1 7 4200 ∷ post 3 7 4500 ∷ [])
    ≡ (post 3 7 4500 ∷ [], true)
unfolding find_feed
skipped = refl
