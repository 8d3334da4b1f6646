-- ===== src/Likes/Tests.antt =====
-- Likes on lists of rows.
use my_fans.Common.{ℕ, ◌≡◌, refl, Bool, true, false, none, List, [], ◌∷◌}
use my_fans.Common.Actions.{ok, err}
use my_fans.Database.{Table}
use my_fans.Database.ListTable.{list_table}
use my_fans.Posts.{Post, post_key, find_post}
use my_fans.Posts
use my_fans.Subscriptions
use my_fans.Subscriptions.Repository.{is_subscriber, find_current_for_fan_creator}
use my_fans.Likes.{
  like_key, unique_like, new_like, created, already_liked, forbidden, like_not_found, Reads,
  check_user_access, add_like, remove_like, get_likes_count,
}
use my_fans.Likes.Sets.Rows.{liked_in}
use my_fans.Likes.Sets.Refinement.{
  Call, likes_it, unlikes, Response, added, removed, perform, promise, perform_refines,
}

abbrev posts : Table post_key Posts.no_clash
posts = list_table post_key Posts.no_clash

abbrev subs : Table Subscriptions.id_of Subscriptions.clash
subs = list_table Subscriptions.id_of Subscriptions.clash

abbrev likes : Table like_key unique_like
likes = list_table like_key unique_like

abbrev post : ℕ → Bool → Post
post id is_premium = record {
  id = id;
  title = 1;
  content = 2;
  author_id = 7;
  is_published = true;
  is_premium = is_premium;
  likes_count = 0;
  created_at = 100;
  deleted_at = none;
  deleted_by = none;
}

abbrev reads : Reads posts subs likes
reads = record { posts_store = post 4 false ∷ post 5 true ∷ []; subs_store = []; now = 1000 }

abbrev calls : List (Call posts subs likes)
calls =
    likes_it reads 4 9
    ∷ likes_it reads 4 9
    ∷ likes_it reads 5 9
    ∷ likes_it reads 4 8
    ∷ unlikes reads 4 9
    ∷ unlikes reads 4 9
    ∷ []

abbrev answers : List (Response posts subs likes)
answers =
    added (ok created)
    ∷ added (ok already_liked)
    ∷ added (err forbidden)
    ∷ added (ok created)
    ∷ removed (ok tt)
    ∷ removed (err like_not_found)
    ∷ []

answered : perform posts subs likes calls [] ≡ (answers, new_like 8 4 1 ∷ [])
unfolding add_like remove_like check_user_access is_subscriber find_current_for_fan_creator
    find_post
answered = refl

counted : get_likes_count posts subs likes 4 (new_like 8 4 1 ∷ []) ≡ 1
unfolding get_likes_count
counted = refl

perform_refines_example :
    ((perform posts subs likes calls []).0
      ≡ (promise posts subs likes calls (liked_in posts subs likes [])).0)
    × ((u p : ℕ)
        → liked_in posts subs likes (perform posts subs likes calls []).1 u p
          ≡ (promise posts subs likes calls (liked_in posts subs likes [])).1 u p)
perform_refines_example =
    perform_refines posts subs likes calls [] (record { keyed = tt; distinct = tt })
