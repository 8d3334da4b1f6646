-- ===== src/Posts/Feed.antt =====
-- findFeed of backend/src/posts/posts.service.ts: the newest posts of some authors, page by page.
-- Instants are in microseconds, as the database keeps them.
pub mod Pages
mod Tests
use my_fans.Common.{
  ℕ, zero, suc, ◌+◌, ◌*◌, ◌/◌, Bool, true, false, ◌&&◌, ◌||◌, Option, none, some, List, [], ◌∷◌,
  ◌++◌, length, ltb, ◌==◌, if◌then◌else◌,
}
use my_fans.Database.{Table}
use my_fans.Database.Ordered.{Ordered, take, pop, last_of}
use my_fans.Posts.{Post, post_key, no_clash, is_live}

-- ORDER BY createdAt DESC, id DESC
abbrev pub newer : Post → Post → Bool
newer p x = ltb x.created_at p.created_at || ((x.created_at == p.created_at) && ltb x.id p.id)

-- What the text of a cursor stands for.
pub record FeedCursor : Type 0 where
  pub created_at : ℕ
  pub id : ℕ

-- toISOString keeps milliseconds.
abbrev pub encode_feed_cursor : Post → FeedCursor
encode_feed_cursor p = record { created_at = p.created_at / 1000 * 1000; id = p.id }

abbrev pub one_of : List ℕ → ℕ → Bool
one_of [] a = false
one_of (x ∷ xs) a = (x == a) || one_of xs a

abbrev pub in_feed : List ℕ → Post → Bool
in_feed author_ids p = one_of author_ids p.author_id && p.is_published && is_live p

-- No cursor, or one that does not decode, restricts nothing.
abbrev pub after_cursor : Option FeedCursor → Post → Bool
after_cursor none p = true
after_cursor (some c) p =
    ltb p.created_at c.created_at || ((p.created_at == c.created_at) && ltb p.id c.id)

pub record FeedPage : Type 0 where
  pub items : List Post
  pub next_cursor : Option FeedCursor
  pub has_more : Bool

abbrev pub cursor_of : List Post → Option FeedCursor
cursor_of [] = none
cursor_of (p ∷ ps) = some (encode_feed_cursor (last_of p ps))

abbrev pub feed_page : ℕ → List Post → FeedPage
feed_page limit rows =
    let has_more = ltb limit (length rows) in
    let items = if has_more then pop rows else rows in
    record { items = items; next_cursor = cursor_of items; has_more = has_more }

module _ (posts : Table post_key no_clash) (query : Ordered posts newer) where
  unfoldable pub find_feed : List ℕ → Option FeedCursor → ℕ → posts.Store → FeedPage
  find_feed [] cursor limit s = record { items = []; next_cursor = none; has_more = false }
  find_feed (a ∷ others) cursor limit s =
      feed_page limit
        (take (limit + 1) (query.sorted (λ p. in_feed (a ∷ others) p && after_cursor cursor p) s))

  -- A reader asks for `n` pages at most, each with the cursor of the page before, until there is no
  -- more; whether the end was reached.
  abbrev pub read_feed : ℕ → List ℕ → Option FeedCursor → ℕ → posts.Store → List Post × Bool
  read_feed zero author_ids cursor limit s = ([], false)
  read_feed (suc n) author_ids cursor limit s =
      let page = find_feed author_ids cursor limit s in
      let rest = read_feed n author_ids page.next_cursor limit s in
      if page.has_more then (page.items ++ rest.0, rest.1) else (page.items, true)
