-- ===== src/Posts/Feed/Pages.antt =====
-- Reading a feed to its end.
use mathlib.Core.Path.{subst}
use my_fans.Common.{
  ℕ, zero, suc, ◌+◌, ◌*◌, ◌/◌, ◌%◌, ◌≤◌, ◌<◌, ◌≡◌, ◌∙◌, refl, sym, ap, Bool, true, false, ◌&&◌,
  Option, none, some, List, [], ◌∷◌, ◌++◌, arith, filter, length, Member, All, All-Member, inl, inr,
  Bool-cases, ltb,
}
use my_fans.Database.{Table, IsKeyed}
use my_fans.Database.Laws.{Member-filter}
use my_fans.Database.ListTable.{filter-Member}
use my_fans.Database.Ordered.{
  Ordered, IsStrict, take, drop, pop, last_of, take_all, take-drop, pop-take, length-take_more,
  length-drop_less, filter-filter, filter-IsStrict, filter_behind, Member-last_of, strict_unique,
}
use my_fans.Posts.{Post, post_key, no_clash}
use my_fans.Posts.Feed.{
  newer, FeedCursor, encode_feed_cursor, in_feed, after_cursor, cursor_of, feed_page, find_feed,
  read_feed,
}

newer_asym : (x y : Post) → newer x y ≡ true → newer y x ≡ false
newer_asym x y h = ground arith

pub newer_trans : (x y z : Post) → newer x y ≡ true → newer y z ≡ true → newer x z ≡ true
newer_trans x y z h k = ground arith

-- The instant has no part of a millisecond.
abbrev pub IsWhole : Post → Type 0
IsWhole p = p.created_at % 1000 ≡ 0

after_encoded : (p x : Post) → IsWhole p → after_cursor (some (encode_feed_cursor p)) x ≡ newer p x
after_encoded p x whole =
    let same : p.created_at / 1000 * 1000 ≡ p.created_at = omega arith in rw same refl

after_cursor_trans :
    (cursor : Option FeedCursor) (l x : Post)
    → after_cursor cursor l ≡ true
    → newer l x ≡ true
    → after_cursor cursor x ≡ true
after_cursor_trans none l x h k = refl
after_cursor_trans (some c) l x h k = ground arith

filter_same :
    (p q : Post → Bool) (xs : List Post) → ((x : Post) → p x ≡ q x) → filter p xs ≡ filter q xs
filter_same p q [] h = refl
filter_same p q (x ∷ xs) h = let e = h x in let ih = filter_same p q xs h in ground arith

cut_page :
    (limit : ℕ) (rows : List Post) (y : Post) (ys : List Post)
    → limit < length rows
    → pop rows ≡ y ∷ ys
    → feed_page limit rows ≡ record {
      items = y ∷ ys;
      next_cursor = some (encode_feed_cursor (last_of y ys));
      has_more = true;
    }
cut_page limit rows y ys more less =
    let h : ltb limit (length rows) ≡ true = ground arith in rw (h, less) refl

last_page :
    (k : ℕ) (zs : List Post)
    → length zs ≤ suc k
    → feed_page (suc k) (take (suc k + 1) zs)
      ≡ record { items = zs; next_cursor = cursor_of zs; has_more = false }
last_page k zs l =
    let h : ltb (suc k) (length zs) ≡ false = ground arith in
    rw (take_all (suc k + 1) zs (omega arith), h) refl

full_page :
    (k : ℕ) (x : Post) (zs : List Post)
    → suc k ≤ length zs
    → feed_page (suc k) (take (suc k + 1) (x ∷ zs)) ≡ record {
      items = x ∷ take k zs;
      next_cursor = some (encode_feed_cursor (last_of x (take k zs)));
      has_more = true;
    }
full_page k x zs l =
    let more : suc k + 1 ≡ suc (suc k) = omega arith in
    let n = length-take_more (suc (suc k)) (x ∷ zs) (omega arith) in
    rw more (
      cut_page (suc k) (take (suc (suc k)) (x ∷ zs)) x (take k zs) (omega arith)
        (pop-take (suc k) (x ∷ zs) (omega arith)))

filter-true : (xs : List Post) → filter (λ x. true) xs ≡ xs
filter-true [] = refl
filter-true (x ∷ xs) = ap (λ ys. x ∷ ys) (filter-true xs)

module _ (posts : Table post_key no_clash) (query : Ordered posts newer) where
  -- A condition more, on the same order: the rows of the list that meet it.
  sorted_and :
      (p q : Post → Bool) (s : posts.Store)
      → IsKeyed post_key (posts.rows s)
      → query.sorted (λ x. p x && q x) s ≡ filter q (query.sorted p s)
  sorted_and p q s keyed =
      strict_unique newer newer_asym (query.sorted (λ x. p x && q x) s)
        (filter q (query.sorted p s)) (query.sorted-IsStrict (λ x. p x && q x) s keyed)
        (filter-IsStrict newer q (query.sorted p s) (query.sorted-IsStrict p s keyed))
        (λ x m.
          let (there, hit) = query.sorted-Member (λ y. p y && q y) s x m in
          Member-filter q x (query.sorted p s) (query.Member-sorted p s x there (ground arith))
            (ground arith))
        (λ x m.
          let (there, hit) = filter-Member q (query.sorted p s) x m in
          let (row, ok') = query.sorted-Member p s x there in
          query.Member-sorted (λ y. p y && q y) s x row (ground arith))

  abbrev of_feed : List ℕ → Option FeedCursor → posts.Store → List Post
  of_feed author_ids cursor s = query.sorted (λ p. in_feed author_ids p && after_cursor cursor p) s

  -- Behind the last row of a page: the query with its cursor.
  next_rows :
      (author_ids : List ℕ) (cursor : Option FeedCursor) (s : posts.Store) (x : Post)
      (ys rest : List Post)
      → IsKeyed post_key (posts.rows s)
      → All IsWhole (posts.rows s)
      → of_feed author_ids cursor s ≡ x ∷ ys ++ rest
      → of_feed author_ids (some (encode_feed_cursor (last_of x ys))) s ≡ rest
  next_rows author_ids cursor s x ys rest keyed whole e =
      let l = last_of x ys in
      let all = query.sorted (in_feed author_ids) s in
      let now = λ (p : Post). in_feed author_ids p && after_cursor cursor p in
      let strict : IsStrict newer (x ∷ ys ++ rest) =
        subst (IsStrict newer) e (query.sorted-IsStrict now s keyed) in
      let m : Member l (query.sorted now s) =
        subst (Member l) (sym e) (Member-last_of newer newer_asym x ys rest) in
      let (row, hit) = query.sorted-Member now s l m in
      let cut = sorted_and (in_feed author_ids) (after_cursor cursor) s keyed in
      let w = All-Member IsWhole l (posts.rows s) whole row in
      sorted_and (in_feed author_ids) (after_cursor (some (encode_feed_cursor l))) s keyed
      ∙ filter_same (after_cursor (some (encode_feed_cursor l))) (newer l) all
          (λ y. after_encoded l y w)
      ∙ sym (
          filter-filter (newer l) (after_cursor cursor) all
            (λ y ahead. after_cursor_trans cursor l y (ground arith) ahead))
      ∙ ap (filter (newer l)) (sym cut ∙ e)
      ∙ filter_behind newer newer_asym x ys rest strict

  page_found :
      (a : ℕ) (others : List ℕ) (cursor : Option FeedCursor) (limit : ℕ) (s : posts.Store)
      (zs : List Post)
      → of_feed (a ∷ others) cursor s ≡ zs
      → find_feed posts query (a ∷ others) cursor limit s ≡ feed_page limit (take (limit + 1) zs)
  unfolding find_feed
  page_found a others cursor limit s zs e = ap (λ rows. feed_page limit (take (limit + 1) rows)) e

  -- With `suc k` rows per page, `n` pages reach the end of what is left, `zs`.
  read_rest :
      (n k : ℕ) (a : ℕ) (others : List ℕ) (cursor : Option FeedCursor) (s : posts.Store)
      (zs : List Post)
      → IsKeyed post_key (posts.rows s)
      → All IsWhole (posts.rows s)
      → of_feed (a ∷ others) cursor s ≡ zs
      → length zs < n
      → read_feed posts query n (a ∷ others) cursor (suc k) s ≡ (zs, true)
  read_rest zero k a others cursor s zs keyed whole e l = absurd (omega arith)
  read_rest (suc n) k a others cursor s [] keyed whole e l =
      rw (page_found a others cursor (suc k) s [] e ∙ last_page k [] (omega arith)) refl
  read_rest (suc n) k a others cursor s (x ∷ zs) keyed whole e l =
      elim (Bool-cases (ltb (length zs) (suc k))) [
        | inl short ↦
            rw
              (page_found a others cursor (suc k) s (x ∷ zs) e
                ∙ last_page k (x ∷ zs) (ground arith))
              refl
        | inr long ↦
            let whole_list : x ∷ take k zs ++ drop k zs ≡ x ∷ zs =
              ap (λ ys. x ∷ ys) (take-drop k zs) in
            let next =
              next_rows (a ∷ others) cursor s x (take k zs) (drop k zs) keyed whole
                (e ∙ sym whole_list) in
            let less = length-drop_less k zs in
            let rest =
              read_rest n k a others (some (encode_feed_cursor (last_of x (take k zs)))) s
                (drop k zs) keyed whole next (omega arith) in
            rw
              (
                page_found a others cursor (suc k) s (x ∷ zs) e ∙ full_page k x zs (ground arith),
                rest,
              )
              (ap (λ y. (y, true)) whole_list)
      ]

  -- Asking for a feed page by page, with the cursor of each page for the next, ends, and gives the
  -- published posts of the authors that are not deleted, newest first, each once and none left out,
  -- within as many requests as there are such posts, and one. A page holds one post at least, the
  -- posts have distinct keys, nothing is written meanwhile, and every post's instant is in whole
  -- milliseconds, as the cursor's is.
  pub read_feed_ends :
      (a : ℕ) (others : List ℕ) (k : ℕ) (s : posts.Store)
      → IsKeyed post_key (posts.rows s)
      → All IsWhole (posts.rows s)
      → read_feed posts query
          (suc (length (query.sorted (in_feed (a ∷ others)) s)))
          (a ∷ others)
          none
          (suc k)
          s
        ≡ (query.sorted (in_feed (a ∷ others)) s, true)
  read_feed_ends a others k s keyed whole =
      let all = query.sorted (in_feed (a ∷ others)) s in
      read_rest (suc (length all)) k a others none s all keyed whole
        (sorted_and (in_feed (a ∷ others)) (after_cursor none) s keyed ∙ filter-true all)
        (omega arith)
