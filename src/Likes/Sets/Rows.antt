-- ===== src/Likes/Sets/Rows.antt =====
-- The rows of the table and the set of pairs that they stand for.
use my_fans.Common.{
  ℕ, ◌≡◌, ◌∙◌, refl, ap, true, false, not, ◌&&◌, none, some, arith, inl, inr, Bool-cases,
  Option-cases, ◌==◌,
}
use my_fans.Database.{Table, IsKeyed}
use my_fans.Database.Laws.{insert-IsKeyed, insert-eq-some, filter-IsKeyed}
use my_fans.Database.Saves.{IsDistinct, filter-IsDistinct}
use my_fans.Posts.{Post, post_key, find_post}
use my_fans.Posts
use my_fans.Subscriptions
use my_fans.Likes.{Like, like_key, by_on, unique_like, new_like, has_user_liked}
use my_fans.Likes.Sets.{LikeSet, with_pair, any, any_none, any_some, any_without}

module _ (posts : Table post_key Posts.no_clash)
    (subs : Table Subscriptions.id_of Subscriptions.clash)
    (likes : Table like_key unique_like) where
  -- The pairs that the service answers to be in its table.
  abbrev pub liked_in : likes.Store → LikeSet
  liked_in s user_id post_id = has_user_liked posts subs likes post_id user_id s

  pub record IsLikes (s : likes.Store) : Type 0 where
    pub keyed : IsKeyed like_key (likes.rows s)
    pub distinct : IsDistinct unique_like (likes.rows s)

  liked_rows : (s : likes.Store) (u p : ℕ) → liked_in s u p ≡ any (by_on u p) (likes.rows s)
  unfolding has_user_liked
  liked_rows s u p = elim (Option-cases (likes.find_one (by_on u p) (λ _. 0) s)) [
    | inl nobody ↦
        let no' =
          any_none (by_on u p) (likes.rows s) (likes.find_one-none (by_on u p) (λ _. 0) s nobody) in
        ground arith
    | inr (l, found) ↦
        let (m, hit, _) = likes.find_one-some (by_on u p) (λ _. 0) s l found in
        let yes' = any_some (by_on u p) l (likes.rows s) m hit in ground arith
  ]

  pub pair_there :
      (s : likes.Store) (user_id post_id : ℕ)
      → liked_in s user_id post_id ≡ true
      → (u p : ℕ) → liked_in s u p ≡ with_pair user_id post_id true (liked_in s) u p
  pair_there s user_id post_id h u p = elim (Bool-cases ((u == user_id) && (p == post_id))) [
    | inr other ↦ rw other refl
    | inl own ↦
        let a : u ≡ user_id = ground arith in
        let b : p ≡ post_id = ground arith in
        rw own (ap (λ x. liked_in s x p) a ∙ ap (λ x. liked_in s user_id x) b ∙ h)
  ]

  pub found_pair :
      (s : likes.Store) (user_id post_id : ℕ) (l : Like)
      → likes.find_one (by_on user_id post_id) (λ _. 0) s ≡ some l
      → liked_in s user_id post_id ≡ true
  unfolding has_user_liked
  found_pair s user_id post_id l e = ground arith

  pub no_pair :
      (s : likes.Store) (user_id post_id : ℕ)
      → likes.find_one (by_on user_id post_id) (λ _. 0) s ≡ none
      → liked_in s user_id post_id ≡ false
  unfolding has_user_liked
  no_pair s user_id post_id e = ground arith

  -- A pair that is not there: its row is inserted.
  pub inserted :
      (s : likes.Store) (user_id post_id : ℕ)
      → IsLikes s
      → likes.find_one (by_on user_id post_id) (λ _. 0) s ≡ none
      → (l : Like) × (s' : likes.Store) × (likes.insert (new_like user_id post_id) s ≡ some (l, s'))
        × IsLikes s'
        × ((u p : ℕ) → liked_in s' u p ≡ with_pair user_id post_id true (liked_in s) u p)
  inserted s user_id post_id ok' nobody =
      let free = likes.find_one-none (by_on user_id post_id) (λ _. 0) s nobody in
      let (l, s', made, row, grown) =
        insert-eq-some likes (new_like user_id post_id) s (λ n. refl) (λ n. free) in
      let (_, _, apart, _) = likes.insert-some (new_like user_id post_id) s l s' (λ n. refl) made in
      let a : l.user_id ≡ user_id = ap (λ x. x.user_id) row in
      let b : l.post_id ≡ post_id = ap (λ x. x.post_id) row in
      (
        l,
        s',
        made,
        record {
          keyed = insert-IsKeyed likes (new_like user_id post_id) s l s' (λ n. refl) made ok'.keyed;
          distinct = rw grown (apart, ok'.distinct);
        },
        λ u p.
            let old = liked_rows s u p in
            let new = liked_rows s' u p ∙ ap (any (by_on u p)) grown in ground arith,
      )

  -- A row that goes takes its pair with it, and no other.
  pub deleted :
      (s : likes.Store) (user_id post_id : ℕ) (l : Like)
      → IsLikes s
      → likes.find_one (by_on user_id post_id) (λ _. 0) s ≡ some l
      → IsLikes (likes.delete (λ x. x.id == l.id) s)
        × ((u p : ℕ)
            → liked_in (likes.delete (λ x. x.id == l.id) s) u p
              ≡ with_pair user_id post_id false (liked_in s) u p)
  deleted s user_id post_id l ok' found =
      let (m, hit, _) = likes.find_one-some (by_on user_id post_id) (λ _. 0) s l found in
      let gone = likes.rows-delete (λ x. x.id == l.id) s in
      (
        record {
          keyed =
              rw gone (filter-IsKeyed like_key (λ x. not (x.id == l.id)) (likes.rows s) ok'.keyed);
          distinct =
              rw gone (
                filter-IsDistinct unique_like (λ x. not (x.id == l.id)) (likes.rows s)
                  ok'.distinct);
        },
        λ u p.
            let old = liked_rows s u p in
            let new =
              liked_rows (likes.delete (λ x. x.id == l.id) s) u p ∙ ap (any (by_on u p)) gone in
            let left =
              any_without user_id post_id u p l (likes.rows s) ok'.keyed ok'.distinct m hit in
            ground arith,
      )
