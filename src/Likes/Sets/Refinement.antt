-- ===== src/Likes/Sets/Refinement.antt =====
-- The service's calls do to the table what the specification does to the set.
use std.Path.{fun_ext}
use my_fans.Common.{
  ℕ, ◌≡◌, ◌∙◌, refl, ap, Bool, true, false, not, none, some, List, [], ◌∷◌, arith, inl, inr,
  Bool-cases, Option-cases, ◌==◌, if◌then◌else◌,
}
use my_fans.Common.Actions.{Result, ok, err}
use my_fans.Database.{Table}
use my_fans.Posts.{Post, post_key, find_post}
use my_fans.Posts
use my_fans.Subscriptions
use my_fans.Likes.{
  like_key, by_on, unique_like, LikeError, post_not_found, forbidden, like_not_found, LikeStatus,
  created, already_liked, Reads, check_user_access, add_like, remove_like,
}
use my_fans.Likes.Sets.Rows.{liked_in, IsLikes, pair_there, found_pair, no_pair, inserted, deleted}
use my_fans.Likes.Sets.{LikeSet, with_pair}

module _ (posts : Table post_key Posts.no_clash)
    (subs : Table Subscriptions.id_of Subscriptions.clash)
    (likes : Table like_key unique_like) where
  pub data Call : Type 0 where
    likes_it : Reads posts subs likes → (post_id user_id : ℕ) → Call
    unlikes : Reads posts subs likes → (post_id user_id : ℕ) → Call

  abbrev LikeAnswer : Type 0
  LikeAnswer = Result LikeError LikeStatus

  abbrev RemoveAnswer : Type 0
  RemoveAnswer = Result LikeError (Unit {0})

  pub data Response : Type 0 where
    added : Result LikeError LikeStatus → Response
    removed : Result LikeError (Unit {0}) → Response

  abbrev status_for : Bool → LikeStatus
  status_for true = already_liked
  status_for false = created

  -- What the service promises, on a set of pairs.
  abbrev add_pair :
      Reads posts subs likes
      → (post_id user_id : ℕ) → LikeSet
      → Result LikeError LikeStatus × LikeSet
  add_pair r post_id user_id liked = elim (find_post posts post_id r.posts_store) [
    | none ↦ (err post_not_found, liked)
    | some p ↦
        if not (check_user_access posts subs likes r user_id p.author_id p.is_premium)
        then (err forbidden, liked)
        else (ok (status_for (liked user_id post_id)), with_pair user_id post_id true liked)
  ]

  abbrev remove_pair :
      Reads posts subs likes
      → (post_id user_id : ℕ) → LikeSet
      → Result LikeError (Unit {0}) × LikeSet
  remove_pair r post_id user_id liked = elim (find_post posts post_id r.posts_store) [
    | none ↦ (err post_not_found, liked)
    | some _ ↦
        if liked user_id post_id
        then (ok tt, with_pair user_id post_id false liked)
        else (err like_not_found, liked)
  ]

  abbrev promised : Call → LikeSet → Response × LikeSet
  promised (likes_it r p u) liked = let (a, after) = add_pair r p u liked in (added a, after)
  promised (unlikes r p u) liked = let (a, after) = remove_pair r p u liked in (removed a, after)

  abbrev performed : Call → likes.Store → Response × likes.Store
  performed (likes_it r p u) s = let (a, s') = add_like posts subs likes r p u s in (added a, s')
  performed (unlikes r p u) s =
      let (a, s') = remove_like posts subs likes r p u s in (removed a, s')

  abbrev pub promise : List Call → LikeSet → List Response × LikeSet
  promise [] liked = ([], liked)
  promise (c ∷ cs) liked =
      let (a, after) = promised c liked in let (as', end') = promise cs after in (a ∷ as', end')

  abbrev pub perform : List Call → likes.Store → List Response × likes.Store
  perform [] s = ([], s)
  perform (c ∷ cs) s =
      let (a, s') = performed c s in let (as', end') = perform cs s' in (a ∷ as', end')

  -- A call that answers as promised, and leaves the set as promised.
  record Agrees {A : Type 0} (answers : A × LikeSet) (c : A × likes.Store) : Type 0 where
    pub answer : c.0 ≡ answers.0
    pub after : (u p : ℕ) → liked_in posts subs likes c.1 u p ≡ answers.1 u p
    pub sound : IsLikes posts subs likes c.1

  agree :
      {A : Type 0} (answers answers' : A × LikeSet) (c c' : A × likes.Store)
      → c ≡ c'
      → answers ≡ answers'
      → Agrees answers' c'
      → Agrees answers c
  agree answers answers' c c' e k h = rw (e, k) h

  unchanged :
      {A : Type 0} (a : A) (s : likes.Store)
      → IsLikes posts subs likes s
      → Agrees (a, liked_in posts subs likes s) (a, s)
  unchanged a s ok' = record { answer = refl; after = λ u p. refl; sound = ok' }

  add_like-Agrees :
      (r : Reads posts subs likes) (post_id user_id : ℕ) (s : likes.Store)
      → IsLikes posts subs likes s
      → Agrees
          (add_pair r post_id user_id (liked_in posts subs likes s))
          (add_like posts subs likes r post_id user_id s)
  unfolding add_like
  add_like-Agrees r post_id user_id s ok' =
      let spec = add_pair r post_id user_id (liked_in posts subs likes s) in
      let real = add_like posts subs likes r post_id user_id s in
      elim (Option-cases (find_post posts post_id r.posts_store)) [
        | inl nobody ↦
            let a : LikeAnswer = err post_not_found in
            agree spec (a, liked_in posts subs likes s) real (a, s) (ground arith) (ground arith)
              (unchanged a s ok')
        | inr (p, found) ↦
            elim (Bool-cases
              (check_user_access posts subs likes r user_id p.author_id p.is_premium)) [
                | inr shut ↦
                    let a : LikeAnswer = err forbidden in
                    agree spec (a, liked_in posts subs likes s) real (a, s) (ground arith)
                      (ground arith) (unchanged a s ok')
                | inl open' ↦
                    let after = with_pair user_id post_id true (liked_in posts subs likes s) in
                    elim (Option-cases (likes.find_one (by_on user_id post_id) (λ _. 0) s)) [
                      | inr (l, had) ↦
                          let yes' = found_pair posts subs likes s user_id post_id l had in
                          let a : LikeAnswer = ok already_liked in
                          agree spec (a, after) real (a, s) (ground arith) (ground arith)
                            (record {
                              answer = refl;
                              after = pair_there posts subs likes s user_id post_id yes';
                              sound = ok';
                            })
                      | inl new ↦
                          let no' = no_pair posts subs likes s user_id post_id new in
                          let (l, s', made, sound', set) =
                            inserted posts subs likes s user_id post_id ok' new in
                          let a : LikeAnswer = ok created in
                          agree spec (a, after) real (a, s') (ground arith) (ground arith)
                            (record { answer = refl; after = set; sound = sound' })
                    ]
              ]
      ]

  remove_like-Agrees :
      (r : Reads posts subs likes) (post_id user_id : ℕ) (s : likes.Store)
      → IsLikes posts subs likes s
      → Agrees
          (remove_pair r post_id user_id (liked_in posts subs likes s))
          (remove_like posts subs likes r post_id user_id s)
  unfolding remove_like
  remove_like-Agrees r post_id user_id s ok' =
      let spec = remove_pair r post_id user_id (liked_in posts subs likes s) in
      let real = remove_like posts subs likes r post_id user_id s in
      elim (Option-cases (find_post posts post_id r.posts_store)) [
        | inl nobody ↦
            let a : RemoveAnswer = err post_not_found in
            agree spec (a, liked_in posts subs likes s) real (a, s) (ground arith) (ground arith)
              (unchanged a s ok')
        | inr (p, found) ↦ elim (Option-cases (likes.find_one (by_on user_id post_id) (λ _. 0) s)) [
          | inr (l, had) ↦
              let yes' = found_pair posts subs likes s user_id post_id l had in
              let (sound', set) = deleted posts subs likes s user_id post_id l ok' had in
              let a : RemoveAnswer = ok tt in
              agree spec (a, with_pair user_id post_id false (liked_in posts subs likes s)) real
                (a, likes.delete (λ x. x.id == l.id) s) (ground arith) (ground arith)
                (record { answer = refl; after = set; sound = sound' })
          | inl new ↦
              let no' = no_pair posts subs likes s user_id post_id new in
              let a : RemoveAnswer = err like_not_found in
              agree spec (a, liked_in posts subs likes s) real (a, s) (ground arith) (ground arith)
                (unchanged a s ok')
        ]
      ]

  same_sets : {A B : LikeSet} → ((u p : ℕ) → A u p ≡ B u p) → A ≡ B
  same_sets h = fun_ext (λ u. fun_ext (λ p. h u p))

  step :
      (c : Call) (cs : List Call) (s : likes.Store)
      → (performed c s).0 ≡ (promised c (liked_in posts subs likes s)).0
      → liked_in posts subs likes (performed c s).1 ≡ (promised c (liked_in posts subs likes s)).1
      → ((perform cs (performed c s).1).0
          ≡ (promise cs (liked_in posts subs likes (performed c s).1)).0)
        × ((u p : ℕ)
            → liked_in posts subs likes (perform cs (performed c s).1).1 u p
              ≡ (promise cs (liked_in posts subs likes (performed c s).1)).1 u p)
      → ((perform (c ∷ cs) s).0 ≡ (promise (c ∷ cs) (liked_in posts subs likes s)).0)
        × ((u p : ℕ)
            → liked_in posts subs likes (perform (c ∷ cs) s).1 u p
              ≡ (promise (c ∷ cs) (liked_in posts subs likes s)).1 u p)
  step c cs s answer same rest =
      let end' = ap (promise cs) same in (cc, λ u p. rest.1 u p ∙ ap (λ x. x.1 u p) end')

  -- Whatever calls are made of addLike and removeLike, in whatever order, by whomever, with posts,
  -- subscriptions and instants that may change between them: the answers are those that the calls
  -- promise on the set of pairs that hasUserLiked answers at the start, and in the end hasUserLiked
  -- answers as the set then is. The table at the start has distinct keys and no pair twice.
  pub perform_refines :
      (cs : List Call) (s : likes.Store)
      → IsLikes posts subs likes s
      → ((perform cs s).0 ≡ (promise cs (liked_in posts subs likes s)).0)
        × ((u p : ℕ)
            → liked_in posts subs likes (perform cs s).1 u p
              ≡ (promise cs (liked_in posts subs likes s)).1 u p)
  perform_refines [] s ok' = (refl, λ u p. refl)
  perform_refines (likes_it r p u ∷ cs) s ok' =
      let h = add_like-Agrees r p u s ok' in
      step (likes_it r p u) cs s (ap added h.answer) (same_sets h.after)
        (perform_refines cs (add_like posts subs likes r p u s).1 h.sound)
  perform_refines (unlikes r p u ∷ cs) s ok' =
      let h = remove_like-Agrees r p u s ok' in
      step (unlikes r p u) cs s (ap removed h.answer) (same_sets h.after)
        (perform_refines cs (remove_like posts subs likes r p u s).1 h.sound)
