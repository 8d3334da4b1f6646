-- ===== src/Likes/Sets.antt =====
-- Likes as a set of pairs of a user and a post: what the service promises, and that the table keeps it.
pub mod Rows
pub mod Refinement
use my_fans.Common.{
  ℕ, ◌+◌, ◌≡◌, ◌≢◌, ◌∙◌, refl, sym, ap, Bool, true, false, not, ◌&&◌, ◌||◌, Option, none, some,
  List, [], ◌∷◌, arith, filter, Member, All, All-Member, All-of_Member, inl, inr, Bool-cases,
  Option-cases, ◌==◌, if◌then◌else◌,
}
use my_fans.Common.Actions.{Result, ok, err}
use my_fans.Database.{Table, IsKeyed}
use my_fans.Database.Laws.{IsKeyed-eq, insert-IsKeyed, insert-eq-some, filter-IsKeyed}
use my_fans.Database.ListTable.{filter-Member}
use my_fans.Database.Saves.{IsDistinct, IsDistinct-eq, filter-IsDistinct}
use my_fans.Posts.{Post, post_key, find_post}
use my_fans.Posts
use my_fans.Subscriptions
use my_fans.Likes.{
  Like, like_key, by_on, unique_like, new_like, LikeError, post_not_found, forbidden,
  like_not_found, LikeStatus, created, already_liked, Reads, check_user_access, has_user_liked,
  add_like, remove_like,
}

-- Whether a user likes a post.
abbrev pub LikeSet : Type 0
LikeSet = ℕ → ℕ → Bool

abbrev pub with_pair : (user_id post_id : ℕ) → Bool → LikeSet → LikeSet
with_pair user_id post_id b likes u p = if (u == user_id) && (p == post_id) then b else likes u p

abbrev pub any : (Like → Bool) → List Like → Bool
any p [] = false
any p (x ∷ xs) = p x || any p xs

pub any_none : (p : Like → Bool) (xs : List Like) → All (λ x. p x ≡ false) xs → any p xs ≡ false
any_none p [] h = refl
any_none p (x ∷ xs) h = rw (h.0, any_none p xs h.1) refl

pub any_some :
    (p : Like → Bool) (x : Like) (xs : List Like) → Member x xs → p x ≡ true → any p xs ≡ true
any_some p x [] m h = elim m [ ]
any_some p x (y ∷ ys) (inl e) h = let k : p y ≡ true = ap p (sym e) ∙ h in rw k refl
any_some p x (y ∷ ys) (inr m) h = let ih = any_some p x ys m h in ground arith

any-filter :
    (p q : Like → Bool) (xs : List Like)
    → ((x : Like) → Member x xs → p x ≡ true → q x ≡ true)
    → any p (filter q xs) ≡ any p xs
any-filter p q [] h = refl
any-filter p q (x ∷ xs) h =
    let ih = any-filter p q xs (λ y m hit. h y (inr m) hit) in
    elim (Bool-cases (q x)) [
      | inl keep ↦ ground arith
      | inr away ↦ elim (Bool-cases (p x)) [
        | inl hit ↦ let no' = h x (inl refl) hit in absurd (ground arith)
        | inr miss ↦ ground arith
      ]
    ]

-- What is left of the pairs when a row goes.
pub any_without :
    (user_id post_id u p : ℕ) (l : Like) (xs : List Like)
    → IsKeyed like_key xs
    → IsDistinct unique_like xs
    → Member l xs
    → by_on user_id post_id l ≡ true
    → any (by_on u p) (filter (λ x. not (x.id == l.id)) xs)
      ≡ with_pair user_id post_id false (λ v q. any (by_on v q) xs) u p
any_without user_id post_id u p l xs keyed distinct m hit =
    let q = λ (x : Like). not (x.id == l.id) in
    elim (Bool-cases ((u == user_id) && (p == post_id))) [
      | inl own ↦
          let gone = any_none (by_on u p) (filter q xs) (
            All-of_Member (λ x. by_on u p x ≡ false) (filter q xs)
              (λ x n. elim (Bool-cases (by_on u p x)) [
                | inr other ↦ other
                | inl same ↦
                    let (old, ne) = filter-Member q xs x n in
                    let one =
                      IsDistinct-eq unique_like x l xs distinct old m (ground arith)
                        (ground arith) in
                    let id : x.id ≡ l.id = ap (λ y. y.id) one in absurd (ground arith)
              ])) in
          rw own gone
      | inr other ↦ rw other (
          any-filter (by_on u p) q xs (λ x n same. elim (Bool-cases (x.id == l.id)) [
            | inr ne ↦ ground arith
            | inl eq ↦
                let one = IsKeyed-eq like_key x l xs keyed n m (ground arith) in
                let a : x.user_id ≡ l.user_id = ap (λ y. y.user_id) one in
                let b : x.post_id ≡ l.post_id = ap (λ y. y.post_id) one in absurd (ground arith)
          ]))
    ]
