-- ===== src/Posts/Deletion.antt =====
-- A deletion of a post: who may delete it, what is recorded, and what can be done with it then.
use my_fans.Common.{
  ℕ, ◌≡◌, refl, ap, true, false, none, some, List, ◌∷◌, arith, Member, All, All-of_Member, inl, inr,
  Bool-cases, Option-cases, ◌==◌,
}
use my_fans.Common.Actions.{ok, err}
use my_fans.Database.{Table, IsKeyed, put}
use my_fans.Database.Laws.{find_one-eq-none}
use my_fans.Database.Saves.{All-put_others}
use my_fans.Posts.{
  Post, PostAuditLog, UpdatePostDto, post_not_found, post_key, no_clash, audit_key, no_audit_clash,
  live_post, marked_deleted, deletion, Blog, find_post, update_post, soft_delete,
}

module _ (posts : Table post_key no_clash) where
  found_post :
      (id : ℕ) (s : posts.Store) (p : Post)
      → find_post posts id s ≡ some p
      → Member p (posts.rows s) × (live_post id p ≡ true)
  unfolding find_post
  found_post id s p e =
      let (m, hit, _) = posts.find_one-some (live_post id) (λ _. 0) s p e in (m, hit)

  not_found_post :
      (id : ℕ) (s : posts.Store)
      → All (λ p. live_post id p ≡ false) (posts.rows s)
      → find_post posts id s ≡ none
  unfolding find_post
  not_found_post id s h = find_one-eq-none posts (live_post id) (λ _. 0) s h

  update_missing :
      (id : ℕ) (dto : UpdatePostDto) (requester : ℕ) (s : posts.Store)
      → find_post posts id s ≡ none
      → update_post posts id dto requester s ≡ (err post_not_found, s)
  unfolding update_post
  update_missing id dto requester s e = ground arith

  -- Saving the marked row leaves no live row with its key.
  all_gone :
      (id deleted_by now : ℕ) (p : Post) (xs : List Post)
      → IsKeyed post_key xs
      → p.id ≡ id
      → All (λ x. live_post id x ≡ false) (put post_key (marked_deleted deleted_by now p) xs)
  all_gone id deleted_by now p xs keyed key =
      All-put_others post_key (λ x. Unit) (λ x. live_post id x ≡ false)
        (marked_deleted deleted_by now p) xs keyed (λ x ne _. ground arith) (ground arith)
        (All-of_Member (λ x. Unit) xs (λ x m. tt))

  module _ (audit : Table audit_key no_audit_clash) where
    delete_missing :
        (id deleted_by now : ℕ) (st : Blog posts audit)
        → find_post posts id st.posts_store ≡ none
        → soft_delete posts audit id deleted_by now st ≡ (err post_not_found, st)
    unfolding soft_delete
    delete_missing id deleted_by now st e = ground arith

    soft_delete-ok :
        (id deleted_by now : ℕ) (st st' : Blog posts audit)
        → soft_delete posts audit id deleted_by now st ≡ (ok tt, st')
        → (p : Post) × (a : PostAuditLog) × (find_post posts id st.posts_store ≡ some p)
          × (p.author_id ≡ deleted_by)
          × (posts.save (marked_deleted deleted_by now p) st.posts_store ≡ some st'.posts_store)
          × (audit.insert (deletion id deleted_by now) st.audit_store ≡ some (a, st'.audit_store))
          × (st'.published ≡ record { post_id = id; deleted_by = deleted_by } ∷ st.published)
    unfolding soft_delete
    soft_delete-ok id deleted_by now st st' e =
        elim (Option-cases (find_post posts id st.posts_store)) [
          | inl nobody ↦ absurd (ground arith)
          | inr (p, found) ↦ elim (Bool-cases (p.author_id == deleted_by)) [
            | inr other ↦ absurd (ground arith)
            | inl own ↦
                elim (Option-cases (posts.save (marked_deleted deleted_by now p) st.posts_store)) [
                  | inl refused ↦ absurd (ground arith)
                  | inr (s, written) ↦
                      elim (Option-cases
                        (audit.insert (deletion id deleted_by now) st.audit_store)) [
                          | inl refused ↦ absurd (ground arith)
                          | inr ((a, t), logged) ↦
                              let same : s ≡ st'.posts_store = ground arith in
                              let same' : t ≡ st'.audit_store = ground arith in
                              (p, a, found, ground arith, ground arith, ground arith, ground arith)
                        ]
                ]
          ]
        ]

    -- A post that is deleted is a live one of whoever deletes it. Its audit log has one row more, for
    -- the post and whoever deleted it, and one event was published. From then on, deleting it again
    -- and changing it answer that it is not found, whoever asks, and change nothing. Posts have
    -- distinct keys.
    pub soft_delete_once :
        (id deleted_by now : ℕ) (again later : ℕ) (dto : UpdatePostDto) (requester : ℕ)
        (st st' : Blog posts audit)
        → IsKeyed post_key (posts.rows st.posts_store)
        → soft_delete posts audit id deleted_by now st ≡ (ok tt, st')
        → ((p : Post) × Member p (posts.rows st.posts_store)
            × (live_post id p ≡ true)
            × (p.author_id ≡ deleted_by))
          × ((a : PostAuditLog) × (audit.rows st'.audit_store ≡ a ∷ audit.rows st.audit_store)
              × (a.post_id ≡ id)
              × (a.deleted_by ≡ deleted_by))
          × (st'.published ≡ record { post_id = id; deleted_by = deleted_by } ∷ st.published)
          × (soft_delete posts audit id again later st' ≡ (err post_not_found, st'))
          × (update_post posts id dto requester st'.posts_store
              ≡ (err post_not_found, st'.posts_store))
    soft_delete_once id deleted_by now again later dto requester st st' keyed e =
        let (p, a, found, own, written, logged, told) = soft_delete-ok id deleted_by now st st' e in
        let (m, hit) = found_post id st.posts_store p found in
        let p' = marked_deleted deleted_by now p in
        let saved' = (posts.save-some p' st.posts_store st'.posts_store written).0 in
        let (row, _, _, grown) =
          audit.insert-some (deletion id deleted_by now) st.audit_store a st'.audit_store
            (λ n. refl) logged in
        let gone = not_found_post id st'.posts_store (
          rw saved'
            (all_gone id deleted_by now p (posts.rows st.posts_store) keyed (ground arith))) in
        (
          (p, m, hit, own),
          (a, grown, ap (λ x. x.post_id) row, ap (λ x. x.deleted_by) row),
          told,
          delete_missing id again later st' gone,
          update_missing id dto requester st'.posts_store gone,
        )
