-- ===== src/Moderation/Reviews.antt =====
-- Flags and reviews, in any order.
use my_fans.Common.{
  ℕ, ◌≡◌, ◌∙◌, refl, sym, ap, true, false, some, [], ◌∷◌, arith, Member, All-Member, All-imp, inl,
  inr, Option-cases, ◌==◌,
}
use my_fans.Common.Actions.{ok}
use my_fans.Database.{Table, put}
use my_fans.Database.Laws.{put-IsKeyed, Member-put}
use my_fans.Database.Saves.{All-put_others}
use my_fans.Moderation.{
  ModerationFlag, ModerationAuditLog, CreateFlagDto, ReviewFlagDto, flag_key, no_clash, log_key,
  no_log_clash, reviewed, new_log, is_allowed, Desk, create_flag, find_flag, review_flag,
}
use my_fans.Moderation.Trail.{
  last_status, Tells, IsKnown, put-IsDistinct_free, allowed_closed, IsKnown-put, IsTrail,
  create_flag-IsTrail,
}

module _ (flags : Table flag_key no_clash) (audit : Table log_key no_log_clash) where
  found_flag :
      (id : ℕ) (s : flags.Store) (f : ModerationFlag)
      → find_flag flags audit id s ≡ some f
      → Member f (flags.rows s) × (f.id ≡ id)
  unfolding find_flag
  found_flag id s f e =
      let (m, hit, _) = flags.find_one-some (λ x. x.id == id) (λ _. 0) s f e in (m, ground arith)

  -- What a review that goes through has found and written.
  review_flag-ok :
      (admin id : ℕ) (dto : ReviewFlagDto) (now : ℕ) (s s' : flags.Store) (t t' : audit.Store)
      (f' : ModerationFlag)
      → review_flag flags audit admin id dto now (s, t) ≡ (ok f', (s', t'))
      → (f : ModerationFlag) × (a : ModerationAuditLog) × (find_flag flags audit id s ≡ some f)
        × (f' ≡ reviewed admin dto now f)
        × (flags.save (reviewed admin dto now f) s ≡ some s')
        × (audit.insert (new_log id admin f.status dto) t ≡ some (a, t'))
  unfolding review_flag
  review_flag-ok admin id dto now s s' t t' f' e =
      elim (Option-cases (find_flag flags audit id s)) [
        | inl nobody ↦ absurd (ground arith)
        | inr (f, found) ↦ elim (Option-cases (flags.save (reviewed admin dto now f) s)) [
          | inl refused ↦ absurd (ground arith)
          | inr (s'', written) ↦
              elim (Option-cases (audit.insert (new_log id admin f.status dto) t)) [
                | inl refused ↦ absurd (ground arith)
                | inr ((a, t''), logged) ↦ (f, a, found, ground arith, ground arith, ground arith)
              ]
        ]
      ]

  review_flag-IsTrail :
      (admin id : ℕ) (dto : ReviewFlagDto) (now : ℕ) (s s' : flags.Store) (t t' : audit.Store)
      (f' : ModerationFlag)
      → is_allowed dto.status ≡ true
      → review_flag flags audit admin id dto now (s, t) ≡ (ok f', (s', t'))
      → IsTrail flags audit s t
      → IsTrail flags audit s' t'
  review_flag-IsTrail admin id dto now s s' t t' f' allowed e h =
      let (f, a, found, _, written, logged) = review_flag-ok admin id dto now s s' t t' f' e in
      let (m, key) = found_flag id s f found in
      let r = reviewed admin dto now f in
      let logs = audit.rows t in
      let saved' = (flags.save-some r s s' written).0 in
      let (row, _, _, grown) =
        audit.insert-some (new_log id admin f.status dto) t a t' (λ n. refl) logged in
      let flag : a.flag_id ≡ id = ap (λ x. x.flag_id) row in
      let next : a.new_status ≡ dto.status = ap (λ x. x.new_status) row in
      let old : a.previous_status ≡ f.status = ap (λ x. x.previous_status) row in
      let closed = allowed_closed dto.status allowed in
      let told = All-Member (Tells logs) f (flags.rows s) h.status m in
      let own : (a.flag_id == f.id) ≡ true = ground arith in
      record {
        keyed = rw saved' (put-IsKeyed flag_key r (flags.rows s) h.keyed);
        known =
            rw (saved', grown)
              (
                (r, Member-put flag_key r (flags.rows s), key ∙ sym flag),
                All-imp (IsKnown (flags.rows s)) (IsKnown (put flag_key r (flags.rows s))) logs
                    (λ x k. IsKnown-put r (flags.rows s) x k) h.known,
              );
        status =
            rw (saved', grown)
              (All-put_others flag_key (Tells logs) (Tells (a ∷ logs)) r (flags.rows s) h.keyed
                (λ x ne k. let apart : (a.flag_id == x.id) ≡ false = ground arith in rw apart k)
                (rw own (sym next)) h.status);
        chain = rw grown (old ∙ told ∙ ap (λ k. last_status k logs) (key ∙ sym flag), h.chain);
        single =
            rw saved' (
              put-IsDistinct_free r (flags.rows s) (λ y. ground arith) (λ y. ground arith)
                h.single);
      }

  -- What happens at the desk: a flag, or a review with a status that a request may have.
  pub data Step : Desk flags audit → Desk flags audit → Type 0 where
    flagged :
        (by' : ℕ) (dto : CreateFlagDto) (now : ℕ) (s s' : flags.Store) (t t' : audit.Store)
        (f : ModerationFlag)
        → create_flag flags audit by' dto now (s, t) ≡ (ok f, (s', t'))
        → Step (s, t) (s', t')
    reviews :
        (admin id : ℕ) (dto : ReviewFlagDto) (now : ℕ) (s s' : flags.Store) (t t' : audit.Store)
        (f : ModerationFlag)
        → is_allowed dto.status ≡ true
        → review_flag flags audit admin id dto now (s, t) ≡ (ok f, (s', t'))
        → Step (s, t) (s', t')

  pub data Reach : Desk flags audit → Desk flags audit → Type 0 where
    here : (d : Desk flags audit) → Reach d d
    then' : (d d1 d2 : Desk flags audit) → Reach d d1 → Step d1 d2 → Reach d d2

  Step-IsTrail :
      (d d' : Desk flags audit)
      → Step d d'
      → IsTrail flags audit d.0 d.1
      → IsTrail flags audit d'.0 d'.1
  Step-IsTrail d d' (flagged by' dto now s s' t t' f e) h =
      create_flag-IsTrail flags audit by' dto now s s' t t' f e h
  Step-IsTrail d d' (reviews admin id dto now s s' t t' f allowed e) h =
      review_flag-IsTrail admin id dto now s s' t t' f allowed e h

  Reach-IsTrail :
      (d d' : Desk flags audit)
      → Reach d d'
      → IsTrail flags audit d.0 d.1
      → IsTrail flags audit d'.0 d'.1
  Reach-IsTrail _ _ (here d) h = h
  Reach-IsTrail _ _ (then' d d1 d2 before last) h =
      Step-IsTrail d1 d2 last (Reach-IsTrail d d1 before h)

  -- From an empty desk, after any flags and any reviews that go through, with the statuses that the
  -- request's validation allows: every flag has the status of the newest log of it, or is pending
  -- without one; every log starts from the status that the log before it on its flag has left; and
  -- no user has two pending flags on one content.
  pub desk-IsTrail :
      (s s' : flags.Store) (t t' : audit.Store)
      → flags.rows s ≡ []
      → audit.rows t ≡ []
      → Reach (s, t) (s', t')
      → IsTrail flags audit s' t'
  desk-IsTrail s s' t t' no_flags no_logs reach =
      Reach-IsTrail (s, t) (s', t') reach
        (record {
          keyed = rw no_flags tt;
          known = rw no_logs tt;
          status = rw no_flags tt;
          chain = rw no_logs tt;
          single = rw no_flags tt;
        })
