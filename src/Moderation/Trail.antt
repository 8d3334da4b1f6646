-- ===== src/Moderation/Trail.antt =====
-- The audit log tells the history of every flag.
use mathlib.Core.Path.{subst}
use my_fans.Common.{
  ℕ, ◌≡◌, ◌≢◌, ◌∙◌, refl, sym, ap, Bool, true, false, ◌&&◌, none, some, List, [], ◌∷◌, arith,
  Member, All, All-Member, All-imp, All-of_Member, inl, inr, Bool-cases, Option-cases, ◌==◌,
  if◌then◌else◌,
}
use my_fans.Common.Actions.{ok}
use my_fans.Database.{Table, IsKeyed, put}
use my_fans.Database.Laws.{insert-IsKeyed, Member-put, Member-put_other, All-put}
use my_fans.Database.Saves.{IsDistinct}
use my_fans.Moderation.{
  ModerationStatus, pending, ModerationFlag, ModerationAuditLog, CreateFlagDto, is_pending,
  flag_key, no_clash, log_key, no_log_clash, open_flag, new_flag, is_allowed, create_flag,
}

-- The status that a log, newest first, leaves a flag in.
abbrev pub last_status : ℕ → List ModerationAuditLog → ModerationStatus
last_status id [] = pending
last_status id (a ∷ as') = if a.flag_id == id then a.new_status else last_status id as'

-- Every review starts from the status that the one before it has left, the first from pending.
abbrev pub IsChain : List ModerationAuditLog → Type 0
IsChain [] = Unit
IsChain (a ∷ as') = (a.previous_status ≡ last_status a.flag_id as') × IsChain as'

-- Two pending flags of one user on one content.
abbrev pub same_open : ModerationFlag → ModerationFlag → Bool
same_open f x = is_pending f.status && open_flag f.reported_by f.content_type f.content_id x

abbrev pub Tells : List ModerationAuditLog → ModerationFlag → Type 0
Tells as' f = f.status ≡ last_status f.id as'

abbrev pub IsKnown : List ModerationFlag → ModerationAuditLog → Type 0
IsKnown fs a = (f : ModerationFlag) × Member f fs × (f.id ≡ a.flag_id)

unlogged :
    (id : ℕ) (fs : List ModerationFlag) (as' : List ModerationAuditLog)
    → All (λ f. f.id ≢ id) fs
    → All (IsKnown fs) as'
    → last_status id as' ≡ pending
unlogged id fs [] h k = refl
unlogged id fs (a ∷ as') h k =
    let (f, m, same) = k.0 in
    let ne = All-Member (λ x. x.id ≢ id) f fs h m in
    let apart : (a.flag_id == id) ≡ false = ground arith in rw apart (unlogged id fs as' h k.1)

pub put-IsDistinct_free :
    (r : ModerationFlag) (xs : List ModerationFlag)
    → ((y : ModerationFlag) → same_open r y ≡ false)
    → ((y : ModerationFlag) → same_open y r ≡ false)
    → IsDistinct same_open xs
    → IsDistinct same_open (put flag_key r xs)
put-IsDistinct_free r [] l k d = (tt, tt)
put-IsDistinct_free r (x ∷ xs) l k d = elim (Bool-cases (x.id == r.id)) [
  | inl same ↦ rw same (All-of_Member (λ y. same_open r y ≡ false) xs (λ y m. l y), d.1)
  | inr other ↦ rw other (
    All-put (λ y. same_open x y ≡ false) flag_key r xs (k x) d.0,
    put-IsDistinct_free r xs l k d.1,
  )
]

-- A status that a review may set is not pending.
pub allowed_closed : (s : ModerationStatus) → is_allowed s ≡ true → is_pending s ≡ false
allowed_closed s h = ground arith

pub IsKnown-put :
    (r : ModerationFlag) (xs : List ModerationFlag) (a : ModerationAuditLog)
    → IsKnown xs a
    → IsKnown (put flag_key r xs) a
IsKnown-put r xs a (f, m, same) = elim (Bool-cases (f.id == r.id)) [
  | inl here ↦ (r, Member-put flag_key r xs, ground arith)
  | inr other ↦ (f, Member-put_other flag_key r f xs other m, same)
]

module _ (flags : Table flag_key no_clash) (audit : Table log_key no_log_clash) where
  -- Keys are distinct; the log is a chain that leaves each flag in its status; and nobody has two
  -- pending flags on one content.
  pub record IsTrail (s : flags.Store) (t : audit.Store) : Type 0 where
    pub keyed : IsKeyed flag_key (flags.rows s)
    pub known : All (IsKnown (flags.rows s)) (audit.rows t)
    pub status : All (Tells (audit.rows t)) (flags.rows s)
    pub chain : IsChain (audit.rows t)
    pub single : IsDistinct same_open (flags.rows s)

  create_flag-ok :
      (by' : ℕ) (dto : CreateFlagDto) (now : ℕ) (s s' : flags.Store) (t t' : audit.Store)
      (f : ModerationFlag)
      → create_flag flags audit by' dto now (s, t) ≡ (ok f, (s', t'))
      → (flags.find_one (open_flag by' dto.content_type dto.content_id) (λ _. 0) s ≡ none)
        × (flags.insert (new_flag by' dto now) s ≡ some (f, s'))
        × (t ≡ t')
  unfolding create_flag
  create_flag-ok by' dto now s s' t t' f e =
      elim (Option-cases
        (flags.find_one (open_flag by' dto.content_type dto.content_id) (λ _. 0) s)) [
          | inr (x, had) ↦ absurd (ground arith)
          | inl new ↦ elim (Option-cases (flags.insert (new_flag by' dto now) s)) [
            | inl refused ↦ absurd (ground arith)
            | inr ((g, s''), made) ↦ (new, ground arith, ground arith)
          ]
        ]

  pub create_flag-IsTrail :
      (by' : ℕ) (dto : CreateFlagDto) (now : ℕ) (s s' : flags.Store) (t t' : audit.Store)
      (f : ModerationFlag)
      → create_flag flags audit by' dto now (s, t) ≡ (ok f, (s', t'))
      → IsTrail s t
      → IsTrail s' t'
  create_flag-IsTrail by' dto now s s' t t' f e h =
      let (nobody, made, same) = create_flag-ok by' dto now s s' t t' f e in
      let free =
        flags.find_one-none (open_flag by' dto.content_type dto.content_id) (λ _. 0) s nobody in
      let (row, new, _, grown) = flags.insert-some (new_flag by' dto now) s f s' (λ n. refl) made in
      let st : f.status ≡ pending = ap (λ x. x.status) row in
      let a : f.reported_by ≡ by' = ap (λ x. x.reported_by) row in
      let b : f.content_type ≡ dto.content_type = ap (λ x. x.content_type) row in
      let c : f.content_id ≡ dto.content_id = ap (λ x. x.content_id) row in
      subst (IsTrail s') same (record {
        keyed = insert-IsKeyed flags (new_flag by' dto now) s f s' (λ n. refl) made h.keyed;
        known = rw grown (
            All-imp (IsKnown (flags.rows s)) (IsKnown (f ∷ flags.rows s)) (audit.rows t)
              (λ x k. (k.0, inr k.1, k.2)) h.known);
        status =
            rw grown (st ∙ sym (unlogged f.id (flags.rows s) (audit.rows t) new h.known), h.status);
        chain = h.chain;
        single = rw grown (
          All-imp (λ x. open_flag by' dto.content_type dto.content_id x ≡ false)
              (λ x. same_open f x ≡ false) (flags.rows s) (λ x k. rw (st, a, b, c) k) free,
          h.single,
        );
      })
