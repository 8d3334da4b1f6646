-- ===== src/Moderation.antt =====
-- backend/src/moderation/moderation.service.ts and its entities: flags on content, and the audit log of
-- their reviews. Notes are numbers.
pub mod Trail
pub mod Reviews
mod Tests
use my_fans.Common.{
  ℕ, Bool, true, false, not, ◌&&◌, Option, none, some, List, get_or, ◌==◌, if◌then◌else◌,
}
use my_fans.Common.Actions.{Result, ok, err}
use my_fans.Database.{Table}

pub data ModerationStatus : Type 0 where
  pending approved rejected under_review : ModerationStatus

pub data ContentType : Type 0 where
  post comment user : ContentType

abbrev pub same_type : ContentType → ContentType → Bool
same_type post b = elim b [ post ↦ true | _ ↦ false ]
same_type comment b = elim b [ comment ↦ true | _ ↦ false ]
same_type user b = elim b [ user ↦ true | _ ↦ false ]

pub data FlagReason : Type 0 where
  spam harassment explicit_content misinformation copyright other : FlagReason

abbrev pub is_pending : ModerationStatus → Bool
is_pending s = elim s [ pending ↦ true | _ ↦ false ]

pub record ModerationFlag : Type 0 where
  pub id : ℕ
  pub content_type : ContentType
  pub content_id : ℕ
  pub reason : FlagReason
  pub notes : Option ℕ
  pub reported_by : ℕ
  pub status : ModerationStatus
  pub reviewed_by : Option ℕ
  pub reviewed_at : Option ℕ
  pub admin_notes : Option ℕ
  pub queued_at : ℕ

pub record ModerationAuditLog : Type 0 where
  pub id : ℕ
  pub flag_id : ℕ
  pub admin_id : ℕ
  pub previous_status : ModerationStatus
  pub new_status : ModerationStatus
  pub notes : Option ℕ

pub record CreateFlagDto : Type 0 where
  pub content_type : ContentType
  pub content_id : ℕ
  pub reason : FlagReason
  pub notes : Option ℕ

pub record ReviewFlagDto : Type 0 where
  pub status : ModerationStatus
  pub admin_notes : Option ℕ

pub data ModerationError : Type 0 where
  already_flagged flag_not_found save_failed : ModerationError

abbrev pub flag_key : ModerationFlag → ℕ
flag_key f = f.id

abbrev pub no_clash : ModerationFlag → ModerationFlag → Bool
no_clash _ _ = false

abbrev pub log_key : ModerationAuditLog → ℕ
log_key a = a.id

abbrev pub no_log_clash : ModerationAuditLog → ModerationAuditLog → Bool
no_log_clash _ _ = false

-- What createFlag looks for.
abbrev pub open_flag : (reported_by : ℕ) → ContentType → (content_id : ℕ) → ModerationFlag → Bool
open_flag reported_by content_type content_id f =
    same_type f.content_type content_type
    && (f.content_id == content_id)
    && (f.reported_by == reported_by)
    && is_pending f.status

abbrev pub new_flag : (reported_by : ℕ) → CreateFlagDto → (now id : ℕ) → ModerationFlag
new_flag reported_by dto now id = record {
  id = id;
  content_type = dto.content_type;
  content_id = dto.content_id;
  reason = dto.reason;
  notes = dto.notes;
  reported_by = reported_by;
  status = pending;
  reviewed_by = none;
  reviewed_at = none;
  admin_notes = none;
  queued_at = now;
}

abbrev pub reviewed : (admin_id : ℕ) → ReviewFlagDto → (now : ℕ) → ModerationFlag → ModerationFlag
reviewed admin_id dto now f = record f {
  status = dto.status;
  reviewed_by = some admin_id;
  reviewed_at = some now;
  admin_notes = dto.admin_notes;
  queued_at = now;
}

abbrev pub new_log :
    (flag_id admin_id : ℕ) → ModerationStatus → ReviewFlagDto → (id : ℕ) → ModerationAuditLog
new_log flag_id admin_id previous dto id = record {
  id = id;
  flag_id = flag_id;
  admin_id = admin_id;
  previous_status = previous;
  new_status = dto.status;
  notes = dto.admin_notes;
}

-- @IsEnum(ALLOWED) on the status of a review.
abbrev pub is_allowed : ModerationStatus → Bool
is_allowed pending = false
is_allowed approved = true
is_allowed rejected = true
is_allowed under_review = true

module _ (flags : Table flag_key no_clash) (audit : Table log_key no_log_clash) where
  abbrev pub Desk : Type 0
  Desk = flags.Store × audit.Store

  unfoldable pub create_flag :
      (reported_by : ℕ)
      → CreateFlagDto
      → (now : ℕ) → Desk
      → Result ModerationError ModerationFlag × Desk
  create_flag reported_by dto now (s, t) =
      elim (flags.find_one (open_flag reported_by dto.content_type dto.content_id) (λ _. 0) s) [
        | some _ ↦ (err already_flagged, (s, t))
        | none ↦ elim (flags.insert (new_flag reported_by dto now) s) [
          | none ↦ (err save_failed, (s, t))
          | some (f, s') ↦ (ok f, (s', t))
        ]
      ]

  unfoldable pub find_flag : ℕ → flags.Store → Option ModerationFlag
  find_flag id s = flags.find_one (λ f. f.id == id) (λ _. 0) s

  -- The flag is saved first; the log of a review that it fails to write is missing.
  unfoldable pub review_flag :
      (admin_id flag_id : ℕ)
      → ReviewFlagDto
      → (now : ℕ) → Desk
      → Result ModerationError ModerationFlag × Desk
  unfolding find_flag
  review_flag admin_id flag_id dto now (s, t) = elim (find_flag flag_id s) [
    | none ↦ (err flag_not_found, (s, t))
    | some f ↦
        let f' = reviewed admin_id dto now f in
        elim (flags.save f' s) [
          | none ↦ (err save_failed, (s, t))
          | some s' ↦ elim (audit.insert (new_log flag_id admin_id f.status dto) t) [
            | none ↦ (err save_failed, (s', t))
            | some (_, t') ↦ (ok f', (s', t'))
          ]
        ]
  ]

  -- The order by created_at is left out: the logs are in the order of the table.
  unfoldable pub get_audit_log : ℕ → Desk → Result ModerationError (List ModerationAuditLog)
  unfolding find_flag
  get_audit_log flag_id (s, t) = elim (find_flag flag_id s) [
    | none ↦ err flag_not_found
    | some _ ↦ ok (audit.find (λ a. a.flag_id == flag_id) t)
  ]
