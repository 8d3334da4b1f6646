-- ===== src/Notifications.antt =====
-- backend/src/notifications/notifications.service.ts: notices of renewals and cancellations, with
-- their retry queue and the windows in which notices are folded into one. Texts of notices are data:
-- what the template is made from. The durable store of the queue is a port, whose writes may throw.
-- That of the windows, whose writes nothing waits for and whose failures are dropped, and the reading
-- of both at the start of the process are left out.
pub mod Service
pub mod Calls
pub mod Queue
pub mod Attempts
pub mod Digest
mod Tests
use my_fans.Common.{
  ℕ, ◌+◌, Bool, true, false, not, ◌&&◌, Option, none, some, List, [], ◌∷◌, ◌++◌, map, filter,
  length, get_or, leb, ltb, ◌==◌, if◌then◌else◌,
}
use my_fans.Common.Actions.{Result, ok, err}
use my_fans.Database.{Table, put}

pub data NoticeEvent : Type 0 where
  renewed cancelled : NoticeEvent

abbrev pub same_event : NoticeEvent → NoticeEvent → Bool
same_event renewed renewed = true
same_event renewed cancelled = false
same_event cancelled renewed = false
same_event cancelled cancelled = true

-- `occurred_at` and `email_enabled` may be left out.
pub record NoticeRequest : Type 0 where
  pub dedupe_key : ℕ
  pub event : NoticeEvent
  pub recipient_user_id : ℕ
  pub creator_user_id : ℕ
  pub creator_display_name : Option ℕ
  pub subscription_id : ℕ
  pub plan_id : ℕ
  pub occurred_at : Option ℕ
  pub email_enabled : Option Bool

pub data Text : Type 0 where
  title_one : NoticeEvent → Text
  body_one : NoticeEvent → (creator : ℕ) → Text
  title_of : NoticeEvent → (count : ℕ) → Text
  body_of : NoticeEvent → (count : ℕ) → Text
  email_subject : NoticeEvent → (creator : ℕ) → Text
  email_body : NoticeEvent → (creator occurred_at : ℕ) → Text

pub record Notification : Type 0 where
  pub id : ℕ
  pub user_id : ℕ
  pub event : NoticeEvent
  pub title : Text
  pub body : Text
  pub dedupe_key : ℕ
  pub digest_count : ℕ
  pub digest_event_times : List ℕ

abbrev pub notification_key : Notification → ℕ
notification_key n = n.id

abbrev pub no_clash : Notification → Notification → Bool
no_clash _ _ = false

pub data JobStatus : Type 0 where
  pending processing completed failed : JobStatus

abbrev pub is_pending : JobStatus → Bool
is_pending s = elim s [ pending ↦ true | _ ↦ false ]

abbrev pub is_processing : JobStatus → Bool
is_processing s = elim s [ processing ↦ true | _ ↦ false ]

abbrev pub is_failed : JobStatus → Bool
is_failed s = elim s [ failed ↦ true | _ ↦ false ]

pub record QueueJob : Type 0 where
  pub payload : NoticeRequest
  pub attempts : ℕ
  pub status : JobStatus
  pub last_error : Option ℕ

-- The key of `retryQueue`.
abbrev pub job_key : QueueJob → ℕ
job_key j = j.payload.dedupe_key

pub record DigestWindow : Type 0 where
  pub user_id : ℕ
  pub event : NoticeEvent
  pub creator_user_id : ℕ
  pub notification_id : ℕ
  pub event_times : List ℕ
  pub window_expires_at : ℕ

abbrev pub digest_key_for : NoticeRequest → DigestWindow → Bool
digest_key_for r w =
    (w.user_id == r.recipient_user_id)
    && same_event w.event r.event
    && (w.creator_user_id == r.creator_user_id)

pub record Email : Type 0 where
  pub dedupe_key : ℕ
  pub to_user_id : ℕ
  pub subject : Text
  pub body : Text

abbrev pub max_queue_attempts : ℕ
max_queue_attempts = 3

abbrev pub digest_window_ms : ℕ
digest_window_ms = 300000

abbrev pub creator_name : NoticeRequest → ℕ
creator_name r = get_or r.creator_display_name r.creator_user_id

-- The template with a count of one, which is all that the queue asks for.
abbrev pub new_notification : NoticeRequest → (event_time id : ℕ) → Notification
new_notification r event_time id = record {
  id = id;
  user_id = r.recipient_user_id;
  event = r.event;
  title = title_one r.event;
  body = body_one r.event (creator_name r);
  dedupe_key = r.dedupe_key;
  digest_count = 1;
  digest_event_times = event_time ∷ [];
}

abbrev pub email_of : NoticeRequest → (event_time : ℕ) → Email
email_of r event_time = record {
  dedupe_key = r.dedupe_key;
  to_user_id = r.recipient_user_id;
  subject = email_subject r.event (creator_name r);
  body = email_body r.event (creator_name r) event_time;
}

abbrev pub folded : List ℕ → Notification → Notification
folded event_times n = record n {
  digest_count = length event_times;
  digest_event_times = event_times;
  title = title_of n.event (length event_times);
  body = body_of n.event (length event_times);
}

abbrev pub first_match {ℓ} : {A : Type ℓ} → (A → Bool) → List A → Option A
first_match p [] = none
first_match p (x ∷ xs) = if p x then some x else first_match p xs

-- `Map.set` on the windows.
abbrev pub set_window : (DigestWindow → Bool) → DigestWindow → List DigestWindow → List DigestWindow
set_window same w [] = w ∷ []
set_window same w (x ∷ xs) = if same x then w ∷ xs else x ∷ set_window same w xs
