-- ===== src/Notifications/Service.antt =====
-- The service of notices: its queue, its windows, and what its calls do.
use my_fans.Common.{
  ℕ, ◌+◌, Bool, true, false, not, ◌&&◌, Option, none, some, List, [], ◌∷◌, ◌++◌, map, filter,
  get_or, leb, ltb, ◌==◌, if◌then◌else◌,
}
use my_fans.Common.Actions.{Result, ok, err}
use my_fans.Database.{Table, put}
use my_fans.Notifications.{
  DigestWindow, Email, NoticeRequest, Notification, QueueJob, completed, digest_key_for,
  digest_window_ms, email_of, failed, first_match, folded, is_failed, is_pending, is_processing,
  job_key, max_queue_attempts, new_notification, no_clash, notification_key, pending, processing,
  set_window,
}

-- What the service is made with: the outbox and the durable store of the queue, each with its state
-- and the error that it throws, if any; the recipients' preferences; and the message of a failed
-- write to the notifications. Without a durable store, `persist` does nothing.
pub record Ports : Type 1 where
  pub Mail : Type 0
  pub notifications : Table notification_key no_clash
  pub enqueue_email : Email → Mail → Option ℕ × Mail
  pub Disk : Type 0
  pub persist : QueueJob → Disk → Option ℕ × Disk
  pub allowed : ℕ → Bool
  pub write_failed : ℕ

module _ (ports : Ports) where
  open ports use {Mail, notifications, enqueue_email, Disk, persist, allowed, write_failed}

  pub record Service : Type 0 where
    pub retry_queue : List QueueJob
    pub completed_notifications : List (ℕ × Notification)
    pub digest_windows : List DigestWindow
    pub sent_emails : List Email
    pub store : notifications.Store
    pub mail : Mail
    pub disk : Disk

  abbrev pub find_job : ℕ → Service → Option QueueJob
  find_job key st = first_match (λ j. job_key j == key) st.retry_queue

  abbrev pub find_completed : ℕ → Service → Option Notification
  find_completed key st = elim (first_match (λ e. e.0 == key) st.completed_notifications) [
    | none ↦ none
    | some (k, n) ↦ some n
  ]

  abbrev pub set_job : QueueJob → Service → Service
  set_job j st = record st { retry_queue = put job_key j st.retry_queue }

  -- The window's times have the new one even when the save of the notification fails.
  abbrev fold_window :
      DigestWindow → Notification → Service → Result ℕ (Option Notification) × Service
  fold_window w n st =
      let n' = folded w.event_times n in
      elim (notifications.save n' st.store) [
        | none ↦ (err write_failed, st)
        | some s ↦ (ok (some n'), record st { store = s })
      ]

  unfoldable pub fold_into_digest :
      NoticeRequest → (event_time now : ℕ) → Service → Result ℕ (Option Notification) × Service
  fold_into_digest r event_time now st = elim (first_match (digest_key_for r) st.digest_windows) [
    | none ↦ (ok none, st)
    | some w ↦
        if ltb w.window_expires_at now
        then (ok none, st)
        else elim (notifications.find_one (λ n. n.id == w.notification_id) (λ _. 0) st.store) [
          | none ↦ (
            ok none,
            record st { digest_windows = filter (λ x. not (digest_key_for r x)) st.digest_windows },
          )
          | some n ↦
              let w' = record w { event_times = w.event_times ++ event_time ∷ [] } in
              fold_window w' n
                (record st { digest_windows = set_window (digest_key_for r) w' st.digest_windows })
        ]
  ]

  abbrev pub opened : NoticeRequest → (notification_id event_time now : ℕ) → DigestWindow
  opened r notification_id event_time now = record {
    user_id = r.recipient_user_id;
    event = r.event;
    creator_user_id = r.creator_user_id;
    notification_id = notification_id;
    event_times = event_time ∷ [];
    window_expires_at = now + digest_window_ms;
  }

  abbrev pub open_digest_window :
      NoticeRequest → (notification_id event_time now : ℕ) → Service → Service
  open_digest_window r notification_id event_time now st = record st {
    digest_windows =
        set_window (digest_key_for r) (opened r notification_id event_time now) st.digest_windows;
  }

  abbrev pub wants_email : NoticeRequest → Bool
  wants_email r = get_or r.email_enabled true && allowed r.recipient_user_id

  abbrev pub send_email :
      NoticeRequest → (event_time : ℕ) → Notification → Service → Result ℕ Notification × Service
  send_email r event_time n st =
      let mail = email_of r event_time in
      let (refused, m) = enqueue_email mail st.mail in
      let st' = record st { sent_emails = mail ∷ st.sent_emails; mail = m } in
      elim refused [ none ↦ (ok n, st') | some e ↦ (err e, st') ]

  unfoldable pub notify_new :
      NoticeRequest → (event_time now : ℕ) → Service → Result ℕ Notification × Service
  notify_new r event_time now st =
      elim (notifications.insert (new_notification r event_time) st.store) [
        | none ↦ (err write_failed, st)
        | some (n, s) ↦
            let st' = open_digest_window r n.id event_time now (record st { store = s }) in
            if wants_email r then send_email r event_time n st' else (ok n, st')
      ]

  -- The part of processQueueJob that may throw.
  unfoldable pub notify : NoticeRequest → (now : ℕ) → Service → Result ℕ Notification × Service
  unfolding fold_into_digest notify_new
  notify r now st =
      let event_time = get_or r.occurred_at now in
      let (res, st') = fold_into_digest r event_time now st in
      elim res [
        | err e ↦ (err e, st')
        | ok folds ↦ elim folds [ some n ↦ (ok n, st') | none ↦ notify_new r event_time now st' ]
      ]

  abbrev pub persist_retry_job : QueueJob → Service → Option ℕ × Service
  persist_retry_job j st = let (refused, d) = persist j st.disk in (refused, record st { disk = d })

  -- What a write to the durable store that throws makes of the call.
  abbrev pub after_persist {ℓ} :
      {A : Type ℓ} → Option ℕ × Service → (ℕ → Service → A) → (Service → A) → A
  after_persist (none, st) thrown next = next st
  after_persist (some e, st) thrown next = thrown e st

  abbrev pub unsettled : QueueJob → ℕ → QueueJob
  unsettled j e = record j {
    last_error = some e;
    status = if leb max_queue_attempts j.attempts then failed else pending;
  }

  abbrev pub Answer : Type 0
  Answer = Result ℕ (Option Notification) × Service

  -- The catch of processQueueJob.
  abbrev pub retry_or_fail : QueueJob → ℕ → Service → Answer
  retry_or_fail j e st =
      after_persist (persist_retry_job (unsettled j e) (set_job (unsettled j e) st))
        (λ e' st'. (err e', st')) (λ st'. (ok none, st'))

  abbrev pub done_job : QueueJob → QueueJob
  done_job j = record j { status = completed }

  abbrev pub keep_notice : QueueJob → Notification → Service → Service
  keep_notice j n st =
      set_job (done_job j)
        (record st { completed_notifications = (job_key j, n) ∷ st.completed_notifications })

  -- A notice is kept before its job is persisted, and a throw of that goes to the catch too.
  abbrev pub settle_job : QueueJob → Result ℕ Notification × Service → Answer
  settle_job j (ok n, st) =
      after_persist (persist_retry_job (done_job j) (keep_notice j n st))
        (λ e st'. retry_or_fail (done_job j) e st') (λ st'. (ok (some n), st'))
  settle_job j (err e, st) = retry_or_fail j e st

  -- The job is persisted before the try: when that throws, it stays as being processed.
  unfoldable pub process_queue_job : (dedupe_key now : ℕ) → Service → Answer
  unfolding notify
  process_queue_job dedupe_key now st = elim (find_job dedupe_key st) [
    | none ↦ (ok none, st)
    | some j ↦
        if is_processing j.status then (ok none, st) else elim (find_completed dedupe_key st) [
          | some n ↦ (ok (some n), st)
          | none ↦
              let j' = record j { status = processing; attempts = j.attempts + 1 } in
              after_persist (persist_retry_job j' (set_job j' st)) (λ e st'. (err e, st'))
                (λ st'. settle_job j' (notify j.payload now st'))
        ]
  ]

  -- A job with the key that has not failed keeps a second one out.
  abbrev pub is_taken : Option QueueJob → Bool
  is_taken none = false
  is_taken (some j) = not (is_failed j.status)

  abbrev pub new_job : NoticeRequest → QueueJob
  new_job r = record { payload = r; attempts = 0; status = pending; last_error = none }

  unfoldable pub enqueue_notification : NoticeRequest → (now : ℕ) → Service → Answer
  unfolding process_queue_job
  enqueue_notification r now st = elim (find_completed r.dedupe_key st) [
    | some n ↦ (ok (some n), st)
    | none ↦
        if is_taken (find_job r.dedupe_key st)
        then (ok none, st)
        else after_persist (persist_retry_job (new_job r) (set_job (new_job r) st))
            (λ e st'. (err e, st')) (λ st'. process_queue_job r.dedupe_key now st')
  ]

  -- An entry of the map, as it is when its turn comes.
  unfoldable pub process_turn : (dedupe_key now : ℕ) → Service → Answer
  unfolding process_queue_job
  process_turn dedupe_key now st = elim (find_job dedupe_key st) [
    | none ↦ (ok none, st)
    | some j ↦ if is_pending j.status then process_queue_job dedupe_key now st else (ok none, st)
  ]

  -- A throw ends the loop.
  abbrev pub next_turns :
      (Service → Result ℕ (Unit {0}) × Service) → Answer → Result ℕ (Unit {0}) × Service
  next_turns rest (ok _, st) = rest st
  next_turns rest (err e, st) = (err e, st)

  abbrev pub process_each : List ℕ → (now : ℕ) → Service → Result ℕ (Unit {0}) × Service
  process_each [] now st = (ok tt, st)
  process_each (k ∷ ks) now st = next_turns (process_each ks now) (process_turn k now st)

  unfoldable pub process_retry_queue : (now : ℕ) → Service → Result ℕ (Unit {0}) × Service
  process_retry_queue now st = process_each (map job_key st.retry_queue) now st
