-- ===== src/Notifications/Digest.antt =====
-- Notices that are folded into one.
use my_fans.Common.{
  ℕ, ◌+◌, ◌≤◌, ◌≡◌, ◌∙◌, refl, ap, Bool, true, false, ◌&&◌, none, some, List, [], ◌∷◌, ◌++◌, arith,
  length, Member, All-of_Member, inl, inr, Bool-cases, Option-cases, get_or, ◌==◌, ==_refl,
}
use my_fans.Common.Actions.{ok, err}
use my_fans.Database.Laws.{insert-eq-some, find_one-eq-some}
use my_fans.Database.Saves.{conflicts_free}
use my_fans.Notifications.{
  NoticeEvent, renewed, cancelled, same_event, NoticeRequest, Notification, QueueJob, pending,
  DigestWindow, digest_key_for, email_of, new_notification, folded, first_match, set_window,
  notification_key, no_clash,
}
use my_fans.Notifications.Service.{
  Ports, Service, find_job, find_completed, set_job, opened, open_digest_window, wants_email,
  settle_job, is_taken, fold_into_digest, notify_new, notify, process_queue_job,
  enqueue_notification, new_job, done_job, keep_notice, persist_retry_job, after_persist,
  process_turn, retry_or_fail,
}
use my_fans.Notifications.Calls.{first_match-put, attempt, disk_after, job_processed}
use my_fans.Notifications.Queue.{enqueued_new, turn_pending}

same_event_refl : (e : NoticeEvent) → same_event e e ≡ true
same_event_refl renewed = refl
same_event_refl cancelled = refl

digest_key_refl :
    (r : NoticeRequest)
    → ((r.recipient_user_id == r.recipient_user_id)
        && same_event r.event r.event
        && (r.creator_user_id == r.creator_user_id))
      ≡ true
digest_key_refl r =
    rw (==_refl r.recipient_user_id, same_event_refl r.event, ==_refl r.creator_user_id) refl

first_match-set_window :
    (same : DigestWindow → Bool) (w : DigestWindow) (ws : List DigestWindow)
    → same w ≡ true
    → first_match same (set_window same w ws) ≡ some w
first_match-set_window same w [] h = rw h refl
first_match-set_window same w (x ∷ xs) h = elim (Bool-cases (same x)) [
  | inl here ↦ rw here (rw h refl)
  | inr other ↦ rw other (rw other (first_match-set_window same w xs h))
]

module _ (ports : Ports) where
  open ports use {notifications, enqueue_email}

  -- When the event of a request happened.
  abbrev pub event_time : NoticeRequest → ℕ → ℕ
  event_time r now = get_or r.occurred_at now

  -- No window is open and the outbox throws: the window and the notification stay.
  abbrev refused_notice :
      NoticeRequest
      → (now : ℕ) → Service ports
      → Notification
      → notifications.Store
      → ports.Mail
      → Service ports
  refused_notice r now st n s m =
      record (open_digest_window ports r n.id (event_time r now) now (record st { store = s })) {
        sent_emails = email_of r (event_time r now) ∷ st.sent_emails;
        mail = m;
      }

  notify_refused :
      (r : NoticeRequest) (now e : ℕ) (st : Service ports) (m : ports.Mail)
      → wants_email ports r ≡ true
      → first_match (digest_key_for r) st.digest_windows ≡ none
      → enqueue_email (email_of r (event_time r now)) st.mail ≡ (some e, m)
      → (n : Notification) × (s : notifications.Store) × (notify ports r now st
          ≡ (err e, refused_notice r now st n s m))
        × Member n (notifications.rows s)
  unfolding notify fold_into_digest notify_new
  notify_refused r now e st m wants closed down =
      let t = event_time r now in
      let (n, s, made, row, grown) =
        insert-eq-some notifications (new_notification r t) st.store (λ k. refl)
          (λ k.
            All-of_Member (λ x. no_clash (new_notification r t k) x ≡ false)
              (notifications.rows st.store) (λ x h. refl)) in
      (n, s, ground arith, rw grown (inl refl))

  notify_folds :
      (r : NoticeRequest) (later : ℕ) (st : Service ports) (w : DigestWindow) (n : Notification)
      → first_match (digest_key_for r) st.digest_windows ≡ some w
      → later ≤ w.window_expires_at
      → Member n (notifications.rows st.store)
      → n.id ≡ w.notification_id
      → (n' : Notification) × (st' : Service ports) × (notify ports r later st ≡ (ok n', st'))
        × (n'.digest_event_times ≡ w.event_times ++ event_time r later ∷ [])
        × (n'.digest_count ≡ length (w.event_times ++ event_time r later ∷ []))
        × (st'.mail ≡ st.mail)
  unfolding notify fold_into_digest
  notify_folds r later st w n found open' m id =
      let times = w.event_times ++ event_time r later ∷ [] in
      let (x, there, _, _) =
        find_one-eq-some notifications (λ y. y.id == w.notification_id) (λ _. 0) st.store n m
          (ground arith) in
      let n' = folded times x in
      elim (Option-cases (notifications.save n' st.store)) [
        | inl refused ↦
            let yes' = notifications.save-none n' st.store refused in
            let no' = conflicts_free notification_key n' (notifications.rows st.store) in
            absurd (ground arith)
        | inr (s, written) ↦
            let w' = record w { event_times = times } in
            let st' = record st {
              digest_windows = set_window (digest_key_for r) w' st.digest_windows;
              store = s;
            } in
            (n', st', ground arith, refl, refl, refl)
      ]

  -- The durable store throws for no write.
  abbrev pub IsQuiet : Type 0
  IsQuiet = (j : QueueJob) (d : ports.Disk) → (ports.persist j d).0 ≡ none

  persisted {ℓ} :
      {A : Type ℓ} (j : QueueJob) (st : Service ports) (thrown : ℕ → Service ports → A)
      (next : Service ports → A)
      → IsQuiet
      → after_persist ports (persist_retry_job ports j st) thrown next
        ≡ next (disk_after ports j st)
  persisted j st thrown next quiet = rw (quiet j st.disk) refl

  -- The job after its first failure.
  abbrev failed_once : NoticeRequest → ℕ → QueueJob
  failed_once r e = record (new_job ports r) { attempts = 1; last_error = some e }

  -- A first request with a key whose email the outbox refuses by throwing, when no window is open for
  -- its recipient, event and creator, and the durable store throws for no write: the call answers
  -- nothing, and its job stays pending after one try. The turn that the worker gives it within the
  -- five minutes of the window finds the window that the failed attempt has opened, and takes the
  -- request's own event for a second one: the notification counts two events, with the one event's
  -- time twice where the request gives it, and the outbox is asked for nothing.
  pub retry_counts_twice :
      (r : NoticeRequest) (now later e : ℕ) (st : Service ports) (m : ports.Mail)
      → find_completed ports r.dedupe_key st ≡ none
      → is_taken ports (find_job ports r.dedupe_key st) ≡ false
      → wants_email ports r ≡ true
      → first_match (digest_key_for r) st.digest_windows ≡ none
      → enqueue_email (email_of r (event_time r now)) st.mail ≡ (some e, m)
      → IsQuiet
      → later ≤ now + 300000
      → (st1 : Service ports) × (st2 : Service ports) × (j : QueueJob) × (n : Notification)
        × (enqueue_notification ports r now st ≡ (ok none, st1))
        × (find_job ports r.dedupe_key st1 ≡ some j)
        × (j.status ≡ pending)
        × (j.attempts ≡ 1)
        × (process_turn ports r.dedupe_key later st1 ≡ (ok (some n), st2))
        × (n.digest_count ≡ 2)
        × (n.digest_event_times ≡ event_time r now ∷ event_time r later ∷ [])
        × (st2.mail ≡ st1.mail)
  retry_counts_twice r now later e st m new free wants closed down quiet soon =
      let j0 = new_job ports r in
      let a = attempt ports j0 in
      let sa = disk_after ports j0 (set_job ports j0 st) in
      let sb = disk_after ports a (set_job ports a sa) in
      let (n, s, refused, there) = notify_refused r now e sb m wants closed down in
      let s1 = refused_notice r now sb n s m in
      let j1 = failed_once r e in
      let st1 = disk_after ports j1 (set_job ports j1 s1) in
      let first : enqueue_notification ports r now st ≡ (ok none, st1) =
        enqueued_new ports r now st new free
        ∙ persisted j0 (set_job ports j0 st) (λ e' x. (err e', x))
            (process_queue_job ports r.dedupe_key now) quiet
        ∙ job_processed ports r.dedupe_key now sa j0 (first_match-put j0 st.retry_queue) refl new
        ∙ persisted a (set_job ports a sa) (λ e' x. (err e', x))
            (λ x. settle_job ports a (notify ports r now x)) quiet
        ∙ ap (settle_job ports a) refused
        ∙ persisted j1 (set_job ports j1 s1) (λ e' x. (err e', x)) (λ x. (ok none, x)) quiet in
      let waiting : find_job ports r.dedupe_key st1 ≡ some j1 = first_match-put j1 s1.retry_queue in
      let a2 = attempt ports j1 in
      let sc = disk_after ports a2 (set_job ports a2 st1) in
      let own : digest_key_for r (opened ports r n.id (event_time r now) now) ≡ true =
        digest_key_refl r in
      let (n', s2, folds, times, count, mail) =
        notify_folds r later sc (opened ports r n.id (event_time r now) now) n
          (first_match-set_window (digest_key_for r) (opened ports r n.id (event_time r now) now)
            st.digest_windows own)
          soon there refl in
      let s3 = keep_notice ports a2 n' s2 in
      let d = done_job ports a2 in
      let second =
        turn_pending ports r.dedupe_key later st1 j1 waiting refl
        ∙ job_processed ports r.dedupe_key later st1 j1 waiting refl new
        ∙ persisted a2 (set_job ports a2 st1) (λ e' x. (err e', x))
            (λ x. settle_job ports a2 (notify ports r later x)) quiet
        ∙ ap (settle_job ports a2) folds
        ∙ persisted d s3 (λ e' x. retry_or_fail ports d e' x) (λ x. (ok (some n'), x)) quiet in
      (st1, disk_after ports d s3, j1, n', first, waiting, refl, refl, second, count, times, mail)
