-- ===== src/Notifications/Tests.antt =====
-- Notices, with an outbox that throws for its first email, and a durable store that counts writes.
use my_fans.Common.{ℕ, ◌+◌, ◌≡◌, refl, Bool, true, false, none, some, [], ◌∷◌, arith, if◌then◌else◌}
use my_fans.Common.Actions.{ok}
use my_fans.Database.ListTable.{list_table}
use my_fans.Notifications.{
  renewed, NoticeRequest, Notification, QueueJob, pending, completed, email_of, new_notification,
  notification_key, no_clash,
}
use my_fans.Notifications.Service.{
  Ports, Service, opened, fold_into_digest, notify_new, notify, process_queue_job,
  enqueue_notification, find_job, process_turn,
}
use my_fans.Notifications.Queue.{notice, tick, served, enqueue_notification_once}
use my_fans.Notifications.Digest.{retry_counts_twice}

-- The outbox throws while it is down; each email that it is asked for brings it up.
abbrev ports : Ports
ports = record {
  Mail = Bool;
  notifications = list_table notification_key no_clash;
  enqueue_email = λ e up. (if up then none else some 71, true);
  Disk = ℕ;
  persist = λ j written. (none, written + 1);
  allowed = λ user. true;
  write_failed = 23505;
}

abbrev fresh : Bool → Service ports
fresh up = record {
  retry_queue = [];
  completed_notifications = [];
  digest_windows = [];
  sent_emails = [];
  store = [];
  mail = up;
  disk = 0;
}

abbrev renewal : NoticeRequest
renewal = record {
  dedupe_key = 5;
  event = renewed;
  recipient_user_id = 7;
  creator_user_id = 9;
  creator_display_name = none;
  subscription_id = 3;
  plan_id = 1;
  occurred_at = some 400;
  email_enabled = none;
}

abbrev job : QueueJob
job = record { payload = renewal; attempts = 1; status = completed; last_error = none }

abbrev notified : Notification
notified = new_notification renewal 400 0

abbrev after_it : Service ports
after_it = record {
  retry_queue = job ∷ [];
  completed_notifications = (5, notified) ∷ [];
  digest_windows = opened ports renewal 0 400 500 ∷ [];
  sent_emails = email_of renewal 400 ∷ [];
  store = notified ∷ [];
  mail = true;
  disk = 3;
}

given : enqueue_notification ports renewal 500 (fresh true) ≡ (ok (some notified), after_it)
unfolding enqueue_notification process_queue_job notify fold_into_digest notify_new
given = refl

enqueue_notification_once_example :
    enqueue_notification ports
      (record renewal { subscription_id = 4 })
      900
      (served ports (notice (record renewal { dedupe_key = 6 }) 600 ∷ tick 700 ∷ []) after_it)
    ≡ (
      ok (some notified),
      served ports (notice (record renewal { dedupe_key = 6 }) 600 ∷ tick 700 ∷ []) after_it,
    )
enqueue_notification_once_example =
    enqueue_notification_once ports renewal (record renewal { subscription_id = 4 }) 500 900
      (notice (record renewal { dedupe_key = 6 }) 600 ∷ tick 700 ∷ []) (fresh true) after_it
      notified refl given

retry_counts_twice_example :
    (st1 : Service ports) × (st2 : Service ports) × (j : QueueJob) × (n : Notification)
    × (enqueue_notification ports renewal 500 (fresh false) ≡ (ok none, st1))
    × (find_job ports 5 st1 ≡ some j)
    × (j.status ≡ pending)
    × (j.attempts ≡ 1)
    × (process_turn ports 5 60500 st1 ≡ (ok (some n), st2))
    × (n.digest_count ≡ 2)
    × (n.digest_event_times ≡ 400 ∷ 400 ∷ [])
    × (st2.mail ≡ st1.mail)
retry_counts_twice_example =
    retry_counts_twice ports renewal 500 60500 71 (fresh false) true refl refl refl refl refl
      (λ j d. refl) (omega arith)
