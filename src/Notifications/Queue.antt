-- ===== src/Notifications/Queue.antt =====
-- A notice is given once for its key.
use my_fans.Common.{
  ℕ, ◌≡◌, ◌∙◌, refl, sym, ap, true, false, none, some, List, [], ◌∷◌, arith, map, inl, inr,
  Bool-cases, Option-cases, ◌==◌,
}
use my_fans.Common.Actions.{ok, err, Result-cases}
use my_fans.Notifications.{NoticeRequest, Notification, QueueJob, job_key, is_pending}
use my_fans.Notifications.Service.{
  Ports, Service, find_job, find_completed, set_job, is_taken, process_queue_job,
  enqueue_notification, persist_retry_job, after_persist, new_job, process_turn, process_each,
  process_retry_queue, Answer,
}
use my_fans.Notifications.Calls.{disk_after, IsKeeping, process-IsKeeping}

module _ (ports : Ports) where
  pub completed_before :
      (r : NoticeRequest) (now : ℕ) (st : Service ports) (n : Notification)
      → find_completed ports r.dedupe_key st ≡ some n
      → enqueue_notification ports r now st ≡ (ok (some n), st)
  unfolding enqueue_notification
  completed_before r now st n e = ground arith

  pub enqueued_new :
      (r : NoticeRequest) (now : ℕ) (st : Service ports)
      → find_completed ports r.dedupe_key st ≡ none
      → is_taken ports (find_job ports r.dedupe_key st) ≡ false
      → enqueue_notification ports r now st
        ≡ after_persist ports
            (persist_retry_job ports (new_job ports r) (set_job ports (new_job ports r) st))
            (λ e st'. (err e, st'))
            (λ st'. process_queue_job ports r.dedupe_key now st')
  unfolding enqueue_notification
  enqueued_new r now st new free = ground arith

  pub enqueued_taken :
      (r : NoticeRequest) (now : ℕ) (st : Service ports)
      → find_completed ports r.dedupe_key st ≡ none
      → is_taken ports (find_job ports r.dedupe_key st) ≡ true
      → enqueue_notification ports r now st ≡ (ok none, st)
  unfolding enqueue_notification
  enqueued_taken r now st new busy = ground arith

  enqueue-IsKeeping :
      (r : NoticeRequest) (now : ℕ) (st : Service ports)
      → IsKeeping ports r.dedupe_key st (enqueue_notification ports r now st)
  enqueue-IsKeeping r now st = elim (Option-cases (find_completed ports r.dedupe_key st)) [
    | inr (m, had) ↦ rw (completed_before r now st m had) (inl refl, λ n e. had ∙ ground arith)
    | inl new ↦ elim (Bool-cases (is_taken ports (find_job ports r.dedupe_key st))) [
      | inl busy ↦ rw (enqueued_taken r now st new busy) (inl refl, λ n e. absurd (ground arith))
      | inr free ↦ elim (Option-cases (ports.persist (new_job ports r) st.disk).0) [
        | inr (e, thrown) ↦
            rw (enqueued_new r now st new free, thrown) (inl refl, λ n e. absurd (ground arith))
        | inl fine ↦
            rw (enqueued_new r now st new free, fine)
              (process-IsKeeping ports r.dedupe_key now
                (disk_after ports (new_job ports r) (set_job ports (new_job ports r) st)))
      ]
    ]
  ]

  -- A call for one key leaves the notice of every key that has one.
  still_kept :
      (key other : ℕ) (n : Notification) (st : Service ports) (c : Answer ports)
      → IsKeeping ports other st c
      → find_completed ports key st ≡ some n
      → find_completed ports key c.1 ≡ some n
  still_kept key other n st c (inl same, _) had = rw same had
  still_kept key other n st c (inr (m, more, new), _) had = elim (Bool-cases (other == key)) [
    | inr apart ↦ rw more (ground arith)
    | inl one ↦
        let e : other ≡ key = ground arith in
        let none' = ap (λ k. find_completed ports k st) e in absurd (ground arith)
  ]

  pub turn_none :
      (key now : ℕ) (st : Service ports)
      → find_job ports key st ≡ none
      → process_turn ports key now st ≡ (ok none, st)
  unfolding process_turn
  turn_none key now st e = ground arith

  pub turn_idle :
      (key now : ℕ) (st : Service ports) (j : QueueJob)
      → find_job ports key st ≡ some j
      → is_pending j.status ≡ false
      → process_turn ports key now st ≡ (ok none, st)
  unfolding process_turn
  turn_idle key now st j e idle = ground arith

  pub turn_pending :
      (key now : ℕ) (st : Service ports) (j : QueueJob)
      → find_job ports key st ≡ some j
      → is_pending j.status ≡ true
      → process_turn ports key now st ≡ process_queue_job ports key now st
  unfolding process_turn
  turn_pending key now st j e waits = ground arith

  turn_kept :
      (key k now : ℕ) (n : Notification) (st : Service ports)
      → find_completed ports key st ≡ some n
      → find_completed ports key (process_turn ports k now st).1 ≡ some n
  turn_kept key k now n st had = elim (Option-cases (find_job ports k st)) [
    | inl nobody ↦ rw (turn_none k now st nobody) had
    | inr (j, found) ↦ elim (Bool-cases (is_pending j.status)) [
      | inr idle ↦ rw (turn_idle k now st j found idle) had
      | inl waits ↦ rw (turn_pending k now st j found waits) (
          still_kept key k n st (process_queue_job ports k now st)
            (process-IsKeeping ports k now st) had)
    ]
  ]

  process_each_kept :
      (key : ℕ) (n : Notification) (ks : List ℕ) (now : ℕ) (st : Service ports)
      → find_completed ports key st ≡ some n
      → find_completed ports key (process_each ports ks now st).1 ≡ some n
  process_each_kept key n [] now st had = had
  process_each_kept key n (k ∷ ks) now st had =
      let kept = turn_kept key k now n st had in
      let rest = process_each_kept key n ks now (process_turn ports k now st).1 kept in
      elim (Result-cases (process_turn ports k now st).0) [
        | inl (a, fine) ↦ rw fine rest
        | inr (e, thrown) ↦ rw thrown kept
      ]

  -- What the service is called for: a notice at an instant, or a tick of the worker.
  pub data Ask : Type 0 where
    notice : NoticeRequest → ℕ → Ask
    tick : ℕ → Ask

  abbrev pub asked : Ask → Service ports → Service ports
  asked (notice r now) st = (enqueue_notification ports r now st).1
  asked (tick now) st = (process_retry_queue ports now st).1

  abbrev pub served : List Ask → Service ports → Service ports
  served [] st = st
  served (a ∷ as') st = served as' (asked a st)

  served_kept :
      (key : ℕ) (n : Notification) (asks : List Ask) (st : Service ports)
      → find_completed ports key st ≡ some n
      → find_completed ports key (served asks st) ≡ some n
  unfolding process_retry_queue
  served_kept key n [] st had = had
  served_kept key n (notice r now ∷ as') st had = served_kept key n as' (asked (notice r now) st) (
      still_kept key r.dedupe_key n st (enqueue_notification ports r now st)
        (enqueue-IsKeeping r now st) had)
  served_kept key n (tick now ∷ as') st had =
      served_kept key n as' (asked (tick now) st)
        (process_each_kept key n (map job_key st.retry_queue) now st had)

  -- In one run of the process: a notice that was given for a key is given again for a later request
  -- with the key, at whatever time, with whatever else it asks for, and after any other requests and
  -- ticks of the worker in between, whatever the outbox and the durable store answer to those, throws
  -- included. The later request changes nothing: no second notification is made, none is counted up,
  -- and no email is queued.
  pub enqueue_notification_once :
      (r r' : NoticeRequest) (now later : ℕ) (asks : List Ask) (st st' : Service ports)
      (n : Notification)
      → r'.dedupe_key ≡ r.dedupe_key
      → enqueue_notification ports r now st ≡ (ok (some n), st')
      → enqueue_notification ports r' later (served asks st') ≡ (ok (some n), served asks st')
  enqueue_notification_once r r' now later asks st st' n same e =
      let given = (enqueue-IsKeeping r now st).1 n (ap (λ x. x.0) e) in
      let kept : find_completed ports r.dedupe_key st' ≡ some n =
        sym (ap (λ x. find_completed ports r.dedupe_key x.1) e) ∙ given in
      let still = served_kept r.dedupe_key n asks st' kept in
      completed_before r' later (served asks st') n
        (ap (λ k. find_completed ports k (served asks st')) same ∙ still)
