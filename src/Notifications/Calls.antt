-- ===== src/Notifications/Calls.antt =====
-- What the calls of the queue do to the notices that are kept.
use my_fans.Common.{
  ℕ, ◌+◌, ◌≡◌, ◌∙◌, refl, sym, ap, true, false, none, some, List, [], ◌∷◌, arith, inl, inr, ◌⊎◌,
  Bool-cases, Option-cases, ◌==◌, ==_refl,
}
use my_fans.Common.Actions.{Result, ok, err}
use my_fans.Database.{put}
use my_fans.Notifications.{
  NoticeRequest, Notification, QueueJob, processing, job_key, is_processing, first_match,
}
use my_fans.Notifications.Service.{
  Ports, Service, find_job, find_completed, set_job, settle_job, notify, fold_into_digest,
  notify_new, process_queue_job, persist_retry_job, after_persist, unsettled, retry_or_fail,
  done_job, keep_notice, Answer,
}

-- What was set under a key is found there.
pub first_match-put :
    (j : QueueJob) (js : List QueueJob)
    → first_match (λ x. job_key x == job_key j) (put job_key j js) ≡ some j
first_match-put j [] = ground (arith, ==_refl (job_key j))
first_match-put j (x ∷ xs) = elim (Bool-cases (job_key x == job_key j)) [
  | inl same ↦ rw same (ground (arith, ==_refl (job_key j)))
  | inr other ↦ rw other (rw other (first_match-put j xs))
]

module _ (ports : Ports) where
  abbrev pub attempt : QueueJob → QueueJob
  attempt j = record j { status = processing; attempts = j.attempts + 1 }

  -- A write to the durable store changes nothing else of the service.
  abbrev pub disk_after : QueueJob → Service ports → Service ports
  disk_after j st = record st { disk = (ports.persist j st.disk).1 }

  -- A job that is not being processed and has no notice yet.
  pub job_processed :
      (key now : ℕ) (st : Service ports) (j : QueueJob)
      → find_job ports key st ≡ some j
      → is_processing j.status ≡ false
      → find_completed ports key st ≡ none
      → process_queue_job ports key now st
        ≡ after_persist ports
            (persist_retry_job ports (attempt j) (set_job ports (attempt j) st))
            (λ e st'. (err e, st'))
            (λ st'. settle_job ports (attempt j) (notify ports j.payload now st'))
  unfolding process_queue_job
  job_processed key now st j found idle new = ground arith

  pub retry_or_fail_lem :
      (j : QueueJob) (e : ℕ) (st : Service ports)
      → ((retry_or_fail ports j e st).1.completed_notifications ≡ st.completed_notifications)
        × ((retry_or_fail ports j e st).1.retry_queue
            ≡ put job_key (unsettled ports j e) st.retry_queue)
  retry_or_fail_lem j e st = elim (Option-cases (ports.persist (unsettled ports j e) st.disk).0) [
    | inl fine ↦ rw fine (refl, refl)
    | inr (e', thrown) ↦ rw thrown (refl, refl)
  ]

  notify_notices :
      (r : NoticeRequest) (now : ℕ) (st : Service ports)
      → (notify ports r now st).1.completed_notifications ≡ st.completed_notifications
  unfolding notify fold_into_digest notify_new
  notify_notices r now st = ground arith

  settled_notices :
      (j : QueueJob) (c : Result ℕ Notification × Service ports)
      → ((settle_job ports j c).1.completed_notifications ≡ c.1.completed_notifications)
        ⊎ ((n : Notification) × ((settle_job ports j c).1.completed_notifications
              ≡ (job_key j, n) ∷ c.1.completed_notifications))
  settled_notices j (err e, st) = inl (retry_or_fail_lem j e st).0
  settled_notices j (ok n, st) = elim (Option-cases (ports.persist (done_job ports j) st.disk).0) [
    | inl fine ↦ inr (n, rw fine refl)
    | inr (e, thrown) ↦
        let kept =
          (retry_or_fail_lem (done_job ports j) e
            (disk_after (done_job ports j) (keep_notice ports j n st))).0 in
        inr (n, rw thrown kept)
  ]

  -- Catching a throw gives no notice.
  retry_or_fail_none :
      (j : QueueJob) (e : ℕ) (st st' : Service ports) (n : Notification)
      → ¬ (retry_or_fail ports j e st ≡ (ok (some n), st'))
  retry_or_fail_none j e st st' n h =
      elim (Option-cases (ports.persist (unsettled ports j e) st.disk).0) [
        | inl fine ↦ let h' = rw fine at h in ground arith
        | inr (e', thrown) ↦ let h' = rw thrown at h in ground arith
      ]

  -- A settled notice is kept under its key.
  settled_kept :
      (j : QueueJob) (c : Result ℕ Notification × Service ports) (n : Notification)
      (st' : Service ports)
      → settle_job ports j c ≡ (ok (some n), st')
      → find_completed ports (job_key j) st' ≡ some n
  settled_kept j (err e, st) n st' h = absurd (retry_or_fail_none j e st st' n h)
  settled_kept j (ok m, st) n st' h =
      elim (Option-cases (ports.persist (done_job ports j) st.disk).0) [
        | inl fine ↦
            let h' = rw fine at h in
            let same : m ≡ n = ground arith in
            let after : disk_after (done_job ports j) (keep_notice ports j m st) ≡ st' =
              ap (λ x. x.1) h' in
            sym (ap (find_completed ports (job_key j)) after) ∙ ground (arith, ==_refl (job_key j))
        | inr (e, thrown) ↦
            let h' = rw thrown at h in
            absurd (
              retry_or_fail_none (done_job ports j) e
                (disk_after (done_job ports j) (keep_notice ports j m st)) st' n h')
      ]

  found_key :
      (key : ℕ) (js : List QueueJob) (j : QueueJob)
      → first_match (λ x. job_key x == key) js ≡ some j
      → job_key j ≡ key
  found_key key [] j e = absurd (ground arith)
  found_key key (x ∷ xs) j e = elim (Bool-cases (job_key x == key)) [
    | inl same ↦
        let e' = rw same at e in
        let one : x ≡ j = ground arith in
        let k : job_key x ≡ job_key j = ap job_key one in ground arith
    | inr other ↦ found_key key xs j (rw other at e)
  ]

  process_idle :
      (key now : ℕ) (st : Service ports)
      → find_job ports key st ≡ none
      → process_queue_job ports key now st ≡ (ok none, st)
  unfolding process_queue_job
  process_idle key now st e = ground arith

  process_busy :
      (key now : ℕ) (st : Service ports) (j : QueueJob)
      → find_job ports key st ≡ some j
      → is_processing j.status ≡ true
      → process_queue_job ports key now st ≡ (ok none, st)
  unfolding process_queue_job
  process_busy key now st j e busy = ground arith

  pub answered :
      (key now : ℕ) (st : Service ports) (j : QueueJob) (n : Notification)
      → find_job ports key st ≡ some j
      → is_processing j.status ≡ false
      → find_completed ports key st ≡ some n
      → process_queue_job ports key now st ≡ (ok (some n), st)
  unfolding process_queue_job
  answered key now st j n found idle had = ground arith

  -- What a call may do to the notices: nothing, or one more for a key that had none; and a notice
  -- that it answers is kept.
  abbrev pub IsKeeping : (key : ℕ) (st : Service ports) → Answer ports → Type 0
  IsKeeping key st c =
      ((c.1.completed_notifications ≡ st.completed_notifications)
        ⊎ ((n : Notification) × (c.1.completed_notifications
              ≡ (key, n) ∷ st.completed_notifications)
            × (find_completed ports key st ≡ none)))
      × ((n : Notification) → c.0 ≡ ok (some n) → find_completed ports key c.1 ≡ some n)

  settled-IsKeeping :
      (key : ℕ) (j : QueueJob) (st : Service ports) (c : Result ℕ Notification × Service ports)
      → job_key j ≡ key
      → find_completed ports key st ≡ none
      → c.1.completed_notifications ≡ st.completed_notifications
      → IsKeeping key st (settle_job ports j c)
  settled-IsKeeping key j st c id new same = (
    elim (settled_notices j c) [
      | inl still ↦ inl (still ∙ same)
      | inr (n, more) ↦ inr (n, more ∙ cc, new)
    ],
    λ n e.
        ap (λ k. find_completed ports k (settle_job ports j c).1) (sym id)
        ∙ settled_kept j c n (settle_job ports j c).1 (ap (λ a. (a, (settle_job ports j c).1)) e),
  )

  pub process-IsKeeping :
      (key now : ℕ) (st : Service ports) → IsKeeping key st (process_queue_job ports key now st)
  process-IsKeeping key now st = elim (Option-cases (find_job ports key st)) [
    | inl nobody ↦ rw (process_idle key now st nobody) (inl refl, λ n e. absurd (ground arith))
    | inr (j, found) ↦ elim (Bool-cases (is_processing j.status)) [
      | inl busy ↦
          rw (process_busy key now st j found busy) (inl refl, λ n e. absurd (ground arith))
      | inr idle ↦ elim (Option-cases (find_completed ports key st)) [
        | inr (m, had) ↦
            rw (answered key now st j m found idle had) (inl refl, λ n e. had ∙ ground arith)
        | inl new ↦
            let started = set_job ports (attempt j) st in
            elim (Option-cases (ports.persist (attempt j) st.disk).0) [
              | inr (e, thrown) ↦
                  rw (job_processed key now st j found idle new, thrown)
                    (inl refl, λ n e. absurd (ground arith))
              | inl fine ↦
                  rw (job_processed key now st j found idle new, fine)
                    (settled-IsKeeping key (attempt j) st
                      (notify ports j.payload now (disk_after (attempt j) started))
                      (found_key key st.retry_queue j found) new
                      (notify_notices j.payload now (disk_after (attempt j) started)))
            ]
      ]
    ]
  ]
