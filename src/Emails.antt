-- ===== src/Emails.antt =====
-- backend/src/notifications/email-outbox.service.ts and its entity: emails that are stored before
-- they are sent. Texts (addresses, subjects, bodies, messages of errors) are numbers.
pub mod Delivery
pub mod Queueing
pub mod Retries
mod Tests
use my_fans.Common.{
  ℕ, ◌+◌, Bool, true, false, Option, none, some, List, [], ◌∷◌, leb, ◌==◌, if◌then◌else◌,
}
use my_fans.Common.Actions.{Result, ok, err}
use my_fans.Database.{Table}

pub data EmailOutboxStatus : Type 0 where
  pending sent failed : EmailOutboxStatus

pub record EmailOutboxEntry : Type 0 where
  pub id : ℕ
  pub dedupe_key : ℕ
  pub to_user_id : ℕ
  pub subject : ℕ
  pub body : ℕ
  pub status : EmailOutboxStatus
  pub attempts : ℕ
  pub last_error : Option ℕ
  pub sent_at : Option ℕ

pub record EnqueueEmailRequest : Type 0 where
  pub dedupe_key : ℕ
  pub to_user_id : ℕ
  pub subject : ℕ
  pub body : ℕ

pub record EmailMessage : Type 0 where
  pub recipient : ℕ
  pub subject : ℕ
  pub body : ℕ

abbrev pub entry_key : EmailOutboxEntry → ℕ
entry_key e = e.id

-- @Unique(['dedupe_key'])
abbrev pub same_dedupe : EmailOutboxEntry → EmailOutboxEntry → Bool
same_dedupe e x = x.dedupe_key == e.dedupe_key

abbrev pub is_pending : EmailOutboxEntry → Bool
is_pending e = elim e.status [ pending ↦ true | _ ↦ false ]

abbrev pub max_attempts : ℕ
max_attempts = 5

abbrev pub new_entry : EnqueueEmailRequest → ℕ → EmailOutboxEntry
new_entry r id = record {
  id = id;
  dedupe_key = r.dedupe_key;
  to_user_id = r.to_user_id;
  subject = r.subject;
  body = r.body;
  status = pending;
  attempts = 0;
  last_error = none;
  sent_at = none;
}

abbrev pub message : EmailOutboxEntry → EmailMessage
message e = record { recipient = e.to_user_id; subject = e.subject; body = e.body }

abbrev pub marked_sent : ℕ → EmailOutboxEntry → EmailOutboxEntry
marked_sent at e = record e { status = sent; sent_at = some at; last_error = none }

abbrev pub marked_failed : ℕ → EmailOutboxEntry → EmailOutboxEntry
marked_failed error e = record e {
  attempts = e.attempts + 1;
  last_error = some error;
  status = if leb max_attempts (e.attempts + 1) then failed else pending;
}

-- `send` is the adapter's: with what its server is (`Net`), it answers the message of an error or
-- none. `now` is the clock. An error of the database has the message `unique_violation`.
module _ {Net : Type 0} (repo : Table entry_key same_dedupe)
    (send : EmailMessage → Net → Option ℕ × Net) (now : Net → ℕ) (unique_violation : ℕ) where
  abbrev pub Outbox : Type 0
  Outbox = repo.Store × Net

  abbrev count_failure : ℕ → EmailOutboxEntry → Outbox → Result ℕ EmailOutboxEntry × Outbox
  count_failure error e (s, net) =
      let e' = marked_failed error e in
      elim (repo.save e' s) [
        | none ↦ (err unique_violation, (s, net))
        | some s' ↦ (ok e', (s', net))
      ]

  -- The entry is as it is mutated: a failed save after a delivery counts as a failure of it.
  unfoldable pub deliver : EmailOutboxEntry → Outbox → Result ℕ EmailOutboxEntry × Outbox
  deliver e (s, net) =
      let (refused, net') = send (message e) net in
      elim refused [
        | some error ↦ count_failure error e (s, net')
        | none ↦
            let e' = marked_sent (now net') e in
            elim (repo.save e' s) [
              | none ↦ count_failure unique_violation e' (s, net')
              | some s' ↦ (ok e', (s', net'))
            ]
      ]

  unfoldable pub enqueue : EnqueueEmailRequest → Outbox → Result ℕ EmailOutboxEntry × Outbox
  unfolding deliver
  enqueue r (s, net) = elim (repo.find_one (λ e. e.dedupe_key == r.dedupe_key) (λ _. 0) s) [
    | some e ↦ (ok e, (s, net))
    | none ↦ elim (repo.insert (new_entry r) s) [
      | none ↦ (err unique_violation, (s, net))
      | some (saved, s') ↦ deliver saved (s', net)
    ]
  ]

  abbrev pub deliver_all : List EmailOutboxEntry → Outbox → Result ℕ (Unit {0}) × Outbox
  deliver_all [] st = (ok tt, st)
  deliver_all (e ∷ es) st =
      let (r, st') = deliver e st in
      elim r [ err error ↦ (err error, st') | ok _ ↦ deliver_all es st' ]

  unfoldable pub process_pending : Outbox → Result ℕ (Unit {0}) × Outbox
  process_pending (s, net) = deliver_all (repo.find is_pending s) (s, net)

  -- Calls of processPending, each with what the server is by then.
  abbrev pub ticks : List Net → repo.Store → repo.Store
  ticks [] s = s
  ticks (net ∷ nets) s = ticks nets (process_pending (s, net)).1.0
