-- ===== src/Emails/Tests.antt =====
-- An outbox on a list of rows, with a mail server that is down or up.
use my_fans.Common.{
  ℕ, ◌≡◌, ◌≢◌, refl, Bool, true, false, Option, none, some, List, [], ◌∷◌, All, arith,
  if◌then◌else◌,
}
use my_fans.Common.Actions.{ok}
use my_fans.Database.{Table}
use my_fans.Database.ListTable.{list_table}
use my_fans.Emails.{
  EmailOutboxEntry, EnqueueEmailRequest, EmailMessage, pending, entry_key, same_dedupe, new_entry,
  marked_failed, marked_sent, deliver, enqueue, process_pending, ticks,
}
use my_fans.Emails.Delivery.{IsOutbox}
use my_fans.Emails.Queueing.{enqueue_once}
use my_fans.Emails.Retries.{ticks_settle}

abbrev repo : Table entry_key same_dedupe
repo = list_table entry_key same_dedupe

-- The server is up or down.
abbrev send : EmailMessage → Bool → Option ℕ × Bool
send m up = (if up then none else some 61, up)

abbrev now : Bool → ℕ
now up = 900

abbrev hello : EnqueueEmailRequest
hello = record { dedupe_key = 4; to_user_id = 7; subject = 1; body = 2 }

abbrev other : EnqueueEmailRequest
other = record hello { body = 3 }

abbrev queued : EmailOutboxEntry
queued = marked_failed 61 (new_entry hello 0)

enqueued : enqueue repo send now 23505 hello ([], false) ≡ (ok queued, (queued ∷ [], false))
unfolding enqueue deliver
enqueued = refl

empty : IsOutbox []
empty = record { keyed = tt; distinct = tt; entries = tt }

one : IsOutbox (queued ∷ [])
one = record { keyed = (tt, tt); distinct = (tt, tt); entries = ((omega arith, refl), tt) }

enqueue_once_example :
    (e : EmailOutboxEntry) × (s' : List EmailOutboxEntry) × (net' : Bool) × (enqueue repo send now
        23505 hello
        ([], false)
      ≡ (ok e, (s', net')))
    × IsOutbox s'
    × ((x : EmailOutboxEntry) × (enqueue repo send now 23505 other (s', true) ≡ (ok x, (s', true)))
        × (x.dedupe_key ≡ 4))
enqueue_once_example = enqueue_once repo send now 23505 hello other [] false true empty refl

abbrev outage : List Bool
outage = false ∷ false ∷ true ∷ false ∷ false ∷ []

sent_later :
    ticks repo send now 23505 outage (queued ∷ [])
    ≡ marked_sent 900 (marked_failed 61 (marked_failed 61 queued)) ∷ []
unfolding process_pending deliver
sent_later = refl

ticks_settle_example :
    All (λ e. e.status ≢ pending) (ticks repo send now 23505 outage (queued ∷ []))
ticks_settle_example = ticks_settle repo send now 23505 outage (queued ∷ []) one (omega arith)
