-- ===== src/Webhook/Processor/Delivery.antt =====
-- How often an event is handed to the event bus.
use my_fans.Common.{
  ℕ, ◌≡◌, refl, true, false, some, [], arith, Member, All-imp, inl, inr, Option-cases, ◌==◌,
  if◌then◌else◌,
}
use my_fans.Database.{Table}
use my_fans.Database.Laws.{find_one-eq-some}
use my_fans.Webhook.Processor.{
  EventType, WebhookEvent, WebhookProcessedEvent, row_id, same_event, Payload, parse_event,
  is_known, dispatch_event, processed_row, is_event_processed, mark_event_processed, process_event,
}

module _ (db : Table row_id same_event) where
  open db use {Store, rows, insert, find_one}

  -- An event is known as processed once it is marked.
  is_event_processed-mark :
      (event_id : ℕ) (event_type : EventType) (s : Store)
      → is_event_processed db event_id (mark_event_processed db event_id event_type s) ≡ true
  unfolding is_event_processed mark_event_processed
  is_event_processed-mark event_id event_type s =
      let mk = processed_row event_id event_type in
      let p = λ (r : WebhookProcessedEvent). r.event_id == event_id in
      elim (Option-cases (insert mk s)) [
        | inr ((r, s'), made) ↦
            let (same, _, _, grown) = db.insert-some mk s r s' (λ n. refl) made in
            let here : Member r (rows s') = rw grown (inl refl) in
            let hit : (r.event_id == event_id) ≡ true = rw same (ground arith) in
            let (x, found, _, _) = find_one-eq-some db p (λ _. 0) s' r here hit in ground arith
        | inl full ↦
            let (n, taken) = db.insert-none mk s full in
            elim (Option-cases (find_one p (λ _. 0) s)) [
              | inr (x, found) ↦ ground arith
              | inl nobody ↦ absurd (
                  taken (
                    All-imp (λ x. p x ≡ false) (λ x. same_event (mk n) x ≡ false) (rows s)
                      (λ x miss. ground arith) (db.find_one-none p (λ _. 0) s nobody)))
            ]
      ]

  process_event-event :
      (payload : Payload) (e : WebhookEvent) (s : Store)
      → parse_event payload ≡ some e
      → is_event_processed db e.id s ≡ false
      → process_event db payload s ≡ (
        some (e.id, e.type'),
        (if is_known e.type' then dispatch_event e else []),
        mark_event_processed db e.id e.type' s,
      )
  unfolding process_event
  process_event-event payload e s parsed new = ground arith

  process_event-processed :
      (payload : Payload) (e : WebhookEvent) (s : Store)
      → parse_event payload ≡ some e
      → is_event_processed db e.id s ≡ true
      → process_event db payload s ≡ (some (e.id, e.type'), [], s)
  unfolding process_event
  process_event-processed payload e s parsed seen = ground arith

  -- An event that is not yet processed, and two deliveries of it, the second perhaps with other
  -- contents under the same id: the first hands on what its type says, nothing where the type is not
  -- known, and the second is answered as processed and hands on nothing.
  pub process_event_once :
      (payload payload' : Payload) (e e' : WebhookEvent) (s : Store)
      → parse_event payload ≡ some e
      → parse_event payload' ≡ some e'
      → e'.id ≡ e.id
      → is_event_processed db e.id s ≡ false
      → let (answer, published, s') = process_event db payload s in
        (answer ≡ some (e.id, e.type'))
        × (published ≡ (if is_known e.type' then dispatch_event e else []))
        × (process_event db payload' s' ≡ (some (e'.id, e'.type'), [], s'))
  process_event_once payload payload' e e' s parsed parsed' same new =
      let seen = is_event_processed-mark e.id e.type' s in
      rw (process_event-event payload e s parsed new)
        (refl, refl, process_event-processed payload' e' _ parsed' (rw same seen))
