-- ===== src/Webhook/Tests.antt =====
-- Webhooks at concrete secrets and payloads.
use my_fans.Common.{ℕ, ◌+◌, ◌*◌, ◌≡◌, refl, true, false, some, none, [], arith, if◌then◌else◌}
use my_fans.Database.{Table}
use my_fans.Database.ListTable.{list_table}
use my_fans.Webhook.Secrets.{WebhookSecretState, rotate, sign, verify}
use my_fans.Webhook.Secrets.Rotation.{verify-rotate}
use my_fans.Webhook.Processor.{
  EventData, WebhookEvent, subscription_expired, row_id, same_event, Payload, members, text, number,
  object, is_known, dispatch_event, is_event_processed, process_event,
}
use my_fans.Webhook.Processor.Delivery.{process_event_once}

abbrev hmac : ℕ → ℕ → ℕ
hmac secret payload = secret * 1000 + payload

abbrev hex : ℕ → ℕ
hex n = n

abbrev secrets : WebhookSecretState
secrets = record { active = 17; previous = none; cutoff_at = none }

verify-rotate_example :
    let st' = rotate 18 500 1000 secrets in
    (verify hmac hex 3 (sign hmac hex 3 secrets) 1200 st' ≡ true)
    × (verify hmac hex 3 (sign hmac hex 3 st') 1200 st' ≡ true)
verify-rotate_example =
    verify-rotate hmac hex 3 18 500 1000 1200 secrets (omega arith) (omega arith)

abbrev twice : WebhookSecretState
twice = rotate 19 500 1100 (rotate 18 500 1000 secrets)

twice_verifies : verify hmac hex 3 18003 1200 twice ≡ true
unfolding verify rotate
twice_verifies = refl

abbrev db : Table row_id same_event
db = list_table row_id same_event

abbrev details : EventData
details = record {
  fan = 3;
  creator = 7;
  plan_id = 1;
  expiry = 0;
  timestamp = 50;
  subscription_id = 0;
  cancelled_at = 0;
  reason = none;
  asset = 0;
  amount = 0;
  post_id = 0;
  deleted_by = 0;
  user_id = 0;
  stellar_address = 0;
}

abbrev delivery : Payload
delivery = members (text 21) (text 3) (number 50) (object details)

abbrev event : WebhookEvent
event = record { id = 21; type' = subscription_expired; timestamp = 50; data' = details }

event_new : is_event_processed db 21 [] ≡ false
unfolding is_event_processed
event_new = refl

process_event_once_example :
    let (answer, published, s') = process_event db delivery [] in
    (answer ≡ some (event.id, event.type'))
    × (published ≡ (if is_known event.type' then dispatch_event event else []))
    × (process_event db delivery s' ≡ (some (event.id, event.type'), [], s'))
process_event_once_example =
    process_event_once db delivery delivery event event [] refl refl refl event_new
