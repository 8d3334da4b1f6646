-- ===== src/Webhook/Processor.antt =====
-- backend/src/webhook/webhook-event-processor.service.ts and webhook-event.ts.
pub mod Delivery
use my_fans.Common.{ℕ, Bool, true, false, Option, none, some, List, [], ◌∷◌, ◌==◌, if◌then◌else◌}
use my_fans.Database.{Table}

pub data EventType : Type 0 where
  subscription_created subscription_renewed subscription_cancelled : EventType
  subscription_expired subscription_renewal_failed : EventType
  payment_completed payment_failed plan_created post_deleted user_logged_in : EventType
  unlisted : ℕ → EventType

-- The members of an event's `data`, after `String` and `Number`.
pub record EventData : Type 0 where
  pub fan : ℕ
  pub creator : ℕ
  pub plan_id : ℕ
  pub expiry : ℕ
  pub timestamp : ℕ
  pub subscription_id : ℕ
  pub cancelled_at : ℕ
  pub reason : Option ℕ
  pub asset : ℕ
  pub amount : ℕ
  pub post_id : ℕ
  pub deleted_by : ℕ
  pub user_id : ℕ
  pub stellar_address : ℕ

pub record WebhookEvent : Type 0 where
  pub id : ℕ
  pub type' : EventType
  pub timestamp : ℕ
  pub data' : EventData

-- A member of the payload, by its `typeof`.
pub data Value : Type 0 where
  absent : Value
  text : ℕ → Value
  number : ℕ → Value
  object : EventData → Value

pub data Payload : Type 0 where
  primitive : Payload
  members : (id type' timestamp data' : Value) → Payload

pub record WebhookProcessedEvent : Type 0 where
  pub id : ℕ
  pub event_id : ℕ
  pub event_type : EventType

abbrev pub row_id : WebhookProcessedEvent → ℕ
row_id r = r.id

-- The unique index on event_id.
abbrev pub same_event : WebhookProcessedEvent → WebhookProcessedEvent → Bool
same_event r x = r.event_id == x.event_id

-- What the event bus is given, less the instant.
pub data Published : Type 0 where
  created : (fan creator plan_id expiry : ℕ) → Published
  renewed : (subscription_id fan creator plan_id expiry : ℕ) → Published
  cancelled : (subscription_id fan creator plan_id cancelled_at : ℕ) → Published
  expired : (fan creator : ℕ) → Published
  renewal_failed : (subscription_id fan creator plan_id : ℕ) → Option ℕ → Published
  plan : (plan_id creator asset amount : ℕ) → Published
  deleted : (post_id deleted_by : ℕ) → Published
  logged_in : (user_id stellar_address : ℕ) → Published

-- The ten literals of the event types are the texts 0 to 9.
abbrev pub event_type_of : ℕ → EventType
event_type_of n =
    if n == 0
    then subscription_created
    else if n == 1
    then subscription_renewed
    else if n == 2
    then subscription_cancelled
    else if n == 3
    then subscription_expired
    else if n == 4
    then subscription_renewal_failed
    else if n == 5
    then payment_completed
    else if n == 6
    then payment_failed
    else if n == 7
    then plan_created
    else if n == 8
    then post_deleted
    else if n == 9
    then user_logged_in
    else unlisted n

abbrev pub parse_event : Payload → Option WebhookEvent
parse_event (members (text id) (text type') (number timestamp) (object data')) =
    some (record { id = id; type' = event_type_of type'; timestamp = timestamp; data' = data' })
parse_event _ = none

-- KNOWN_EVENT_TYPES.has
abbrev pub is_known : EventType → Bool
is_known (unlisted n) = false
is_known _ = true

abbrev pub dispatch_event : WebhookEvent → List Published
dispatch_event e =
    let d = e.data' in
    elim e.type' [
      | subscription_created ↦ created d.fan d.creator d.plan_id d.expiry ∷ []
      | subscription_renewed ↦ renewed d.subscription_id d.fan d.creator d.plan_id d.expiry ∷ []
      | subscription_cancelled ↦
          cancelled d.subscription_id d.fan d.creator d.plan_id d.cancelled_at ∷ []
      | subscription_expired ↦ expired d.fan d.creator ∷ []
      | subscription_renewal_failed ↦
          renewal_failed d.subscription_id d.fan d.creator d.plan_id d.reason ∷ []
      | plan_created ↦ plan d.plan_id d.creator d.asset d.amount ∷ []
      | post_deleted ↦ deleted d.post_id d.deleted_by ∷ []
      | user_logged_in ↦ logged_in d.user_id d.stellar_address ∷ []
      | payment_completed ↦ []
      | payment_failed ↦ []
      | unlisted n ↦ []
    ]

-- The answer: `none` for `processed: false`, else the id and the type of the event.
abbrev pub Outcome : Type 0
Outcome = Option (ℕ × EventType)

abbrev pub processed_row : ℕ → EventType → ℕ → WebhookProcessedEvent
processed_row event_id event_type id = record {
  id = id;
  event_id = event_id;
  event_type = event_type;
}

module _ (db : Table row_id same_event) where
  open db use {Store, find_one, insert}

  unfoldable pub is_event_processed : ℕ → Store → Bool
  is_event_processed event_id s = elim (find_one (λ r. r.event_id == event_id) (λ _. 0) s) [
    | none ↦ false
    | some _ ↦ true
  ]

  -- An error of `save` is logged, and that is all.
  unfoldable pub mark_event_processed : ℕ → EventType → Store → Store
  mark_event_processed event_id event_type s = elim (insert (processed_row event_id event_type) s) [
    | none ↦ s
    | some (r, s') ↦ s'
  ]

  abbrev accepted : WebhookEvent → Store → Outcome × List Published × Store
  accepted e s =
      if is_event_processed e.id s
      then (some (e.id, e.type'), [], s)
      else if is_known e.type'
      then (some (e.id, e.type'), dispatch_event e, mark_event_processed e.id e.type' s)
      else (some (e.id, e.type'), [], mark_event_processed e.id e.type' s)

  -- The answer, what is published, and the table.
  unfoldable pub process_event : Payload → Store → Outcome × List Published × Store
  unfolding is_event_processed mark_event_processed
  process_event payload s = elim (parse_event payload) [
    | none ↦ (none, [], s)
    | some e ↦ accepted e s
  ]
