-- ===== src/Subscriptions/Poller.antt =====
-- backend/src/subscriptions/services/subscription-event-poller.service.ts: an event of the
-- contract, as the network gives it, with its id and its topics parsed.
pub mod Events
pub mod Repeats
use my_fans.Common.{
  ℕ, ◌+◌, ◌*◌, ◌/◌, Bool, true, false, not, Option, none, some, List, [], ◌∷◌, ◌==◌, if◌then◌else◌,
}
use my_fans.Common.Actions.{Action, Result, ok, err}
use my_fans.Common.Int.{ℤ}
use my_fans.Database.{Table}
use my_fans.Subscriptions.{
  SubscriptionStatus, EventType, SubscriptionIndexEntity, id_of, clash, Error,
}
use my_fans.Subscriptions.Repository.{UpsertEventData, find_by_event_id, upsert_event}
use my_fans.Subscriptions.Service.{State, DomainEvent, publish}

-- `none` as the kind: a topic that is none of TARGET_EVENTS.
pub record ContractEvent : Type 0 where
  pub ledger_seq : ℤ
  pub event_index : ℤ
  pub contract : ℕ
  pub kind : Option EventType
  pub fan : ℕ
  pub creator : ℕ
  pub plan_id : ℕ
  pub tx_hash : Option ℕ

-- TARGET_EVENTS.includes(eventType)
abbrev pub is_target : Option EventType → Bool
is_target none = false
is_target (some EventType.subscribed) = true
is_target (some EventType.extended) = true
is_target (some EventType.cancelled) = true
is_target (some EventType.manual) = false

abbrev pub event_type : Option EventType → EventType
event_type none = EventType.manual
event_type (some t) = t

-- The stub of the source: thirty days from now.
abbrev pub fetch_expiry_from_chain : ℕ → ℕ
fetch_expiry_from_chain now = now / 1000 + 30 * 24 * 3600

abbrev pub event_data : ContractEvent → ℕ → EventType → UpsertEventData
event_data e now EventType.cancelled = record {
  fan = e.fan;
  creator = e.creator;
  plan_id = 0;
  expiry_unix = now / 1000;
  status = SubscriptionStatus.cancelled;
  ledger_seq = e.ledger_seq;
  event_index = e.event_index;
  tx_hash = e.tx_hash;
  event_type = EventType.cancelled;
}
event_data e now t = record {
  fan = e.fan;
  creator = e.creator;
  plan_id = e.plan_id;
  expiry_unix = fetch_expiry_from_chain now;
  status = SubscriptionStatus.active;
  ledger_seq = e.ledger_seq;
  event_index = e.event_index;
  tx_hash = e.tx_hash;
  event_type = t;
}

abbrev pub domain_events : SubscriptionIndexEntity → EventType → List DomainEvent
domain_events r EventType.subscribed =
    DomainEvent.renewed r.id r.fan r.creator r.plan_id r.expiry_unix ∷ []
domain_events r EventType.extended =
    DomainEvent.renewed r.id r.fan r.creator r.plan_id r.expiry_unix ∷ []
domain_events r EventType.cancelled = DomainEvent.cancelled r.id r.fan r.creator r.plan_id ∷ []
domain_events r EventType.manual = []

module _ {Store : Type 0} where
  abbrev pub publish_all : List DomainEvent → State Store → State Store
  publish_all [] st = st
  publish_all (e ∷ es) st = publish_all es (record st { published = e ∷ st.published })

  abbrev pub publish_domain_event : SubscriptionIndexEntity → State Store → State Store
  publish_domain_event r st = publish_all (domain_events r r.event_type) st

module _ (db : Table id_of clash) where
  open db use {Store}

  abbrev indexed : Result Error SubscriptionIndexEntity × Store → State Store → Bool × State Store
  indexed (ok r, s') st = (true, publish_domain_event r (record st { store = s' }))
  indexed (err _, s') st = (false, record st { store = s' })

  -- Whether the event counts as processed.
  unfoldable pub process_event :
      (contract_id : ℕ) → ContractEvent → (now : ℕ) → State Store → Bool × State Store
  process_event contract_id e now st =
      if not (e.contract == contract_id)
      then (false, st)
      else if not (is_target e.kind)
      then (false, st)
      else elim (find_by_event_id db e.ledger_seq e.event_index st.store) [
        | some existing ↦ (true, st)
        | none ↦ indexed (upsert_event db (event_data e now (event_type e.kind)) now st.store) st
      ]

  -- The events of a page, in their order: how many were processed.
  unfoldable pub process_events :
      (contract_id : ℕ) → List ContractEvent → (now : ℕ) → State Store → ℕ × State Store
  unfolding process_event
  process_events contract_id [] now st = (0, st)
  process_events contract_id (e ∷ es) now st =
      let (done, st') = process_event contract_id e now st in
      let (n, st'') = process_events contract_id es now st' in ((if done then n + 1 else n), st'')
