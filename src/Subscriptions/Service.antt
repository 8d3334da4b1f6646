-- ===== src/Subscriptions/Service.antt =====
-- backend/src/subscriptions/subscriptions.service.ts: plans and the life of a subscription.
-- `Service/Checkout` has the checkout sessions.
pub mod Lifecycle
use my_fans.Common.{
  ℕ, ◌+◌, ◌*◌, ◌/◌, ◌^◌, ◌-◌, Bool, true, false, not, ◌&&◌, Option, none, some, List, [], ◌∷◌, ltb,
  ◌==◌, if◌then◌else◌,
}
use my_fans.Common.Actions.{
  Result, ok, err, Action, pure, throw, gets, or_throw, modify, throw_if, ◌>>=◌, ◌>>◌,
}
use my_fans.Database.{Table}
use my_fans.Subscriptions.{
  SubscriptionStatus, SubscriptionIndexEntity, id_of, clash, Error, not_found, bad_request,
}
use my_fans.Subscriptions.Repository.{
  UpsertManualData, upsert_manual, update_status, find_current_for_fan_creator, is_subscriber,
}

pub record Plan : Type 0 where
  pub id : ℕ
  pub creator : ℕ
  pub asset : ℕ
  pub amount : ℕ
  pub interval_days : ℕ

-- backend/src/events/domain-events.ts: what the event bus is given. The instants that their
-- constructors add are left out.
pub data DomainEvent : Type 0 where
  created : (fan creator plan_id expiry : ℕ) → DomainEvent
  renewed : (subscription_id fan creator plan_id expiry : ℕ) → DomainEvent
  expired : (fan creator : ℕ) → DomainEvent
  cancelled : (subscription_id fan creator plan_id : ℕ) → DomainEvent
  renewal_failed : (subscription_id fan creator plan_id : ℕ) → Option ℕ → DomainEvent

-- What the external publisher is given, fire and forget.
pub data LifecycleEvent : Type 0 where
  subscription_created : (subscription_id fan creator plan_id : ℕ) → LifecycleEvent
  subscription_cancelled : (subscription_id fan creator plan_id : ℕ) → LifecycleEvent
  renewal_failed : (checkout_id reason user_id : ℕ) → LifecycleEvent

pub data CheckoutStatus : Type 0 where
  pending completed failed rejected expired : CheckoutStatus

-- Amounts are in units of 10^-7, the seven decimals that `toFixed(7)` prints.
pub record Checkout : Type 0 where
  pub id : ℕ
  pub fan_address : ℕ
  pub creator_address : ℕ
  pub plan_id : ℕ
  pub asset_code : ℕ
  pub asset_issuer : Option ℕ
  pub amount : ℕ
  pub fee : ℕ
  pub total : ℕ
  pub status : CheckoutStatus
  pub expires_at : ℕ
  pub tx_hash : Option ℕ
  pub error : Option ℕ
  pub created_at : ℕ
  pub updated_at : ℕ

-- The service with its table, its two maps, and all that it has published, the newest first.
pub record State (Store : Type 0) : Type 0 where
  pub store : Store
  pub plans : List Plan
  pub checkouts : List Checkout
  pub published : List DomainEvent
  pub emitted : List LifecycleEvent

module _ {Store : Type 0} where
  abbrev pub on_store :
      {A : Type 0} → (Store → Result Error A × Store) → Action Error (State Store) A
  on_store f st = let (r, s') = f st.store in (r, record st { store = s' })

  abbrev pub publish : DomainEvent → Action Error (State Store) (Unit {0})
  publish e = modify (λ st. record st { published = e ∷ st.published })

  abbrev pub emit : LifecycleEvent → Action Error (State Store) (Unit {0})
  emit e = modify (λ st. record st { emitted = e ∷ st.emitted })

unfoldable pub get_plan : ℕ → List Plan → Option Plan
get_plan plan_id [] = none
get_plan plan_id (p ∷ ps) = if p.id == plan_id then some p else get_plan plan_id ps

abbrev pub get_expiry_status : ℕ → ℕ → SubscriptionStatus
get_expiry_status expiry_unix now =
    if ltb (now / 1000) expiry_unix then SubscriptionStatus.active else SubscriptionStatus.expired

-- Number.MAX_SAFE_INTEGER
abbrev pub max_safe_integer : ℕ
max_safe_integer = 2 ^ 53 - 1

module _ (db : Table id_of clash) where
  open db use {Store}

  abbrev pub Call : Type 0 → Type 0
  Call A = Action Error (State Store) A

  unfoldable pub get_required_plan : ℕ → Call Plan
  get_required_plan plan_id = do
    plans ← gets (λ st. st.plans)
    or_throw (get_plan plan_id plans) not_found

  unfoldable pub calculate_expiry_timestamp : ℕ → ℕ → Call ℕ
  calculate_expiry_timestamp interval_days now = do
    let expiry = now / 1000 + interval_days * 24 * 60 * 60
    throw_if (ltb max_safe_integer expiry) bad_request
    pure expiry

  unfoldable pub add_subscription :
      (fan creator plan_id expiry now : ℕ) → Call SubscriptionIndexEntity
  add_subscription fan creator plan_id expiry now = do
    sub ← on_store (
        upsert_manual db
          (record {
            fan = fan;
            creator = creator;
            plan_id = plan_id;
            expiry_unix = expiry;
            status = get_expiry_status expiry now;
          })
          now)
    publish (created fan creator plan_id expiry)
    emit (subscription_created sub.id fan creator plan_id)
    pure sub

  abbrev next_expiry : Option ℕ → ℕ → ℕ → Call ℕ
  next_expiry none interval_days now = calculate_expiry_timestamp interval_days now
  next_expiry (some expiry) interval_days now = pure expiry

  unfoldable pub renew_subscription :
      (fan creator plan_id : ℕ) → Option ℕ → ℕ → Call SubscriptionIndexEntity
  unfolding get_required_plan calculate_expiry_timestamp
  renew_subscription fan creator plan_id expiry now = do
    plan ← get_required_plan plan_id
    throw_if (not (plan.creator == creator)) bad_request
    next ← next_expiry expiry plan.interval_days now
    sub ← on_store (
        upsert_manual db
          (record {
            fan = fan;
            creator = creator;
            plan_id = plan_id;
            expiry_unix = next;
            status = get_expiry_status next now;
          })
          now)
    publish (renewed sub.id fan creator plan_id next)
    pure sub

  unfoldable pub expire_subscription : (fan creator now : ℕ) → Call (Unit {0})
  expire_subscription fan creator now = do
    modify (λ st. record st {
      store = update_status db fan creator SubscriptionStatus.expired none now st.store;
    })
    publish (DomainEvent.expired fan creator)

  unfoldable pub cancel_subscription : (fan creator now : ℕ) → Call SubscriptionIndexEntity
  cancel_subscription fan creator now = do
    found ← gets (λ st. find_current_for_fan_creator db fan creator st.store)
    existing ← or_throw found not_found
    modify (λ st. record st {
      store =
          update_status db fan creator SubscriptionStatus.cancelled (some (now / 1000)) now
            st.store;
    })
    publish (DomainEvent.cancelled existing.id fan creator existing.plan_id)
    emit (subscription_cancelled existing.id fan creator existing.plan_id)
    pure existing
