-- ===== src/Subscriptions/Indexer.antt =====
-- backend/src/subscriptions/subscription-lifecycle-indexer.service.ts: the events that the
-- lifecycle endpoint is given.
pub mod Handling
use my_fans.Common.{ℕ, ◌+◌, ◌*◌, ◌/◌, ◌==◌, Option, none, some, get_or, if◌then◌else◌}
use my_fans.Common.Actions.{Action, pure, modify, ◌>>=◌, ◌>>◌}
use my_fans.Database.{Table}
use my_fans.Subscriptions.{SubscriptionStatus, SubscriptionIndexEntity, id_of, clash, Error}
use my_fans.Subscriptions.Repository.{upsert_manual, update_status}
use my_fans.Subscriptions.Service.{State, DomainEvent, on_store, publish}

pub data IndexerKind : Type 0 where
  renewed cancelled renewal_failed : IndexerKind

pub record IndexerEvent : Type 0 where
  pub event : IndexerKind
  pub subscription_id : Option ℕ
  pub user_id : ℕ
  pub creator_id : ℕ
  pub plan_id : ℕ
  pub expiry : Option ℕ
  pub reason : Option ℕ

module _ (db : Table id_of clash) where
  open db use {Store}

  unfoldable pub handle_event : IndexerEvent → (now : ℕ) → Action Error (State Store) (Unit {0})
  handle_event e now = elim e.event [
    | renewed ↦ do
      let expiry = get_or e.expiry (now / 1000 + 30 * 24 * 3600)
      sub ← on_store (
          upsert_manual db
            (record {
              fan = e.user_id;
              creator = e.creator_id;
              plan_id = e.plan_id;
              expiry_unix = expiry;
              status = SubscriptionStatus.active;
            })
            now)
      publish (
          DomainEvent.renewed (get_or e.subscription_id sub.id) e.user_id e.creator_id e.plan_id
            expiry)
    | cancelled ↦ do
      modify (λ st. record st {
        store =
            update_status db e.user_id e.creator_id SubscriptionStatus.cancelled none now st.store;
      })
      publish (
          DomainEvent.cancelled (get_or e.subscription_id e.user_id) e.user_id e.creator_id
            e.plan_id)
    | renewal_failed ↦ publish (
        DomainEvent.renewal_failed (get_or e.subscription_id e.user_id) e.user_id e.creator_id
          e.plan_id e.reason)
  ]
