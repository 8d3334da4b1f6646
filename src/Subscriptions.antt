-- ===== src/Subscriptions.antt =====
-- backend/src/subscriptions: the subscription index, the services that write it, and checkout.
-- Texts (addresses, ids, hashes) are only compared, and are numbers. Instants are milliseconds and
-- expiries are Unix seconds, as in the source; a call reads the clock once.
pub mod Repository
pub mod Service
pub mod Checkout
pub mod ChainSync
pub mod Reconciler
pub mod Poller
pub mod Indexer
pub mod System
pub mod SpendingCap
pub mod Cache
pub mod Guard
mod Tests
mod WriterTests
use my_fans.Common.{ℕ, Bool, false, true, ◌&&◌, Option, ◌==◌}
use my_fans.Common.Int.{ℤ, eq_ℤ}

pub data SubscriptionStatus : Type 0 where
  active expired cancelled : SubscriptionStatus

pub data EventType : Type 0 where
  subscribed extended cancelled manual : EventType

pub record SubscriptionIndexEntity : Type 0 where
  pub id : ℕ
  pub fan : ℕ
  pub creator : ℕ
  pub plan_id : ℕ
  pub expiry_unix : ℕ
  pub created_at : ℕ
  pub status : SubscriptionStatus
  pub ledger_seq : ℤ
  pub event_index : ℤ
  pub tx_hash : Option ℕ
  pub event_type : EventType
  pub indexed_at : ℕ
  pub updated_at : ℕ

abbrev pub id_of : SubscriptionIndexEntity → ℕ
id_of r = r.id

-- @Unique(['ledgerSeq', 'eventIndex'])
abbrev pub clash : SubscriptionIndexEntity → SubscriptionIndexEntity → Bool
clash r x = eq_ℤ r.ledger_seq x.ledger_seq && eq_ℤ r.event_index x.event_index

abbrev pub is_active : SubscriptionStatus → Bool
is_active SubscriptionStatus.active = true
is_active SubscriptionStatus.expired = false
is_active SubscriptionStatus.cancelled = false

-- What a service call throws.
pub data Error : Type 0 where
  not_found bad_request unique_violation : Error
