-- ===== src/Subscriptions/Repository.antt =====
-- backend/src/subscriptions/repositories/subscription-index.repository.ts.
pub mod Access
pub mod Manual
use my_fans.Common.{
  ℕ, ◌+◌, ◌/◌, Bool, true, false, ◌&&◌, Option, none, some, List, ltb, ◌==◌, if◌then◌else◌, get_or,
}
use my_fans.Common.Actions.{Result, ok, err}
use my_fans.Common.Int.{ℤ, pos, negsuc, eq_ℤ}
use my_fans.Database.{Table}
use my_fans.Subscriptions.{
  SubscriptionStatus, EventType, SubscriptionIndexEntity, id_of, clash, is_active, Error,
  unique_violation,
}

pub record UpsertEventData : Type 0 where
  pub fan : ℕ
  pub creator : ℕ
  pub plan_id : ℕ
  pub expiry_unix : ℕ
  pub status : SubscriptionStatus
  pub ledger_seq : ℤ
  pub event_index : ℤ
  pub tx_hash : Option ℕ
  pub event_type : EventType

pub record UpsertManualData : Type 0 where
  pub fan : ℕ
  pub creator : ℕ
  pub plan_id : ℕ
  pub expiry_unix : ℕ
  pub status : SubscriptionStatus

abbrev pub event_row : UpsertEventData → ℕ → ℕ → SubscriptionIndexEntity
event_row d now id = record {
  id = id;
  fan = d.fan;
  creator = d.creator;
  plan_id = d.plan_id;
  expiry_unix = d.expiry_unix;
  created_at = now;
  status = d.status;
  ledger_seq = d.ledger_seq;
  event_index = d.event_index;
  tx_hash = d.tx_hash;
  event_type = d.event_type;
  indexed_at = now;
  updated_at = now;
}

-- A manual entry has ledgerSeq -1 and eventIndex -1.
abbrev pub manual_row : UpsertManualData → ℕ → ℕ → SubscriptionIndexEntity
manual_row d now id = record {
  id = id;
  fan = d.fan;
  creator = d.creator;
  plan_id = d.plan_id;
  expiry_unix = d.expiry_unix;
  created_at = now;
  status = d.status;
  ledger_seq = negsuc 0;
  event_index = negsuc 0;
  tx_hash = none;
  event_type = EventType.manual;
  indexed_at = now;
  updated_at = now;
}

-- The columns that `upsertManual` gives, written over an existing row.
abbrev pub overwrite : UpsertManualData → ℕ → SubscriptionIndexEntity → SubscriptionIndexEntity
overwrite d now e = record e {
  fan = d.fan;
  creator = d.creator;
  plan_id = d.plan_id;
  expiry_unix = d.expiry_unix;
  status = d.status;
  ledger_seq = negsuc 0;
  event_index = negsuc 0;
  event_type = EventType.manual;
  updated_at = now;
}

abbrev pub of_pair : ℕ → ℕ → SubscriptionIndexEntity → Bool
of_pair fan creator r = (r.fan == fan) && (r.creator == creator)

abbrev pub of_event : ℤ → ℤ → SubscriptionIndexEntity → Bool
of_event ledger_seq event_index r = eq_ℤ r.ledger_seq ledger_seq && eq_ℤ r.event_index event_index

abbrev pub active_pair : ℕ → ℕ → SubscriptionIndexEntity → Bool
active_pair fan creator r = of_pair fan creator r && is_active r.status

abbrev pub with_status :
    SubscriptionStatus → Option ℕ → ℕ → SubscriptionIndexEntity → SubscriptionIndexEntity
with_status status expiry_unix now r = record r {
  status = status;
  expiry_unix = get_or expiry_unix 0;
  updated_at = now;
}

module _ (db : Table id_of clash) where
  open db use {Store, find_one, find, insert, save, update}

  unfoldable pub find_by_event_id : ℤ → ℤ → Store → Option SubscriptionIndexEntity
  find_by_event_id ledger_seq event_index s = find_one (of_event ledger_seq event_index) (λ _. 0) s

  -- The newest entry of the pair: order { indexedAt: 'DESC' }.
  unfoldable pub find_current_for_fan_creator : ℕ → ℕ → Store → Option SubscriptionIndexEntity
  find_current_for_fan_creator fan creator s = find_one (of_pair fan creator) (λ r. r.indexed_at) s

  unfoldable pub upsert_event :
      UpsertEventData → ℕ → Store → Result Error SubscriptionIndexEntity × Store
  unfolding find_by_event_id
  upsert_event d now s = elim (insert (event_row d now) s) [
    | some (r, s') ↦ (ok r, s')
    | none ↦ elim (find_by_event_id d.ledger_seq d.event_index s) [
      | some existing ↦ (ok existing, s)
      | none ↦ (err unique_violation, s)
    ]
  ]

  abbrev saved :
      SubscriptionIndexEntity → Store → Option Store → Result Error SubscriptionIndexEntity × Store
  saved r s none = (err unique_violation, s)
  saved r s (some s') = (ok r, s')

  unfoldable pub upsert_manual :
      UpsertManualData → ℕ → Store → Result Error SubscriptionIndexEntity × Store
  unfolding find_current_for_fan_creator
  upsert_manual d now s = elim (find_current_for_fan_creator d.fan d.creator s) [
    | none ↦ elim (insert (manual_row d now) s) [
      | none ↦ (err unique_violation, s)
      | some (r, s') ↦ (ok r, s')
    ]
    | some existing ↦ saved (overwrite d now existing) s (save (overwrite d now existing) s)
  ]

  unfoldable pub update_status : ℕ → ℕ → SubscriptionStatus → Option ℕ → ℕ → Store → Store
  update_status fan creator status expiry_unix now s =
      update (active_pair fan creator) (with_status status expiry_unix now) s

  unfoldable pub is_subscriber : ℕ → ℕ → ℕ → Store → Bool
  unfolding find_current_for_fan_creator
  is_subscriber fan creator now s = elim (find_current_for_fan_creator fan creator s) [
    | none ↦ false
    | some sub ↦ ltb (now / 1000) sub.expiry_unix
  ]

  unfoldable pub find_all_for_reconciler : Store → List SubscriptionIndexEntity
  find_all_for_reconciler s = find (λ _. true) s
