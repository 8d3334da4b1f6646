-- ===== src/Subscriptions/WriterTests.antt =====
-- The other writers of the index on a list of rows, and their theorems at inputs that meet their
-- hypotheses.
use my_fans.Common.{
  ℕ, ◌+◌, ◌/◌, ◌<◌, ◌≤◌, ◌≡◌, refl, some, none, true, false, List, [], ◌∷◌, arith, Member, All, inl,
  inr,
}
use my_fans.Common.Actions.{ok}
use my_fans.Common.Int.{pos}
use my_fans.Subscriptions.{SubscriptionStatus, EventType, SubscriptionIndexEntity, is_active}
use my_fans.Subscriptions.Repository.{
  UpsertEventData, event_row, manual_row, is_subscriber, upsert_manual,
  find_current_for_fan_creator,
}
use my_fans.Subscriptions.Service.{State, add_subscription}
use my_fans.Subscriptions.Tests.{db, data_of, empty, taken}
use my_fans.Subscriptions.System.{start, next, add, perform, reachable_access}
use my_fans.Subscriptions.ChainSync.{ChainReader, read, failed, evaluate_and_apply}
use my_fans.Subscriptions.ChainSync.Outcome.{evaluate_denied}
use my_fans.Subscriptions.Reconciler.{reconcile, settle, past_expiry}
use my_fans.Subscriptions.Reconciler.Outcome.{reconcile_clears, reconcile_revokes}
use my_fans.Subscriptions.Poller.{ContractEvent, process_event}
use my_fans.Subscriptions.Poller.Repeats.{polled, process_event_twice}
use my_fans.Subscriptions.Indexer.{IndexerKind, IndexerEvent}
use my_fans.Database.{Table}
use my_fans.Database.ListTable.{list_table}
use my_fans.Subscriptions.SpendingCap.{
  CapPeriod, FanSpendingCapEntity, cap_id, same_fan, fresh_cap, get_cap, assert_within_cap,
  record_spend,
}
use my_fans.Subscriptions.SpendingCap.Unchecked.{assert_within_cap_first}
use my_fans.Subscriptions.Cache.{get, set, invalidate_pair}
use my_fans.Subscriptions.Cache.Freshness.{
  Call, setting, getting, invalidating, call, entries, last_set, get_fresh,
}

abbrev added : State (List SubscriptionIndexEntity)
added = perform db (add 3 7 1 2593000) 1000000 empty

added_access : is_subscriber db 3 7 2000000 added.store ≡ true
unfolding perform add_subscription upsert_manual find_current_for_fan_creator is_subscriber
added_access = refl

reachable_access_example :
    (r : SubscriptionIndexEntity) × Member r added.store
    × (r.fan ≡ 3)
    × (r.creator ≡ 7)
    × (is_active r.status ≡ true)
    × (2000000 / 1000 < r.expiry_unix)
reachable_access_example =
    reachable_access db 1000000 2000000 3 7 added
      (next (add 3 7 1 2593000) 1000000 added (start 0 empty refl) (omega arith) refl) (omega arith)
      added_access

abbrev denying : ChainReader
denying = record {
  read_is_subscriber = λ fan creator. read false;
  read_expiry_unix = λ fan creator. failed 0;
}

abbrev first : SubscriptionIndexEntity
first = manual_row (data_of 3) 1000000 0

evaluate_denied_example :
    is_subscriber db 3 7 1600000 (evaluate_and_apply db denying first false 1500000 taken).1 ≡ false
evaluate_denied_example =
    evaluate_denied db denying first 1500000 1600000 taken (inl refl, tt) refl (omega arith) refl
      (omega arith)

-- A subscription of the chain that was extended once: the first event's entry has run out.
abbrev event_of : ℕ → EventType → ℕ → UpsertEventData
event_of seq t expiry = record {
  fan = 3;
  creator = 7;
  plan_id = 1;
  expiry_unix = expiry;
  status = SubscriptionStatus.active;
  ledger_seq = pos seq;
  event_index = pos 0;
  tx_hash = none;
  event_type = t;
}

abbrev lapsed_row : SubscriptionIndexEntity
lapsed_row = event_row (event_of 50 EventType.subscribed 2000) 1000000 0

abbrev extended_rows : List SubscriptionIndexEntity
extended_rows = event_row (event_of 90 EventType.extended 9000) 1900000 1 ∷ lapsed_row ∷ []

abbrev extended_state : State (List SubscriptionIndexEntity)
extended_state = record empty { store = extended_rows }

extended_access : is_subscriber db 3 7 3000000 extended_rows ≡ true
unfolding find_current_for_fan_creator is_subscriber
extended_access = refl

reconcile_clears_example :
    let repairs = (reconcile db true false 3000000 extended_rows).1 in
    All
      (λ x. past_expiry (3000000 / 1000) x ≡ false)
      (settle db repairs 3000000 extended_state).store
reconcile_clears_example = reconcile_clears db true 3000000 extended_state

reconcile_revokes_example :
    let repairs = (reconcile db true false 3000000 extended_rows).1 in
    is_subscriber db 3 7 3000000 (settle db repairs 3000000 extended_state).store ≡ false
reconcile_revokes_example =
    reconcile_revokes db true 3000000 3000000 extended_state lapsed_row (inl refl, (inl refl, tt))
      (inr (inl refl)) refl (omega arith)

abbrev cancelled_event : ContractEvent
cancelled_event = record {
  ledger_seq = pos 95;
  event_index = pos 2;
  contract = 42;
  kind = some EventType.cancelled;
  fan = 3;
  creator = 7;
  plan_id = 0;
  tx_hash = none;
}

abbrev later_events : List ContractEvent
later_events =
    cancelled_event
    ∷ record cancelled_event { ledger_seq = pos 96; kind = some EventType.extended }
    ∷ []

process_event_twice_example :
    let (done, st') = process_event db 42 cancelled_event 3000000 extended_state in
    let st'' = polled db 42 ((later_events, 3010000) ∷ []) st' in
    process_event db 42 cancelled_event 3030000 st'' ≡ (done, st'')
process_event_twice_example =
    process_event_twice db 42 cancelled_event 3000000 3030000 ((later_events, 3010000) ∷ [])
      extended_state

abbrev cancel_request : IndexerEvent
cancel_request = record {
  event = IndexerKind.cancelled;
  subscription_id = none;
  user_id = 3;
  creator_id = 7;
  plan_id = 1;
  expiry = none;
  reason = none;
}

abbrev caps : Table cap_id same_fan
caps = list_table cap_id same_fan

abbrev new_cap : FanSpendingCapEntity
new_cap = fresh_cap 3 (some 500) CapPeriod.monthly 1000 0

cap_held : get_cap caps 3 (new_cap ∷ []) ≡ some new_cap
unfolding get_cap
cap_held = refl

-- 700 of a cap of 500.
assert_within_cap_first_example :
    (assert_within_cap caps 3 700 5000 (new_cap ∷ []) ≡ ok tt)
    × ((s' : List FanSpendingCapEntity) × (record_spend caps 3 700 5000 (new_cap ∷ [])
          ≡ (ok tt, s'))
        × Member (record new_cap { spent_amount = 700 }) s')
assert_within_cap_first_example =
    assert_within_cap_first caps 3 700 5000 500 (new_cap ∷ []) new_cap (tt, tt) cap_held refl
      (omega arith) refl refl (omega arith)

abbrev calls : List Call
calls = getting 3 7 30000 ∷ invalidating 4 7 ∷ setting 3 7 1000 ∷ []

cached : (get 3 7 61000 (entries calls)).0 ≡ true
unfolding get set invalidate_pair entries call
cached = refl

get_fresh_example : (then' : ℕ) × (last_set 3 7 calls ≡ some then') × (61000 ≤ then' + 60000)
get_fresh_example = get_fresh 3 7 61000 calls cached
