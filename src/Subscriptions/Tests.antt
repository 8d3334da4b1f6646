-- ===== src/Subscriptions/Tests.antt =====
-- The subscription services on a list of rows, and the theorems at inputs that meet their hypotheses.
use my_fans.Common.{ℕ, ◌+◌, ◌*◌, ◌/◌, ◌≡◌, refl, some, none, List, [], ◌∷◌, arith, inl, ltb, length}
use my_fans.Common.Actions.{ok, err}
use my_fans.Database.{Table}
use my_fans.Database.ListTable.{list_table}
use my_fans.Subscriptions.{
  SubscriptionStatus, SubscriptionIndexEntity, id_of, clash, unique_violation, bad_request,
  not_found,
}
use my_fans.Subscriptions.Repository.{
  UpsertManualData, manual_row, is_subscriber, upsert_manual, find_current_for_fan_creator,
}
use my_fans.Subscriptions.Repository.Manual.{upsert_manual_blocked}
use my_fans.Subscriptions.Service.{
  Plan, State, Checkout, CheckoutStatus, completed, cancel_subscription, get_plan,
}
use my_fans.Subscriptions.Service.Lifecycle.{cancel_unknown}
use my_fans.Subscriptions.Checkout.{
  Confirmation, session, create_checkout, get_checkout, confirm_subscription,
  get_completed_payments, assert_network_match, calculate_fee, lookup_checkout,
}
use my_fans.Subscriptions.Checkout.Payments.{get_checkout_forgets, confirm_grants, confirm_blocked}

abbrev pub db : Table id_of clash
db = list_table id_of clash

abbrev pub monthly : Plan
monthly = record { id = 1; creator = 7; asset = 0; amount = 100000000; interval_days = 30 }

abbrev pub data_of : ℕ → UpsertManualData
data_of fan = record {
  fan = fan;
  creator = 7;
  plan_id = 1;
  expiry_unix = 2593000;
  status = SubscriptionStatus.active;
}

abbrev pub empty : State (List SubscriptionIndexEntity)
empty = record { store = []; plans = monthly ∷ []; checkouts = []; published = []; emitted = [] }

-- One manual entry, of fan 3 for creator 7, at second 1000.
abbrev pub taken : List SubscriptionIndexEntity
taken = manual_row (data_of 3) 1000000 0 ∷ []

abbrev pub one_fan : State (List SubscriptionIndexEntity)
one_fan = record empty { store = taken }

upsert_manual_blocked_example :
    upsert_manual db (data_of 4) 1000000 taken ≡ (err unique_violation, taken)
upsert_manual_blocked_example =
    upsert_manual_blocked db (data_of 4) 1000000 taken (manual_row (data_of 3) 1000000 0) (tt, tt)
      (inl refl) refl refl

cancel_runs : (cancel_subscription db 3 7 1500000 one_fan).0 ≡ ok (manual_row (data_of 3) 1000000 0)
unfolding cancel_subscription find_current_for_fan_creator
cancel_runs = refl

cancel_unknown_example : cancel_subscription db 4 7 1500000 one_fan ≡ (err not_found, one_fan)
cancel_unknown_example = cancel_unknown db 4 7 1500000 one_fan (refl, tt)

abbrev cart : Checkout
cart = session monthly 3 7 1 0 none 11 1000000

abbrev browsing : State (List SubscriptionIndexEntity)
browsing = record empty { checkouts = cart ∷ [] }

create_runs : create_checkout db [] 3 7 1 0 none none 11 1000000 empty ≡ (ok cart, browsing)
unfolding create_checkout assert_network_match get_plan calculate_fee
create_runs = refl

abbrev paid_cart : Checkout
paid_cart = record cart { status = completed }

abbrev paid_state : State (List SubscriptionIndexEntity)
paid_state = record empty { checkouts = paid_cart ∷ [] }

get_checkout_forgets_example :
    ((get_checkout db 11 2000000 paid_state).0 ≡ err bad_request)
    × (lookup_checkout 11 (get_checkout db 11 2000000 paid_state).1.checkouts
        ≡ some (record paid_cart { status = CheckoutStatus.expired }))
    × (length (get_completed_payments db (get_checkout db 11 2000000 paid_state).1) + 1
        ≡ length (get_completed_payments db paid_state))
get_checkout_forgets_example =
    get_checkout_forgets db 11 2000000 paid_state paid_cart refl refl (omega arith)

plan_found : get_plan 1 (monthly ∷ []) ≡ some monthly
unfolding get_plan
plan_found = refl

confirm_grants_example :
    (answer : Confirmation) × (st' : State (List SubscriptionIndexEntity)) × (confirm_subscription
        db 11 none 99 1100000 browsing
      ≡ (ok answer, st'))
    × ((c' : Checkout) × (lookup_checkout 11 st'.checkouts ≡ some c') × (c'.status ≡ completed))
    × (is_subscriber db 3 7 2000000 st'.store
        ≡ ltb (2000000 / 1000) (1100000 / 1000 + 30 * 24 * 60 * 60))
confirm_grants_example =
    confirm_grants db 11 none 99 1100000 2000000 browsing cart monthly refl (omega arith) plan_found
      (omega arith) tt tt

abbrev other_cart : Checkout
other_cart = session monthly 4 7 1 0 none 12 1000000

abbrev crowded : State (List SubscriptionIndexEntity)
crowded = record one_fan { checkouts = other_cart ∷ [] }

confirm_blocked_example :
    (st' : State (List SubscriptionIndexEntity)) × (c' : Checkout) × (confirm_subscription db 12
        none 99 1100000 crowded
      ≡ (err unique_violation, st'))
    × (lookup_checkout 12 st'.checkouts ≡ some c')
    × (c'.status ≡ completed)
    × (st'.store ≡ taken)
confirm_blocked_example =
    confirm_blocked db 12 none 99 1100000 crowded other_cart monthly
      (manual_row (data_of 3) 1000000 0) refl (omega arith) plan_found refl (omega arith) (tt, tt)
      (inl refl) refl refl
