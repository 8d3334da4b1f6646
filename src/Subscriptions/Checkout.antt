-- ===== src/Subscriptions/Checkout.antt =====
-- backend/src/subscriptions/subscriptions.service.ts: the checkout sessions.
-- Sums are exact here, in units of 10^-7; the source computes them in doubles and prints seven
-- decimals.
pub mod Payments
use my_fans.Common.{
  ℕ, ◌+◌, ◌*◌, ◌/◌, Bool, true, false, not, ◌||◌, Option, none, some, List, [], ◌∷◌, ltb, ◌==◌,
  filter, get_or, if◌then◌else◌,
}
use my_fans.Common.Text.{Text, trim, to_lower_case, text_eq, is_empty}
use my_fans.Common.Actions.{
  Result, ok, err, Action, pure, throw, gets, or_throw, modify, throw_if, ◌>>=◌, ◌>>◌,
}
use my_fans.Database.{Table}
use my_fans.Subscriptions.{SubscriptionIndexEntity, id_of, clash, Error, not_found, bad_request}
use my_fans.Subscriptions.Repository.{find_current_for_fan_creator}
use my_fans.Subscriptions.Service.{
  Plan, LifecycleEvent, renewal_failed, CheckoutStatus, pending, completed, failed, rejected,
  Checkout, State, Call, emit, get_plan, get_required_plan, calculate_expiry_timestamp,
  add_subscription, renew_subscription,
}

abbrev pub platform_fee_bps : ℕ
platform_fee_bps = 500

abbrev pub checkout_expiry_minutes : ℕ
checkout_expiry_minutes = 15

-- amount * bps / 10000, rounded to a unit, halves up.
unfoldable pub calculate_fee : ℕ → ℕ
calculate_fee amount = (2 * amount * platform_fee_bps + 10000) / 20000

-- `this.checkouts.get` and `.set`, and an assignment to the object that the map holds.
abbrev pub lookup_checkout : ℕ → List Checkout → Option Checkout
lookup_checkout id [] = none
lookup_checkout id (c ∷ cs) = if c.id == id then some c else lookup_checkout id cs

abbrev pub set_checkout : Checkout → List Checkout → List Checkout
set_checkout c [] = c ∷ []
set_checkout c (x ∷ xs) = if x.id == c.id then c ∷ xs else x ∷ set_checkout c xs

unfoldable pub is_completed : Checkout → Bool
is_completed c = elim c.status [ completed ↦ true | _ ↦ false ]

-- What a confirmation answers, as far as it is not read off the checkout.
pub record Confirmation : Type 0 where
  pub checkout_id : ℕ
  pub tx_hash : ℕ
  pub subscription_id : ℕ
  pub was_renewed : Bool

abbrev pub session :
    Plan → (fan creator plan_id asset_code : ℕ) → Option ℕ → (id now : ℕ) → Checkout
session plan fan creator plan_id asset_code asset_issuer id now = record {
  id = id;
  fan_address = fan;
  creator_address = creator;
  plan_id = plan_id;
  asset_code = asset_code;
  asset_issuer = asset_issuer;
  amount = plan.amount;
  fee = calculate_fee plan.amount;
  total = plan.amount + calculate_fee plan.amount;
  status = pending;
  expires_at = now + checkout_expiry_minutes * 60 * 1000;
  tx_hash = none;
  error = none;
  created_at = now;
  updated_at = now;
}

module _ (db : Table id_of clash) where
  open db use {Store}

  abbrev pub write_checkout : Checkout → Call db (Unit {0})
  write_checkout c = modify (λ st. record st { checkouts = set_checkout c st.checkouts })

  unfoldable pub assert_network_match : Text → Option Text → Call db (Unit {0})
  assert_network_match server none = pure tt
  assert_network_match server (some network) =
      throw_if
        (not (is_empty network || text_eq (to_lower_case (trim network)) (to_lower_case server)))
        bad_request

  -- `id` is what `generateId` draws.
  unfoldable pub create_checkout :
      (server : Text) (fan creator plan_id asset_code : ℕ)
      → Option ℕ
      → Option Text
      → (id now : ℕ) → Call db Checkout
  unfolding assert_network_match
  create_checkout server fan creator plan_id asset_code asset_issuer network id now = do
    assert_network_match server network
    plans ← gets (λ st. st.plans)
    plan ← or_throw (get_plan plan_id plans) not_found
    let checkout = session plan fan creator plan_id asset_code asset_issuer id now
    write_checkout checkout
    pure checkout

  unfoldable pub get_checkout : (checkout_id now : ℕ) → Call db Checkout
  get_checkout checkout_id now = do
    checkouts ← gets (λ st. st.checkouts)
    checkout ← or_throw (lookup_checkout checkout_id checkouts) not_found
    if ltb checkout.expires_at now
        then write_checkout (record checkout { status = CheckoutStatus.expired })
          >> throw bad_request
        else pure checkout

  -- `generated` stands for `tx_${Date.now()}`. A hash that is missing or the empty text, which `||`
  -- passes over, is `none`.
  unfoldable pub confirm_subscription :
      (checkout_id : ℕ) → Option ℕ → (generated now : ℕ) → Call db Confirmation
  unfolding get_checkout
  confirm_subscription checkout_id tx_hash generated now = do
    checkout ← get_checkout checkout_id now
    let fan = checkout.fan_address
    let creator = checkout.creator_address
    existing ← gets (λ st. find_current_for_fan_creator db fan creator st.store)
    let hash = get_or tx_hash generated
    write_checkout (record checkout { status = completed; tx_hash = some hash; updated_at = now })
    sub ← elim existing [
      | some _ ↦ renew_subscription db fan creator checkout.plan_id none now
      | none ↦ do
        plan ← get_required_plan db checkout.plan_id
        expiry ← calculate_expiry_timestamp db plan.interval_days now
        add_subscription db fan creator checkout.plan_id expiry now
    ]
    pure (record {
      checkout_id = checkout.id;
      tx_hash = hash;
      subscription_id = sub.id;
      was_renewed = elim existing [ some _ ↦ true | none ↦ false ];
    })

  unfoldable pub fail_checkout : (checkout_id error : ℕ) → Bool → (now : ℕ) → Call db (Unit {0})
  unfolding get_checkout
  fail_checkout checkout_id error is_rejected now = do
    checkout ← get_checkout checkout_id now
    write_checkout (record checkout {
      status = if is_rejected then rejected else failed;
      error = some error;
      updated_at = now;
    })
    emit (renewal_failed checkout.id error checkout.fan_address)

  unfoldable pub get_completed_payments : State Store → List Checkout
  unfolding is_completed
  get_completed_payments st = filter is_completed st.checkouts
