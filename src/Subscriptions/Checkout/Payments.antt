-- ===== src/Subscriptions/Checkout/Payments.antt =====
-- What a checkout session promises: its price, its lifetime, and what confirming it does.
use mathlib.Core.Path.{subst}
use my_fans.Common.{
  ℕ, ◌+◌, ◌*◌, ◌/◌, ◌≤◌, ◌<◌, ◌≡◌, ◌∙◌, refl, sym, Bool, true, false, ◌||◌, Option, none, some,
  List, [], ◌∷◌, arith, All, Member, inl, inr, ◌⊎◌, Option-cases, Bool-cases, ltb, count, length,
  length-filter, if◌then◌else◌, get_or, ==_refl,
}
use my_fans.Common.Text.{Text, trim, to_lower_case, text_eq, is_empty}
use my_fans.Common.Actions.{ok, err}
use my_fans.Database.{Table, IsKeyed}
use my_fans.Database.Laws.{find_one-eq-none}
use my_fans.Subscriptions.{SubscriptionIndexEntity, id_of, clash, bad_request, unique_violation}
use my_fans.Subscriptions.Repository.{
  UpsertManualData, of_pair, find_current_for_fan_creator, is_subscriber,
}
use my_fans.Subscriptions.Repository.Manual.{is_manual, upsert_manual_grants, upsert_manual_blocked}
use my_fans.Subscriptions.Service.{
  Plan, State, CheckoutStatus, created, subscription_created, completed, Checkout, get_plan,
  get_expiry_status, get_required_plan, calculate_expiry_timestamp, max_safe_integer,
  add_subscription, renew_subscription,
}
use my_fans.Subscriptions.Checkout.{
  calculate_fee, lookup_checkout, set_checkout, is_completed, Confirmation, assert_network_match,
  create_checkout, get_checkout, confirm_subscription, get_completed_payments, session,
}

-- The fee is five per cent of the amount, rounded to the nearest unit.
pub calculate_fee_rate :
    (amount : ℕ)
    → (20 * calculate_fee amount ≤ amount + 10) × (amount ≤ 20 * calculate_fee amount + 10)
unfolding calculate_fee
calculate_fee_rate amount = omega arith

lookup-set : (c : Checkout) (cs : List Checkout) → lookup_checkout c.id (set_checkout c cs) ≡ some c
lookup-set c [] = ground (arith, ==_refl c.id)
lookup-set c (x ∷ xs) = ground (arith, ==_refl c.id, lookup-set c xs)

-- Writing a held checkout back changes the count of a test by that one checkout.
count-set :
    (p : Checkout → Bool) (c c' : Checkout) (cs : List Checkout)
    → lookup_checkout c'.id cs ≡ some c
    → count p (set_checkout c' cs) + (if p c then 1 else 0) ≡ count p cs + (if p c' then 1 else 0)
count-set p c c' [] held = cc
count-set p c c' (x ∷ xs) held = ground (arith, count-set p c c' xs)

lookup-id :
    (id : ℕ) (c : Checkout) (cs : List Checkout) → lookup_checkout id cs ≡ some c → c.id ≡ id
lookup-id id c [] held = cc
lookup-id id c (x ∷ xs) held = ground (arith, lookup-id id c xs)

-- A held session that is written back is found as it was written.
lookup-set_held :
    (id : ℕ) (c c' : Checkout) (cs : List Checkout)
    → lookup_checkout id cs ≡ some c
    → c'.id ≡ c.id
    → lookup_checkout id (set_checkout c' cs) ≡ some c'
lookup-set_held id c c' cs held same =
    subst (λ i. lookup_checkout i (set_checkout c' cs) ≡ some c') (same ∙ lookup-id id c cs held)
      (lookup-set c' cs)

-- The entry that a confirmation writes, and the session that it leaves.
abbrev entry : Checkout → ℕ → ℕ → UpsertManualData
entry c expiry now = record {
  fan = c.fan_address;
  creator = c.creator_address;
  plan_id = c.plan_id;
  expiry_unix = expiry;
  status = get_expiry_status expiry now;
}

abbrev paid : Checkout → Option ℕ → ℕ → ℕ → Checkout
paid c tx generated now = record c {
  status = completed;
  tx_hash = some (get_or tx generated);
  updated_at = now;
}

module _ (db : Table id_of clash) where
  open db use {Store, rows}

  assert_network_match-cases :
      (server : Text) (network : Option Text) (st : State Store)
      → (assert_network_match db server network st ≡ (ok tt, st))
        ⊎ (assert_network_match db server network st ≡ (err bad_request, st))
  unfolding assert_network_match
  assert_network_match-cases server none st = inl refl
  assert_network_match-cases server (some network) st =
      elim (Bool-cases
        (is_empty network || text_eq (to_lower_case (trim network)) (to_lower_case server))) [
          | inl fits ↦ inl (rw fits)
          | inr differs ↦ inr (rw differs)
        ]

  -- A session that was created is found unchanged for fifteen minutes, and its total is the plan's
  -- amount and the fee.
  pub create-get_checkout :
      (server : Text) (fan creator plan_id asset : ℕ) (issuer : Option ℕ) (network : Option Text)
      (id now later : ℕ) (st st' : State Store) (c : Checkout)
      → create_checkout db server fan creator plan_id asset issuer network id now st ≡ (ok c, st')
      → later ≤ now + 15 * 60 * 1000
      → (get_checkout db id later st' ≡ (ok c, st'))
        × ((plan : Plan) × (get_plan plan_id st.plans ≡ some plan)
            × (c.total ≡ plan.amount + calculate_fee plan.amount))
  unfolding create_checkout get_checkout
  create-get_checkout server fan creator plan_id asset issuer network id now later st st' c e le =
      elim (Option-cases (get_plan plan_id st.plans)) [
        | inl nothing ↦ elim (assert_network_match-cases server network st) [
          | inl fits ↦ absurd (ground arith)
          | inr differs ↦ absurd (ground arith)
        ]
        | inr (plan, known) ↦ elim (assert_network_match-cases server network st) [
          | inl fits ↦
              let there : lookup_checkout id st'.checkouts ≡ some c = ground (
                arith,
                lookup-set (session plan fan creator plan_id asset issuer id now) st.checkouts,
              ) in
              (ground arith, (plan, known, ground arith))
          | inr differs ↦ absurd (ground arith)
        ]
      ]

  -- Looking at a completed session after its time turns it into an expired one: the answer is an
  -- error, the session is found with the status expired and otherwise as it was, and one payment
  -- less counts as completed.
  pub get_checkout_forgets :
      (id now : ℕ) (st : State Store) (c : Checkout)
      → lookup_checkout id st.checkouts ≡ some c
      → c.status ≡ completed
      → c.expires_at < now
      → ((get_checkout db id now st).0 ≡ err bad_request)
        × (lookup_checkout id (get_checkout db id now st).1.checkouts
            ≡ some (record c { status = CheckoutStatus.expired }))
        × (length (get_completed_payments db (get_checkout db id now st).1) + 1
            ≡ length (get_completed_payments db st))
  unfolding get_checkout get_completed_payments
  get_checkout_forgets id now st c held done late =
      let same = lookup-id id c st.checkouts held in
      let c' : Checkout = record c { status = CheckoutStatus.expired } in
      let counted =
        count-set is_completed c c' st.checkouts
          (subst (λ i. lookup_checkout i st.checkouts ≡ some c) (sym same) held) in
      let gone : (get_checkout db id now st).1.checkouts ≡ set_checkout c' st.checkouts =
        ground arith in
      (
        ground arith,
        rw gone (lookup-set_held id c c' st.checkouts held refl),
        ground (
          arith,
          length-filter is_completed st.checkouts,
          length-filter is_completed (set_checkout c' st.checkouts),
        ),
      )

  -- A fan with no entry for the creator, in an index with no manual entry, who confirms a live
  -- session of a known plan whose end is a safe integer: the confirmation goes through, the session
  -- is found with the status completed, and the fan has access from now on until the plan's
  -- interval has passed.
  pub confirm_grants :
      (id : ℕ) (tx : Option ℕ) (generated now later : ℕ) (st : State Store) (c : Checkout)
      (plan : Plan)
      → lookup_checkout id st.checkouts ≡ some c
      → now ≤ c.expires_at
      → get_plan c.plan_id st.plans ≡ some plan
      → now / 1000 + plan.interval_days * 24 * 60 * 60 ≤ max_safe_integer
      → All (λ x. of_pair c.fan_address c.creator_address x ≡ false) (rows st.store)
      → All (λ x. is_manual x ≡ false) (rows st.store)
      → (answer : Confirmation) × (st' : State Store) × (confirm_subscription db id tx generated now
            st
          ≡ (ok answer, st'))
        × ((c' : Checkout) × (lookup_checkout id st'.checkouts ≡ some c') × (c'.status ≡ completed))
        × (is_subscriber db c.fan_address c.creator_address later st'.store
            ≡ ltb (later / 1000) (now / 1000 + plan.interval_days * 24 * 60 * 60))
  unfolding get_checkout confirm_subscription get_required_plan calculate_expiry_timestamp
      add_subscription find_current_for_fan_creator
  confirm_grants id tx generated now later st c plan held live known safe new free =
      let expiry = now / 1000 + plan.interval_days * 24 * 60 * 60 in
      let d = entry c expiry now in
      let (r, s', stored, access) = upsert_manual_grants db d now later st.store new free in
      let nobody =
        find_one-eq-none db (of_pair c.fan_address c.creator_address) (λ x. x.indexed_at) st.store
          new in
      let c' = paid c tx generated now in
      (
        record {
          checkout_id = c.id;
          tx_hash = get_or tx generated;
          subscription_id = r.id;
          was_renewed = false;
        },
        record st {
          store = s';
          checkouts = set_checkout c' st.checkouts;
          published = created c.fan_address c.creator_address c.plan_id expiry ∷ st.published;
          emitted =
              subscription_created r.id c.fan_address c.creator_address c.plan_id ∷ st.emitted;
        },
        ground arith,
        (c', lookup-set_held id c c' st.checkouts held refl, refl),
        access,
      )

  -- While some other pair has a manual entry, in an index with distinct keys, confirming a live
  -- session of a known plan, whose creator is the session's creator and whose end is a safe integer,
  -- fails on the unique constraint: the session is marked completed, and the index is as before.
  pub confirm_blocked :
      (id : ℕ) (tx : Option ℕ) (generated now : ℕ) (st : State Store) (c : Checkout) (plan : Plan)
      (x : SubscriptionIndexEntity)
      → lookup_checkout id st.checkouts ≡ some c
      → now ≤ c.expires_at
      → get_plan c.plan_id st.plans ≡ some plan
      → plan.creator ≡ c.creator_address
      → now / 1000 + plan.interval_days * 24 * 60 * 60 ≤ max_safe_integer
      → IsKeyed id_of (rows st.store)
      → Member x (rows st.store)
      → is_manual x ≡ true
      → of_pair c.fan_address c.creator_address x ≡ false
      → (st' : State Store) × (c' : Checkout) × (confirm_subscription db id tx generated now st
          ≡ (err unique_violation, st'))
        × (lookup_checkout id st'.checkouts ≡ some c')
        × (c'.status ≡ completed)
        × (st'.store ≡ st.store)
  unfolding get_checkout confirm_subscription get_required_plan calculate_expiry_timestamp
      add_subscription renew_subscription
  confirm_blocked id tx generated now st c plan x held live known own safe keyed mem m other =
      let expiry = now / 1000 + plan.interval_days * 24 * 60 * 60 in
      let refused =
        upsert_manual_blocked db (entry c expiry now) now st.store x keyed mem m other in
      let c' = paid c tx generated now in
      let mine = lookup-set_held id c c' st.checkouts held refl in
      let st' : State Store = record st { checkouts = set_checkout c' st.checkouts } in
      elim (Option-cases
        (find_current_for_fan_creator db c.fan_address c.creator_address st.store)) [
          | inl new ↦ (st', c', ground arith, mine, refl, refl)
          | inr (old, found) ↦ (st', c', ground arith, mine, refl, refl)
        ]
