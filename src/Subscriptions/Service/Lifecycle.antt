-- ===== src/Subscriptions/Service/Lifecycle.antt =====
-- The life of a subscription: what each operation of the service does to access and to the events.
use mathlib.Core.Path.{subst}
use my_fans.Common.{
  ℕ, ◌+◌, ◌/◌, ◌*◌, ◌≤◌, ◌≡◌, refl, true, false, Option, none, some, arith, All, inl, inr, ◌⊎◌,
  Option-cases, Bool-cases, ltb, ◌==◌,
}
use my_fans.Common.Actions.{err}
use my_fans.Database.{Table}
use my_fans.Database.Laws.{find_one-eq-none}
use my_fans.Subscriptions.{SubscriptionStatus, id_of, clash, is_active, not_found}
use my_fans.Subscriptions.Repository.{
  of_pair, UpsertManualData, upsert_manual, update_status, find_current_for_fan_creator,
  is_subscriber,
}
use my_fans.Subscriptions.Repository.Access.{
  IsSound, upsert_manual-IsSound, update_status-IsSound, update_status-revokes,
}
use my_fans.Subscriptions.Service.{
  State, get_plan, get_expiry_status, max_safe_integer, add_subscription, renew_subscription,
  expire_subscription, cancel_subscription,
}

-- The status that the service derives from an expiry is settled at that instant.
get_expiry_status_settled :
    (expiry now : ℕ) → (is_active (get_expiry_status expiry now) ≡ true) ⊎ (expiry ≤ now / 1000)
get_expiry_status_settled expiry now = elim (Bool-cases (ltb (now / 1000) expiry)) [
  | inl future ↦ inl (rw future)
  | inr past ↦ inr (ground arith)
]

module _ (db : Table id_of clash) where
  open db use {Store, rows}

  written :
      (d : UpsertManualData) (now : ℕ) (s : Store)
      → d.status ≡ get_expiry_status d.expiry_unix now
      → IsSound db (now / 1000) s
      → IsSound db (now / 1000) (upsert_manual db d now s).1
  written d now s derived sound =
      upsert_manual-IsSound db d now (now / 1000) s
        (rw derived (get_expiry_status_settled d.expiry_unix now)) sound

  pub add_subscription-IsSound :
      (fan creator plan_id expiry now : ℕ) (st : State Store)
      → IsSound db (now / 1000) st.store
      → IsSound db (now / 1000) (add_subscription db fan creator plan_id expiry now st).1.store
  unfolding add_subscription
  add_subscription-IsSound fan creator plan_id expiry now st sound =
      let d : UpsertManualData = record {
        fan = fan;
        creator = creator;
        plan_id = plan_id;
        expiry_unix = expiry;
        status = get_expiry_status expiry now;
      } in
      let w = written d now st.store refl sound in
      let same : (upsert_manual db d now st.store).1
          ≡ (add_subscription db fan creator plan_id expiry now st).1.store =
        ground arith in
      subst (IsSound db (now / 1000)) same w

  pub expire_subscription-IsSound :
      (fan creator now : ℕ) (st : State Store)
      → IsSound db (now / 1000) st.store
      → IsSound db (now / 1000) (expire_subscription db fan creator now st).1.store
  unfolding expire_subscription
  expire_subscription-IsSound fan creator now st sound =
      update_status-IsSound db fan creator SubscriptionStatus.expired none now (now / 1000) st.store
        (omega arith) sound

  pub cancel_subscription-IsSound :
      (fan creator now : ℕ) (st : State Store)
      → IsSound db (now / 1000) st.store
      → IsSound db (now / 1000) (cancel_subscription db fan creator now st).1.store
  unfolding cancel_subscription
  cancel_subscription-IsSound fan creator now st sound =
      elim (Option-cases (find_current_for_fan_creator db fan creator st.store)) [
        | inl nobody ↦
            let same : st.store ≡ (cancel_subscription db fan creator now st).1.store =
              ground arith in
            subst (IsSound db (now / 1000)) same sound
        | inr (r, found) ↦
            let w =
              update_status-IsSound db fan creator SubscriptionStatus.cancelled (some (now / 1000))
                now (now / 1000) st.store (omega arith) sound in
            let same : update_status db fan creator SubscriptionStatus.cancelled (some (now / 1000))
                  now st.store
                ≡ (cancel_subscription db fan creator now st).1.store =
              ground arith in
            subst (IsSound db (now / 1000)) same w
      ]

  abbrev renewal : (fan creator plan_id next now : ℕ) → UpsertManualData
  renewal fan creator plan_id next now = record {
    fan = fan;
    creator = creator;
    plan_id = plan_id;
    expiry_unix = next;
    status = get_expiry_status next now;
  }

  -- A renewal writes one entry, or nothing.
  renew_subscription_store :
      (fan creator plan_id : ℕ) (expiry : Option ℕ) (now : ℕ) (st : State Store)
      → (st.store ≡ (renew_subscription db fan creator plan_id expiry now st).1.store)
        ⊎ ((next : ℕ) × ((upsert_manual db (renewal fan creator plan_id next now) now st.store).1
              ≡ (renew_subscription db fan creator plan_id expiry now st).1.store))
  unfolding renew_subscription
  renew_subscription_store fan creator plan_id expiry now st =
      elim (Option-cases (get_plan plan_id st.plans)) [
        | inl nothing ↦ inl (ground arith)
        | inr (plan, found) ↦ elim (Bool-cases (plan.creator == creator)) [
          | inr theirs ↦ inl (ground arith)
          | inl mine ↦ elim (Option-cases expiry) [
            | inr (next, given) ↦ inr (next, ground arith)
            | inl default ↦
                let next = now / 1000 + plan.interval_days * 24 * 60 * 60 in
                elim (Bool-cases (ltb max_safe_integer next)) [
                  | inl overflow ↦ inl (ground arith)
                  | inr safe ↦ inr (next, ground arith)
                ]
          ]
        ]
      ]

  pub renew_subscription-IsSound :
      (fan creator plan_id : ℕ) (expiry : Option ℕ) (now : ℕ) (st : State Store)
      → IsSound db (now / 1000) st.store
      → IsSound db (now / 1000) (renew_subscription db fan creator plan_id expiry now st).1.store
  renew_subscription-IsSound fan creator plan_id expiry now st sound =
      elim (renew_subscription_store fan creator plan_id expiry now st) [
        | inl same ↦ subst (IsSound db (now / 1000)) same sound
        | inr (next, same) ↦
            subst (IsSound db (now / 1000)) same
              (written (renewal fan creator plan_id next now) now st.store refl sound)
      ]

  -- In a sound index, expiring a subscription ends the access from that second on.
  pub expire_revokes :
      (fan creator now later : ℕ) (st : State Store)
      → IsSound db (now / 1000) st.store
      → now ≤ later
      → is_subscriber db fan creator later (expire_subscription db fan creator now st).1.store
        ≡ false
  unfolding expire_subscription
  expire_revokes fan creator now later st sound le =
      update_status-revokes db fan creator SubscriptionStatus.expired none now later (now / 1000)
        st.store sound (omega arith) (omega arith)

  -- Cancelling a pair that has no entry is refused and changes nothing.
  pub cancel_unknown :
      (fan creator now : ℕ) (st : State Store)
      → All (λ r. of_pair fan creator r ≡ false) (rows st.store)
      → cancel_subscription db fan creator now st ≡ (err not_found, st)
  unfolding cancel_subscription find_current_for_fan_creator
  cancel_unknown fan creator now st new =
      let nobody = find_one-eq-none db (of_pair fan creator) (λ r. r.indexed_at) st.store new in
      ground arith
