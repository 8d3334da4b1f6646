-- ===== src/Subscriptions/System.antt =====
-- All that writes the subscription index, in any order: the service, the lifecycle endpoint, the
-- event poller, the chain sync and the repairs of the reconciler.
use mathlib.Core.Path.{subst}
use my_fans.Common.{
  ℕ, ◌/◌, ◌≤◌, ◌<◌, ◌≡◌, refl, sym, true, Bool, Option, [], arith, Member, Option-cases, inl, inr,
}
use my_fans.Database.{Table}
use my_fans.Subscriptions.{SubscriptionIndexEntity, id_of, clash, is_active}
use my_fans.Subscriptions.Repository.{find_current_for_fan_creator, is_subscriber}
use my_fans.Subscriptions.Repository.Access.{IsSound, IsSound-later, is_subscriber_sound}
use my_fans.Subscriptions.Service.{
  State, add_subscription, renew_subscription, expire_subscription, cancel_subscription,
}
use my_fans.Subscriptions.Service.Lifecycle.{
  add_subscription-IsSound, renew_subscription-IsSound, expire_subscription-IsSound,
  cancel_subscription-IsSound,
}
use my_fans.Subscriptions.ChainSync.{ChainReader, sync}
use my_fans.Subscriptions.ChainSync.Outcome.{sync-IsSound}
use my_fans.Subscriptions.Reconciler.{Repair, RepairAction, keep, expire, activate, apply_repair}
use my_fans.Subscriptions.Poller.{ContractEvent, process_event}
use my_fans.Subscriptions.Poller.Events.{process_event-IsSound}
use my_fans.Subscriptions.Indexer.{IndexerEvent, handle_event}
use my_fans.Subscriptions.Indexer.Handling.{handle_event-IsSound}

pub data Operation : Type 0 where
  add : (fan creator plan_id expiry : ℕ) → Operation
  renew : (fan creator plan_id : ℕ) → Option ℕ → Operation
  lapse : (fan creator : ℕ) → Operation
  cancel : (fan creator : ℕ) → Operation
  handle : IndexerEvent → Operation
  process : (contract_id : ℕ) → ContractEvent → Operation
  sync_chain : Option ChainReader → (dry_run : Bool) → Operation
  repair : Repair → Operation

module _ (db : Table id_of clash) where
  open db use {Store, rows}

  -- What is left after an operation at an instant, whether it threw or not.
  unfoldable pub perform : Operation → ℕ → State Store → State Store
  perform (add fan creator plan_id expiry) now st =
      (add_subscription db fan creator plan_id expiry now st).1
  perform (renew fan creator plan_id expiry) now st =
      (renew_subscription db fan creator plan_id expiry now st).1
  perform (lapse fan creator) now st = (expire_subscription db fan creator now st).1
  perform (cancel fan creator) now st = (cancel_subscription db fan creator now st).1
  perform (handle e) now st = (handle_event db e now st).1
  perform (process contract_id e) now st = (process_event db contract_id e now st).1
  perform (sync_chain chain dry_run) now st = record st {
    store = (sync db chain dry_run now st.store).1;
  }
  perform (repair r) now st = (apply_repair db r now st).1

  -- The states that operations at later and later instants reach from an index with no entry.
  pub data Reach : ℕ → State Store → Type 0 where
    start : (now : ℕ) (st : State Store) → rows st.store ≡ [] → Reach now st
    next :
        {now : ℕ} {st : State Store} (op : Operation) (then' : ℕ) (st' : State Store)
        → Reach now st
        → now ≤ then'
        → st' ≡ perform op then' st
        → Reach then' st'

  apply_repair-action :
      (a : RepairAction) (r : Repair) (now : ℕ) (st : State Store)
      → r.action ≡ a
      → IsSound db (now / 1000) st.store
      → IsSound db (now / 1000) (apply_repair db r now st).1.store
  unfolding apply_repair
  apply_repair-action keep r now st a sound =
      let same : st.store ≡ (apply_repair db r now st).1.store = ground arith in
      subst (IsSound db (now / 1000)) same sound
  apply_repair-action expire r now st a sound =
      let same : (expire_subscription db r.fan r.creator now st).1.store
          ≡ (apply_repair db r now st).1.store =
        ground arith in
      subst (IsSound db (now / 1000)) same
        (expire_subscription-IsSound db r.fan r.creator now st sound)
  apply_repair-action activate r now st a sound = elim (Option-cases r.chain_expiry) [
    | inl unknown ↦
        let same : st.store ≡ (apply_repair db r now st).1.store = ground arith in
        subst (IsSound db (now / 1000)) same sound
    | inr (x, known) ↦
        elim (Option-cases (find_current_for_fan_creator db r.fan r.creator st.store)) [
          | inl nobody ↦
              let same : st.store ≡ (apply_repair db r now st).1.store = ground arith in
              subst (IsSound db (now / 1000)) same sound
          | inr (sub, found) ↦
              let same : (renew_subscription db r.fan r.creator sub.plan_id r.chain_expiry now
                    st).1.store
                  ≡ (apply_repair db r now st).1.store =
                ground arith in
              subst (IsSound db (now / 1000)) same (
                renew_subscription-IsSound db r.fan r.creator sub.plan_id r.chain_expiry now st
                  sound)
        ]
  ]

  perform-IsSound :
      (op : Operation) (now : ℕ) (st : State Store)
      → IsSound db (now / 1000) st.store
      → IsSound db (now / 1000) (perform op now st).store
  unfolding perform
  perform-IsSound (add fan creator plan_id expiry) now st sound =
      add_subscription-IsSound db fan creator plan_id expiry now st sound
  perform-IsSound (renew fan creator plan_id expiry) now st sound =
      renew_subscription-IsSound db fan creator plan_id expiry now st sound
  perform-IsSound (lapse fan creator) now st sound =
      expire_subscription-IsSound db fan creator now st sound
  perform-IsSound (cancel fan creator) now st sound =
      cancel_subscription-IsSound db fan creator now st sound
  perform-IsSound (handle e) now st sound = handle_event-IsSound db e now st sound
  perform-IsSound (process contract_id e) now st sound =
      process_event-IsSound db contract_id e now st sound
  perform-IsSound (sync_chain chain dry_run) now st sound =
      sync-IsSound db chain dry_run now st.store sound
  perform-IsSound (repair r) now st sound = apply_repair-action r.action r now st refl sound

  Reach-IsSound : {now : ℕ} {st : State Store} → Reach now st → IsSound db (now / 1000) st.store
  Reach-IsSound (start now st empty) = rw empty tt
  Reach-IsSound (next op then' st' r le same) =
      subst (λ x. IsSound db (then' / 1000) x.store) (sym same)
        (perform-IsSound op then' _
          (IsSound-later db _ (then' / 1000) _ (omega arith) (Reach-IsSound r)))

  -- In every state that the service, the lifecycle endpoint, the poller, the chain sync and the
  -- repairs reach, in whatever order they come, a fan passes as a subscriber only by an entry for that
  -- creator that is active and whose expiry lies ahead.
  pub reachable_access :
      (now later fan creator : ℕ) (st : State Store)
      → Reach now st
      → now ≤ later
      → is_subscriber db fan creator later st.store ≡ true
      → (r : SubscriptionIndexEntity) × Member r (rows st.store)
        × (r.fan ≡ fan)
        × (r.creator ≡ creator)
        × (is_active r.status ≡ true)
        × (later / 1000 < r.expiry_unix)
  reachable_access now later fan creator st r le access =
      is_subscriber_sound db fan creator later (now / 1000) st.store (Reach-IsSound r) (omega arith)
        access
