-- ===== src/Subscriptions/Reconciler.antt =====
-- backend/src/subscriptions/subscription-reconciler.service.ts. The source does not await a repair:
-- an evaluation answers the repair that it starts, and `settle` is the repairs' own run.
pub mod Outcome
use my_fans.Common.{
  ℕ, suc, ◌+◌, ◌/◌, Bool, true, false, not, ◌&&◌, ◌||◌, Option, none, some, List, [], ◌∷◌, ltb,
  length, if◌then◌else◌,
}
use my_fans.Common.Actions.{Action, pure, gets, ◌>>=◌, ◌>>◌}
use my_fans.Database.{Table}
use my_fans.Subscriptions.{
  SubscriptionStatus, SubscriptionIndexEntity, id_of, clash, is_active, Error,
}
use my_fans.Subscriptions.Repository.{find_all_for_reconciler, find_current_for_fan_creator}
use my_fans.Subscriptions.Service.{State, expire_subscription, renew_subscription}

pub data Criteria : Type 0 where
  fresh active_past_expiry active_chain_expired expired_chain_active : Criteria

pub data RepairAction : Type 0 where
  keep expire activate : RepairAction

pub record ReconcileRecord : Type 0 where
  pub subscription_id : ℕ
  pub fan : ℕ
  pub creator : ℕ
  pub local_status : SubscriptionStatus
  pub local_expiry : ℕ
  pub chain_expiry : Option ℕ
  pub stale_criteria : Criteria
  pub action : RepairAction
  pub applied : Bool

pub record ReconcileResult : Type 0 where
  pub dry_run : Bool
  pub total_scanned : ℕ
  pub stale_found : ℕ
  pub repaired : ℕ
  pub records : List ReconcileRecord

-- A call of `applyRepair`.
pub record Repair : Type 0 where
  pub fan : ℕ
  pub creator : ℕ
  pub action : RepairAction
  pub chain_expiry : Option ℕ

-- The stub of the source.
abbrev pub query_chain_expiry : ℕ → ℕ → Option ℕ
query_chain_expiry fan creator = none

abbrev pub is_expired : SubscriptionStatus → Bool
is_expired SubscriptionStatus.active = false
is_expired SubscriptionStatus.expired = true
is_expired SubscriptionStatus.cancelled = false

-- Criterion 1: active, but past its expiry in the index.
abbrev pub past_expiry : ℕ → SubscriptionIndexEntity → Bool
past_expiry now_secs sub = is_active sub.status && ltb sub.expiry_unix now_secs

abbrev pub local_verdict : SubscriptionIndexEntity → ℕ → Criteria × RepairAction
local_verdict sub now_secs =
    if past_expiry now_secs sub then (active_past_expiry, expire) else (fresh, keep)

-- Criteria 2 and 3, on what the chain answers.
abbrev pub chain_verdict :
    SubscriptionIndexEntity → ℕ → Option ℕ → Criteria × RepairAction → Criteria × RepairAction
chain_verdict sub now_secs none v = v
chain_verdict sub now_secs (some chain_expiry) v =
    if is_active sub.status && ltb chain_expiry now_secs
    then (active_chain_expired, expire)
    else if is_expired sub.status && ltb now_secs chain_expiry
    then (expired_chain_active, activate)
    else v

abbrev pub verdict :
    SubscriptionIndexEntity → (chain_available : Bool) → ℕ → Criteria × RepairAction
verdict sub chain_available now_secs =
    if chain_available
    then chain_verdict sub now_secs (query_chain_expiry sub.fan sub.creator)
        (local_verdict sub now_secs)
    else local_verdict sub now_secs

abbrev pub is_keep : RepairAction → Bool
is_keep keep = true
is_keep expire = false
is_keep activate = false

unfoldable pub evaluate_subscription :
    SubscriptionIndexEntity
    → (chain_available dry_run : Bool) → (now : ℕ) → ReconcileRecord × Option Repair
evaluate_subscription sub chain_available dry_run now =
    let (criteria, action) = verdict sub chain_available (now / 1000) in
    let chain_expiry = if chain_available then query_chain_expiry sub.fan sub.creator else none in
    let r : ReconcileRecord = record {
      subscription_id = sub.id;
      fan = sub.fan;
      creator = sub.creator;
      local_status = sub.status;
      local_expiry = sub.expiry_unix;
      chain_expiry = chain_expiry;
      stale_criteria = criteria;
      action = action;
      applied = false;
    } in
    if is_keep action || dry_run then (r, none) else (
      record r { applied = true },
      some (record {
        fan = sub.fan;
        creator = sub.creator;
        action = action;
        chain_expiry = chain_expiry;
      }),
    )

abbrev pub is_fresh : Criteria → Bool
is_fresh fresh = true
is_fresh active_past_expiry = false
is_fresh active_chain_expired = false
is_fresh expired_chain_active = false

-- The body of the loop after an evaluation.
abbrev pub reconciled : ReconcileRecord → ReconcileResult → ReconcileResult
reconciled r t = record t {
  records = r ∷ t.records;
  stale_found = if is_fresh r.stale_criteria then t.stale_found else t.stale_found + 1;
  repaired = if r.applied then t.repaired + 1 else t.repaired;
}

abbrev pub started : Option Repair → List Repair → List Repair
started none rs = rs
started (some r) rs = r ∷ rs

abbrev pub scanning : Bool → ℕ → ReconcileResult
scanning dry_run n = record {
  dry_run = dry_run;
  total_scanned = n;
  stale_found = 0;
  repaired = 0;
  records = [];
}

-- The loop; the repairs come out in the order in which they were started.
unfoldable pub reconcile_each :
    List SubscriptionIndexEntity
    → (chain_available dry_run : Bool) → (now : ℕ) → ReconcileResult
    → ReconcileResult × List Repair
unfolding evaluate_subscription
reconcile_each [] chain_available dry_run now t = (t, [])
reconcile_each (sub ∷ subs) chain_available dry_run now t =
    let (r, repair) = evaluate_subscription sub chain_available dry_run now in
    let (t', repairs) = reconcile_each subs chain_available dry_run now (reconciled r t) in
    (t', started repair repairs)

module _ (db : Table id_of clash) where
  open db use {Store}

  unfoldable pub reconcile :
      (chain_available dry_run : Bool) → (now : ℕ) → Store → ReconcileResult × List Repair
  reconcile chain_available dry_run now s =
      let all_subs = find_all_for_reconciler db s in
      reconcile_each all_subs chain_available dry_run now (scanning dry_run (length all_subs))

  abbrev renewing :
      Repair → ℕ → Option SubscriptionIndexEntity → Action Error (State Store) (Unit {0})
  renewing r now none = pure tt
  renewing r now (some sub) = do
    _ ← renew_subscription db r.fan r.creator sub.plan_id r.chain_expiry now
    pure tt

  abbrev activating : Repair → ℕ → Option ℕ → Action Error (State Store) (Unit {0})
  activating r now none = pure tt
  activating r now (some _) = do
    found ← gets (λ st. find_current_for_fan_creator db r.fan r.creator st.store)
    renewing r now found

  unfoldable pub apply_repair : Repair → (now : ℕ) → Action Error (State Store) (Unit {0})
  apply_repair r now = elim r.action [
    | keep ↦ pure tt
    | expire ↦ expire_subscription db r.fan r.creator now
    | activate ↦ activating r now r.chain_expiry
  ]

  -- The started repairs, one after the other; what one of them throws is nobody's.
  unfoldable pub settle : List Repair → (now : ℕ) → State Store → State Store
  unfolding apply_repair
  settle [] now st = st
  settle (r ∷ rs) now st = settle rs now (apply_repair r now st).1
