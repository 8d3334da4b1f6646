-- ===== src/Subscriptions/ChainSync.antt =====
-- backend/src/subscriptions/services/subscription-chain-sync.service.ts. What the chain reader
-- answers for a pair comes from the environment.
pub mod Outcome
use my_fans.Common.{
  ℕ, ◌+◌, ◌*◌, ◌/◌, Bool, true, false, not, ◌&&◌, Option, none, some, List, [], ◌∷◌, ltb, get_or,
  length, if◌then◌else◌,
}
use my_fans.Common.Actions.{Result, ok, err}
use my_fans.Database.{Table}
use my_fans.Subscriptions.{
  SubscriptionStatus, SubscriptionIndexEntity, id_of, clash, is_active, Error,
}
use my_fans.Subscriptions.Repository.{upsert_manual, update_status, find_all_for_reconciler}

-- `{ ok: true, … }`, `{ ok: false, error }`, or an exception.
pub data Reading (A : Type 0) : Type 0 where
  read : A → Reading A
  failed : ℕ → Reading A
  thrown : ℕ → Reading A

pub record ChainReader : Type 0 where
  pub read_is_subscriber : ℕ → ℕ → Reading Bool
  pub read_expiry_unix : ℕ → ℕ → Reading ℕ

pub data Action : Type 0 where
  activate expire nothing skipped : Action

-- What the `catch` finds: an exception of the reader, or of the database.
pub data Failure : Type 0 where
  of_reader : ℕ → Failure
  of_database : Error → Failure

pub record ChainSyncRecord : Type 0 where
  pub subscription_id : ℕ
  pub fan : ℕ
  pub creator : ℕ
  pub local_status : SubscriptionStatus
  pub local_expiry_unix : ℕ
  pub chain_is_subscriber : Option Bool
  pub chain_expiry_unix : Option ℕ
  pub chain_error : Option ℕ
  pub action : Action
  pub applied : Bool
  pub error : Option Failure

pub record ChainSyncResult : Type 0 where
  pub total_scanned : ℕ
  pub activated : ℕ
  pub expired : ℕ
  pub skipped : ℕ
  pub errors : ℕ
  pub records : List ChainSyncRecord

abbrev pub is_cancelled : SubscriptionStatus → Bool
is_cancelled SubscriptionStatus.active = false
is_cancelled SubscriptionStatus.expired = false
is_cancelled SubscriptionStatus.cancelled = true

abbrev pub blank : SubscriptionIndexEntity → ChainSyncRecord
blank sub = record {
  subscription_id = sub.id;
  fan = sub.fan;
  creator = sub.creator;
  local_status = sub.status;
  local_expiry_unix = sub.expiry_unix;
  chain_is_subscriber = none;
  chain_expiry_unix = none;
  chain_error = none;
  action = nothing;
  applied = false;
  error = none;
}

-- The `catch` block.
abbrev pub caught : Failure → ChainSyncRecord → ChainSyncRecord
caught e r = record r { action = skipped; error = some e }

-- Step 3: local state against the chain's answer.
pub determine_action : (local_is_active chain_is_subscriber : Bool) → Action
determine_action local_is_active chain_is_subscriber =
    if local_is_active && not chain_is_subscriber
    then expire
    else if not local_is_active && chain_is_subscriber
    then activate
    else nothing

-- The record when the chain has answered.
abbrev pub judged : SubscriptionIndexEntity → (now : ℕ) → Bool → Option ℕ → ChainSyncRecord
judged sub now chain_is_subscriber chain_expiry = record (blank sub) {
  chain_is_subscriber = some chain_is_subscriber;
  chain_expiry_unix = chain_expiry;
  action =
      determine_action (is_active sub.status && ltb (now / 1000) sub.expiry_unix)
        chain_is_subscriber;
}

abbrev pub has_error : ChainSyncRecord → Bool
has_error r = elim r.error [ none ↦ false | some _ ↦ true ]

-- The counters, in the order of the tests.
pub tally : ChainSyncRecord → ChainSyncResult → ChainSyncResult
tally r t =
    let t' = record t {
      records = r ∷ t.records;
      errors = if has_error r then t.errors + 1 else t.errors;
    } in
    if has_error r then record t' { skipped = t.skipped + 1 } else elim r.action [
      | skipped ↦ record t' { skipped = t.skipped + 1 }
      | activate ↦ if r.applied then record t' { activated = t.activated + 1 } else t'
      | expire ↦ if r.applied then record t' { expired = t.expired + 1 } else t'
      | nothing ↦ t'
    ]

abbrev pub scanned : ℕ → ChainSyncResult
scanned n = record {
  total_scanned = n;
  activated = 0;
  expired = 0;
  skipped = 0;
  errors = 0;
  records = [];
}

module _ (db : Table id_of clash) where
  open db use {Store}

  -- `none` of the error: the action went through.
  pub apply_action :
      SubscriptionIndexEntity → Action → Option ℕ → (now : ℕ) → Store → Option Error × Store
  apply_action sub expire chain_expiry now s =
      (none, update_status db sub.fan sub.creator SubscriptionStatus.expired none now s)
  apply_action sub activate chain_expiry now s =
      let (r, s') =
        upsert_manual db
          (record {
            fan = sub.fan;
            creator = sub.creator;
            plan_id = sub.plan_id;
            expiry_unix = get_or chain_expiry (now / 1000 + 30 * 24 * 3600);
            status = SubscriptionStatus.active;
          })
          now s in
      elim r [ ok _ ↦ (none, s') | err e ↦ (some e, s') ]
  apply_action sub nothing chain_expiry now s = (none, s)
  apply_action sub skipped chain_expiry now s = (none, s)

  -- Step 4, with the exception that it may throw.
  pub conclude :
      SubscriptionIndexEntity
      → (dry_run : Bool) → (now : ℕ) → ChainSyncRecord
      → Store
      → ChainSyncRecord × Store
  unfolding apply_action
  conclude sub dry_run now r s = if dry_run then (r, s) else elim r.action [
    | nothing ↦ (r, s)
    | _ ↦
        let (e, s') = apply_action sub r.action r.chain_expiry_unix now s in
        elim e [
          | none ↦ (record r { applied = true }, s')
          | some e ↦ (caught (of_database e) r, s')
        ]
  ]

  -- From the chain's answer on.
  pub judge :
      SubscriptionIndexEntity
      → (dry_run : Bool) → (now : ℕ) → Bool
      → Option ℕ
      → Store
      → ChainSyncRecord × Store
  unfolding conclude
  judge sub dry_run now chain_is_subscriber chain_expiry s =
      conclude sub dry_run now (judged sub now chain_is_subscriber chain_expiry) s

  pub evaluate_and_apply :
      ChainReader
      → SubscriptionIndexEntity
      → (dry_run : Bool) → (now : ℕ) → Store
      → ChainSyncRecord × Store
  unfolding judge
  evaluate_and_apply chain sub dry_run now s =
      if is_cancelled sub.status
      then (record (blank sub) { action = skipped }, s)
      else elim (chain.read_is_subscriber sub.fan sub.creator) [
        | thrown e ↦ (caught (of_reader e) (blank sub), s)
        | failed e ↦ (record (blank sub) { chain_error = some e; action = skipped }, s)
        | read false ↦ judge sub dry_run now false none s
        | read true ↦ elim (chain.read_expiry_unix sub.fan sub.creator) [
          | thrown e ↦
              (caught (of_reader e) (record (blank sub) { chain_is_subscriber = some true }), s)
          | failed e ↦ judge sub dry_run now true none s
          | read expiry ↦ judge sub dry_run now true (some expiry) s
        ]
      ]

  -- The loop; the records come out with the last one first.
  pub sync_each :
      ChainReader
      → List SubscriptionIndexEntity
      → (dry_run : Bool) → (now : ℕ) → ChainSyncResult
      → Store
      → ChainSyncResult × Store
  unfolding evaluate_and_apply tally
  sync_each chain [] dry_run now t s = (t, s)
  sync_each chain (sub ∷ subs) dry_run now t s =
      let (r, s') = evaluate_and_apply chain sub dry_run now s in
      sync_each chain subs dry_run now (tally r t) s'

  -- `sync` with no fan to filter by; the reader is absent where no contract is configured.
  pub sync : Option ChainReader → (dry_run : Bool) → (now : ℕ) → Store → ChainSyncResult × Store
  unfolding sync_each
  sync none dry_run now s = (scanned 0, s)
  sync (some chain) dry_run now s =
      let subs = find_all_for_reconciler db s in
      sync_each chain subs dry_run now (scanned (length subs)) s
