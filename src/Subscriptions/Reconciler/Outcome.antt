-- ===== src/Subscriptions/Reconciler/Outcome.antt =====
-- What a reconciliation starts, and the index once its repairs are done.
use my_fans.Common.{
  ℕ, ◌+◌, ◌/◌, ◌≤◌, ◌≡◌, refl, Bool, true, false, ◌&&◌, ◌||◌, none, some, List, [], ◌∷◌, arith, All,
  Member, All-imp, All-map, All-of_Member, ◌⊎◌, inl, inr, Bool-cases, length, if◌then◌else◌,
}
use my_fans.Database.{Table, patch}
use my_fans.Subscriptions.{SubscriptionStatus, SubscriptionIndexEntity, id_of, clash}
use my_fans.Subscriptions.Repository.{
  of_pair, active_pair, with_status, update_status, is_subscriber, find_all_for_reconciler,
}
use my_fans.Subscriptions.Repository.Access.{IsSettled, IsSound, is_subscriber_none}
use my_fans.Subscriptions.Service.{State, expire_subscription}
use my_fans.Subscriptions.Reconciler.{
  ReconcileResult, Repair, past_expiry, expire, evaluate_subscription, reconciled, reconcile_each,
  reconcile, apply_repair, settle, scanning,
}

abbrev repair_of : SubscriptionIndexEntity → Repair
repair_of sub = record {
  fan = sub.fan;
  creator = sub.creator;
  action = expire;
  chain_expiry = none;
}

abbrev repairs_of : ℕ → List SubscriptionIndexEntity → List Repair
repairs_of t [] = []
repairs_of t (q ∷ qs) = if past_expiry t q then repair_of q ∷ repairs_of t qs else repairs_of t qs

evaluate_subscription_repair :
    (sub : SubscriptionIndexEntity) (chain_available : Bool) (now : ℕ)
    → (evaluate_subscription sub chain_available false now).1
      ≡ (if past_expiry (now / 1000) sub then some (repair_of sub) else none)
unfolding evaluate_subscription
evaluate_subscription_repair sub true now = ground arith
evaluate_subscription_repair sub false now = ground arith

reconcile_each_repairs :
    (subs : List SubscriptionIndexEntity) (chain_available : Bool) (now : ℕ) (t : ReconcileResult)
    → (reconcile_each subs chain_available false now t).1 ≡ repairs_of (now / 1000) subs
unfolding reconcile_each
reconcile_each_repairs [] chain_available now t = refl
reconcile_each_repairs (sub ∷ subs) chain_available now t =
    let (r, repair) = evaluate_subscription sub chain_available false now in
    let ih = reconcile_each_repairs subs chain_available now (reconciled r t) in
    let own = evaluate_subscription_repair sub chain_available now in
    elim (Bool-cases (past_expiry (now / 1000) sub)) [
      | inl stale ↦ ground arith
      | inr fresh' ↦ ground arith
    ]

reconcile_each_dry :
    (subs : List SubscriptionIndexEntity) (chain_available : Bool) (now : ℕ) (t : ReconcileResult)
    → ((reconcile_each subs chain_available true now t).1 ≡ [])
      × ((reconcile_each subs chain_available true now t).0.repaired ≡ t.repaired)
unfolding reconcile_each evaluate_subscription
reconcile_each_dry [] chain_available now t = (refl, refl)
reconcile_each_dry (sub ∷ subs) true now t =
    let (r, repair) = evaluate_subscription sub true true now in
    let (none', same) = reconcile_each_dry subs true now (reconciled r t) in ground arith
reconcile_each_dry (sub ∷ subs) false now t =
    let (r, repair) = evaluate_subscription sub false true now in
    let (none', same) = reconcile_each_dry subs false now (reconciled r t) in ground arith

reconcile_each-counts :
    (subs : List SubscriptionIndexEntity) (chain_available : Bool) (now : ℕ) (t : ReconcileResult)
    → let (t', repairs) = reconcile_each subs chain_available false now t in
      (t'.stale_found ≡ t.stale_found + length repairs)
      × (t'.repaired ≡ t.repaired + length repairs)
unfolding reconcile_each evaluate_subscription
reconcile_each-counts [] chain_available now t = (omega arith, omega arith)
reconcile_each-counts (sub ∷ subs) true now t =
    let (r, repair) = evaluate_subscription sub true false now in
    let ih = reconcile_each-counts subs true now (reconciled r t) in ground arith
reconcile_each-counts (sub ∷ subs) false now t =
    let (r, repair) = evaluate_subscription sub false false now in
    let ih = reconcile_each-counts subs false now (reconciled r t) in ground arith

-- One of the entries is past its expiry and of the same pair as `x`.
abbrev awaits : ℕ → List SubscriptionIndexEntity → SubscriptionIndexEntity → Bool
awaits t [] x = false
awaits t (q ∷ qs) x = (past_expiry t q && of_pair q.fan q.creator x) || awaits t qs x

awaits-Member :
    (t : ℕ) (r x : SubscriptionIndexEntity) (subs : List SubscriptionIndexEntity)
    → Member r subs
    → past_expiry t r ≡ true
    → of_pair r.fan r.creator x ≡ true
    → awaits t subs x ≡ true
awaits-Member t r x [] m stale same = elim m [ ]
awaits-Member t r x (q ∷ qs) (inl e) stale same = rw (← e) (ground arith)
awaits-Member t r x (q ∷ qs) (inr m) stale same =
    ground (arith, awaits-Member t r x qs m stale same)

abbrev IsAwaited : ℕ → List SubscriptionIndexEntity → SubscriptionIndexEntity → Type 0
IsAwaited t subs x = past_expiry t x ≡ true → awaits t subs x ≡ true

abbrev IsLapsing : ℕ → ℕ → ℕ → List SubscriptionIndexEntity → SubscriptionIndexEntity → Type 0
IsLapsing t fan creator subs x =
    IsSettled t x × (of_pair fan creator x ≡ true → (x.expiry_unix ≤ t) ⊎ (awaits t subs x ≡ true))

-- The row after the repair of `q`.
abbrev repaired_row :
    ℕ → SubscriptionIndexEntity → SubscriptionIndexEntity → SubscriptionIndexEntity
repaired_row now q x =
    patch (active_pair q.fan q.creator) (with_status SubscriptionStatus.expired none now) x

repaired_row-IsAwaited :
    (t now : ℕ) (q x : SubscriptionIndexEntity) (qs : List SubscriptionIndexEntity)
    → IsAwaited t (q ∷ qs) x
    → IsAwaited t qs (repaired_row now q x)
repaired_row-IsAwaited t now q x qs h = elim (Bool-cases (active_pair q.fan q.creator x)) [
  | inl hit ↦ ground arith
  | inr miss ↦ ground arith
]

repaired_row-IsLapsing :
    (t fan creator now : ℕ) (q x : SubscriptionIndexEntity) (qs : List SubscriptionIndexEntity)
    → IsLapsing t fan creator (q ∷ qs) x
    → IsLapsing t fan creator qs (repaired_row now q x)
repaired_row-IsLapsing t fan creator now q x qs h =
    elim (Bool-cases (active_pair q.fan q.creator x)) [
      | inl hit ↦ ground arith
      | inr miss ↦ ground arith
    ]

module _ (db : Table id_of clash) where
  open db use {Store, rows}

  -- A predicate of the rows that each repair carries on holds, with nothing left to repair, at the
  -- end.
  settle-All :
      (P : List SubscriptionIndexEntity → SubscriptionIndexEntity → Type 0) (t now : ℕ)
      → ((q x : SubscriptionIndexEntity) (qs : List SubscriptionIndexEntity)
          → P (q ∷ qs) x
          → P qs (repaired_row now q x))
      → ((q x : SubscriptionIndexEntity) (qs : List SubscriptionIndexEntity)
          → past_expiry t q ≡ false
          → P (q ∷ qs) x
          → P qs x)
      → (subs : List SubscriptionIndexEntity) (st : State Store) → All (P subs) (rows st.store)
      → All (P []) (rows (settle db (repairs_of t subs) now st).store)
  unfolding settle apply_repair expire_subscription update_status
  settle-All P t now step skip [] st h = h
  settle-All P t now step skip (q ∷ qs) st h = elim (Bool-cases (past_expiry t q)) [
    | inr fresh' ↦ rw fresh' (
        settle-All P t now step skip qs st
          (All-imp (P (q ∷ qs)) (P qs) (rows st.store) (λ x p. skip q x qs fresh' p) h))
    | inl stale ↦
        let p = active_pair q.fan q.creator in
        let f = with_status SubscriptionStatus.expired none now in
        let h' : All (P qs) (rows (db.update p f st.store)) = rw (db.rows-update p f st.store) (
          All-map (P qs) (patch p f) (rows st.store) (
            All-imp (P (q ∷ qs)) (λ x. P qs (patch p f x)) (rows st.store) (λ x k. step q x qs k)
              h)) in
        rw stale
          (settle-All P t now step skip qs (expire_subscription db q.fan q.creator now st).1 h')
  ]

  repairs_started :
      (chain_available : Bool) (now : ℕ) (s : Store)
      → (reconcile db chain_available false now s).1
        ≡ repairs_of (now / 1000) (find_all_for_reconciler db s)
  unfolding reconcile
  repairs_started chain_available now s =
      reconcile_each_repairs (find_all_for_reconciler db s) chain_available now _

  scanned-Member :
      (s : Store) (r : SubscriptionIndexEntity)
      → Member r (rows s)
      → Member r (find_all_for_reconciler db s)
  unfolding find_all_for_reconciler
  scanned-Member s r m = db.Member-find (λ _. true) s r m refl

  -- Once the repairs that a run which is not dry started are done, on the index that it scanned, no
  -- entry is active past its expiry.
  pub reconcile_clears :
      (chain_available : Bool) (now : ℕ) (st : State Store)
      → let repairs = (reconcile db chain_available false now st.store).1 in
        All (λ x. past_expiry (now / 1000) x ≡ false) (rows (settle db repairs now st).store)
  reconcile_clears chain_available now st =
      let t = now / 1000 in
      let subs = find_all_for_reconciler db st.store in
      let all' = All-of_Member (IsAwaited t subs) (rows st.store) (λ x m stale.
        awaits-Member t x x subs (scanned-Member st.store x m) stale (ground arith)) in
      let done =
        settle-All (IsAwaited t) t now (λ q x qs h. repaired_row-IsAwaited t now q x qs h)
          (λ q x qs fresh' h. ground arith) subs st all' in
      rw (repairs_started chain_available now st.store)
        (All-imp (IsAwaited t []) (λ x. past_expiry t x ≡ false) _ (λ x h. ground arith) done)

  -- In a sound index, an entry that is active past its expiry costs its pair the access, whatever
  -- newer entries the pair has: once the run's repairs are done, the fan does not pass as a
  -- subscriber, from that second on.
  pub reconcile_revokes :
      (chain_available : Bool) (now later : ℕ) (st : State Store) (r : SubscriptionIndexEntity)
      → IsSound db (now / 1000) st.store
      → Member r (rows st.store)
      → past_expiry (now / 1000) r ≡ true
      → now ≤ later
      → let repairs = (reconcile db chain_available false now st.store).1 in
        is_subscriber db r.fan r.creator later (settle db repairs now st).store ≡ false
  reconcile_revokes chain_available now later st r sound mem stale le =
      let t = now / 1000 in
      let subs = find_all_for_reconciler db st.store in
      let all' =
        All-imp (IsSettled t) (IsLapsing t r.fan r.creator subs) (rows st.store)
          (λ x settled. (
            settled,
            λ same. inr (awaits-Member t r x subs (scanned-Member st.store r mem) stale same),
          ))
          sound in
      let done =
        settle-All (IsLapsing t r.fan r.creator) t now
          (λ q x qs h. repaired_row-IsLapsing t r.fan r.creator now q x qs h)
          (λ q x qs fresh' h. ground arith) subs st all' in
      rw (repairs_started chain_available now st.store) (
        is_subscriber_none db r.fan r.creator later t _ (omega arith) (
          All-imp (IsLapsing t r.fan r.creator [])
            (λ x. of_pair r.fan r.creator x ≡ true → x.expiry_unix ≤ t) _ (λ x h same. ground arith)
            done))

  -- A dry run starts no repair and counts none.
  pub reconcile_dry :
      (chain_available : Bool) (now : ℕ) (s : Store)
      → ((reconcile db chain_available true now s).1 ≡ [])
        × ((reconcile db chain_available true now s).0.repaired ≡ 0)
  unfolding reconcile
  reconcile_dry chain_available now s =
      reconcile_each_dry (find_all_for_reconciler db s) chain_available now _

  -- A run that is not dry counts as stale, and as repaired, exactly the entries for which it started
  -- a repair.
  pub reconcile-counts :
      (chain_available : Bool) (now : ℕ) (s : Store)
      → let (t, repairs) = reconcile db chain_available false now s in
        (t.stale_found ≡ length repairs) × (t.repaired ≡ length repairs)
  unfolding reconcile
  reconcile-counts chain_available now s =
      let subs = find_all_for_reconciler db s in
      let (a, b) = reconcile_each-counts subs chain_available now (scanning false (length subs)) in
      (omega arith, omega arith)
