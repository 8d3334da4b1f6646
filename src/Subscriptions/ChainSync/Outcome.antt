-- ===== src/Subscriptions/ChainSync/Outcome.antt =====
-- What a sync run changes, and how it counts.
use mathlib.Core.Path.{subst}
use my_fans.Common.{
  ℕ, suc, ◌+◌, ◌*◌, ◌/◌, ◌≤◌, ◌<◌, ◌≡◌, ◌∙◌, refl, sym, Bool, true, false, Option, none, some, List,
  [], ◌∷◌, arith, ◌⊎◌, inl, inr, Bool-cases, length, get_or,
}
use my_fans.Database.{Table}
use my_fans.Subscriptions.{SubscriptionStatus, SubscriptionIndexEntity, id_of, clash, is_active}
use my_fans.Subscriptions.Repository.{
  UpsertManualData, upsert_manual, is_subscriber, find_all_for_reconciler,
}
use my_fans.Subscriptions.Repository.Access.{
  IsSound, upsert_manual-IsSound, update_status-IsSound, update_status-revokes,
}
use my_fans.Subscriptions.ChainSync.{
  Reading, read, failed, thrown, ChainReader, Action, activate, expire, ChainSyncRecord,
  ChainSyncResult, is_cancelled, determine_action, apply_action, conclude, judge,
  evaluate_and_apply, tally, sync_each, scanned, judged, sync,
}

Reading-cases :
    {A : Type 0} (r : Reading A)
    → ((a : A) × (r ≡ read a)) ⊎ (((e : ℕ) × (r ≡ failed e)) ⊎ ((e : ℕ) × (r ≡ thrown e)))
Reading-cases (read a) = inl (a, refl)
Reading-cases (failed e) = inr (inl (e, refl))
Reading-cases (thrown e) = inr (inr (e, refl))

abbrev IsBalanced : ChainSyncResult → Type 0
IsBalanced t = (t.activated + t.expired + t.skipped ≤ length t.records) × (t.errors ≤ t.skipped)

tally-IsBalanced :
    (r : ChainSyncRecord) (t : ChainSyncResult)
    → IsBalanced t
    → IsBalanced (tally r t)
      × (length (tally r t).records ≡ suc (length t.records))
      × ((tally r t).total_scanned ≡ t.total_scanned)
unfolding tally
tally-IsBalanced r t b = ground arith

module _ (db : Table id_of clash) where
  open db use {Store, rows}

  conclude_dry :
      (sub : SubscriptionIndexEntity) (now : ℕ) (r : ChainSyncRecord) (s : Store)
      → (conclude db sub true now r s).1 ≡ s
  unfolding conclude
  conclude_dry sub now r s = refl

  apply_action-IsSound :
      (sub : SubscriptionIndexEntity) (a : Action) (x : Option ℕ) (now : ℕ) (s : Store)
      → IsSound db (now / 1000) s
      → IsSound db (now / 1000) (apply_action db sub a x now s).1
  unfolding apply_action
  apply_action-IsSound sub expire x now s sound =
      update_status-IsSound db sub.fan sub.creator SubscriptionStatus.expired none now (now / 1000)
        s (omega arith) sound
  apply_action-IsSound sub activate x now s sound =
      let d : UpsertManualData = record {
        fan = sub.fan;
        creator = sub.creator;
        plan_id = sub.plan_id;
        expiry_unix = get_or x (now / 1000 + 30 * 24 * 3600);
        status = SubscriptionStatus.active;
      } in
      let same : (upsert_manual db d now s).1 ≡ (apply_action db sub activate x now s).1 =
        ground arith in
      subst (IsSound db (now / 1000)) same
        (upsert_manual-IsSound db d now (now / 1000) s (inl refl) sound)
  apply_action-IsSound sub _ x now s sound = sound

  conclude-store :
      (sub : SubscriptionIndexEntity) (dry_run : Bool) (now : ℕ) (r : ChainSyncRecord) (s : Store)
      → (s ≡ (conclude db sub dry_run now r s).1)
        ⊎ ((apply_action db sub r.action r.chain_expiry_unix now s).1
            ≡ (conclude db sub dry_run now r s).1)
  unfolding conclude
  conclude-store sub dry_run now r s = ground arith

  conclude-IsSound :
      (sub : SubscriptionIndexEntity) (dry_run : Bool) (now : ℕ) (r : ChainSyncRecord) (s : Store)
      → IsSound db (now / 1000) s
      → IsSound db (now / 1000) (conclude db sub dry_run now r s).1
  conclude-IsSound sub dry_run now r s sound = elim (conclude-store sub dry_run now r s) [
    | inl same ↦ subst (IsSound db (now / 1000)) same sound
    | inr same ↦
        subst (IsSound db (now / 1000)) same
          (apply_action-IsSound sub r.action r.chain_expiry_unix now s sound)
  ]

  -- An evaluation leaves the table alone, or concludes.
  evaluate-store :
      (chain : ChainReader) (sub : SubscriptionIndexEntity) (dry_run : Bool) (now : ℕ) (s : Store)
      → (s ≡ (evaluate_and_apply db chain sub dry_run now s).1)
        ⊎ ((r : ChainSyncRecord) × ((conclude db sub dry_run now r s).1
              ≡ (evaluate_and_apply db chain sub dry_run now s).1))
  unfolding evaluate_and_apply judge
  evaluate-store chain sub dry_run now s = elim (Bool-cases (is_cancelled sub.status)) [
    | inl over ↦ inl (ground arith)
    | inr open' ↦ elim (Reading-cases (chain.read_is_subscriber sub.fan sub.creator)) [
      | inr wrong ↦ inl (ground arith)
      | inl (b, answered) ↦ elim (Bool-cases b) [
        | inr denied ↦ inr (judged sub now false none, ground arith)
        | inl confirmed ↦ elim (Reading-cases (chain.read_expiry_unix sub.fan sub.creator)) [
          | inl (x, dated) ↦ inr (judged sub now true (some x), ground arith)
          | inr (inl (e, fell)) ↦ inr (judged sub now true none, ground arith)
          | inr (inr (e, fell)) ↦ inl (ground arith)
        ]
      ]
    ]
  ]

  pub evaluate_dry :
      (chain : ChainReader) (sub : SubscriptionIndexEntity) (now : ℕ) (s : Store)
      → (evaluate_and_apply db chain sub true now s).1 ≡ s
  evaluate_dry chain sub now s = elim (evaluate-store chain sub true now s) [
    | inl same ↦ sym same
    | inr (r, same) ↦ sym same ∙ conclude_dry sub now r s
  ]

  pub evaluate-IsSound :
      (chain : ChainReader) (sub : SubscriptionIndexEntity) (dry_run : Bool) (now : ℕ) (s : Store)
      → IsSound db (now / 1000) s
      → IsSound db (now / 1000) (evaluate_and_apply db chain sub dry_run now s).1
  evaluate-IsSound chain sub dry_run now s sound = elim (evaluate-store chain sub dry_run now s) [
    | inl same ↦ subst (IsSound db (now / 1000)) same sound
    | inr (r, same) ↦
        subst (IsSound db (now / 1000)) same (conclude-IsSound sub dry_run now r s sound)
  ]

  -- In a sound index, an entry that is active and has time left, of a pair that the chain denies:
  -- after its evaluation in a run that is not dry, the fan has no access from that second on.
  pub evaluate_denied :
      (chain : ChainReader) (sub : SubscriptionIndexEntity) (now later : ℕ) (s : Store)
      → IsSound db (now / 1000) s
      → is_active sub.status ≡ true
      → now / 1000 < sub.expiry_unix
      → chain.read_is_subscriber sub.fan sub.creator ≡ read false
      → now ≤ later
      → is_subscriber db sub.fan sub.creator later (evaluate_and_apply db chain sub false now s).1
        ≡ false
  unfolding evaluate_and_apply judge conclude determine_action apply_action
  evaluate_denied chain sub now later s sound on time denied le =
      let gone =
        update_status-revokes db sub.fan sub.creator SubscriptionStatus.expired none now later
          (now / 1000) s sound (omega arith) (omega arith) in
      ground arith

  sync_each_dry :
      (chain : ChainReader) (subs : List SubscriptionIndexEntity) (now : ℕ) (t : ChainSyncResult)
      (s : Store)
      → (sync_each db chain subs true now t s).1 ≡ s
  unfolding sync_each
  sync_each_dry chain [] now t s = refl
  sync_each_dry chain (sub ∷ subs) now t s =
      let (r, s') = evaluate_and_apply db chain sub true now s in
      sync_each_dry chain subs now (tally r t) s' ∙ evaluate_dry chain sub now s

  sync_each-IsSound :
      (chain : ChainReader) (subs : List SubscriptionIndexEntity) (dry_run : Bool) (now : ℕ)
      (t : ChainSyncResult) (s : Store)
      → IsSound db (now / 1000) s
      → IsSound db (now / 1000) (sync_each db chain subs dry_run now t s).1
  unfolding sync_each
  sync_each-IsSound chain [] dry_run now t s sound = sound
  sync_each-IsSound chain (sub ∷ subs) dry_run now t s sound =
      let (r, s') = evaluate_and_apply db chain sub dry_run now s in
      sync_each-IsSound chain subs dry_run now (tally r t) s'
        (evaluate-IsSound chain sub dry_run now s sound)

  sync_each-IsBalanced :
      (chain : ChainReader) (subs : List SubscriptionIndexEntity) (dry_run : Bool) (now : ℕ)
      (t : ChainSyncResult) (s : Store)
      → IsBalanced t
      → IsBalanced (sync_each db chain subs dry_run now t s).0
        × (length (sync_each db chain subs dry_run now t s).0.records
            ≡ length t.records + length subs)
        × ((sync_each db chain subs dry_run now t s).0.total_scanned ≡ t.total_scanned)
  unfolding sync_each
  sync_each-IsBalanced chain [] dry_run now t s b = (b, omega arith, refl)
  sync_each-IsBalanced chain (sub ∷ subs) dry_run now t s b =
      let (r, s') = evaluate_and_apply db chain sub dry_run now s in
      let (b', one, same) = tally-IsBalanced r t b in
      let (ih, more, same') = sync_each-IsBalanced chain subs dry_run now (tally r t) s' b' in
      (ih, omega arith, same' ∙ same)

  -- A dry run writes nothing, whatever the chain answers.
  pub sync_dry :
      (chain : Option ChainReader) (now : ℕ) (s : Store) → (sync db chain true now s).1 ≡ s
  unfolding sync
  sync_dry none now s = refl
  sync_dry (some chain) now s =
      sync_each_dry chain (find_all_for_reconciler db s) now
        (scanned (length (find_all_for_reconciler db s))) s

  -- A run keeps the invariant of the index.
  pub sync-IsSound :
      (chain : Option ChainReader) (dry_run : Bool) (now : ℕ) (s : Store)
      → IsSound db (now / 1000) s
      → IsSound db (now / 1000) (sync db chain dry_run now s).1
  unfolding sync
  sync-IsSound none dry_run now s sound = sound
  sync-IsSound (some chain) dry_run now s sound =
      sync_each-IsSound chain (find_all_for_reconciler db s) dry_run now
        (scanned (length (find_all_for_reconciler db s))) s sound

  -- Every run has a record for each entry that it scanned; no entry is counted twice among the
  -- activated, the expired and the skipped, and what is counted as an error is counted as skipped.
  pub sync-counts :
      (chain : ChainReader) (dry_run : Bool) (now : ℕ) (s : Store)
      → let t = (sync db (some chain) dry_run now s).0 in
        (length t.records ≡ t.total_scanned)
        × (t.total_scanned ≡ length (find_all_for_reconciler db s))
        × (t.activated + t.expired + t.skipped ≤ t.total_scanned)
        × (t.errors ≤ t.skipped)
  unfolding sync
  sync-counts chain dry_run now s =
      let subs = find_all_for_reconciler db s in
      let (b, n, same) =
        sync_each-IsBalanced chain subs dry_run now (scanned (length subs)) s (omega arith) in
      (omega arith, omega arith, omega arith, omega arith)
