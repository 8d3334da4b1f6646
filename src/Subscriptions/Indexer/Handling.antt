-- ===== src/Subscriptions/Indexer/Handling.antt =====
-- What the lifecycle events do to the index.
use mathlib.Core.Path.{subst}
use my_fans.Common.{ℕ, ◌+◌, ◌*◌, ◌/◌, ◌≤◌, ◌≡◌, refl, false, none, arith, inl, get_or}
use my_fans.Database.{Table}
use my_fans.Subscriptions.{SubscriptionStatus, id_of, clash}
use my_fans.Subscriptions.Repository.{UpsertManualData, upsert_manual, update_status, is_subscriber}
use my_fans.Subscriptions.Repository.Access.{
  IsSound, upsert_manual-IsSound, update_status-IsSound, update_status-revokes,
}
use my_fans.Subscriptions.Service.{State}
use my_fans.Subscriptions.Indexer.{
  IndexerKind, renewed, cancelled, renewal_failed, IndexerEvent, handle_event,
}

module _ (db : Table id_of clash) where
  open db use {Store}

  abbrev renewed_data : IndexerEvent → ℕ → UpsertManualData
  renewed_data e now = record {
    fan = e.user_id;
    creator = e.creator_id;
    plan_id = e.plan_id;
    expiry_unix = get_or e.expiry (now / 1000 + 30 * 24 * 3600);
    status = SubscriptionStatus.active;
  }

  handle_event-kind :
      (k : IndexerKind) (e : IndexerEvent) (now : ℕ) (st : State Store)
      → e.event ≡ k
      → IsSound db (now / 1000) st.store
      → IsSound db (now / 1000) (handle_event db e now st).1.store
  unfolding handle_event
  handle_event-kind renewed e now st kind sound =
      let d = renewed_data e now in
      let same : (upsert_manual db d now st.store).1 ≡ (handle_event db e now st).1.store =
        ground arith in
      subst (IsSound db (now / 1000)) same
        (upsert_manual-IsSound db d now (now / 1000) st.store (inl refl) sound)
  handle_event-kind cancelled e now st kind sound =
      let same : update_status db e.user_id e.creator_id SubscriptionStatus.cancelled none now
            st.store
          ≡ (handle_event db e now st).1.store =
        ground arith in
      subst (IsSound db (now / 1000)) same (
        update_status-IsSound db e.user_id e.creator_id SubscriptionStatus.cancelled none now
          (now / 1000) st.store (omega arith) sound)
  handle_event-kind renewal_failed e now st kind sound =
      let same : st.store ≡ (handle_event db e now st).1.store = ground arith in
      subst (IsSound db (now / 1000)) same sound

  -- A lifecycle event keeps the invariant of the index.
  pub handle_event-IsSound :
      (e : IndexerEvent) (now : ℕ) (st : State Store)
      → IsSound db (now / 1000) st.store
      → IsSound db (now / 1000) (handle_event db e now st).1.store
  handle_event-IsSound e now st sound = handle_event-kind e.event e now st refl sound

  -- In a sound index, after a cancellation event the fan has no access, from that second on.
  pub handle_event_cancels :
      (e : IndexerEvent) (now later : ℕ) (st : State Store)
      → IsSound db (now / 1000) st.store
      → e.event ≡ cancelled
      → now ≤ later
      → is_subscriber db e.user_id e.creator_id later (handle_event db e now st).1.store ≡ false
  unfolding handle_event
  handle_event_cancels e now later st sound kind le =
      let gone =
        update_status-revokes db e.user_id e.creator_id SubscriptionStatus.cancelled none now later
          (now / 1000) st.store sound (omega arith) (omega arith) in
      ground arith
