-- ===== src/Subscriptions/Poller/Repeats.antt =====
-- What the poller does with an event that it has had before.
use mathlib.Core.Path.{subst}
use my_fans.Common.{
  ℕ, ◌≡◌, refl, sym, true, false, ◌&&◌, some, List, [], ◌∷◌, arith, Member, inl, inr, ◌==◌,
}
use my_fans.Database.{Table}
use my_fans.Database.Laws.{find_one-eq-some}
use my_fans.Subscriptions.{EventType, SubscriptionIndexEntity, id_of, clash}
use my_fans.Subscriptions.Repository.{event_row, of_event, find_by_event_id}
use my_fans.Subscriptions.Service.{State}
use my_fans.Subscriptions.Poller.{
  ContractEvent, is_target, event_type, event_data, domain_events, publish_domain_event,
  process_event, process_events,
}
use my_fans.Subscriptions.Poller.Events.{publish_all_store, event_row_hit, process_event-cases}

module _ (db : Table id_of clash) where
  open db use {Store, rows}

  found_again :
      (e : ContractEvent) (now : ℕ) (t : EventType) (s s' : Store) (r : SubscriptionIndexEntity)
      → r ≡ event_row (event_data e now t) now (id_of r)
      → rows s' ≡ r ∷ rows s
      → (x : SubscriptionIndexEntity) × (find_by_event_id db e.ledger_seq e.event_index s' ≡ some x)
  unfolding find_by_event_id
  found_again e now t s s' r same grown =
      let hit : of_event e.ledger_seq e.event_index r ≡ true =
        subst (λ x. of_event e.ledger_seq e.event_index x ≡ true) (sym same)
          (event_row_hit e now t (id_of r)) in
      let here : Member r (rows s') = rw grown (inl refl) in
      let (x, found, _, _) =
        find_one-eq-some db (of_event e.ledger_seq e.event_index) (λ _. 0) s' r here hit in
      (x, found)

  process_event-known :
      (contract_id : ℕ) (e : ContractEvent) (now : ℕ) (st : State Store)
      (x : SubscriptionIndexEntity)
      → (e.contract == contract_id) && is_target e.kind ≡ true
      → find_by_event_id db e.ledger_seq e.event_index st.store ≡ some x
      → process_event db contract_id e now st ≡ (true, st)
  unfolding process_event
  process_event-known contract_id e now st x ours known = ground arith

  find_by_event_id-store :
      (e : ContractEvent) (s s' : Store) (x : SubscriptionIndexEntity)
      → s' ≡ s
      → find_by_event_id db e.ledger_seq e.event_index s ≡ some x
      → find_by_event_id db e.ledger_seq e.event_index s' ≡ some x
  find_by_event_id-store e s s' x same found = rw same found

  -- Some row of the index has the event's id.
  abbrev IsIndexed : ContractEvent → State Store → Type 0
  IsIndexed e st =
      (x : SubscriptionIndexEntity) × (find_by_event_id db e.ledger_seq e.event_index st.store
        ≡ some x)

  -- One more row keeps every event that is in the index.
  find_by_event_id-grown :
      (e : ContractEvent) (s s' : Store) (r x : SubscriptionIndexEntity)
      → rows s' ≡ r ∷ rows s
      → find_by_event_id db e.ledger_seq e.event_index s ≡ some x
      → (y : SubscriptionIndexEntity) × (find_by_event_id db e.ledger_seq e.event_index s' ≡ some y)
  unfolding find_by_event_id
  find_by_event_id-grown e s s' r x grown found =
      let (mem, hit, _) =
        db.find_one-some (of_event e.ledger_seq e.event_index) (λ _. 0) s x found in
      let there : Member x (rows s') = rw grown (inr mem) in
      let (y, again, _, _) =
        find_one-eq-some db (of_event e.ledger_seq e.event_index) (λ _. 0) s' x there hit in
      (y, again)

  event_kept :
      (contract_id : ℕ) (e e' : ContractEvent) (now : ℕ) (st : State Store)
      → IsIndexed e st
      → IsIndexed e (process_event db contract_id e' now st).1
  event_kept contract_id e e' now st (x, found) =
      elim (process_event-cases db contract_id e' now st) [
        | inl (_, passed) ↦ rw passed (x, found)
        | inr (inl (_, _, known)) ↦ rw known (x, found)
        | inr (inr (r, s', _, _, grown, _, stored)) ↦
            let (y, again) = find_by_event_id-grown e st.store s' r x grown found in
            let st' = publish_domain_event r (record st { store = s' }) in
            let kept : st'.store ≡ s' =
              publish_all_store (domain_events r r.event_type) (record st { store = s' }) in
            rw stored (y, find_by_event_id-store e s' st'.store y kept again)
      ]

  events_kept :
      (contract_id : ℕ) (e : ContractEvent) (es : List ContractEvent) (now : ℕ) (st : State Store)
      → IsIndexed e st
      → IsIndexed e (process_events db contract_id es now st).1
  unfolding process_events
  events_kept contract_id e [] now st there = there
  events_kept contract_id e (e' ∷ es) now st there =
      events_kept contract_id e es now (process_event db contract_id e' now st).1
        (event_kept contract_id e e' now st there)

  -- The state after polls, each with the events that it reads and its instant.
  abbrev pub polled : ℕ → List (List ContractEvent × ℕ) → State Store → State Store
  polled contract_id [] st = st
  polled contract_id ((es, now) ∷ polls) st =
      polled contract_id polls (process_events db contract_id es now st).1

  polls_kept :
      (contract_id : ℕ) (e : ContractEvent) (polls : List (List ContractEvent × ℕ))
      (st : State Store)
      → IsIndexed e st
      → IsIndexed e (polled contract_id polls st)
  polls_kept contract_id e [] st there = there
  polls_kept contract_id e ((es, now) ∷ polls) st there =
      polls_kept contract_id e polls (process_events db contract_id es now st).1
        (events_kept contract_id e es now st there)

  process_event-passed :
      (contract_id : ℕ) (e : ContractEvent) (now : ℕ) (st : State Store)
      → (e.contract == contract_id) && is_target e.kind ≡ false
      → process_event db contract_id e now st ≡ (false, st)
  unfolding process_event
  process_event-passed contract_id e now st other = ground arith

  -- An event that the poller comes to again, after any polls in between and with no other writer of
  -- the index between them, is answered as the first time, and changes and publishes nothing.
  pub process_event_twice :
      (contract_id : ℕ) (e : ContractEvent) (now later : ℕ) (polls : List (List ContractEvent × ℕ))
      (st : State Store)
      → let (done, st') = process_event db contract_id e now st in
        let st'' = polled contract_id polls st' in
        process_event db contract_id e later st'' ≡ (done, st'')
  process_event_twice contract_id e now later polls st =
      let known_later : (st' : State Store)
          → (e.contract == contract_id) && is_target e.kind ≡ true
          → IsIndexed e st'
          → process_event db contract_id e later (polled contract_id polls st')
            ≡ (true, polled contract_id polls st') =
        λ st' ours there.
          let (x, found) = polls_kept contract_id e polls st' there in
          process_event-known contract_id e later (polled contract_id polls st') x ours found in
      elim (process_event-cases db contract_id e now st) [
        | inl (other, passed) ↦
            rw passed (process_event-passed contract_id e later (polled contract_id polls st) other)
        | inr (inl (ours, there, done)) ↦ rw done (known_later st ours there)
        | inr (inr (r, s', ours, same, grown, made, stored)) ↦
            let st' = publish_domain_event r (record st { store = s' }) in
            let (x, found) = found_again e now (event_type e.kind) st.store s' r same grown in
            let kept : st'.store ≡ s' =
              publish_all_store (domain_events r r.event_type) (record st { store = s' }) in
            rw stored (known_later st' ours (x, find_by_event_id-store e s' st'.store x kept found))
      ]
