-- ===== src/Subscriptions/Poller/Events.antt =====
-- What the poller does with an event.
use mathlib.Core.Path.{subst}
use my_fans.Common.{
  ℕ, ◌/◌, ◌≤◌, ◌≡◌, refl, true, false, ◌&&◌, none, some, List, [], ◌∷◌, arith, All-imp, ◌⊎◌, inl,
  inr, Bool-cases, Option-cases, ◌==◌, ==_refl,
}
use my_fans.Common.Actions.{ok}
use my_fans.Common.Int.{ℤ, pos, negsuc, eq_ℤ}
use my_fans.Database.{Table}
use my_fans.Subscriptions.{EventType, SubscriptionIndexEntity, id_of, clash, is_active}
use my_fans.Subscriptions.Repository.{event_row, of_event, find_by_event_id, upsert_event}
use my_fans.Subscriptions.Repository.Access.{IsSound, upsert_event-IsSound}
use my_fans.Subscriptions.Service.{State, DomainEvent}
use my_fans.Subscriptions.Poller.{
  ContractEvent, is_target, event_type, event_data, domain_events, publish_all,
  publish_domain_event, process_event,
}

eq_ℤ_refl : (a : ℤ) → eq_ℤ a a ≡ true
eq_ℤ_refl (pos a) = ==_refl a
eq_ℤ_refl (negsuc a) = ==_refl a

eq_ℤ_sym : (a b : ℤ) → eq_ℤ a b ≡ eq_ℤ b a
eq_ℤ_sym (pos a) (pos b) = ground arith
eq_ℤ_sym (pos a) (negsuc b) = refl
eq_ℤ_sym (negsuc a) (pos b) = refl
eq_ℤ_sym (negsuc a) (negsuc b) = ground arith

event_data_id :
    (e : ContractEvent) (now : ℕ) (t : EventType)
    → ((event_data e now t).ledger_seq ≡ e.ledger_seq)
      × ((event_data e now t).event_index ≡ e.event_index)
event_data_id e now EventType.subscribed = (refl, refl)
event_data_id e now EventType.extended = (refl, refl)
event_data_id e now EventType.cancelled = (refl, refl)
event_data_id e now EventType.manual = (refl, refl)

event_data_settled :
    (e : ContractEvent) (now : ℕ) (t : EventType)
    → (is_active (event_data e now t).status ≡ true)
      ⊎ ((event_data e now t).expiry_unix ≤ now / 1000)
event_data_settled e now EventType.subscribed = inl refl
event_data_settled e now EventType.extended = inl refl
event_data_settled e now EventType.cancelled = inr (omega arith)
event_data_settled e now EventType.manual = inl refl

-- A row of the event is found by the event's id.
pub event_row_hit :
    (e : ContractEvent) (now : ℕ) (t : EventType) (n : ℕ)
    → of_event e.ledger_seq e.event_index (event_row (event_data e now t) now n) ≡ true
event_row_hit e now t n =
    let (l, i) = event_data_id e now t in
    let a = eq_ℤ_refl e.ledger_seq in let b = eq_ℤ_refl e.event_index in rw (l, i, a, b)

-- A row that is not the event's does not clash with the event's.
event_row_free :
    (e : ContractEvent) (now : ℕ) (t : EventType) (n : ℕ) (x : SubscriptionIndexEntity)
    → of_event e.ledger_seq e.event_index x ≡ false
    → clash (event_row (event_data e now t) now n) x ≡ false
event_row_free e now t n x miss =
    let (l, i) = event_data_id e now t in
    let a = eq_ℤ_sym e.ledger_seq x.ledger_seq in
    let b = eq_ℤ_sym e.event_index x.event_index in rw (l, i, a, b) miss

module _ {Store : Type 0} where
  pub publish_all_store :
      (es : List DomainEvent) (st : State Store) → (publish_all es st).store ≡ st.store
  publish_all_store [] st = refl
  publish_all_store (e ∷ es) st = publish_all_store es (record st { published = e ∷ st.published })

module _ (db : Table id_of clash) where
  open db use {Store, rows, insert}

  -- An event that is not in the index is inserted.
  upsert_event-new :
      (e : ContractEvent) (now : ℕ) (t : EventType) (s : Store)
      → find_by_event_id db e.ledger_seq e.event_index s ≡ none
      → (r : SubscriptionIndexEntity) × (s' : Store) × (upsert_event db (event_data e now t) now s
          ≡ (ok r, s'))
        × (r ≡ event_row (event_data e now t) now (id_of r))
        × (rows s' ≡ r ∷ rows s)
  unfolding upsert_event find_by_event_id
  upsert_event-new e now t s new =
      elim (Option-cases (insert (event_row (event_data e now t) now) s)) [
        | inr ((r, s'), made) ↦
            let (same, _, _, grown) =
              db.insert-some (event_row (event_data e now t) now) s r s' (λ n. refl) made in
            (r, s', ground arith, same, grown)
        | inl full ↦
            let (n, taken) = db.insert-none (event_row (event_data e now t) now) s full in
            absurd (
              taken (
                All-imp (λ x. of_event e.ledger_seq e.event_index x ≡ false)
                  (λ x. clash (event_row (event_data e now t) now n) x ≡ false) (rows s)
                  (λ x miss. event_row_free e now t n x miss)
                  (db.find_one-none (of_event e.ledger_seq e.event_index) (λ _. 0) s new)))
      ]

  -- An event of another contract, or of no kind that is looked for, is passed by; one that is in the
  -- index is processed and changes nothing; any other is inserted and published.
  pub process_event-cases :
      (contract_id : ℕ) (e : ContractEvent) (now : ℕ) (st : State Store)
      → ((e.contract == contract_id) && is_target e.kind ≡ false
          × (process_event db contract_id e now st ≡ (false, st)))
        ⊎ ((((e.contract == contract_id) && is_target e.kind ≡ true)
              × ((x : SubscriptionIndexEntity) × (find_by_event_id db e.ledger_seq e.event_index
                      st.store
                    ≡ some x))
              × (process_event db contract_id e now st ≡ (true, st)))
            ⊎ ((r : SubscriptionIndexEntity) × (s' : Store) × ((e.contract == contract_id)
                    && is_target e.kind
                  ≡ true)
                × (r ≡ event_row (event_data e now (event_type e.kind)) now (id_of r))
                × (rows s' ≡ r ∷ rows st.store)
                × (upsert_event db (event_data e now (event_type e.kind)) now st.store ≡ (ok r, s'))
                × (process_event db contract_id e now st
                    ≡ (true, publish_domain_event r (record st { store = s' })))))
  unfolding process_event
  process_event-cases contract_id e now st =
      elim (Bool-cases ((e.contract == contract_id) && is_target e.kind)) [
        | inr other ↦ inl (other, ground arith)
        | inl ours ↦ elim (Option-cases (find_by_event_id db e.ledger_seq e.event_index st.store)) [
          | inr (x, known) ↦ inr (inl (ours, (x, known), ground arith))
          | inl new ↦
              let (r, s', made, same, grown) =
                upsert_event-new e now (event_type e.kind) st.store new in
              inr (inr (r, s', ours, same, grown, made, ground arith))
        ]
      ]

  -- An event keeps the invariant of the index.
  pub process_event-IsSound :
      (contract_id : ℕ) (e : ContractEvent) (now : ℕ) (st : State Store)
      → IsSound db (now / 1000) st.store
      → IsSound db (now / 1000) (process_event db contract_id e now st).1.store
  process_event-IsSound contract_id e now st sound =
      elim (process_event-cases contract_id e now st) [
        | inl (_, passed) ↦ rw passed sound
        | inr (inl (_, _, known)) ↦ rw known sound
        | inr (inr (r, s', _, _, _, made, stored)) ↦
            let d = event_data e now (event_type e.kind) in
            let w =
              upsert_event-IsSound db d now (now / 1000) st.store
                (event_data_settled e now (event_type e.kind)) sound in
            let same : (upsert_event db d now st.store).1 ≡ s' = rw made in
            let kept =
              publish_all_store (domain_events r r.event_type) (record st { store = s' }) in
            rw (stored, kept) (subst (IsSound db (now / 1000)) same w)
      ]
