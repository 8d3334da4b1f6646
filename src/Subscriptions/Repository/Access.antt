-- ===== src/Subscriptions/Repository/Access.antt =====
-- Who is a subscriber: the invariant of the index, and what each write does to it.
use mathlib.Core.Path.{subst}
use my_fans.Common.{
  ℕ, ◌/◌, ◌≤◌, ◌<◌, ◌≡◌, refl, true, false, Option, some, arith, All, Member, All-Member, All-imp,
  All-map, ◌⊎◌, inl, inr, Option-cases, Bool-cases, get_or,
}
use my_fans.Common.Actions.{err}
use my_fans.Database.{Table, patch}
use my_fans.Database.Laws.{insert-All, save-All, update-All}
use my_fans.Subscriptions.{
  SubscriptionStatus, SubscriptionIndexEntity, id_of, clash, is_active, Error,
}
use my_fans.Subscriptions.Repository.{
  UpsertEventData, UpsertManualData, event_row, manual_row, overwrite, of_pair, active_pair,
  with_status, find_current_for_fan_creator, upsert_event, upsert_manual, update_status,
  is_subscriber,
}

-- An entry that is not active has run out by `t` seconds.
abbrev pub IsSettled : ℕ → SubscriptionIndexEntity → Type 0
IsSettled t r = (is_active r.status ≡ true) ⊎ (r.expiry_unix ≤ t)

patch_lapsed :
    (fan creator : ℕ) (status : SubscriptionStatus) (expiry : Option ℕ) (now t : ℕ)
    (x : SubscriptionIndexEntity)
    → get_or expiry 0 ≤ t
    → IsSettled t x
    → of_pair fan creator (patch (active_pair fan creator) (with_status status expiry now) x) ≡ true
    → (patch (active_pair fan creator) (with_status status expiry now) x).expiry_unix ≤ t
patch_lapsed fan creator status expiry now t x ended settled hit =
    elim (Bool-cases (active_pair fan creator x)) [
      | inl here ↦ ground arith
      | inr other ↦ ground arith
    ]

module _ (db : Table id_of clash) where
  open db use {Store, rows, find_one, insert, save, update}

  abbrev pub IsSound : ℕ → Store → Type 0
  IsSound t s = All (IsSettled t) (rows s)

  pub IsSound-later : (t t' : ℕ) (s : Store) → t ≤ t' → IsSound t s → IsSound t' s
  IsSound-later t t' s le h = All-imp (IsSettled t) (IsSettled t') (rows s) (λ r p. ground arith) h

  find_current-some :
      (fan creator : ℕ) (s : Store) (r : SubscriptionIndexEntity)
      → find_current_for_fan_creator db fan creator s ≡ some r
      → Member r (rows s) × (of_pair fan creator r ≡ true)
  unfolding find_current_for_fan_creator
  find_current-some fan creator s r found =
      let (mem, hit, _) = db.find_one-some (of_pair fan creator) (λ x. x.indexed_at) s r found in
      (mem, hit)

  pub upsert_event-IsSound :
      (d : UpsertEventData) (now t : ℕ) (s : Store)
      → ((is_active d.status ≡ true) ⊎ (d.expiry_unix ≤ t))
      → IsSound t s
      → IsSound t (upsert_event db d now s).1
  unfolding upsert_event
  upsert_event-IsSound d now t s settled sound = elim (Option-cases (insert (event_row d now) s)) [
    | inl clashes ↦
        let same : s ≡ (upsert_event db d now s).1 = ground arith in subst (IsSound t) same sound
    | inr ((r, s'), made) ↦
        let (made', _, _, _) = db.insert-some (event_row d now) s r s' (λ n. refl) made in
        let same : s' ≡ (upsert_event db d now s).1 = ground arith in
        subst (IsSound t) same (
          insert-All db (IsSettled t) (event_row d now) s r s' (λ n. refl) made (ground arith)
            sound)
  ]

  pub upsert_manual-IsSound :
      (d : UpsertManualData) (now t : ℕ) (s : Store)
      → ((is_active d.status ≡ true) ⊎ (d.expiry_unix ≤ t))
      → IsSound t s
      → IsSound t (upsert_manual db d now s).1
  unfolding upsert_manual
  upsert_manual-IsSound d now t s settled sound =
      elim (Option-cases (find_current_for_fan_creator db d.fan d.creator s)) [
        | inl new ↦ elim (Option-cases (insert (manual_row d now) s)) [
          | inl clashes ↦
              let same : s ≡ (upsert_manual db d now s).1 = ground arith in
              subst (IsSound t) same sound
          | inr ((r, s'), made) ↦
              let (made', _, _, _) = db.insert-some (manual_row d now) s r s' (λ n. refl) made in
              let same : s' ≡ (upsert_manual db d now s).1 = ground arith in
              subst (IsSound t) same (
                insert-All db (IsSettled t) (manual_row d now) s r s' (λ n. refl) made
                  (ground arith) sound)
        ]
        | inr (old, found) ↦ elim (Option-cases (save (overwrite d now old) s)) [
          | inl clashes ↦
              let same : s ≡ (upsert_manual db d now s).1 = ground arith in
              subst (IsSound t) same sound
          | inr (s', put') ↦
              let same : s' ≡ (upsert_manual db d now s).1 = ground arith in
              subst (IsSound t) same
                (save-All db (IsSettled t) (overwrite d now old) s s' put' (ground arith) sound)
        ]
      ]

  -- A refused upsert writes nothing.
  pub upsert_manual_err :
      (d : UpsertManualData) (now : ℕ) (s s' : Store) (e : Error)
      → upsert_manual db d now s ≡ (err e, s')
      → s' ≡ s
  unfolding upsert_manual
  upsert_manual_err d now s s' e refused = ground arith

  pub update_status-IsSound :
      (fan creator : ℕ) (status : SubscriptionStatus) (expiry : Option ℕ) (now t : ℕ) (s : Store)
      → get_or expiry 0 ≤ t
      → IsSound t s
      → IsSound t (update_status db fan creator status expiry now s)
  unfolding update_status
  update_status-IsSound fan creator status expiry now t s le sound =
      update-All db (IsSettled t) (active_pair fan creator) (with_status status expiry now) s
        (λ x hit p. inr le) sound

  -- Access is given only by an entry that is active and has not run out.
  pub is_subscriber_sound :
      (fan creator now t : ℕ) (s : Store)
      → IsSound t s
      → t ≤ now / 1000
      → is_subscriber db fan creator now s ≡ true
      → (r : SubscriptionIndexEntity) × Member r (rows s)
        × (r.fan ≡ fan)
        × (r.creator ≡ creator)
        × (is_active r.status ≡ true)
        × (now / 1000 < r.expiry_unix)
  unfolding is_subscriber
  is_subscriber_sound fan creator now t s sound le yes' =
      elim (Option-cases (find_current_for_fan_creator db fan creator s)) [
        | inl nobody ↦ absurd (ground arith)
        | inr (r, found) ↦
            let (mem, hit) = find_current-some fan creator s r found in
            let settled = All-Member (IsSettled t) r (rows s) sound mem in
            (r, mem, ground arith, ground arith, ground arith, ground arith)
      ]

  -- No entry of the pair has time left: no access.
  pub is_subscriber_none :
      (fan creator now t : ℕ) (s : Store)
      → t ≤ now / 1000
      → All (λ r. of_pair fan creator r ≡ true → r.expiry_unix ≤ t) (rows s)
      → is_subscriber db fan creator now s ≡ false
  unfolding is_subscriber
  is_subscriber_none fan creator now t s le lapsed =
      elim (Option-cases (find_current_for_fan_creator db fan creator s)) [
        | inl nobody ↦ ground arith
        | inr (r, found) ↦
            let (mem, hit) = find_current-some fan creator s r found in
            let out : r.expiry_unix ≤ t =
              All-Member (λ x. of_pair fan creator x ≡ true → x.expiry_unix ≤ t) r (rows s) lapsed
                mem hit in
            ground arith
      ]

  -- Ending the active entries of a pair ends its access, from then on.
  pub update_status-revokes :
      (fan creator : ℕ) (status : SubscriptionStatus) (expiry : Option ℕ) (now later t : ℕ)
      (s : Store)
      → IsSound t s
      → get_or expiry 0 ≤ t
      → t ≤ later / 1000
      → is_subscriber db fan creator later (update_status db fan creator status expiry now s)
        ≡ false
  unfolding update_status
  update_status-revokes fan creator status expiry now later t s sound ended le =
      let p = active_pair fan creator in
      let f = with_status status expiry now in
      let lapsed =
        All-map (λ x. of_pair fan creator x ≡ true → x.expiry_unix ≤ t) (patch p f) (rows s)
          (All-imp (IsSettled t)
            (λ x. of_pair fan creator (patch p f x) ≡ true → (patch p f x).expiry_unix ≤ t) (rows s)
            (λ x settled. patch_lapsed fan creator status expiry now t x ended settled) sound) in
      is_subscriber_none fan creator later t (update p f s) le (rw (db.rows-update p f s) lapsed)
