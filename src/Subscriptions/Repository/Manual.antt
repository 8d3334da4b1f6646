-- ===== src/Subscriptions/Repository/Manual.antt =====
-- `upsertManual`: when it gives access, and when the unique constraint refuses it.
use mathlib.Core.Path.{subst}
use my_fans.Common.{
  ℕ, ◌/◌, ◌≡◌, refl, Bool, true, false, List, ◌∷◌, arith, All, Member, All-Member, All-imp, inl,
  inr, Option-cases, ltb,
}
use my_fans.Common.Actions.{ok, err}
use my_fans.Common.Int.{negsuc}
use my_fans.Database.{Table, IsKeyed}
use my_fans.Database.Laws.{
  find_one-eq-none, find_one-eq-some, insert-eq-some, insert-eq-none, save-eq-none, IsKeyed-eq,
}
use my_fans.Subscriptions.{SubscriptionIndexEntity, id_of, clash, unique_violation}
use my_fans.Subscriptions.Repository.{
  UpsertManualData, manual_row, overwrite, of_pair, of_event, find_current_for_fan_creator,
  upsert_manual, is_subscriber,
}

abbrev pub is_manual : SubscriptionIndexEntity → Bool
is_manual r = of_event (negsuc 0) (negsuc 0) r

-- Of the rows with a new one in front, only that one can be of the pair.
only_new :
    (fan creator : ℕ) (x r : SubscriptionIndexEntity) (xs : List SubscriptionIndexEntity)
    → All (λ y. of_pair fan creator y ≡ false) xs
    → of_pair fan creator x ≡ true
    → Member x (r ∷ xs)
    → x ≡ r
only_new fan creator x r xs new hit (inl e) = e
only_new fan creator x r xs new hit (inr m) =
    let no = All-Member (λ y. of_pair fan creator y ≡ false) x xs new m in absurd (ground arith)

module _ (db : Table id_of clash) where
  open db use {Store, rows, insert, save}

  -- A new pair in an index with no manual entry gets one, and has access until its expiry.
  pub upsert_manual_grants :
      (d : UpsertManualData) (now later : ℕ) (s : Store)
      → All (λ x. of_pair d.fan d.creator x ≡ false) (rows s)
      → All (λ x. is_manual x ≡ false) (rows s)
      → (r : SubscriptionIndexEntity) × (s' : Store) × (upsert_manual db d now s ≡ (ok r, s'))
        × (is_subscriber db d.fan d.creator later s' ≡ ltb (later / 1000) d.expiry_unix)
  unfolding upsert_manual find_current_for_fan_creator is_subscriber
  upsert_manual_grants d now later s new free =
      let nobody = find_one-eq-none db (of_pair d.fan d.creator) (λ r. r.indexed_at) s new in
      let (r, s', made, same, grown) =
        insert-eq-some db (manual_row d now) s (λ n. refl)
          (λ n.
            All-imp (λ x. is_manual x ≡ false) (λ x. clash (manual_row d now n) x ≡ false) (rows s)
              (λ x h. ground arith) free) in
      let here : Member r (rows s') = rw grown (inl refl) in
      let (cur, found, mem, hit) =
        find_one-eq-some db (of_pair d.fan d.creator) (λ x. x.indexed_at) s' r here
          (ground arith) in
      let mem' : Member cur (r ∷ rows s) = subst (Member cur) grown mem in
      let only = only_new d.fan d.creator cur r (rows s) new hit mem' in
      (r, s', ground arith, ground arith)

  -- While any other pair has a manual entry, every manual upsert for this pair fails, whether the
  -- pair has an entry or not: both would have the event id (-1, -1).
  pub upsert_manual_blocked :
      (d : UpsertManualData) (now : ℕ) (s : Store) (x : SubscriptionIndexEntity)
      → IsKeyed id_of (rows s)
      → Member x (rows s)
      → is_manual x ≡ true
      → of_pair d.fan d.creator x ≡ false
      → upsert_manual db d now s ≡ (err unique_violation, s)
  unfolding upsert_manual find_current_for_fan_creator
  upsert_manual_blocked d now s x keyed mem m other =
      elim (Option-cases (find_current_for_fan_creator db d.fan d.creator s)) [
        | inl new ↦
            let refused =
              insert-eq-none db (manual_row d now) s x (λ n. refl) mem (λ n. ground arith) in
            ground arith
        | inr (old, found) ↦
            let (mo, hit, _) =
              db.find_one-some (of_pair d.fan d.creator) (λ r. r.indexed_at) s old found in
            let refused =
              save-eq-none db (overwrite d now old) s x mem
                (λ e.
                  let same = IsKeyed-eq id_of x old (rows s) keyed mem mo e in
                  absurd (ground arith))
                (ground arith) in
            ground arith
      ]
