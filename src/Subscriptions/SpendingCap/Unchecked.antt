-- ===== src/Subscriptions/SpendingCap/Unchecked.antt =====
-- What the check of a spend against the cap is worth.
use my_fans.Common.{
  ℕ, ◌≤◌, ◌≡◌, ◌∙◌, refl, sym, ap, false, some, arith, Member, inl, inr, Option-cases, Bool-cases,
  ◌==◌, ◌++◌, ltb,
}
use my_fans.Common.Actions.{ok}
use my_fans.Database.{Table, conflicts, put}
use my_fans.Database.Laws.{Member-put}
use my_fans.Database.Saves.{IsDistinct, IsDistinct-eq, conflicts_others}
use my_fans.Subscriptions.SpendingCap.{
  FanSpendingCapEntity, cap_id, same_fan, get_cap, assert_within_cap, record_spend, spent, text,
  plus, is_reset, reset_period_if_expired, exceeds, max_bigint,
}
use my_fans.Subscriptions.SpendingCap.Decimal.{
  print, read_on, read_on-print, print_first, print-zero,
}

-- Digits behind a 0 are below every number that is not 0, as texts.
exceeds_zero :
    (limit amount : ℕ) → 1 ≤ limit → exceeds (some limit) (plus (text (print 0)) amount) ≡ false
exceeds_zero limit amount pos' =
    let (c, t, first, more) = print_first limit pos' in rw (first, print-zero) (ground arith)

spent_first :
    (amount now : ℕ) (held : FanSpendingCapEntity)
    → held.spent_amount ≡ 0
    → is_reset now held ≡ false
    → spent amount now held ≡ record held { spent_amount = amount }
spent_first amount now held zero' running =
    let same : read_on 0 (print 0 ++ print amount) ≡ amount =
      rw print-zero (read_on-print amount) in
    rw (running, zero', same) refl

module _ (db : Table cap_id same_fan) where
  open db use {Store, rows, save, find_one}

  -- A save that leaves the fan alone meets no other row of theirs.
  saved_alone :
      (held cap' : FanSpendingCapEntity) (s : Store)
      → IsDistinct same_fan (rows s)
      → Member held (rows s)
      → cap'.id ≡ held.id
      → cap'.fan_address ≡ held.fan_address
      → (s' : Store) × (save cap' s ≡ some s') × (rows s' ≡ put cap_id cap' (rows s))
  saved_alone held cap' s distinct mem id fan =
      let free : conflicts cap_id same_fan cap' (rows s) ≡ false =
        conflicts_others cap_id same_fan cap' (rows s) (λ x m ne.
          elim (Bool-cases (same_fan cap' x)) [
            | inr apart ↦ apart
            | inl same ↦
                let one =
                  IsDistinct-eq same_fan x held (rows s) distinct m mem (ground arith)
                    (ground arith) in
                absurd (ne (ap cap_id one ∙ sym id))
          ]) in
      elim (Option-cases (save cap' s)) [
        | inl no' ↦ let taken = db.save-none cap' s no' in absurd (ground arith)
        | inr (s', written') ↦ (s', written', (db.save-some cap' s s' written').0)
      ]

  cap_found :
      (fan_address : ℕ) (s : Store) (held : FanSpendingCapEntity)
      → get_cap db fan_address s ≡ some held
      → Member held (rows s)
  unfolding get_cap
  cap_found fan_address s held found =
      (db.find_one-some (λ r. r.fan_address == fan_address) (λ _. 0) s held found).0

  checked :
      (fan_address amount now : ℕ) (s : Store) (held : FanSpendingCapEntity)
      → get_cap db fan_address s ≡ some held
      → exceeds held.cap_amount (plus (reset_period_if_expired now held).0 amount) ≡ false
      → assert_within_cap db fan_address amount now s ≡ ok tt
  unfolding assert_within_cap
  checked fan_address amount now s held found within = ground arith

  recorded :
      (fan_address amount now : ℕ) (s s' : Store) (held cap' : FanSpendingCapEntity)
      → get_cap db fan_address s ≡ some held
      → spent amount now held ≡ cap'
      → ltb max_bigint cap'.spent_amount ≡ false
      → save cap' s ≡ some s'
      → record_spend db fan_address amount now s ≡ (ok tt, s')
  unfolding record_spend
  recorded fan_address amount now s s' held cap' found made fits saved' = ground arith

  -- The first spend of a period, by a fan whose cap is not 0: the check lets every amount pass, one
  -- above the cap included, and once it is recorded the table holds that amount as spent. The table
  -- has one row for each fan, nothing is spent yet, the period is not over, and the amount fits its
  -- column.
  pub assert_within_cap_first :
      (fan_address amount now limit : ℕ) (s : Store) (held : FanSpendingCapEntity)
      → IsDistinct same_fan (rows s)
      → get_cap db fan_address s ≡ some held
      → held.cap_amount ≡ some limit
      → 1 ≤ limit
      → held.spent_amount ≡ 0
      → is_reset now held ≡ false
      → amount ≤ max_bigint
      → (assert_within_cap db fan_address amount now s ≡ ok tt)
        × ((s' : Store) × (record_spend db fan_address amount now s ≡ (ok tt, s'))
            × Member (record held { spent_amount = amount }) (rows s'))
  assert_within_cap_first fan_address amount now limit s held distinct found capped pos' zero'
        running fits =
      let mem = cap_found fan_address s held found in
      let cap' : FanSpendingCapEntity = record held { spent_amount = amount } in
      let first = spent_first amount now held zero' running in
      let (s', saved', grown) = saved_alone held cap' s distinct mem refl refl in
      let passes : exceeds (some limit) (plus (text (print held.spent_amount)) amount) ≡ false =
        rw zero' (exceeds_zero limit amount pos') in
      let fits' : ltb max_bigint amount ≡ false = ground arith in
      (
        checked fan_address amount now s held found (rw (running, capped) passes),
        (
          s',
          recorded fan_address amount now s s' held cap' found first fits' saved',
          rw grown (Member-put cap_id cap' (rows s)),
        ),
      )
