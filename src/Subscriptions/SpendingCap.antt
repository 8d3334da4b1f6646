-- ===== src/Subscriptions/SpendingCap.antt =====
-- backend/src/subscriptions/services/spending-cap.service.ts: what a fan may spend in a period.
-- Amounts are in stroops. They are `bigint` columns with no transformer, which the driver of
-- PostgreSQL gives as texts: an entity that was read holds texts where its type says bigint.
pub mod Decimal
pub mod Unchecked
use my_fans.Common.{
  ℕ, ◌+◌, ◌*◌, ◌++◌, Bool, true, false, not, ◌&&◌, ◌||◌, Option, none, some, leb, ltb, ◌==◌,
  if◌then◌else◌,
}
use my_fans.Common.Actions.{Result, ok, err}
use my_fans.Database.{Table}
use my_fans.Common.Text.{Text}
use my_fans.Subscriptions.{Error, bad_request, unique_violation}
use my_fans.Subscriptions.SpendingCap.Decimal.{print, read_on, text_less}

pub data CapPeriod : Type 0 where
  weekly monthly total : CapPeriod

pub record FanSpendingCapEntity : Type 0 where
  pub id : ℕ
  pub fan_address : ℕ
  pub cap_amount : Option ℕ
  pub period : CapPeriod
  pub spent_amount : ℕ
  pub period_started_at : Option ℕ

abbrev pub cap_id : FanSpendingCapEntity → ℕ
cap_id r = r.id

-- @Index(['fanAddress'], { unique: true })
abbrev pub same_fan : FanSpendingCapEntity → FanSpendingCapEntity → Bool
same_fan r x = r.fan_address == x.fan_address

-- 0 for a cap that has no period.
abbrev pub period_ms : CapPeriod → ℕ
period_ms CapPeriod.weekly = 7 * 24 * 3600 * 1000
period_ms CapPeriod.monthly = 30 * 24 * 3600 * 1000
period_ms CapPeriod.total = 0

abbrev is_total : CapPeriod → Bool
is_total CapPeriod.total = true
is_total CapPeriod.weekly = false
is_total CapPeriod.monthly = false

-- `diffMs >= periodMs`
abbrev pub has_elapsed : ℕ → CapPeriod → Option ℕ → Bool
has_elapsed now period none = false
has_elapsed now period (some started) = leb (started + period_ms period) now

-- What `spentAmount` is at run time: a bigint, or a text.
pub data Amount : Type 0 where
  big : ℕ → Amount
  text : Text → Amount

-- JavaScript's `+` with a bigint on the right: a text has its digits put behind.
abbrev pub plus : Amount → ℕ → Amount
plus (big a) n = big (a + n)
plus (text t) n = text (t ++ print n)

-- JavaScript's `>` with a text on the right: two texts are compared as texts, a bigint and a text as
-- numbers.
abbrev pub above : Amount → Text → Bool
above (big a) t = ltb (read_on 0 t) a
above (text u) t = text_less t u

-- The number that is written to the column.
abbrev pub column_value : Amount → ℕ
column_value (big a) = a
column_value (text t) = read_on 0 t

abbrev pub is_reset : ℕ → FanSpendingCapEntity → Bool
is_reset now cap = not (is_total cap.period) && has_elapsed now cap.period cap.period_started_at

-- `resetPeriodIfExpired` on a cap that was read: what is spent, and when the period began.
abbrev pub reset_period_if_expired : ℕ → FanSpendingCapEntity → Amount × Option ℕ
reset_period_if_expired now cap =
    if is_reset now cap
    then (big 0, some now)
    else (text (print cap.spent_amount), cap.period_started_at)

-- `cap.spentAmount + amountStroops > cap.capAmount`
abbrev pub exceeds : Option ℕ → Amount → Bool
exceeds none a = false
exceeds (some limit) a = above a (print limit)

-- The largest number of a bigint column.
abbrev pub max_bigint : ℕ
max_bigint = 9223372036854775807

abbrev pub fresh_cap : ℕ → Option ℕ → CapPeriod → ℕ → ℕ → FanSpendingCapEntity
fresh_cap fan_address cap_amount period now id = record {
  id = id;
  fan_address = fan_address;
  cap_amount = cap_amount;
  period = period;
  spent_amount = 0;
  period_started_at = some now;
}

abbrev pub spent : ℕ → ℕ → FanSpendingCapEntity → FanSpendingCapEntity
spent amount now cap =
    let (before, started) = reset_period_if_expired now cap in
    record cap { spent_amount = column_value (plus before amount); period_started_at = started }

-- Why a write fails: the unique index, or a number that is too large for its column.
pub data CapError : Type 0 where
  refused : Error → CapError
  out_of_range : CapError

module _ (db : Table cap_id same_fan) where
  open db use {Store, find_one, insert, save, delete}

  unfoldable pub get_cap : ℕ → Store → Option FanSpendingCapEntity
  get_cap fan_address s = find_one (λ r. r.fan_address == fan_address) (λ _. 0) s

  abbrev pub saved :
      FanSpendingCapEntity → Store → Option Store → Result CapError FanSpendingCapEntity × Store
  saved r s none = (err (refused unique_violation), s)
  saved r s (some s') = (ok r, s')

  abbrev pub in_range : Option ℕ → Bool
  in_range none = true
  in_range (some n) = leb n max_bigint

  abbrev created :
      Store → Option (FanSpendingCapEntity × Store) → Result CapError FanSpendingCapEntity × Store
  created s none = (err (refused unique_violation), s)
  created s (some (r, s')) = (ok r, s')

  unfoldable pub set_cap :
      (fan_address : ℕ)
      → Option ℕ
      → CapPeriod
      → (now : ℕ) → Store
      → Result CapError FanSpendingCapEntity × Store
  unfolding get_cap
  set_cap fan_address cap_amount period now s =
      if not (in_range cap_amount) then (err out_of_range, s) else elim (get_cap fan_address s) [
        | none ↦ created s (insert (fresh_cap fan_address cap_amount period now) s)
        | some cap ↦
            let cap' = fresh_cap cap.fan_address cap_amount period now cap.id in
            saved cap' s (save cap' s)
      ]

  unfoldable pub remove_cap : ℕ → Store → Store
  remove_cap fan_address s = delete (λ r. r.fan_address == fan_address) s

  -- It only reads; the period that it resets is that of its own copy.
  unfoldable pub assert_within_cap : (fan_address amount now : ℕ) → Store → Result Error (Unit {0})
  unfolding get_cap
  assert_within_cap fan_address amount now s = elim (get_cap fan_address s) [
    | none ↦ ok tt
    | some cap ↦
        if exceeds cap.cap_amount (plus (reset_period_if_expired now cap).0 amount)
        then err bad_request
        else ok tt
  ]

  abbrev settled : Result CapError FanSpendingCapEntity × Store → Result CapError (Unit {0}) × Store
  settled (ok r, s') = (ok tt, s')
  settled (err e, s') = (err e, s')

  unfoldable pub record_spend :
      (fan_address amount now : ℕ) → Store → Result CapError (Unit {0}) × Store
  unfolding get_cap
  record_spend fan_address amount now s = elim (get_cap fan_address s) [
    | none ↦ (ok tt, s)
    | some cap ↦
        let cap' = spent amount now cap in
        if ltb max_bigint cap'.spent_amount
        then (err out_of_range, s)
        else settled (saved cap' s (save cap' s))
  ]
