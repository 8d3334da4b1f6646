-- ===== src/Referral.antt =====
-- backend/src/referral/referral.service.ts: referral codes and their redemptions. Codes are numbers,
-- and what generateCode draws comes from the caller.
pub mod Limits
mod Tests
use my_fans.Common.{
  ℕ, ◌+◌, Bool, true, false, not, ◌&&◌, Option, none, some, List, [], ◌∷◌, leb, ◌==◌, if◌then◌else◌,
}
use my_fans.Common.Actions.{Result, ok, err}
use my_fans.Database.{Table}

pub record ReferralCode : Type 0 where
  pub id : ℕ
  pub owner_id : ℕ
  pub code : ℕ
  pub max_uses : Option ℕ
  pub use_count : ℕ
  pub is_active : Bool

pub record ReferralRedemption : Type 0 where
  pub id : ℕ
  pub referral_code_id : ℕ
  pub redeemer_id : ℕ

abbrev pub code_id : ReferralCode → ℕ
code_id r = r.id

-- @Column({ unique: true }) on code
abbrev pub same_code : ReferralCode → ReferralCode → Bool
same_code r x = r.code == x.code

abbrev pub redemption_id : ReferralRedemption → ℕ
redemption_id r = r.id

-- The entity declares no unique constraint; the migration has one on the code and the redeemer.
abbrev pub same_redemption : ReferralRedemption → ReferralRedemption → Bool
same_redemption r x = (r.referral_code_id == x.referral_code_id) && (r.redeemer_id == x.redeemer_id)

pub data Error : Type 0 where
  not_found forbidden inactive own_code limit_reached conflict save_failed : Error

-- `maxUses !== null && useCount >= maxUses`
abbrev pub is_used_up : ReferralCode → Bool
is_used_up r = elim r.max_uses [ none ↦ false | some n ↦ leb n r.use_count ]

abbrev pub used : ReferralCode → ReferralCode
used r = record r { use_count = r.use_count + 1 }

abbrev pub redemption_row : ℕ → ℕ → ℕ → ReferralRedemption
redemption_row referral_code_id redeemer_id id = record {
  id = id;
  referral_code_id = referral_code_id;
  redeemer_id = redeemer_id;
}

abbrev pub new_code : ℕ → ℕ → Option ℕ → ℕ → ReferralCode
new_code owner_id code max_uses id = record {
  id = id;
  owner_id = owner_id;
  code = code;
  max_uses = max_uses;
  use_count = 0;
  is_active = true;
}

module _ (codes : Table code_id same_code) (redemptions : Table redemption_id same_redemption) where
  abbrev pub Stores : Type 0
  Stores = codes.Store × redemptions.Store

  unfoldable pub find_code : ℕ → codes.Store → Option ReferralCode
  find_code code s = codes.find_one (λ r. r.code == code) (λ _. 0) s

  unfoldable pub find_by_id : ℕ → codes.Store → Option ReferralCode
  find_by_id id s = codes.find_one (λ r. r.id == id) (λ _. 0) s

  -- The first of the drawn codes that is not taken; the caller draws ten of them.
  unfoldable pub unique_code : List ℕ → codes.Store → Option ℕ
  unfolding find_code
  unique_code [] s = none
  unique_code (c ∷ cs) s =
      let rest = unique_code cs s in elim (find_code c s) [ none ↦ some c | some _ ↦ rest ]

  unfoldable pub create_code :
      (owner_id : ℕ)
      → (drawn : List ℕ) → (max_uses : Option ℕ) → Stores
      → Result Error ReferralCode × Stores
  unfolding unique_code
  create_code owner_id drawn max_uses (s, t) = elim (unique_code drawn s) [
    | none ↦ (err conflict, (s, t))
    | some code ↦ elim (codes.insert (new_code owner_id code max_uses) s) [
      | none ↦ (err save_failed, (s, t))
      | some (r, s') ↦ (ok r, (s', t))
    ]
  ]

  abbrev saved : ReferralCode → Stores → Option codes.Store → Result Error ReferralCode × Stores
  saved r st none = (err save_failed, st)
  saved r st (some s') = (ok r, (s', st.1))

  unfoldable pub deactivate_code : (owner_id id : ℕ) → Stores → Result Error ReferralCode × Stores
  unfolding find_by_id
  deactivate_code owner_id id (s, t) = elim (find_by_id id s) [
    | none ↦ (err not_found, (s, t))
    | some r ↦
        if not (r.owner_id == owner_id)
        then (err forbidden, (s, t))
        else (let r' = record r { is_active = false } in saved r' (s, t) (codes.save r' s))
  ]

  unfoldable pub validate_code : (code : ℕ) → Stores → Bool
  unfolding find_code
  validate_code code (s, t) = elim (find_code code s) [
    | none ↦ false
    | some r ↦ r.is_active && not (is_used_up r)
  ]

  unfoldable pub find_redemption : ℕ → ℕ → redemptions.Store → Option ReferralRedemption
  find_redemption referral_code_id redeemer_id t =
      redemptions.find_one
        (λ r. (r.referral_code_id == referral_code_id) && (r.redeemer_id == redeemer_id)) (λ _. 0) t

  -- The two writes of the transaction, which is rolled back when one of them fails.
  abbrev commit :
      ReferralCode → ℕ → Stores → Option codes.Store → Result Error ReferralRedemption × Stores
  commit r redeemer_id st none = (err save_failed, st)
  commit r redeemer_id st (some s') =
      elim (redemptions.insert (redemption_row r.id redeemer_id) st.1) [
        | none ↦ (err save_failed, st)
        | some (x, t') ↦ (ok x, (s', t'))
      ]

  unfoldable pub redeem_code :
      (redeemer_id code : ℕ) → Stores → Result Error ReferralRedemption × Stores
  unfolding find_code find_redemption
  redeem_code redeemer_id code (s, t) = elim (find_code code s) [
    | none ↦ (err not_found, (s, t))
    | some r ↦
        if not r.is_active
        then (err inactive, (s, t))
        else if r.owner_id == redeemer_id
        then (err own_code, (s, t))
        else if is_used_up r
        then (err limit_reached, (s, t))
        else elim (find_redemption r.id redeemer_id t) [
          | some _ ↦ (err conflict, (s, t))
          | none ↦ commit r redeemer_id (s, t) (codes.save (used r) s)
        ]
  ]
