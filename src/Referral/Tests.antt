-- ===== src/Referral/Tests.antt =====
-- Referral codes on lists of rows.
use my_fans.Common.{◌≡◌, ◌≢◌, refl, some, [], ◌∷◌, arith, All}
use my_fans.Common.Actions.{ok}
use my_fans.Database.{Table}
use my_fans.Database.ListTable.{list_table}
use my_fans.Referral.{
  ReferralCode, ReferralRedemption, code_id, same_code, redemption_id, same_redemption, new_code,
  used, redemption_row, find_code, find_redemption, redeem_code,
}
use my_fans.Referral.Limits.{
  IsWithin, IsBalanced, redeem_code-IsWithin, redeem_code-IsBalanced, redeem_code_once,
}

abbrev codes : Table code_id same_code
codes = list_table code_id same_code

abbrev redemptions : Table redemption_id same_redemption
redemptions = list_table redemption_id same_redemption

abbrev code : ReferralCode
code = new_code 1 77 (some 2) 0

abbrev redemption : ReferralRedemption
redemption = redemption_row 0 5 0

redeems :
    redeem_code codes redemptions 5 77 (code ∷ [], [])
    ≡ (ok redemption, (used code ∷ [], redemption ∷ []))
unfolding redeem_code find_code find_redemption
redeems = refl

redeem_code-IsWithin_example : All IsWithin (used code ∷ [])
redeem_code-IsWithin_example =
    redeem_code-IsWithin codes redemptions 5 77 (code ∷ []) (used code ∷ []) [] (redemption ∷ [])
      redemption redeems (omega arith, tt)

redeem_code-IsBalanced_example :
    All (IsBalanced codes redemptions (redemption ∷ [])) (used code ∷ [])
redeem_code-IsBalanced_example =
    redeem_code-IsBalanced codes redemptions 5 77 (code ∷ []) (used code ∷ []) [] (redemption ∷ [])
      redemption redeems (tt, tt) (refl, tt)

redeem_code_once_example :
    redeem_code codes redemptions 5 77 (used code ∷ [], redemption ∷ [])
    ≢ (ok redemption, (used code ∷ [], redemption ∷ []))
redeem_code_once_example =
    redeem_code_once codes redemptions 5 77 (code ∷ []) (used code ∷ []) (used code ∷ []) []
      (redemption ∷ []) (redemption ∷ []) redemption redemption (tt, tt) redeems
