-- ===== src/PlanForm/Tests.antt =====
-- Prices as texts.
use my_fans.Common.{◌*◌, ◌^◌, ◌≡◌, refl, some, [], ◌∷◌, arith}
use my_fans.Common.Text.{Text}
use my_fans.PlanForm.{to_atomic_plan_amount, validate_price}
use my_fans.PlanForm.Amounts.{worth, to_atomic_plan_amount-worth}

-- " 02.5"
abbrev price : Text
price = 32 ∷ b'0' ∷ b'2' ∷ b'.' ∷ b'5' ∷ []

abbrev amount : Text
amount = b'2' ∷ b'5' ∷ b'0' ∷ b'0' ∷ []

exact : to_atomic_plan_amount price 3 ≡ some amount
unfolding to_atomic_plan_amount validate_price
exact = refl

to_atomic_plan_amount-worth_example : worth 0 amount ≡ 25 * 10 ^ 2
to_atomic_plan_amount-worth_example = to_atomic_plan_amount-worth price 3 amount exact (omega arith)

-- "0.05" of a token with one decimal: the amount is 0.
cut_off : to_atomic_plan_amount (b'0' ∷ b'.' ∷ b'0' ∷ b'5' ∷ []) 1 ≡ some (b'0' ∷ [])
unfolding to_atomic_plan_amount validate_price
cut_off = refl
