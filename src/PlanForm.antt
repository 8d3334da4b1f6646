-- ===== src/PlanForm.antt =====
-- The price of a plan in frontend/src/lib/plan-form.ts: validatePrice and toAtomicPlanAmount. Which
-- message an invalid price has is left out.
pub mod Amounts
mod Tests
use my_fans.Common.{
  ℕ, zero, suc, ◌-◌, Bool, true, false, not, ◌&&◌, ◌||◌, Option, none, some, List, [], ◌∷◌, ◌++◌,
  length, leb, ◌==◌, if◌then◌else◌,
}
use my_fans.Common.Text.{Text, trim, is_empty}
use my_fans.Database.Ordered.{take}

abbrev pub is_digit : ℕ → Bool
is_digit c = leb b'0' c && leb c b'9'

abbrev pub all_digits : Text → Bool
all_digits [] = true
all_digits (c ∷ s) = is_digit c && all_digits s

abbrev pub before_dot : Text → Text
before_dot [] = []
before_dot (c ∷ s) = if c == b'.' then [] else c ∷ before_dot s

-- What stands behind the first dot, if there is one.
abbrev pub after_dot : Text → Option Text
after_dot [] = none
after_dot (c ∷ s) = if c == b'.' then some s else after_dot s

abbrev pub is_fraction : Option Text → Bool
is_fraction none = true
is_fraction (some f) = not (is_empty f) && leb (length f) 2 && all_digits f

-- /^\d+(\.\d{1,2})?$/
abbrev pub is_price : Text → Bool
is_price s = not (is_empty (before_dot s)) && all_digits (before_dot s) && is_fraction (after_dot s)

abbrev pub has_value : Text → Bool
has_value [] = false
has_value (c ∷ s) = (is_digit c && not (c == b'0')) || has_value s

-- No error: the price has its form, and is above zero.
unfoldable pub validate_price : Text → Bool
validate_price value = is_price (trim value) && has_value (trim value)

abbrev pub zeros : ℕ → Text
zeros zero = []
zeros (suc n) = b'0' ∷ zeros n

abbrev pub pad_end : ℕ → Text → Text
pad_end decimals s = s ++ zeros (decimals - length s)

-- /^0+(?=\d)/ replaced by nothing, in a text of digits.
abbrev pub strip_zeros : Text → Text
strip_zeros [] = []
strip_zeros (c ∷ []) = c ∷ []
strip_zeros (c ∷ d ∷ s) = if c == b'0' then strip_zeros (d ∷ s) else c ∷ d ∷ s

abbrev pub fraction_of : Text → Text
fraction_of s = elim (after_dot s) [ none ↦ [] | some f ↦ f ]

-- `none`: it throws.
unfoldable pub to_atomic_plan_amount : Text → (decimals : ℕ) → Option Text
unfolding validate_price
to_atomic_plan_amount price decimals =
    let normalized = trim price in
    if validate_price normalized
    then some (
        strip_zeros
          (before_dot normalized ++ take decimals (pad_end decimals (fraction_of normalized))))
    else none
