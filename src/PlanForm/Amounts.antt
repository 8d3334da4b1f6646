-- ===== src/PlanForm/Amounts.antt =====
-- What an amount is worth.
use my_fans.Common.{
  ℕ, zero, suc, ◌+◌, ◌-◌, ◌*◌, ◌^◌, ◌≤◌, ◌≡◌, ◌∙◌, refl, sym, ap, some, [], ◌∷◌, ◌++◌, arith,
  length, inl, inr, Bool-cases, ◌==◌,
}
use native.Mathlib.Omega.{pow_step}
use my_fans.Common.Text.{Text, trim}
use my_fans.Database.Ordered.{take, take_all}
use my_fans.PlanForm.{
  before_dot, fraction_of, zeros, pad_end, strip_zeros, validate_price, to_atomic_plan_amount,
}

-- The number that digits stand for, behind those that stand for `a`.
abbrev pub worth : ℕ → Text → ℕ
worth a [] = a
worth a (c ∷ s) = worth (a * 10 + (c - b'0')) s

worth-append : (a : ℕ) (s t : Text) → worth a (s ++ t) ≡ worth (worth a s) t
worth-append a [] t = refl
worth-append a (c ∷ s) t = worth-append (a * 10 + (c - b'0')) s t

scale : (a p : ℕ) → (a * 10 + 0) * p ≡ a * (10 * p)
scale a p = grind arith

worth-zeros : (a n : ℕ) → worth a (zeros n) ≡ a * 10 ^ n
worth-zeros a zero = omega arith
worth-zeros a (suc n) =
    worth-zeros (a * 10 + 0) n ∙ scale a (10 ^ n) ∙ ap (λ p. a * p) (sym (pow_step 10 n))

worth-strip_zeros : (s : Text) → worth 0 (strip_zeros s) ≡ worth 0 s
worth-strip_zeros [] = refl
worth-strip_zeros (c ∷ []) = refl
worth-strip_zeros (c ∷ d ∷ s) = elim (Bool-cases (c == b'0')) [
  | inr other ↦ rw other refl
  | inl null ↦
      let lead : 0 * 10 + (c - b'0') ≡ 0 = ground arith in
      rw null (worth-strip_zeros (d ∷ s) ∙ ap (λ a. worth a (d ∷ s)) (sym lead))
]

length-append : (s t : Text) → length (s ++ t) ≡ length s + length t
length-append [] t = omega arith
length-append (c ∷ s) t = omega (arith, length-append s t)

length-zeros : (n : ℕ) → length (zeros n) ≡ n
length-zeros zero = refl
length-zeros (suc n) = ap suc (length-zeros n)

padded :
    (decimals : ℕ) (s : Text)
    → length s ≤ decimals
    → take decimals (pad_end decimals s) ≡ s ++ zeros (decimals - length s)
padded decimals s le =
    let a = length-append s (zeros (decimals - length s)) in
    let b = length-zeros (decimals - length s) in
    take_all decimals (pad_end decimals s) (omega arith)

amount_text :
    (price : Text) (decimals : ℕ) (amount : Text)
    → to_atomic_plan_amount price decimals ≡ some amount
    → amount
      ≡ strip_zeros
          (before_dot (trim price) ++ take decimals (pad_end decimals (fraction_of (trim price))))
unfolding to_atomic_plan_amount
amount_text price decimals amount e = elim (Bool-cases (validate_price (trim price))) [
  | inl fine ↦ ground arith
  | inr bad ↦ absurd (ground arith)
]

-- For a price that is accepted, with no more digits behind its dot than the token has decimals, the
-- amount is the number of its digits with as many zeros as are missing to the decimals: the price
-- times ten to the power of the decimals, exactly.
pub to_atomic_plan_amount-worth :
    (price : Text) (decimals : ℕ) (amount : Text)
    → to_atomic_plan_amount price decimals ≡ some amount
    → length (fraction_of (trim price)) ≤ decimals
    → worth 0 amount
      ≡ worth (worth 0 (before_dot (trim price))) (fraction_of (trim price))
        * 10 ^ (decimals - length (fraction_of (trim price)))
to_atomic_plan_amount-worth price decimals amount e le =
    let w = before_dot (trim price) in
    let f = fraction_of (trim price) in
    let missing = decimals - length f in
    ap (worth 0) (amount_text price decimals amount e)
    ∙ worth-strip_zeros (w ++ take decimals (pad_end decimals f))
    ∙ ap (λ t. worth 0 (w ++ t)) (padded decimals f le)
    ∙ worth-append 0 w (f ++ zeros missing)
    ∙ worth-append (worth 0 w) f (zeros missing)
    ∙ worth-zeros (worth (worth 0 w) f) missing
