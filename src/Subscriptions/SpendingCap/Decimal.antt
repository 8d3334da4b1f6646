-- ===== src/Subscriptions/SpendingCap/Decimal.antt =====
-- Numbers as texts of decimal digits, as `toString` writes a bigint, and the order of texts.
use my_fans.Common.{
  ℕ, zero, suc, ◌+◌, ◌-◌, ◌*◌, ◌/◌, ◌%◌, ◌≡◌, ◌∙◌, ◌≤◌, ◌<◌, refl, ap, Bool, true, false, [], ◌∷◌,
  ◌++◌, arith, inl, inr, Bool-cases, ltb, ◌==◌, if◌then◌else◌,
}
use my_fans.Common.Text.{Text}

-- One digit for each unit of fuel at most.
abbrev print_on : ℕ → ℕ → Text
print_on zero n = []
print_on (suc fuel) n = elim (ltb n 10) [
  | true ↦ (b'0' + n) ∷ []
  | false ↦ print_on fuel (n / 10) ++ (b'0' + n % 10) ∷ []
]

-- A number has fewer digits than one more than itself.
unfoldable pub print : ℕ → Text
print n = print_on (n + 1) n

print_on_small : (fuel n : ℕ) → ltb n 10 ≡ true → print_on (suc fuel) n ≡ (b'0' + n) ∷ []
print_on_small fuel n small = ground arith

print_on_large :
    (fuel n : ℕ)
    → ltb n 10 ≡ false
    → print_on (suc fuel) n ≡ print_on fuel (n / 10) ++ (b'0' + n % 10) ∷ []
print_on_large fuel n large = ground arith

-- The number of the digits, behind those of `a`.
abbrev pub read_on : ℕ → Text → ℕ
read_on a [] = a
read_on a (c ∷ s) = read_on (a * 10 + (c - b'0')) s

-- JavaScript's `<` on two texts: by their first code units that differ.
abbrev pub text_less : Text → Text → Bool
text_less [] [] = false
text_less [] (d ∷ t) = true
text_less (c ∷ s) [] = false
text_less (c ∷ s) (d ∷ t) = if c == d then text_less s t else ltb c d

read_on-append : (a : ℕ) (s t : Text) → read_on a (s ++ t) ≡ read_on (read_on a s) t
read_on-append a [] t = refl
read_on-append a (c ∷ s) t = read_on-append (a * 10 + (c - b'0')) s t

read_on-print_on : (fuel n : ℕ) → n < fuel → read_on 0 (print_on fuel n) ≡ n
read_on-print_on zero n le = absurd (omega arith)
read_on-print_on (suc fuel) n le = elim (Bool-cases (ltb n 10)) [
  | inl small ↦ rw (print_on_small fuel n small) (omega arith)
  | inr large ↦
      let ih = read_on-print_on fuel (n / 10) (ground arith) in
      let last : n / 10 * 10 + (b'0' + n % 10 - b'0') ≡ n = omega arith in
      rw (print_on_large fuel n large) (
        read_on-append 0 (print_on fuel (n / 10)) ((b'0' + n % 10) ∷ [])
        ∙ ap (λ a. a * 10 + (b'0' + n % 10 - b'0')) ih
        ∙ last)
]

-- A number is read from its digits.
pub read_on-print : (n : ℕ) → read_on 0 (print n) ≡ n
unfolding print
read_on-print n = read_on-print_on (n + 1) n (omega arith)

print_on_first :
    (fuel n : ℕ) → n < fuel → 1 ≤ n → (c : ℕ) × (t : Text) × (print_on fuel n ≡ c ∷ t) × (b'0' < c)
print_on_first zero n le pos' = absurd (omega arith)
print_on_first (suc fuel) n le pos' = elim (Bool-cases (ltb n 10)) [
  | inl small ↦ (b'0' + n, [], print_on_small fuel n small, omega arith)
  | inr large ↦
      let (c, t, first, more) = print_on_first fuel (n / 10) (ground arith) (ground arith) in
      (
        c,
        t ++ (b'0' + n % 10) ∷ [],
        print_on_large fuel n large ∙ ap (λ u. u ++ (b'0' + n % 10) ∷ []) first,
        more,
      )
]

-- The digits of a number that is not 0 do not begin with a 0.
pub print_first : (n : ℕ) → 1 ≤ n → (c : ℕ) × (t : Text) × (print n ≡ c ∷ t) × (b'0' < c)
unfolding print
print_first n pos' = print_on_first (n + 1) n (omega arith) pos'

pub print-zero : print 0 ≡ b'0' ∷ []
unfolding print
print-zero = refl
