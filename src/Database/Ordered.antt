-- ===== src/Database/Ordered.antt =====
-- Queries with an ORDER BY clause, and lists in a strict order.
use mathlib.Core.Path.{subst}
use my_fans.Common.{
  ℕ, zero, suc, ◌≤◌, ◌<◌, ◌≡◌, ◌∙◌, refl, sym, ap, Bool, true, false, List, [], ◌∷◌, ◌++◌, arith,
  filter, length, Member, All, All-Member, inl, inr, Bool-cases,
}
use my_fans.Database.Contents.{Table, IsKeyed}
use my_fans.Database.Laws.{All-filter}

-- Every row comes before those behind it.
abbrev pub IsStrict : {Row : Type 0} → (Row → Row → Bool) → List Row → Type 0
IsStrict before [] = Unit
IsStrict before (x ∷ xs) = All (λ y. before x y ≡ true) xs × IsStrict before xs

-- `sorted p s`: the rows that match `p`, in the order that `before` states.
pub record Ordered {Row : Type 0} {id : Row → ℕ} {clash : Row → Row → Bool} (t : Table id clash)
    (before : Row → Row → Bool) : Type 0 where
  pub sorted : (Row → Bool) → t.Store → List Row
  pub sorted-Member :
      (p : Row → Bool) (s : t.Store) (r : Row)
      → Member r (sorted p s)
      → Member r (t.rows s) × (p r ≡ true)
  pub Member-sorted :
      (p : Row → Bool) (s : t.Store) (r : Row)
      → Member r (t.rows s)
      → p r ≡ true
      → Member r (sorted p s)
  pub sorted-IsStrict :
      (p : Row → Bool) (s : t.Store) → IsKeyed id (t.rows s) → IsStrict before (sorted p s)

module _ {ℓ} {A : Type ℓ} where
  abbrev pub take : ℕ → List A → List A
  take zero xs = []
  take (suc n) [] = []
  take (suc n) (x ∷ xs) = x ∷ take n xs

  abbrev pub drop : ℕ → List A → List A
  drop zero xs = xs
  drop (suc n) [] = []
  drop (suc n) (x ∷ xs) = drop n xs

  -- `xs.pop()`: what it leaves.
  abbrev pub pop : List A → List A
  pop [] = []
  pop (x ∷ []) = []
  pop (x ∷ y ∷ ys) = x ∷ pop (y ∷ ys)

  -- The last of `x ∷ xs`.
  abbrev pub last_of : A → List A → A
  last_of x [] = x
  last_of x (y ∷ ys) = last_of y ys

module _ {A : Type 0} where
  pub take_all : (n : ℕ) (xs : List A) → length xs ≤ n → take n xs ≡ xs
  take_all zero [] l = refl
  take_all zero (x ∷ xs) l = absurd (omega arith)
  take_all (suc n) [] l = refl
  take_all (suc n) (x ∷ xs) l = ap (λ ys. x ∷ ys) (take_all n xs (omega arith))

  pub take-drop : (n : ℕ) (xs : List A) → take n xs ++ drop n xs ≡ xs
  take-drop zero xs = refl
  take-drop (suc n) [] = refl
  take-drop (suc n) (x ∷ xs) = ap (λ ys. x ∷ ys) (take-drop n xs)

  pub pop-take : (n : ℕ) (xs : List A) → n < length xs → pop (take (suc n) xs) ≡ take n xs
  pop-take n [] l = absurd (omega arith)
  pop-take zero (x ∷ xs) l = refl
  pop-take (suc n) (x ∷ []) l = absurd (omega arith)
  pop-take (suc n) (x ∷ y ∷ ys) l = ap (λ zs. x ∷ zs) (pop-take n (y ∷ ys) (omega arith))

  pub length-take_more : (n : ℕ) (xs : List A) → n ≤ length xs → length (take n xs) ≡ n
  length-take_more zero xs l = refl
  length-take_more (suc n) [] l = absurd (omega arith)
  length-take_more (suc n) (x ∷ xs) l = ap suc (length-take_more n xs (omega arith))

  pub length-drop_less : (n : ℕ) (xs : List A) → length (drop n xs) ≤ length xs
  length-drop_less zero xs = omega arith
  length-drop_less (suc n) [] = omega arith
  length-drop_less (suc n) (x ∷ xs) = omega (arith, length-drop_less n xs)

module _ {Row : Type 0} where
  filter_all : (p : Row → Bool) (xs : List Row) → All (λ x. p x ≡ true) xs → filter p xs ≡ xs
  filter_all p [] h = refl
  filter_all p (x ∷ xs) h = rw (h.0) (ap (λ ys. x ∷ ys) (filter_all p xs h.1))

  pub filter-filter :
      (q p : Row → Bool) (xs : List Row)
      → ((x : Row) → q x ≡ true → p x ≡ true)
      → filter q (filter p xs) ≡ filter q xs
  filter-filter q p [] h = refl
  filter-filter q p (x ∷ xs) h = elim (Bool-cases (p x)) [
    | inl hit ↦ elim (Bool-cases (q x)) [
      | inl keep ↦ rw (hit, keep) (ap (λ ys. x ∷ ys) (filter-filter q p xs h))
      | inr away ↦ rw (hit, away) (filter-filter q p xs h)
    ]
    | inr miss ↦ elim (Bool-cases (q x)) [
      | inl keep ↦ let no' = h x keep in absurd (ground arith)
      | inr away ↦ rw (miss, away) (filter-filter q p xs h)
    ]
  ]

module _ {Row : Type 0} (before : Row → Row → Bool) where
  pub filter-IsStrict :
      (p : Row → Bool) (xs : List Row) → IsStrict before xs → IsStrict before (filter p xs)
  filter-IsStrict p [] h = tt
  filter-IsStrict p (x ∷ xs) h = elim (Bool-cases (p x)) [
    | inl hit ↦ rw hit (All-filter (λ y. before x y ≡ true) p xs h.0, filter-IsStrict p xs h.1)
    | inr miss ↦ rw miss (filter-IsStrict p xs h.1)
  ]

module _ {Row : Type 0} (before : Row → Row → Bool)
    (asym : (x y : Row) → before x y ≡ true → before y x ≡ false) where
  self : (x : Row) → before x x ≡ false
  self x = elim (Bool-cases (before x x)) [ inl yes' ↦ asym x x yes' | inr no' ↦ no' ]

  pub Member-last_of : (x : Row) (ys rest : List Row) → Member (last_of x ys) (x ∷ ys ++ rest)
  Member-last_of x [] rest = inl refl
  Member-last_of x (y ∷ ys) rest = inr (Member-last_of y ys rest)

  -- In a strict list the rows behind the last one of its first part are its second part.
  pub filter_behind :
      (x : Row) (ys rest : List Row)
      → IsStrict before (x ∷ ys ++ rest)
      → filter (before (last_of x ys)) (x ∷ ys ++ rest) ≡ rest
  filter_behind x [] rest h = rw (self x) (filter_all (before x) rest h.0)
  filter_behind x (y ∷ ys) rest h =
      let l = last_of y ys in
      let m = Member-last_of y ys rest in
      let ahead = All-Member (λ z. before x z ≡ true) l (y ∷ ys ++ rest) h.0 m in
      rw (asym x l ahead) (filter_behind y ys rest h.1)

  smaller :
      (x : Row) (xs : List Row) (y : Row) (ys : List Row)
      → All (λ z. before x z ≡ true) xs
      → x ≡ y
      → ((a : Row) → Member a (x ∷ xs) → Member a (y ∷ ys))
      → (a : Row) → Member a xs
      → Member a ys
  smaller x xs y ys above same h a m = elim (h a (inr m)) [
    | inr there ↦ there
    | inl e ↦
        let b = All-Member (λ z. before x z ≡ true) a xs above m in
        let b' : before x x ≡ true = subst (λ z. before x z ≡ true) (e ∙ sym same) b in
        let s = self x in absurd (ground arith)
  ]

  same_head :
      (x : Row) (xs : List Row) (y : Row) (ys : List Row)
      → IsStrict before (x ∷ xs)
      → IsStrict before (y ∷ ys)
      → Member x (y ∷ ys)
      → Member y (x ∷ xs)
      → x ≡ y
  same_head x xs y ys h k (inl e) n = e
  same_head x xs y ys h k (inr m) (inl e) = sym e
  same_head x xs y ys h k (inr m) (inr n) =
      let a = All-Member (λ z. before y z ≡ true) x ys k.0 m in
      let b = All-Member (λ z. before x z ≡ true) y xs h.0 n in
      let c = asym x y b in absurd (ground arith)

  -- Strict lists with the same members are equal.
  pub strict_unique :
      (xs ys : List Row)
      → IsStrict before xs
      → IsStrict before ys
      → ((a : Row) → Member a xs → Member a ys)
      → ((a : Row) → Member a ys → Member a xs)
      → xs ≡ ys
  strict_unique [] [] h k f g = refl
  strict_unique [] (y ∷ ys) h k f g = elim (g y (inl refl)) [ ]
  strict_unique (x ∷ xs) [] h k f g = elim (f x (inl refl)) [ ]
  strict_unique (x ∷ xs) (y ∷ ys) h k f g =
      let heads : x ≡ y = same_head x xs y ys h k (f x (inl refl)) (g y (inl refl)) in
      let tails =
        strict_unique xs ys h.1 k.1 (smaller x xs y ys h.0 heads f)
          (smaller y ys x xs k.0 (sym heads) g) in
      cc
