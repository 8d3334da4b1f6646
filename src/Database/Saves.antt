-- ===== src/Database/Saves.antt =====
-- What the rows of a table are after one of them is saved.
use my_fans.Common.{
  ℕ, ◌≡◌, ◌≢◌, ◌≤◌, refl, ap, filter, count, Bool, true, false, List, [], ◌∷◌, arith, All, Member,
  All-Member, All-imp, inl, inr, ◌⊎◌, ◌==◌, Bool-cases,
}
use my_fans.Database.Contents.{put, conflicts, IsKeyed}
use my_fans.Database.Laws.{All-filter}

All-both :
    {A : Type 0} (P Q : A → Type 0) (xs : List A) → All P xs → All Q xs → All (λ x. P x × Q x) xs
All-both P Q [] h k = tt
All-both P Q (x ∷ xs) h k = ((h.0, k.0), All-both P Q xs h.1 k.1)

module _ {Row : Type 0} (id : Row → ℕ) where
  -- A row is the saved one, or an old one.
  pub Member-put_cases :
      (r y : Row) (xs : List Row) → Member y (put id r xs) → (y ≡ r) ⊎ Member y xs
  Member-put_cases r y [] m = elim m [ inl e ↦ inl e | inr no' ↦ elim no' [ ] ]
  Member-put_cases r y (x ∷ xs) m = elim (Bool-cases (id x == id r)) [
    | inl same ↦
        let m' : Member y (r ∷ xs) = rw same at m in
        elim m' [ inl e ↦ inl e | inr there ↦ inr (inr there) ]
    | inr other ↦
        let m' : Member y (x ∷ put id r xs) = rw other at m in
        elim m' [
          | inl e ↦ inr (inl e)
          | inr there ↦ elim (Member-put_cases r y xs there) [
            | inl e ↦ inl e
            | inr old ↦ inr (inr old)
          ]
        ]
  ]

  -- Where primary keys are distinct, an old row has another key.
  pub Member-put_keyed :
      (r y : Row) (xs : List Row)
      → IsKeyed id xs
      → Member y (put id r xs)
      → (y ≡ r) ⊎ (Member y xs × (id y ≢ id r))
  Member-put_keyed r y [] k m = elim m [ inl e ↦ inl e | inr no' ↦ elim no' [ ] ]
  Member-put_keyed r y (x ∷ xs) k m = elim (Bool-cases (id x == id r)) [
    | inl same ↦
        let m' : Member y (r ∷ xs) = rw same at m in
        elim m' [
          | inl e ↦ inl e
          | inr there ↦
              let apart = All-Member (λ z. id z ≢ id x) y xs k.0 there in
              inr (inr there, ground arith)
        ]
    | inr other ↦
        let m' : Member y (x ∷ put id r xs) = rw other at m in
        elim m' [
          | inl e ↦ let same : id y ≡ id x = ap id e in inr (inl e, ground arith)
          | inr there ↦ elim (Member-put_keyed r y xs k.1 there) [
            | inl e ↦ inl e
            | inr (old, ne) ↦ inr (inr old, ne)
          ]
        ]
  ]

  -- The rows other than the saved one go from one predicate to the next.
  pub All-put_others :
      (P Q : Row → Type 0) (r : Row) (xs : List Row)
      → IsKeyed id xs
      → ((x : Row) → id x ≢ id r → P x → Q x)
      → Q r
      → All P xs
      → All Q (put id r xs)
  All-put_others P Q r [] keyed f q h = (q, tt)
  All-put_others P Q r (x ∷ xs) keyed f q h = elim (Bool-cases (id x == id r)) [
    | inl same ↦ rw same (
      q,
      All-imp (λ y. P y × (id y ≢ id x)) Q xs
          (λ y (p : P y × (id y ≢ id x)). f y (ground arith) p.0)
          (All-both P (λ y. id y ≢ id x) xs h.1 keyed.0),
    )
    | inr other ↦ rw other (f x (ground arith) h.0, All-put_others P Q r xs keyed.1 f q h.1)
  ]

  -- No row violates a constraint that is not there.
  pub conflicts_free : (r : Row) (xs : List Row) → conflicts id (λ _ _. false) r xs ≡ false
  conflicts_free r [] = ground arith
  conflicts_free r (x ∷ xs) = ground (arith, conflicts_free r xs)

-- No two of the rows clash.
abbrev pub IsDistinct : {Row : Type 0} → (Row → Row → Bool) → List Row → Type 0
IsDistinct clash [] = Unit
IsDistinct clash (x ∷ xs) = All (λ y. clash x y ≡ false) xs × IsDistinct clash xs

module _ {Row : Type 0} (id : Row → ℕ) (clash : Row → Row → Bool) where
  -- No row with another key violates a constraint with `r`.
  pub conflicts_others :
      (r : Row) (xs : List Row)
      → ((x : Row) → Member x xs → id x ≢ id r → clash r x ≡ false)
      → conflicts id clash r xs ≡ false
  conflicts_others r [] h = refl
  conflicts_others r (x ∷ xs) h =
      let ih = conflicts_others r xs (λ y m. h y (inr m)) in
      elim (Bool-cases (id x == id r)) [
        | inl same ↦ ground arith
        | inr other ↦ let free = h x (inl refl) (ground arith) in ground arith
      ]

module _ {Row : Type 0} (clash : Row → Row → Bool) where
  -- Rows that clash, in whichever order, are one row.
  pub IsDistinct-eq :
      (a b : Row) (xs : List Row)
      → IsDistinct clash xs
      → Member a xs
      → Member b xs
      → clash a b ≡ true
      → clash b a ≡ true
      → a ≡ b
  IsDistinct-eq a b [] d ma mb c c' = elim ma [ ]
  IsDistinct-eq a b (x ∷ xs) d (inl ea) (inl eb) c c' = cc
  IsDistinct-eq a b (x ∷ xs) d (inl ea) (inr mb) c c' =
      let no' : clash x b ≡ false = All-Member (λ y. clash x y ≡ false) b xs d.0 mb in cc
  IsDistinct-eq a b (x ∷ xs) d (inr ma) (inl eb) c c' =
      let no' : clash x a ≡ false = All-Member (λ y. clash x y ≡ false) a xs d.0 ma in cc
  IsDistinct-eq a b (x ∷ xs) d (inr ma) (inr mb) c c' = IsDistinct-eq a b xs d.1 ma mb c c'

  pub filter-IsDistinct :
      (p : Row → Bool) (xs : List Row) → IsDistinct clash xs → IsDistinct clash (filter p xs)
  filter-IsDistinct p [] d = tt
  filter-IsDistinct p (x ∷ xs) d = elim (Bool-cases (p x)) [
    | inl hit ↦ rw hit (All-filter (λ y. clash x y ≡ false) p xs d.0, filter-IsDistinct p xs d.1)
    | inr miss ↦ rw miss (filter-IsDistinct p xs d.1)
  ]

-- No row passes the test: none is counted; some row does: one is.
pub count_none :
    {Row : Type 0} (p : Row → Bool) (xs : List Row) → All (λ x. p x ≡ false) xs → count p xs ≡ 0
count_none p [] h = refl
count_none p (x ∷ xs) h = ground (arith, count_none p xs h.1)

pub count_zero :
    {Row : Type 0} (p : Row → Bool) (xs : List Row) → count p xs ≡ 0 → All (λ x. p x ≡ false) xs
count_zero p [] h = tt
count_zero p (x ∷ xs) h = (ground arith, count_zero p xs (ground arith))

pub count-filter-le :
    {Row : Type 0} (p q : Row → Bool) (xs : List Row) → count p (filter q xs) ≤ count p xs
count-filter-le p q [] = omega arith
count-filter-le p q (x ∷ xs) = ground (arith, count-filter-le p q xs)
