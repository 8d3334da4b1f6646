-- ===== src/Database/Sorting.antt =====
-- Ordered queries on lists of rows: the interface can be met.
use my_fans.Common.{
  ℕ, ◌≡◌, ◌≢◌, Bool, true, false, ◌⊎◌, inl, inr, List, [], ◌∷◌, arith, filter, Member, All,
  All-Member, All-of_Member, All-imp, Bool-cases, if◌then◌else◌,
}
use my_fans.Database.Contents.{IsKeyed}
use my_fans.Database.Laws.{Member-filter, filter-IsKeyed}
use my_fans.Database.ListTable.{list_table, filter-Member}
use my_fans.Database.Ordered.{IsStrict, Ordered}

module _ {Row : Type 0} (before : Row → Row → Bool) where
  abbrev pub place : Row → List Row → List Row
  place r [] = r ∷ []
  place r (x ∷ xs) = if before r x then r ∷ x ∷ xs else x ∷ place r xs

  abbrev pub sort : List Row → List Row
  sort [] = []
  sort (x ∷ xs) = place x (sort xs)

  Member-place : (r q : Row) (xs : List Row) → (q ≡ r) ⊎ Member q xs → Member q (place r xs)
  Member-place r q [] m = m
  Member-place r q (x ∷ xs) m = elim (Bool-cases (before r x)) [
    | inl first ↦ rw first m
    | inr behind ↦ rw behind (elim m [
      | inl e ↦ inr (Member-place r q xs (inl e))
      | inr there ↦ elim there [ inl e ↦ inl e | inr old ↦ inr (Member-place r q xs (inr old)) ]
    ])
  ]

  place-Member : (r q : Row) (xs : List Row) → Member q (place r xs) → (q ≡ r) ⊎ Member q xs
  place-Member r q [] m = m
  place-Member r q (x ∷ xs) m = elim (Bool-cases (before r x)) [
    | inl first ↦ let m' : Member q (r ∷ x ∷ xs) = rw first at m in m'
    | inr behind ↦
        let m' : Member q (x ∷ place r xs) = rw behind at m in
        elim m' [
          | inl e ↦ inr (inl e)
          | inr there ↦ elim (place-Member r q xs there) [ inl e ↦ inl e | inr old ↦ inr (inr old) ]
        ]
  ]

  pub Member-sort : (q : Row) (xs : List Row) → Member q xs → Member q (sort xs)
  Member-sort q [] m = m
  Member-sort q (x ∷ xs) (inl e) = Member-place x q (sort xs) (inl e)
  Member-sort q (x ∷ xs) (inr m) = Member-place x q (sort xs) (inr (Member-sort q xs m))

  pub sort-Member : (q : Row) (xs : List Row) → Member q (sort xs) → Member q xs
  sort-Member q [] m = m
  sort-Member q (x ∷ xs) m = elim (place-Member x q (sort xs) m) [
    | inl e ↦ inl e
    | inr there ↦ inr (sort-Member q xs there)
  ]

  module _ (id : Row → ℕ) (clash : Row → Row → Bool)
      (trans : (x y z : Row) → before x y ≡ true → before y z ≡ true → before x z ≡ true)
      (total : (x y : Row) → id x ≢ id y → before x y ≡ false → before y x ≡ true) where
    place-IsStrict :
        (r : Row) (xs : List Row)
        → All (λ x. id x ≢ id r) xs
        → IsStrict before xs
        → IsStrict before (place r xs)
    place-IsStrict r [] apart h = (tt, tt)
    place-IsStrict r (x ∷ xs) apart h = elim (Bool-cases (before r x)) [
      | inl first ↦ rw first (
        (
          first,
          All-imp (λ y. before x y ≡ true) (λ y. before r y ≡ true) xs (λ y b. trans r x y first b)
              h.0,
        ),
        h,
      )
      | inr behind ↦
          let ahead = total r x (λ e. apart.0 (ground arith)) behind in
          rw behind (
            All-of_Member (λ y. before x y ≡ true) (place r xs)
                (λ y m. elim (place-Member r y xs m) [
                  | inl e ↦ rw e ahead
                  | inr old ↦ All-Member (λ z. before x z ≡ true) y xs h.0 old
                ]),
            place-IsStrict r xs apart.1 h.1,
          )
    ]

    pub sort-IsStrict : (xs : List Row) → IsKeyed id xs → IsStrict before (sort xs)
    sort-IsStrict [] k = tt
    sort-IsStrict (x ∷ xs) k =
        place-IsStrict x (sort xs)
          (All-of_Member (λ y. id y ≢ id x) (sort xs)
            (λ y m. All-Member (λ z. id z ≢ id x) y xs k.0 (sort-Member y xs m)))
          (sort-IsStrict xs k.1)

    abbrev pub list_ordered : Ordered (list_table id clash) before
    list_ordered = record {
      sorted = λ p s. sort (filter p s);
      sorted-Member = λ p s r m. filter-Member p s r (sort-Member r (filter p s) m);
      Member-sorted = λ p s r m hit. Member-sort r (filter p s) (Member-filter p r s m hit);
      sorted-IsStrict = λ p s k. sort-IsStrict (filter p s) (filter-IsKeyed id p s k);
    }
