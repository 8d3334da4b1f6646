-- ===== src/Database/ListTable.antt =====
-- A table as a list of rows: the interface's laws can be met.
use mathlib.Core.Path.{subst}
use my_fans.Common.{
  ℕ, suc, max, ◌≤◌, ◌≡◌, ◌≢◌, ◌&&◌, ◌∙◌, ap, refl, Bool, true, false, not, Option, none, some, List,
  [], ◌∷◌, map, arith, filter, length-filter, All, Member, All-imp, ltb, if◌then◌else◌, inl, inr,
  Bool-cases, sym,
}
use my_fans.Database.Laws.{Member-filter}
use my_fans.Database.Contents.{Table, put, conflicts, patch}

module _ {Row : Type 0} where
  -- The first of two candidates with the greater key.
  abbrev later : (Row → ℕ) → Row → Option Row → Row
  later key r none = r
  later key r (some x) = if ltb (key r) (key x) then x else r

  abbrev pub latest : (Row → Bool) → (Row → ℕ) → List Row → Option Row
  latest p key [] = none
  latest p key (r ∷ rs) = if p r then some (later key r (latest p key rs)) else latest p key rs

  pub latest-none :
      (p : Row → Bool) (key : Row → ℕ) (xs : List Row)
      → latest p key xs ≡ none
      → All (λ x. p x ≡ false) xs
  latest-none p key [] e = tt
  latest-none p key (x ∷ xs) e = elim (Bool-cases (p x)) [
    | inl hit ↦ let e' = rw hit at e in cc
    | inr miss ↦ (miss, latest-none p key xs (rw miss at e))
  ]

  abbrev Latest : (Row → Bool) → (Row → ℕ) → List Row → Row → Type 0
  Latest p key xs r = Member r xs × (p r ≡ true) × All (λ x. p x ≡ true → key x ≤ key r) xs

  -- The head matches: it wins, or the tail's winner has a key that is no smaller.
  later-Latest :
      (p : Row → Bool) (key : Row → ℕ) (x : Row) (xs : List Row) (o : Option Row)
      → p x ≡ true
      → (o ≡ none → All (λ y. p y ≡ false) xs)
      → ((r : Row) → o ≡ some r → Latest p key xs r)
      → Latest p key (x ∷ xs) (later key x o)
  later-Latest p key x xs none hit nobody ih = (
    inl refl,
    hit,
    ((λ _. omega arith), All-imp (λ y. p y ≡ false) _ xs (λ y no' yes'. cc) (nobody refl)),
  )
  later-Latest p key x xs (some w) hit nobody ih =
      let (m, hw, above) = ih w refl in
      elim (Bool-cases (ltb (key x) (key w))) [
        | inl less ↦
            let e : later key x (some w) ≡ w = rw less in
            subst (Latest p key (x ∷ xs)) (sym e) (inr m, hw, ((λ _. ground arith), above))
        | inr more ↦
            let e : later key x (some w) ≡ x = rw more in
            let below =
              All-imp (λ y. p y ≡ true → key y ≤ key w) (λ y. p y ≡ true → key y ≤ key x) xs
                (λ y le yes'. let l = le yes' in ground arith) above in
            subst (Latest p key (x ∷ xs)) (sym e) (inl refl, hit, ((λ _. omega arith), below))
      ]

  pub latest-some :
      (p : Row → Bool) (key : Row → ℕ) (xs : List Row) (r : Row)
      → latest p key xs ≡ some r
      → Latest p key xs r
  latest-some p key [] r e = cc
  latest-some p key (x ∷ xs) r e = elim (Bool-cases (p x)) [
    | inl hit ↦
        let best =
          later-Latest p key x xs (latest p key xs) hit (latest-none p key xs)
            (latest-some p key xs) in
        let e' = rw hit at e in
        let same : later key x (latest p key xs) ≡ r = cc in subst (Latest p key (x ∷ xs)) same best
    | inr miss ↦
        let (m, h, above) = latest-some p key xs r (rw miss at e) in
        (inr m, h, ((λ yes'. cc), above))
  ]

  pub filter-Member :
      (p : Row → Bool) (xs : List Row) (r : Row)
      → Member r (filter p xs)
      → Member r xs × (p r ≡ true)
  filter-Member p [] r m = elim m [ ]
  filter-Member p (x ∷ xs) r m = elim (Bool-cases (p x)) [
    | inl hit ↦
        let m' : Member r (x ∷ filter p xs) = rw hit at m in ground (arith, filter-Member p xs r)
    | inr miss ↦
        let m' : Member r (filter p xs) = rw miss at m in
        let (there, h) = filter-Member p xs r m' in (inr there, h)
  ]

-- What passes the test stays.
pub Member-filter_row :
    {Row : Type 0} (p : Row → Bool) (xs : List Row) (r : Row)
    → Member r xs
    → p r ≡ true
    → Member r (filter p xs)
Member-filter_row p xs r mem hit = Member-filter p r xs mem hit

module _ {Row : Type 0} (id : Row → ℕ) (clash : Row → Row → Bool) where
  -- A key above every key in use.
  abbrev next_id : List Row → ℕ
  next_id [] = 0
  next_id (x ∷ xs) = max (suc (id x)) (next_id xs)

  next_id-new : (k : ℕ) (xs : List Row) → next_id xs ≤ k → All (λ x. id x ≢ k) xs
  next_id-new k [] h = tt
  next_id-new k (x ∷ xs) h = (omega arith, next_id-new k xs (omega arith))

  abbrev pub free : (Row → Bool) → List Row → Bool
  free taken [] = true
  free taken (x ∷ xs) = not (taken x) && free taken xs

  free-All :
      (taken : Row → Bool) (xs : List Row) → free taken xs ≡ true → All (λ x. taken x ≡ false) xs
  free-All taken [] e = tt
  free-All taken (x ∷ xs) e = (ground arith, free-All taken xs (ground arith))

  All-free :
      (taken : Row → Bool) (xs : List Row) → All (λ x. taken x ≡ false) xs → free taken xs ≡ true
  All-free taken [] h = refl
  All-free taken (x ∷ xs) h = ground (arith, All-free taken xs h.1)

  abbrev pub insert_row : (ℕ → Row) → List Row → Option (Row × List Row)
  insert_row mk xs = let r = mk (next_id xs) in if free (clash r) xs then some (r, r ∷ xs) else none

  pub insert_row-some :
      (mk : ℕ → Row) (s : List Row) (r : Row) (s' : List Row)
      → ((n : ℕ) → id (mk n) ≡ n)
      → insert_row mk s ≡ some (r, s')
      → (r ≡ mk (id r)) × All (λ x. id x ≢ id r) s × All (λ x. clash r x ≡ false) s × (s' ≡ r ∷ s)
  insert_row-some mk s r s' keyed e = elim (Bool-cases (free (clash (mk (next_id s))) s)) [
    | inl ok ↦
        let e' = rw ok at e in
        let made : mk (next_id s) ≡ r = cc in
        let grown : mk (next_id s) ∷ s ≡ s' = cc in
        let same : next_id s ≡ id r = sym (keyed (next_id s)) ∙ ap id made in
        (
          sym made ∙ ap mk same,
          next_id-new (id r) s (omega arith),
          subst (λ x. All (λ y. clash x y ≡ false) s) made (free-All (clash (mk (next_id s))) s ok),
          sym grown ∙ ap (λ x. x ∷ s) made,
        )
    | inr full ↦ let e' = rw full at e in cc
  ]

  pub insert_row-none :
      (mk : ℕ → Row) (s : List Row)
      → insert_row mk s ≡ none
      → (n : ℕ) × ¬ All (λ x. clash (mk n) x ≡ false) s
  insert_row-none mk s e =
      (next_id s, λ h. let ok = All-free (clash (mk (next_id s))) s h in let e' = rw ok at e in cc)

  abbrev pub save_row : Row → List Row → Option (List Row)
  save_row r xs = if conflicts id clash r xs then none else some (put id r xs)

  pub save_row-some :
      (r : Row) (s s' : List Row)
      → save_row r s ≡ some s'
      → (s' ≡ put id r s) × (conflicts id clash r s ≡ false)
  save_row-some r s s' e = ground arith

  pub save_row-none : (r : Row) (s : List Row) → save_row r s ≡ none → conflicts id clash r s ≡ true
  save_row-none r s e = ground arith

  abbrev pub list_table : Table id clash
  list_table = record {
    Store = List Row;
    rows = λ s. s;
    find_one = latest;
    find = filter;
    insert = insert_row;
    save = save_row;
    update = λ p f s. map (patch p f) s;
    delete = λ p s. filter (λ r. not (p r)) s;
    find_one-some = latest-some;
    find_one-none = latest-none;
    find-Member = filter-Member;
    Member-find = Member-filter_row;
    length-find = length-filter;
    insert-some = insert_row-some;
    insert-none = insert_row-none;
    save-some = save_row-some;
    save-none = save_row-none;
    rows-update = λ p f s. refl;
    rows-delete = λ p s. refl;
  }
