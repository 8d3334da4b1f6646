-- ===== src/Database/Laws.antt =====
-- What follows from the laws of a table for any condition and any predicate on rows.
use my_fans.Common.{
  ℕ, ◌≡◌, ◌≢◌, refl, ap, ==_iff, Bool, true, false, not, none, some, List, [], ◌∷◌, map, arith,
  filter, All, Member, All-Member, All-imp, All-map, ◌==◌, inl, inr, Option-cases, Bool-cases,
}
use my_fans.Database.Contents.{Table, put, conflicts, patch, IsKeyed}

module _ {Row : Type 0} (P : Row → Type 0) where
  pub All-put : (id : Row → ℕ) (r : Row) (xs : List Row) → P r → All P xs → All P (put id r xs)
  All-put id r [] p h = (p, tt)
  All-put id r (x ∷ xs) p h = elim (Bool-cases (id x == id r)) [
    | inl same ↦ rw same (p, h.1)
    | inr other ↦ rw other (h.0, All-put id r xs p h.1)
  ]

  pub All-map-patch :
      (p : Row → Bool) (f : Row → Row) (xs : List Row)
      → ((x : Row) → p x ≡ true → P x → P (f x))
      → All P xs
      → All P (map (patch p f) xs)
  All-map-patch p f [] k h = tt
  All-map-patch p f (x ∷ xs) k h = elim (Bool-cases (p x)) [
    | inl hit ↦ rw hit (k x hit h.0, All-map-patch p f xs k h.1)
    | inr miss ↦ rw miss (h.0, All-map-patch p f xs k h.1)
  ]

  pub All-filter : (p : Row → Bool) (xs : List Row) → All P xs → All P (filter p xs)
  All-filter p [] h = tt
  All-filter p (x ∷ xs) h = elim (Bool-cases (p x)) [
    | inl hit ↦ rw hit (h.0, All-filter p xs h.1)
    | inr miss ↦ rw miss (All-filter p xs h.1)
  ]

-- The rows that a deletion leaves do not match.
pub All-filter-not :
    {Row : Type 0} (p : Row → Bool) (xs : List Row)
    → All (λ x. p x ≡ false) (filter (λ x. not (p x)) xs)
All-filter-not p [] = tt
All-filter-not p (x ∷ xs) = elim (Bool-cases (p x)) [
  | inl hit ↦ rw hit (All-filter-not p xs)
  | inr miss ↦ rw miss (miss, All-filter-not p xs)
]

pub Member-put : {Row : Type 0} (id : Row → ℕ) (r : Row) (xs : List Row) → Member r (put id r xs)
Member-put id r [] = inl refl
Member-put id r (x ∷ xs) = elim (Bool-cases (id x == id r)) [
  | inl same ↦ rw same (inl refl)
  | inr other ↦ rw other (inr (Member-put id r xs))
]

-- A row with no equal key stays when another is saved.
pub Member-put_other :
    {Row : Type 0} (id : Row → ℕ) (r y : Row) (xs : List Row)
    → (id y == id r) ≡ false
    → Member y xs
    → Member y (put id r xs)
Member-put_other id r y [] ne m = elim m [ ]
Member-put_other id r y (x ∷ xs) ne (inl e) = rw (← e, ne) (inl refl)
Member-put_other id r y (x ∷ xs) ne (inr m) = elim (Bool-cases (id x == id r)) [
  | inl same ↦ rw same (inr m)
  | inr other ↦ rw other (inr (Member-put_other id r y xs ne m))
]

pub conflicts_none :
    {Row : Type 0} (id : Row → ℕ) (clash : Row → Row → Bool) (r : Row) (xs : List Row)
    → All (λ x. clash r x ≡ false) xs
    → conflicts id clash r xs ≡ false
conflicts_none id clash r [] h = refl
conflicts_none id clash r (x ∷ xs) h = ground (arith, conflicts_none id clash r xs h.1)

module _ {Row : Type 0} (id : Row → ℕ) where
  patch-id :
      (p : Row → Bool) (f : Row → Row) (x : Row)
      → ((y : Row) → id (f y) ≡ id y)
      → id (patch p f x) ≡ id x
  patch-id p f x same = elim (Bool-cases (p x)) [ inl hit ↦ rw hit (same x) | inr miss ↦ rw miss ]

  pub put-IsKeyed : (r : Row) (xs : List Row) → IsKeyed id xs → IsKeyed id (put id r xs)
  put-IsKeyed r [] k = (tt, tt)
  put-IsKeyed r (x ∷ xs) k = elim (Bool-cases (id x == id r)) [
    | inl same ↦
        let e : id x ≡ id r = (==_iff _ _).0 same in
        rw same (All-imp (λ y. id y ≢ id x) (λ y. id y ≢ id r) xs (λ y ne. ground arith) k.0, k.1)
    | inr other ↦
        rw other (All-put (λ y. id y ≢ id x) id r xs (ground arith) k.0, put-IsKeyed r xs k.1)
  ]

  pub filter-IsKeyed : (p : Row → Bool) (xs : List Row) → IsKeyed id xs → IsKeyed id (filter p xs)
  filter-IsKeyed p [] k = tt
  filter-IsKeyed p (x ∷ xs) k = elim (Bool-cases (p x)) [
    | inl hit ↦ rw hit (All-filter (λ y. id y ≢ id x) p xs k.0, filter-IsKeyed p xs k.1)
    | inr miss ↦ rw miss (filter-IsKeyed p xs k.1)
  ]

  pub map-patch-IsKeyed :
      (p : Row → Bool) (f : Row → Row) (xs : List Row)
      → ((x : Row) → id (f x) ≡ id x)
      → IsKeyed id xs
      → IsKeyed id (map (patch p f) xs)
  map-patch-IsKeyed p f [] same k = tt
  map-patch-IsKeyed p f (x ∷ xs) same k =
      let kept = λ (y : Row). patch-id p f y same in
      (
        All-map (λ y. id y ≢ id (patch p f x)) (patch p f) xs
            (All-imp (λ y. id y ≢ id x) (λ y. id (patch p f y) ≢ id (patch p f x)) xs
              (λ y ne. rw (kept y, kept x) ne) k.0),
        map-patch-IsKeyed p f xs same k.1,
      )

  -- Two rows with one primary key are one row.
  pub IsKeyed-eq :
      (a b : Row) (xs : List Row) → IsKeyed id xs → Member a xs → Member b xs → id a ≡ id b → a ≡ b
  IsKeyed-eq a b [] k ma mb e = elim ma [ ]
  IsKeyed-eq a b (x ∷ xs) k (inl ea) (inl eb) e = cc
  IsKeyed-eq a b (x ∷ xs) k (inl ea) (inr mb) e =
      let ne : id b ≢ id x = All-Member (λ y. id y ≢ id x) b xs k.0 mb in
      let same : id a ≡ id x = ap id ea in absurd (omega arith)
  IsKeyed-eq a b (x ∷ xs) k (inr ma) (inl eb) e =
      let ne : id a ≢ id x = All-Member (λ y. id y ≢ id x) a xs k.0 ma in
      let same : id b ≡ id x = ap id eb in absurd (omega arith)
  IsKeyed-eq a b (x ∷ xs) k (inr ma) (inr mb) e = IsKeyed-eq a b xs k.1 ma mb e

pub Member-filter :
    {Row : Type 0} (p : Row → Bool) (r : Row) (xs : List Row)
    → Member r xs
    → p r ≡ true
    → Member r (filter p xs)
Member-filter p r [] m hit = elim m [ ]
Member-filter p r (x ∷ xs) (inl e) hit = rw (← e, hit) (inl refl)
Member-filter p r (x ∷ xs) (inr m) hit = elim (Bool-cases (p x)) [
  | inl here ↦ rw here (inr (Member-filter p r xs m hit))
  | inr miss ↦ rw miss (Member-filter p r xs m hit)
]

pub Member-map-patch :
    {Row : Type 0} (p : Row → Bool) (f : Row → Row) (r : Row) (xs : List Row)
    → Member r xs
    → Member (patch p f r) (map (patch p f) xs)
Member-map-patch p f r [] m = elim m [ ]
Member-map-patch p f r (x ∷ xs) (inl e) = inl (ap (patch p f) e)
Member-map-patch p f r (x ∷ xs) (inr m) = inr (Member-map-patch p f r xs m)

pub conflicts_some :
    {Row : Type 0} (id : Row → ℕ) (clash : Row → Row → Bool) (r x : Row) (xs : List Row)
    → Member x xs
    → id x ≢ id r
    → clash r x ≡ true
    → conflicts id clash r xs ≡ true
conflicts_some id clash r x [] m ne c = elim m [ ]
conflicts_some id clash r x (y ∷ ys) (inl e) ne c = rw (← e) (ground arith)
conflicts_some id clash r x (y ∷ ys) (inr m) ne c =
    ground (arith, conflicts_some id clash r x ys m ne c)

module _ {Row : Type 0} {id : Row → ℕ} {clash : Row → Row → Bool} (t : Table id clash) where
  open t use {Store, rows, find_one, insert, save, update, delete}

  -- Nothing matches: nothing is found.
  pub find_one-eq-none :
      (p : Row → Bool) (key : Row → ℕ) (s : Store)
      → All (λ x. p x ≡ false) (rows s)
      → find_one p key s ≡ none
  find_one-eq-none p key s h = elim (Option-cases (find_one p key s)) [
    | inl e ↦ e
    | inr (r, e) ↦
        let (m, hit, _) = t.find_one-some p key s r e in
        let miss : p r ≡ false = All-Member (λ x. p x ≡ false) r (rows s) h m in cc
  ]

  -- A row that matches is in the table: something is found.
  pub find_one-eq-some :
      (p : Row → Bool) (key : Row → ℕ) (s : Store) (x : Row)
      → Member x (rows s)
      → p x ≡ true
      → (r : Row) × (find_one p key s ≡ some r) × Member r (rows s) × (p r ≡ true)
  find_one-eq-some p key s x m hit = elim (Option-cases (find_one p key s)) [
    | inl e ↦
        let miss : p x ≡ false =
          All-Member (λ y. p y ≡ false) x (rows s) (t.find_one-none p key s e) m in
        cc
    | inr (r, e) ↦ let (m', hit', _) = t.find_one-some p key s r e in (r, e, m', hit')
  ]

  -- No other row stands in the way: the row is saved.
  pub save-eq-some :
      (r : Row) (s : Store)
      → All (λ x. clash r x ≡ false) (rows s)
      → (s' : Store) × (save r s ≡ some s') × (rows s' ≡ put id r (rows s))
  save-eq-some r s h = elim (Option-cases (save r s)) [
    | inl e ↦ let no = conflicts_none id clash r (rows s) h in let yes' = t.save-none r s e in cc
    | inr (s', e) ↦ (s', e, (t.save-some r s s' e).0)
  ]

  -- No row clashes with the new one: it is inserted, with a new primary key.
  pub insert-eq-some :
      (mk : ℕ → Row) (s : Store)
      → ((n : ℕ) → id (mk n) ≡ n)
      → ((n : ℕ) → All (λ x. clash (mk n) x ≡ false) (rows s))
      → (r : Row) × (s' : Store) × (insert mk s ≡ some (r, s'))
        × (r ≡ mk (id r))
        × (rows s' ≡ r ∷ rows s)
  insert-eq-some mk s keyed free = elim (Option-cases (insert mk s)) [
    | inl e ↦ let (n, taken) = t.insert-none mk s e in absurd (taken (free n))
    | inr ((r, s'), e) ↦
        let (made, _, _, grown) = t.insert-some mk s r s' keyed e in (r, s', e, made, grown)
  ]

  -- A row that clashes keeps the new one out.
  pub insert-eq-none :
      (mk : ℕ → Row) (s : Store) (x : Row)
      → ((n : ℕ) → id (mk n) ≡ n)
      → Member x (rows s)
      → ((n : ℕ) → clash (mk n) x ≡ true)
      → insert mk s ≡ none
  insert-eq-none mk s x keyed mem taken = elim (Option-cases (insert mk s)) [
    | inl e ↦ e
    | inr ((r, s'), e) ↦
        let (made, _, free, _) = t.insert-some mk s r s' keyed e in
        let no : clash r x ≡ false = All-Member (λ y. clash r y ≡ false) x (rows s) free mem in
        let yes' = taken (id r) in cc
  ]

  pub save-eq-none :
      (r : Row) (s : Store) (x : Row)
      → Member x (rows s)
      → id x ≢ id r
      → clash r x ≡ true
      → save r s ≡ none
  save-eq-none r s x mem ne taken = elim (Option-cases (save r s)) [
    | inl e ↦ e
    | inr (s', e) ↦
        let no = (t.save-some r s s' e).1 in
        let yes' = conflicts_some id clash r x (rows s) mem ne taken in cc
  ]

  pub insert-IsKeyed :
      (mk : ℕ → Row) (s : Store) (r : Row) (s' : Store)
      → ((n : ℕ) → id (mk n) ≡ n)
      → insert mk s ≡ some (r, s')
      → IsKeyed id (rows s)
      → IsKeyed id (rows s')
  insert-IsKeyed mk s r s' keyed e k =
      let (_, new, _, grown) = t.insert-some mk s r s' keyed e in rw grown (new, k)

  module _ (P : Row → Type 0) where
    pub insert-All :
        (mk : ℕ → Row) (s : Store) (r : Row) (s' : Store)
        → ((n : ℕ) → id (mk n) ≡ n)
        → insert mk s ≡ some (r, s')
        → P r
        → All P (rows s)
        → All P (rows s')
    insert-All mk s r s' keyed e p h =
        let (_, _, _, grown) = t.insert-some mk s r s' keyed e in rw grown (p, h)

    pub save-All :
        (r : Row) (s s' : Store) → save r s ≡ some s' → P r → All P (rows s) → All P (rows s')
    save-All r s s' e p h = rw ((t.save-some r s s' e).0) (All-put P id r (rows s) p h)

    pub update-All :
        (p : Row → Bool) (f : Row → Row) (s : Store)
        → ((x : Row) → p x ≡ true → P x → P (f x))
        → All P (rows s)
        → All P (rows (update p f s))
    update-All p f s k h = rw (t.rows-update p f s) (All-map-patch P p f (rows s) k h)

    pub delete-All : (p : Row → Bool) (s : Store) → All P (rows s) → All P (rows (delete p s))
    delete-All p s h = rw (t.rows-delete p s) (All-filter P (λ r. not (p r)) (rows s) h)

  pub delete_none : (p : Row → Bool) (s : Store) → All (λ x. p x ≡ false) (rows (delete p s))
  delete_none p s = rw (t.rows-delete p s) (All-filter-not p (rows s))
