-- ===== src/Database/Contents.antt =====
-- What a table holds, and the interface of its repository.
use my_fans.Common.{
  ℕ, ◌≤◌, ◌≡◌, ◌≢◌, Bool, true, false, not, ◌&&◌, ◌||◌, Option, none, some, List, [], ◌∷◌, map,
  filter, length, count, All, Member, ◌==◌, if◌then◌else◌,
}

module _ {Row : Type 0} (id : Row → ℕ) where
  -- Saving an entity: the row with the same primary key is replaced; without one, it is inserted.
  abbrev pub put : Row → List Row → List Row
  put r [] = r ∷ []
  put r (x ∷ xs) = if id x == id r then r ∷ xs else x ∷ put r xs

  -- Another row stands in the way of `r` by a unique constraint.
  abbrev pub conflicts : (Row → Row → Bool) → Row → List Row → Bool
  conflicts clash r [] = false
  conflicts clash r (x ∷ xs) = (not (id x == id r) && clash r x) || conflicts clash r xs

  -- No two rows have the same primary key.
  abbrev pub IsKeyed : List Row → Type 0
  IsKeyed [] = Unit
  IsKeyed (x ∷ xs) = All (λ y. id y ≢ id x) xs × IsKeyed xs

abbrev pub patch : {Row : Type 0} → (Row → Bool) → (Row → Row) → Row → Row
patch p f r = if p r then f r else r

-- `id` is the primary key, and `clash` says when two rows violate a unique constraint of the
-- entity. A condition `p` is what `where` states; `find_one p key` is `findOne` with the order
-- `key DESC` (a constant key: no order). `insert mk` is `save` of a new entity, whose primary key
-- the database generates; `save` is that of an entity with a primary key. Both answer `none` on
-- error 23505 and change nothing. `update p f` sets columns of the matching rows; `delete p`
-- removes them. A failure of the connection is not a result of these calls.
pub record Table {Row : Type 0} (id : Row → ℕ) (clash : Row → Row → Bool) : Type 1 where
  pub Store : Type 0
  pub rows : Store → List Row
  pub find_one : (Row → Bool) → (Row → ℕ) → Store → Option Row
  pub find : (Row → Bool) → Store → List Row
  pub insert : (ℕ → Row) → Store → Option (Row × Store)
  pub save : Row → Store → Option Store
  pub update : (Row → Bool) → (Row → Row) → Store → Store
  pub delete : (Row → Bool) → Store → Store
  pub find_one-some :
      (p : Row → Bool) (key : Row → ℕ) (s : Store) (r : Row)
      → find_one p key s ≡ some r
      → Member r (rows s) × (p r ≡ true) × All (λ x. p x ≡ true → key x ≤ key r) (rows s)
  pub find_one-none :
      (p : Row → Bool) (key : Row → ℕ) (s : Store)
      → find_one p key s ≡ none
      → All (λ x. p x ≡ false) (rows s)
  pub find-Member :
      (p : Row → Bool) (s : Store) (r : Row)
      → Member r (find p s)
      → Member r (rows s) × (p r ≡ true)
  pub Member-find :
      (p : Row → Bool) (s : Store) (r : Row) → Member r (rows s) → p r ≡ true → Member r (find p s)
  pub length-find : (p : Row → Bool) (s : Store) → length (find p s) ≡ count p (rows s)
  pub insert-some :
      (mk : ℕ → Row) (s : Store) (r : Row) (s' : Store)
      → ((n : ℕ) → id (mk n) ≡ n)
      → insert mk s ≡ some (r, s')
      → (r ≡ mk (id r))
        × All (λ x. id x ≢ id r) (rows s)
        × All (λ x. clash r x ≡ false) (rows s)
        × (rows s' ≡ r ∷ rows s)
  pub insert-none :
      (mk : ℕ → Row) (s : Store)
      → insert mk s ≡ none
      → (n : ℕ) × ¬ All (λ x. clash (mk n) x ≡ false) (rows s)
  pub save-some :
      (r : Row) (s s' : Store)
      → save r s ≡ some s'
      → (rows s' ≡ put id r (rows s)) × (conflicts id clash r (rows s) ≡ false)
  pub save-none : (r : Row) (s : Store) → save r s ≡ none → conflicts id clash r (rows s) ≡ true
  pub rows-update :
      (p : Row → Bool) (f : Row → Row) (s : Store) → rows (update p f s) ≡ map (patch p f) (rows s)
  pub rows-delete :
      (p : Row → Bool) (s : Store) → rows (delete p s) ≡ filter (λ r. not (p r)) (rows s)
