-- ===== src/Database/Replacing.antt =====
-- Saving a row over an old one that a test does not tell from it.
use my_fans.Common.{
  ℕ, ◌≡◌, refl, sym, ap, ◌∙◌, Bool, false, List, [], ◌∷◌, arith, count, Member, All-Member, All-imp,
  inl, inr, Bool-cases, ◌==◌, ==_iff,
}
use my_fans.Database.Contents.{put, IsKeyed}
use my_fans.Database.Laws.{All-put, IsKeyed-eq}
use my_fans.Database.Saves.{IsDistinct}

module _ {Row : Type 0} (id : Row → ℕ) (r o : Row) (same : id o ≡ id r) where
  -- The old row is further down the list when the first row has another key.
  deeper : (x : Row) (xs : List Row) → (id x == id r) ≡ false → Member o (x ∷ xs) → Member o xs
  deeper x xs ne (inl e) = let k : id o ≡ id x = ap id e in absurd (ground arith)
  deeper x xs ne (inr m) = m

  pub count-put :
      (p : Row → Bool) (xs : List Row)
      → IsKeyed id xs
      → Member o xs
      → p r ≡ p o
      → count p (put id r xs) ≡ count p xs
  count-put p [] keyed m e = elim m [ ]
  count-put p (x ∷ xs) keyed m e = elim (Bool-cases (id x == id r)) [
    | inl here ↦
        let k : id x ≡ id o = (==_iff _ _).0 here ∙ sym same in
        let one = IsKeyed-eq id x o (x ∷ xs) keyed (inl refl) m k in
        let t : p x ≡ p o = ap p one in ground arith
    | inr other ↦ ground (arith, count-put p xs keyed.1 (deeper x xs other m) e)
  ]

  pub put-IsDistinct :
      (clash : Row → Row → Bool) (xs : List Row)
      → IsKeyed id xs
      → Member o xs
      → ((y : Row) → clash r y ≡ clash o y)
      → ((y : Row) → clash y r ≡ clash y o)
      → IsDistinct clash xs
      → IsDistinct clash (put id r xs)
  put-IsDistinct clash [] keyed m l k d = elim m [ ]
  put-IsDistinct clash (x ∷ xs) keyed m l k d = elim (Bool-cases (id x == id r)) [
    | inl here ↦
        let e : id x ≡ id o = (==_iff _ _).0 here ∙ sym same in
        let one = IsKeyed-eq id x o (x ∷ xs) keyed (inl refl) m e in
        rw here (
          All-imp (λ y. clash x y ≡ false) (λ y. clash r y ≡ false) xs
              (λ y h. l y ∙ ap (λ z. clash z y) (sym one) ∙ h) d.0,
          d.1,
        )
    | inr other ↦
        let m' = deeper x xs other m in
        rw other (
          All-put (λ y. clash x y ≡ false) id r xs
              (k x ∙ All-Member (λ y. clash x y ≡ false) o xs d.0 m') d.0,
          put-IsDistinct clash xs keyed.1 m' l k d.1,
        )
  ]
