-- ===== src/RefreshTokens/Rotation.antt =====
-- A token buys one new pair, and the new token goes on from there.
use mathlib.Core.Path.{subst}
use my_fans.Common.{
  ℕ, ◌≤◌, ◌≡◌, ◌≢◌, ◌∙◌, refl, sym, ap, true, false, not, List, ◌∷◌, arith, All, Member, All-imp,
  filter, inl, inr, ltb, Option-cases, Bool-cases, ◌==◌, ==_iff, All-of_Member,
}
use my_fans.Common.Actions.{ok, err}
use my_fans.Database.{Table, IsKeyed}
use my_fans.Database.ListTable.{filter-Member}
use my_fans.Database.Laws.{
  filter-IsKeyed, IsKeyed-eq, find_one-eq-none, find_one-eq-some, All-filter, insert-eq-some,
}
use my_fans.RefreshTokens.{
  RefreshToken, token_id, hash_of, same_hash, TokenPair, invalid_token, TokenConfig, Crypto,
  token_row, expiry_of, has_hash, create_refresh_token, issued, rotate,
}

module _ (db : Table token_id same_hash) (crypto : Crypto) (config : TokenConfig)
    (email : ℕ → ℕ) where
  open db use {Store, rows, find_one, insert, delete}

  -- No two rows have the same hash.
  abbrev pub IsUnique : Store → Type 0
  IsUnique s = IsKeyed hash_of (rows s)

  -- What a rotation that goes through has found and written.
  rotate-ok :
      (raw new_raw now : ℕ) (s s' : Store) (pair : TokenPair)
      → rotate db crypto config email raw new_raw now s ≡ (ok pair, s')
      → (stored : RefreshToken) × (r : RefreshToken) × Member stored (rows s)
        × (stored.token_hash ≡ crypto.hash raw)
        × (pair ≡ issued db crypto config email stored.user_id new_raw)
        × (r
            ≡ token_row stored.user_id
                (crypto.hash new_raw)
                (expiry_of config now)
                now
                (token_id r))
        × All (λ x. same_hash r x ≡ false) (filter (λ x. not (x.id == stored.id)) (rows s))
        × (rows s' ≡ r ∷ filter (λ x. not (x.id == stored.id)) (rows s))
  unfolding rotate create_refresh_token
  rotate-ok raw new_raw now s s' pair e =
      elim (Option-cases (find_one (has_hash (crypto.hash raw)) (λ _. 0) s)) [
        | inl unknown ↦ absurd (ground arith)
        | inr (stored, found) ↦
            let (mem, hit, _) =
              db.find_one-some (has_hash (crypto.hash raw)) (λ _. 0) s stored found in
            let p = λ (r : RefreshToken). r.id == stored.id in
            let left = db.rows-delete p s in
            elim (Bool-cases (ltb stored.expires_at now)) [
              | inl old ↦ absurd (ground arith)
              | inr young ↦
                  let mk =
                    token_row stored.user_id (crypto.hash new_raw) (expiry_of config now) now in
                  elim (Option-cases (insert mk (delete p s))) [
                    | inl refused ↦ absurd (ground arith)
                    | inr ((r, s''), made) ↦
                        let (row, _, free, grown) =
                          db.insert-some mk (delete p s) r s'' (λ n. refl) made in
                        let same : s'' ≡ s' = ground arith in
                        (
                          stored,
                          r,
                          mem,
                          (==_iff _ _).0 hit,
                          ground arith,
                          row,
                          subst (λ xs. All (λ x. same_hash r x ≡ false) xs) left free,
                          subst (λ x. rows x ≡ r ∷ filter (λ x. not (p x)) (rows s)) same
                              (grown ∙ ap (λ xs. r ∷ xs) left),
                        )
                  ]
            ]
      ]

  -- No row left by the rotation has the hash of the token that it took.
  gone :
      (h : ℕ) (stored : RefreshToken) (xs : List RefreshToken)
      → IsKeyed hash_of xs
      → Member stored xs
      → stored.token_hash ≡ h
      → All (λ x. has_hash h x ≡ false) (filter (λ x. not (x.id == stored.id)) xs)
  gone h stored xs unique mem same =
      let p = λ (x : RefreshToken). x.id == stored.id in
      All-of_Member (λ x. has_hash h x ≡ false) (filter (λ x. not (p x)) xs)
        (λ x m. elim (Bool-cases (has_hash h x)) [
          | inr miss ↦ miss
          | inl hit ↦
              let back = filter-Member (λ y. not (p y)) xs x m in
              let one =
                IsKeyed-eq hash_of x stored xs unique back.0 mem ((==_iff _ _).0 hit ∙ sym same) in
              let kept : not (x.id == stored.id) ≡ true = back.1 in
              let eq : x.id ≡ stored.id = ap (λ y. y.id) one in absurd (ground arith)
        ])

  -- A refresh token is good for one rotation: once it has bought a new pair, it is refused, at any
  -- time. The hash of the new token must be another one, and the hashes in the table distinct.
  pub rotate_once :
      (raw new_raw now raw' later : ℕ) (s s' : Store) (pair : TokenPair)
      → IsUnique s
      → crypto.hash new_raw ≢ crypto.hash raw
      → rotate db crypto config email raw new_raw now s ≡ (ok pair, s')
      → rotate db crypto config email raw raw' later s' ≡ (err invalid_token, s')
  unfolding rotate
  rotate_once raw new_raw now raw' later s s' pair unique new e =
      let (stored, r, mem, hash, _, row, _, grown) = rotate-ok raw new_raw now s s' pair e in
      let h = crypto.hash raw in
      let rest = gone h stored (rows s) unique mem hash in
      let own : r.token_hash ≡ crypto.hash new_raw = ap (λ x. x.token_hash) row in
      let miss : has_hash h r ≡ false = ground arith in
      let none' = find_one-eq-none db (has_hash h) (λ _. 0) s' (rw grown (miss, rest)) in
      ground arith

  -- A rotation keeps the hashes distinct.
  pub rotate-IsUnique :
      (raw new_raw now : ℕ) (s s' : Store) (pair : TokenPair)
      → IsUnique s
      → rotate db crypto config email raw new_raw now s ≡ (ok pair, s')
      → IsUnique s'
  rotate-IsUnique raw new_raw now s s' pair unique e =
      let (stored, r, _, _, _, row, free, grown) = rotate-ok raw new_raw now s s' pair e in
      let xs = filter (λ x. not (x.id == stored.id)) (rows s) in
      rw grown (
        All-imp (λ x. same_hash r x ≡ false) (λ x. hash_of x ≢ hash_of r) xs (λ x d. ground arith)
            free,
        filter-IsKeyed hash_of (λ x. not (x.id == stored.id)) (rows s) unique,
      )

  -- The new token of a rotation buys the next pair, for the same user, as long as it has not expired
  -- and the token drawn next has a hash that is not in the table.
  pub rotate_chain :
      (raw new_raw now next_raw later : ℕ) (s s' : Store) (pair : TokenPair)
      → IsUnique s
      → rotate db crypto config email raw new_raw now s ≡ (ok pair, s')
      → later ≤ expiry_of config now
      → All (λ x. (crypto.hash next_raw == x.token_hash) ≡ false) (rows s')
      → (pair' : TokenPair) × (s'' : Store) × (rotate db crypto config email new_raw next_raw later
            s'
          ≡ (ok pair', s''))
        × (pair'.user_id ≡ pair.user_id)
  unfolding rotate create_refresh_token
  rotate_chain raw new_raw now next_raw later s s' pair unique e le fresh =
      let unique' = rotate-IsUnique raw new_raw now s s' pair unique e in
      let (stored, r, _, _, made, row, _, grown) = rotate-ok raw new_raw now s s' pair e in
      let h = crypto.hash new_raw in
      let here : Member r (rows s') = rw grown (inl refl) in
      let own : r.token_hash ≡ h = ap (λ x. x.token_hash) row in
      let hit : has_hash h r ≡ true = ground arith in
      let (x, found, mem, same) = find_one-eq-some db (has_hash h) (λ _. 0) s' r here hit in
      let one = IsKeyed-eq hash_of x r (rows s') unique' mem here ((==_iff _ _).0 same ∙ sym own) in
      let x_row : x ≡ token_row stored.user_id h (expiry_of config now) now (token_id r) =
        one ∙ row in
      let expires : x.expires_at ≡ expiry_of config now = ap (λ y. y.expires_at) x_row in
      let user : x.user_id ≡ stored.user_id = ap (λ y. y.user_id) x_row in
      let mk = token_row x.user_id (crypto.hash next_raw) (expiry_of config later) later in
      let p = λ (y : RefreshToken). y.id == x.id in
      let left : All (λ y. (crypto.hash next_raw == y.token_hash) ≡ false) (rows (delete p s')) =
        rw (db.rows-delete p s') (
          All-filter (λ y. (crypto.hash next_raw == y.token_hash) ≡ false) (λ y. not (p y))
            (rows s') fresh) in
      let (r', s'', inserted, _, _) = insert-eq-some db mk (delete p s') (λ n. refl) (λ n. left) in
      (
        issued db crypto config email x.user_id next_raw,
        s'',
        ground arith,
        user ∙ sym (ap (λ y. y.user_id) made),
      )
