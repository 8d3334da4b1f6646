-- ===== src/Referral/Limits.antt =====
-- How often a code is redeemed, and by whom.
use mathlib.Core.Path.{subst}
use my_fans.Common.{
  ℕ, ◌+◌, ◌≤◌, ◌≡◌, ◌≢◌, refl, ap, true, false, none, some, arith, All, All-Member, Member, inl,
  inr, Option-cases, Bool-cases, ◌==◌, if◌then◌else◌, count,
}
use my_fans.Common.Actions.{ok}
use my_fans.Database.{Table, IsKeyed}
use my_fans.Database.Laws.{save-All, IsKeyed-eq}
use my_fans.Database.Saves.{Member-put_cases, All-put_others}
use my_fans.Referral.{
  ReferralCode, ReferralRedemption, code_id, same_code, redemption_id, same_redemption, is_used_up,
  used, redemption_row, find_code, find_redemption, redeem_code,
}

-- A code was not used more often than it allows.
abbrev pub IsWithin : ReferralCode → Type 0
IsWithin r = elim r.max_uses [ none ↦ Unit | some n ↦ r.use_count ≤ n ]

used-IsWithin : (r : ReferralCode) → is_used_up r ≡ false → IsWithin (used r)
used-IsWithin r room = elim (Option-cases r.max_uses) [
  | inl any' ↦ rw any' tt
  | inr (n, limit) ↦ let room' = rw limit at room in rw limit (ground arith)
]

module _ (codes : Table code_id same_code) (redemptions : Table redemption_id same_redemption) where
  -- What a redemption that goes through has checked and written.
  redeem_code-ok :
      (redeemer_id code : ℕ) (s s' : codes.Store) (t t' : redemptions.Store)
      (x : ReferralRedemption)
      → redeem_code codes redemptions redeemer_id code (s, t) ≡ (ok x, (s', t'))
      → (r : ReferralCode) × (find_code codes redemptions code s ≡ some r)
        × (r.is_active ≡ true)
        × (r.owner_id ≢ redeemer_id)
        × (is_used_up r ≡ false)
        × (codes.save (used r) s ≡ some s')
        × (redemptions.insert (redemption_row r.id redeemer_id) t ≡ some (x, t'))
  unfolding redeem_code
  redeem_code-ok redeemer_id code s s' t t' x e =
      elim (Option-cases (find_code codes redemptions code s)) [
        | inl unknown ↦ absurd (ground arith)
        | inr (r, found) ↦ elim (Bool-cases r.is_active) [
          | inr off ↦ absurd (ground arith)
          | inl on ↦ elim (Bool-cases (r.owner_id == redeemer_id)) [
            | inl own ↦ absurd (ground arith)
            | inr other ↦ elim (Bool-cases (is_used_up r)) [
              | inl full ↦ absurd (ground arith)
              | inr room ↦
                  elim (Option-cases (find_redemption codes redemptions r.id redeemer_id t)) [
                    | inr (_, had) ↦ absurd (ground arith)
                    | inl first ↦ elim (Option-cases (codes.save (used r) s)) [
                      | inl refused ↦ absurd (ground arith)
                      | inr (s'', written) ↦
                          elim (Option-cases
                            (redemptions.insert (redemption_row r.id redeemer_id) t)) [
                              | inl refused ↦ absurd (ground arith)
                              | inr ((x', t''), made) ↦
                                  (r, found, on, (ground arith), room, ground arith, ground arith)
                            ]
                    ]
                  ]
            ]
          ]
        ]
      ]

  -- No code is used more often than it allows, after a redemption as before.
  pub redeem_code-IsWithin :
      (redeemer_id code : ℕ) (s s' : codes.Store) (t t' : redemptions.Store)
      (x : ReferralRedemption)
      → redeem_code codes redemptions redeemer_id code (s, t) ≡ (ok x, (s', t'))
      → All IsWithin (codes.rows s)
      → All IsWithin (codes.rows s')
  redeem_code-IsWithin redeemer_id code s s' t t' x e within =
      let (r, _, _, _, room, written, _) = redeem_code-ok redeemer_id code s s' t t' x e in
      save-All codes IsWithin (used r) s s' written (used-IsWithin r room) within

  -- How many redemptions a code has.
  abbrev redeemed : redemptions.Store → ℕ → ℕ
  redeemed t id = count (λ x. x.referral_code_id == id) (redemptions.rows t)

  abbrev pub IsBalanced : redemptions.Store → ReferralCode → Type 0
  IsBalanced t r = r.use_count ≡ redeemed t r.id

  -- The use count of every code is the number of its redemptions, after a redemption as before.
  pub redeem_code-IsBalanced :
      (redeemer_id code : ℕ) (s s' : codes.Store) (t t' : redemptions.Store)
      (x : ReferralRedemption)
      → redeem_code codes redemptions redeemer_id code (s, t) ≡ (ok x, (s', t'))
      → IsKeyed code_id (codes.rows s)
      → All (IsBalanced t) (codes.rows s)
      → All (IsBalanced t') (codes.rows s')
  unfolding find_code
  redeem_code-IsBalanced redeemer_id code s s' t t' x e keyed balanced =
      let (r, found, _, _, _, written, made) = redeem_code-ok redeemer_id code s s' t t' x e in
      let (mem, _, _) = codes.find_one-some (λ y. y.code == code) (λ _. 0) s r found in
      let own = All-Member (IsBalanced t) r (codes.rows s) balanced mem in
      let (row, _, _, grown) =
        redemptions.insert-some (redemption_row r.id redeemer_id) t x t' (λ n. refl) made in
      let of_code : x.referral_code_id ≡ r.id = ap (λ y. y.referral_code_id) row in
      let counts : (id : ℕ)
          → redeemed t' id ≡ (if x.referral_code_id == id then 1 else 0) + redeemed t id =
        λ id. ap (count (λ y. y.referral_code_id == id)) grown in
      rw ((codes.save-some (used r) s s' written).0) (
        All-put_others code_id (IsBalanced t) (IsBalanced t') (used r) (codes.rows s) keyed
          (λ y ne h. let c = counts y.id in ground arith) (let c = counts r.id in ground arith)
          balanced)

  -- Nobody redeems a code twice: after a redemption, another by the same user is never answered
  -- with success. The codes in the table must be distinct.
  pub redeem_code_once :
      (redeemer_id code : ℕ) (s s' s'' : codes.Store) (t t' t'' : redemptions.Store)
      (x x' : ReferralRedemption)
      → IsKeyed (λ r. r.code) (codes.rows s)
      → redeem_code codes redemptions redeemer_id code (s, t) ≡ (ok x, (s', t'))
      → redeem_code codes redemptions redeemer_id code (s', t') ≢ (ok x', (s'', t''))
  unfolding find_code
  redeem_code_once redeemer_id code s s' s'' t t' t'' x x' keyed e again =
      let (r, found, _, _, _, written, made) = redeem_code-ok redeemer_id code s s' t t' x e in
      let (r', found', _, _, _, _, made') =
        redeem_code-ok redeemer_id code s' s'' t' t'' x' again in
      let p = λ (y : ReferralCode). y.code == code in
      let (mem, hit, _) = codes.find_one-some p (λ _. 0) s r found in
      let (mem', hit', _) = codes.find_one-some p (λ _. 0) s' r' found' in
      let stays = subst (Member r') (codes.save-some (used r) s s' written).0 mem' in
      let same : r'.id ≡ r.id = elim (Member-put_cases code_id (used r) r' (codes.rows s) stays) [
        | inl eq ↦ ap (λ y. y.id) eq
        | inr old ↦
            ap (λ y. y.id)
              (IsKeyed-eq (λ y. y.code) r' r (codes.rows s) keyed old mem (ground arith))
      ] in
      let (row, _, _, grown) =
        redemptions.insert-some (redemption_row r.id redeemer_id) t x t' (λ n. refl) made in
      let (row', _, free, _) =
        redemptions.insert-some (redemption_row r'.id redeemer_id) t' x' t'' (λ n. refl) made' in
      let here : Member x (redemptions.rows t') = rw grown (inl refl) in
      let apart =
        All-Member (λ y. same_redemption x' y ≡ false) x (redemptions.rows t') free here in
      let a : x.referral_code_id ≡ r.id = ap (λ y. y.referral_code_id) row in
      let b : x.redeemer_id ≡ redeemer_id = ap (λ y. y.redeemer_id) row in
      let c : x'.referral_code_id ≡ r'.id = ap (λ y. y.referral_code_id) row' in
      let d : x'.redeemer_id ≡ redeemer_id = ap (λ y. y.redeemer_id) row' in absurd (ground arith)
