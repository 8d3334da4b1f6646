-- ===== src/Auth/Challenge/Replay.antt =====
-- How often a challenge can be answered.
use mathlib.Core.Path.{subst}
use my_fans.Common.{
  ℕ, ◌≤◌, ◌≡◌, ◌≢◌, refl, sym, ap, Bool, true, false, some, List, [], ◌∷◌, arith, All, Member,
  All-of_Member, inl, inr, ◌⊎◌, Option-cases, Bool-cases, ◌==◌,
}
use my_fans.Common.Actions.{ok, err, Result-cases}
use my_fans.Database.{Table, IsKeyed, conflicts}
use my_fans.Database.Laws.{IsKeyed-eq, Member-put, find_one-eq-some}
use my_fans.Database.Saves.{Member-put_keyed}
use my_fans.Auth.Challenge.{
  WalletChallenge, challenge_id, same_nonce, challenge_used, asked, spend, find_challenge,
  check_challenge, issue_token, verify_and_issue_token,
}

abbrev pub nonce_of : WalletChallenge → ℕ
nonce_of r = r.nonce

module _ (db : Table challenge_id same_nonce) where
  open db use {Store, rows, find_one, save}

  -- Keys and nonces are distinct.
  abbrev pub IsSound : Store → Type 0
  IsSound s = IsKeyed challenge_id (rows s) × IsKeyed nonce_of (rows s)

  check_challenge-ok :
      (verifies : ℕ → ℕ → ℕ → Bool) (address nonce signature now : ℕ) (s : Store)
      (c : WalletChallenge)
      → check_challenge db verifies address nonce signature now s ≡ ok c
      → Member c (rows s)
        × (asked address nonce c ≡ true)
        × (c.used ≡ false)
        × (verifies address nonce signature ≡ true)
        × (now ≤ c.expires_at)
  unfolding check_challenge find_challenge
  check_challenge-ok verifies address nonce signature now s c e =
      elim (Option-cases (find_one (asked address nonce) (λ _. 0) s)) [
        | inl nobody ↦ absurd (ground arith)
        | inr (x, found) ↦
            let (mem, hit, _) = db.find_one-some (asked address nonce) (λ _. 0) s x found in
            let same : x ≡ c = ground arith in
            let mem' = subst (λ y. Member y (rows s)) same mem in
            let hit' = subst (λ y. asked address nonce y ≡ true) same hit in
            (mem', hit', ground arith, ground arith, ground arith)
      ]

  issue_token-ok :
      (sign : ℕ → ℕ) (c : WalletChallenge) (s s' : Store) (token : ℕ)
      → issue_token db sign c s ≡ (ok token, s')
      → save (spend c) s ≡ some s'
  unfolding issue_token
  issue_token-ok sign c s s' token e = elim (Option-cases (save (spend c) s)) [
    | inl refused ↦ absurd (ground arith)
    | inr (x, written) ↦ ground arith
  ]

  -- Once the challenge is spent, it is found as used.
  spent :
      (verifies : ℕ → ℕ → ℕ → Bool) (address nonce signature now : ℕ) (s s' : Store)
      (c : WalletChallenge)
      → IsSound s
      → Member c (rows s)
      → asked address nonce c ≡ true
      → save (spend c) s ≡ some s'
      → check_challenge db verifies address nonce signature now s' ≡ err challenge_used
  unfolding check_challenge find_challenge
  spent verifies address nonce signature now s s' c (keyed, unique) mem hit written =
      let grown = (db.save-some (spend c) s s' written).0 in
      let here : Member (spend c) (rows s') =
        subst (Member (spend c)) (sym grown) (Member-put challenge_id (spend c) (rows s)) in
      let (x, found, mem', hit') =
        find_one-eq-some db (asked address nonce) (λ _. 0) s' (spend c) here hit in
      elim (Member-put_keyed challenge_id (spend c) x (rows s) keyed
        (subst (Member x) grown mem')) [
          | inl own ↦ let used : x.used ≡ true = ap (λ y. y.used) own in ground arith
          | inr (old, ne) ↦
              let same = IsKeyed-eq nonce_of x c (rows s) unique old mem (ground arith) in
              let id : x.id ≡ c.id = ap (λ y. y.id) same in absurd (ne id)
        ]

  -- A challenge buys one token: when a call has succeeded, another call with its nonce is refused as
  -- used, whatever the signature and the time, and changes nothing. The table's keys and nonces are
  -- distinct, and the calls do not overlap.
  pub verify_once :
      (verifies : ℕ → ℕ → ℕ → Bool) (sign : ℕ → ℕ) (address nonce signature now : ℕ)
      (signature' later : ℕ) (s s' : Store) (token : ℕ)
      → IsSound s
      → verify_and_issue_token db verifies sign address nonce signature now s ≡ (ok token, s')
      → verify_and_issue_token db verifies sign address nonce signature' later s'
        ≡ (err challenge_used, s')
  unfolding verify_and_issue_token
  verify_once verifies sign address nonce signature now signature' later s s' token sound e =
      elim (Result-cases (check_challenge db verifies address nonce signature now s)) [
        | inr (x, refused) ↦ absurd (ground arith)
        | inl (c, passed) ↦
            let (mem, hit, _, _, _) =
              check_challenge-ok verifies address nonce signature now s c passed in
            let written = issue_token-ok sign c s s' token (ground arith) in
            let used = spent verifies address nonce signature' later s s' c sound mem hit written in
            rw used
      ]

  -- The rows with another key do not clash with the challenge.
  conflicts_other :
      (c : WalletChallenge) (xs : List WalletChallenge)
      → All (λ x. (x.id ≡ c.id) ⊎ (x.nonce ≢ c.nonce)) xs
      → conflicts challenge_id same_nonce (spend c) xs ≡ false
  conflicts_other c [] h = refl
  conflicts_other c (x ∷ xs) h = ground (arith, conflicts_other c xs h.1)

  saves :
      (c : WalletChallenge) (s : Store)
      → All (λ x. (x.id ≡ c.id) ⊎ (x.nonce ≢ c.nonce)) (rows s)
      → (s' : Store) × (save (spend c) s ≡ some s')
  saves c s h = elim (Option-cases (save (spend c) s)) [
    | inr (s', e) ↦ (s', e)
    | inl e ↦ let no' = conflicts_other c (rows s) h in let yes' = db.save-none (spend c) s e in cc
  ]

  others :
      (c x : WalletChallenge) (s : Store)
      → IsSound s
      → Member c (rows s)
      → Member x (rows s)
      → (x.id ≡ c.id) ⊎ (x.nonce ≢ c.nonce)
  others c x s (_, unique) mem there = elim (Bool-cases (x.nonce == c.nonce)) [
    | inl same ↦
        inl (ap (λ y. y.id) (IsKeyed-eq nonce_of x c (rows s) unique there mem (ground arith)))
    | inr apart ↦ inr (ground arith)
  ]

  issue_token_saved :
      (sign : ℕ → ℕ) (c : WalletChallenge) (s s' : Store)
      → save (spend c) s ≡ some s'
      → issue_token db sign c s ≡ (ok (sign c.stellar_address), s')
  unfolding issue_token
  issue_token_saved sign c s s' written = ground arith

  -- Two calls that overlap: both check the challenge before either marks it. Both succeed, and one
  -- nonce has bought two tokens.
  pub verify_race :
      (verifies : ℕ → ℕ → ℕ → Bool) (sign : ℕ → ℕ) (address nonce signature now : ℕ)
      (signature' now' : ℕ) (s : Store) (c c' : WalletChallenge)
      → IsSound s
      → check_challenge db verifies address nonce signature now s ≡ ok c
      → check_challenge db verifies address nonce signature' now' s ≡ ok c'
      → (s1 : Store) × (s2 : Store) × (issue_token db sign c s ≡ (ok (sign c.stellar_address), s1))
        × (issue_token db sign c' s1 ≡ (ok (sign c.stellar_address), s2))
  verify_race verifies sign address nonce signature now signature' now' s c c' sound e e' =
      let (mem, hit, _, _, _) = check_challenge-ok verifies address nonce signature now s c e in
      let (mem', hit', _, _, _) =
        check_challenge-ok verifies address nonce signature' now' s c' e' in
      let one : c' ≡ c = IsKeyed-eq nonce_of c' c (rows s) sound.1 mem' mem (ground arith) in
      let (s1, written) =
        saves c s (All-of_Member _ (rows s) (λ x there. others c x s sound mem there)) in
      let grown = (db.save-some (spend c) s s1 written).0 in
      let (s2, again) = saves c s1 (
        All-of_Member (λ x. (x.id ≡ c.id) ⊎ (x.nonce ≢ c.nonce)) (rows s1)
          (λ x there.
            elim (Member-put_keyed challenge_id (spend c) x (rows s) sound.0
              (subst (Member x) grown there)) [
                | inl own ↦ inl (ap (λ y. y.id) own)
                | inr (old, _) ↦ others c x s sound mem old
              ])) in
      (
        s1,
        s2,
        issue_token_saved sign c s s1 written,
        subst (λ x. issue_token db sign x s1 ≡ (ok (sign c.stellar_address), s2)) (sym one)
            (issue_token_saved sign c s1 s2 again),
      )
