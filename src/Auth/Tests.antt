-- ===== src/Auth/Tests.antt =====
-- Challenges on a list of rows.
use my_fans.Common.{ℕ, ◌+◌, ◌≡◌, refl, Bool, true, List, [], ◌∷◌}
use my_fans.Common.Actions.{ok, err}
use my_fans.Database.{Table}
use my_fans.Database.ListTable.{list_table}
use my_fans.Auth.Challenge.{
  WalletChallenge, challenge_id, same_nonce, challenge_used, new_challenge, spend, find_challenge,
  check_challenge, issue_token, verify_and_issue_token,
}
use my_fans.Auth.Challenge.Replay.{verify_once, verify_race}

abbrev db : Table challenge_id same_nonce
db = list_table challenge_id same_nonce

abbrev verifies : ℕ → ℕ → ℕ → Bool
verifies address nonce signature = true

abbrev sign : ℕ → ℕ
sign address = address + 500

abbrev challenge : WalletChallenge
challenge = new_challenge 3 77 1000 0

verified :
    verify_and_issue_token db verifies sign 3 77 9 2000 (challenge ∷ [])
    ≡ (ok 503, spend challenge ∷ [])
unfolding verify_and_issue_token check_challenge find_challenge issue_token
verified = refl

verify_once_example :
    verify_and_issue_token db verifies sign 3 77 8 3000 (spend challenge ∷ [])
    ≡ (err challenge_used, spend challenge ∷ [])
verify_once_example =
    verify_once db verifies sign 3 77 9 2000 8 3000 (challenge ∷ []) (spend challenge ∷ []) 503
      ((tt, tt), (tt, tt)) verified

checks : check_challenge db verifies 3 77 9 2000 (challenge ∷ []) ≡ ok challenge
unfolding check_challenge find_challenge
checks = refl

verify_race_example :
    (s1 : List WalletChallenge) × (s2 : List WalletChallenge) × (issue_token db sign challenge
        (challenge ∷ [])
      ≡ (ok 503, s1))
    × (issue_token db sign challenge s1 ≡ (ok 503, s2))
verify_race_example =
    verify_race db verifies sign 3 77 9 2000 9 2000 (challenge ∷ []) challenge challenge
      ((tt, tt), (tt, tt)) checks checks
