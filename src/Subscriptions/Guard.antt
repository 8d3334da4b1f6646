-- ===== src/Subscriptions/Guard.antt =====
-- backend/src/subscriptions/gated-content.guard.ts, and isStellarAccountAddress of
-- backend/src/common/utils/stellar-address.ts. `text_of` gives the text of an address.
pub mod Visits
mod Tests
use my_fans.Common.{
  ℕ, Bool, true, false, not, ◌&&◌, ◌||◌, Option, none, some, List, [], ◌∷◌, length, leb, ◌==◌,
  if◌then◌else◌,
}
use my_fans.Common.Text.{Text}
use my_fans.Common.Actions.{Result, ok, err}
use my_fans.Database.{Table}
use my_fans.Subscriptions.{id_of, clash}
use my_fans.Subscriptions.Repository.{is_subscriber}
use my_fans.Subscriptions.ChainSync.{Reading, read, failed, thrown, ChainReader}
use my_fans.Subscriptions.Cache.{CacheEntry, get, set}

-- [A-Z2-7]
abbrev pub is_base32 : ℕ → Bool
is_base32 c = (leb b'A' c && leb c b'Z') || (leb b'2' c && leb c b'7')

abbrev pub all_base32 : Text → Bool
all_base32 [] = true
all_base32 (c ∷ s) = is_base32 c && all_base32 s

-- /^G[A-Z2-7]{55}$/
unfoldable pub is_stellar_account_address : Text → Bool
is_stellar_account_address [] = false
is_stellar_account_address (c ∷ s) = (c == b'G') && (length s == 55) && all_base32 s

-- The metadata of a route: none, a literal address, or a parameter with its value in the request.
pub data Gate : Type 0 where
  ungated : Gate
  literal : ℕ → Gate
  param : Option ℕ → Gate

-- `req.user.sub`, and the `sub` that jwtService.verify finds in the bearer token, if there is a
-- token and it does not throw.
pub record Request : Type 0 where
  pub user_sub : Option ℕ
  pub bearer_sub : Option ℕ

pub data GuardError : Type 0 where
  unauthorized invalid_creator forbidden : GuardError

module _ (text_of : ℕ → Text) where
  -- The address, if it is one.
  abbrev pub account : Option ℕ → Option ℕ
  account none = none
  account (some a) = if is_stellar_account_address (text_of a) then some a else none

  unfoldable pub extract_fan : Request → Option ℕ
  extract_fan req = elim (account req.user_sub) [
    | some fan ↦ some fan
    | none ↦ account req.bearer_sub
  ]

  abbrev pub creator_param : Gate → Option ℕ
  creator_param ungated = none
  creator_param (literal a) = some a
  creator_param (param o) = o

  -- Steps 1 and 2: who asks for whose content.
  unfoldable pub resolve : Gate → Request → Result GuardError (ℕ × ℕ)
  unfolding extract_fan
  resolve gate req = elim (extract_fan req) [
    | none ↦ err unauthorized
    | some fan ↦ elim (account (creator_param gate)) [
      | none ↦ err invalid_creator
      | some creator ↦ ok (fan, creator)
    ]
  ]

-- The chain is asked when a contract is configured, and says yes.
abbrev pub chain_confirms : Option ChainReader → ℕ → ℕ → Bool
chain_confirms none fan creator = false
chain_confirms (some chain) fan creator = elim (chain.read_is_subscriber fan creator) [
  | read b ↦ b
  | failed e ↦ false
  | thrown e ↦ false
]

module _ (db : Table id_of clash) where
  open db use {Store}

  -- Steps 3 to 5: the cache, the index, the chain.
  unfoldable pub admit :
      Option ChainReader → (fan creator now : ℕ) → Store → List CacheEntry → Bool × List CacheEntry
  unfolding get set
  admit chain fan creator now s es =
      let (hit, es') = get fan creator now es in
      if hit
      then (true, es')
      else if is_subscriber db fan creator now s || chain_confirms chain fan creator
      then (true, set fan creator now es')
      else (false, es')

  abbrev pub answered : Bool × List CacheEntry → Result GuardError (Unit {0}) × List CacheEntry
  answered (true, es) = (ok tt, es)
  answered (false, es) = (err forbidden, es)

  unfoldable pub can_activate :
      (text_of : ℕ → Text)
      → Option ChainReader
      → Gate
      → Request
      → (now : ℕ) → Store
      → List CacheEntry
      → Result GuardError (Unit {0}) × List CacheEntry
  unfolding resolve admit
  can_activate text_of chain ungated req now s es = (ok tt, es)
  can_activate text_of chain gate req now s es = elim (resolve text_of gate req) [
    | err e ↦ (err e, es)
    | ok (fan, creator) ↦ answered (admit chain fan creator now s es)
  ]
