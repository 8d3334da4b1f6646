-- ===== src/Subscriptions/Guard/Tests.antt =====
-- The guard on a list of rows.
use my_fans.Common.{ℕ, zero, suc, ◌+◌, ◌≤◌, ◌≡◌, ◌≢◌, refl, none, some, List, [], ◌∷◌, arith, ◌⊎◌}
use my_fans.Common.Text.{Text}
use my_fans.Common.Actions.{ok}
use my_fans.Subscriptions.{SubscriptionIndexEntity}
use my_fans.Subscriptions.Repository.{is_subscriber, find_current_for_fan_creator}
use my_fans.Subscriptions.Service.{State}
use my_fans.Subscriptions.Tests.{db, one_fan}
use my_fans.Subscriptions.System.{perform, cancel}
use my_fans.Subscriptions.Cache.{CacheEntry, get, set}
use my_fans.Subscriptions.Guard.{
  ungated, literal, Request, extract_fan, resolve, is_stellar_account_address, admit, can_activate,
}
use my_fans.Subscriptions.Guard.Visits.{
  Runs, start, write, visit, Confirms, Confirmed, can_activate_fresh,
}

abbrev letters : ℕ → Text
letters zero = []
letters (suc n) = b'A' ∷ letters n

-- The texts of addresses: only 3 and 7 are well formed.
abbrev text_of : ℕ → Text
text_of (suc (suc (suc zero))) = b'G' ∷ letters 55
text_of (suc (suc (suc (suc (suc (suc (suc zero))))))) = b'G' ∷ b'B' ∷ letters 54
text_of _ = []

abbrev request : Request
request = record { user_sub = none; bearer_sub = some 3 }

abbrev cached : List CacheEntry
cached = record { fan = 3; creator = 7; expires_at = 1560000 } ∷ []

-- The entry was made at a visit while the subscription ran; then it is cancelled.
abbrev visited : Runs db 1500000 one_fan cached
visited = visit none 3 7 1500000 cached (start 1400000 one_fan) (omega arith) remembered
  where
    remembered : cached ≡ (admit db none 3 7 1500000 one_fan.store []).1
    remembered = unfold admit get set is_subscriber find_current_for_fan_creator in refl

abbrev after_cancel : State (List SubscriptionIndexEntity)
after_cancel = perform db (cancel 3 7) 1520000 one_fan

passes :
    (can_activate db text_of none (literal 7) request 1550000 after_cancel.store cached).0 ≡ ok tt
unfolding can_activate resolve extract_fan is_stellar_account_address admit get set
passes = refl

literal-ne-ungated : literal 7 ≢ ungated
literal-ne-ungated e = cc

can_activate_fresh_example :
    (fan : ℕ) × (creator : ℕ) × (resolve text_of (literal 7) request ≡ ok (fan, creator))
    × (Confirms db none fan creator 1550000 after_cancel.store
        ⊎ ((t : ℕ) × Confirmed db fan creator t (write (cancel 3 7) 1520000 visited (omega arith))
            × (1550000 ≤ t + 60000)))
can_activate_fresh_example =
    can_activate_fresh db text_of none (literal 7) request 1520000 1550000 after_cancel cached
      (write (cancel 3 7) 1520000 visited (omega arith)) literal-ne-ungated passes
