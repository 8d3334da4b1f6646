-- ===== src/Content/Tests.antt =====
-- Content with a tier, and a fan who cancels.
use my_fans.Common.{◌≡◌, refl, true, some, List, [], ◌∷◌}
use my_fans.Common.Actions.{ok}
use my_fans.Database.{Table}
use my_fans.Database.ListTable.{list_table}
use my_fans.Subscriptions.{SubscriptionStatus, SubscriptionIndexEntity, id_of, clash}
use my_fans.Subscriptions.Repository.{manual_row, is_subscriber, find_current_for_fan_creator}
use my_fans.Subscriptions.Service.{State}
use my_fans.Content.{
  ContentMetadata, image, content_key, no_clash, unlocked, find_content, get_for_requester,
  remove_content,
}

abbrev contents : Table content_key no_clash
contents = list_table content_key no_clash

abbrev subs : Table id_of clash
subs = list_table id_of clash

abbrev album : ContentMetadata
album = record {
  id = 2;
  creator_id = 7;
  title = 1;
  description = some 4;
  ipfs_cid = 8;
  ipfs_url = some 9;
  content_type = image;
  subscription_tier = some (b'g' ∷ []);
  is_published = true;
}

abbrev fan_row : SubscriptionIndexEntity
fan_row =
    manual_row
      (record {
        fan = 3;
        creator = 7;
        plan_id = 1;
        expiry_unix = 2593000;
        status = SubscriptionStatus.active;
      })
      1000000 0

abbrev index : State (List SubscriptionIndexEntity)
index = record { store = fan_row ∷ []; plans = []; checkouts = []; published = []; emitted = [] }

seen :
    get_for_requester contents subs 2 (some 3) 1400000 (fan_row ∷ []) (album ∷ [])
    ≡ ok (unlocked album)
unfolding get_for_requester find_content is_subscriber find_current_for_fan_creator
seen = refl

removed : remove_content contents 2 7 (album ∷ []) ≡ (ok tt, [])
unfolding remove_content find_content
removed = refl
