-- ===== src/Content.antt =====
-- backend/src/content/content.service.ts and content-access.service.ts: who owns content, and what of
-- it a requester sees. Titles, descriptions and IPFS pointers are numbers; the tier is a text, since
-- the code asks whether it is empty.
pub mod Gating
mod Tests
use my_fans.Common.{
  ℕ, Bool, true, false, not, ◌&&◌, ◌||◌, Option, none, some, List, get_or, ◌==◌, if◌then◌else◌,
}
use my_fans.Common.Text.{Text, is_empty}
use my_fans.Common.Actions.{Result, ok, err}
use my_fans.Database.{Table}
use my_fans.Subscriptions.{id_of, clash}
use my_fans.Subscriptions.Repository.{is_subscriber}

pub data ContentType : Type 0 where
  image video audio document : ContentType

pub record ContentMetadata : Type 0 where
  pub id : ℕ
  pub creator_id : ℕ
  pub title : ℕ
  pub description : Option ℕ
  pub ipfs_cid : ℕ
  pub ipfs_url : Option ℕ
  pub content_type : ContentType
  pub subscription_tier : Option Text
  pub is_published : Bool

abbrev pub content_key : ContentMetadata → ℕ
content_key c = c.id

abbrev pub no_clash : ContentMetadata → ContentMetadata → Bool
no_clash _ _ = false

pub record CreateContentDto : Type 0 where
  pub title : ℕ
  pub description : Option ℕ
  pub ipfs_cid : Option ℕ
  pub ipfs_url : Option ℕ
  pub content_type : Option ContentType
  pub subscription_tier : Option Text
  pub is_published : Option Bool

pub record UpdateContentDto : Type 0 where
  pub title : Option ℕ
  pub description : Option ℕ
  pub ipfs_cid : Option ℕ
  pub ipfs_url : Option ℕ
  pub content_type : Option ContentType
  pub subscription_tier : Option Text
  pub is_published : Option Bool

pub data ContentError : Type 0 where
  content_not_found not_owner save_failed : ContentError

pub record GatedContentView : Type 0 where
  pub id : ℕ
  pub creator_id : ℕ
  pub title : ℕ
  pub description : Option ℕ
  pub ipfs_cid : Option ℕ
  pub ipfs_url : Option ℕ
  pub content_type : ContentType
  pub subscription_tier : Option Text
  pub is_published : Bool
  pub locked : Bool

-- { ...content, locked: false }
abbrev pub unlocked : ContentMetadata → GatedContentView
unlocked c = record {
  id = c.id;
  creator_id = c.creator_id;
  title = c.title;
  description = c.description;
  ipfs_cid = some c.ipfs_cid;
  ipfs_url = c.ipfs_url;
  content_type = c.content_type;
  subscription_tier = c.subscription_tier;
  is_published = c.is_published;
  locked = false;
}

abbrev pub build_teaser : ContentMetadata → GatedContentView
build_teaser c = record {
  id = c.id;
  creator_id = c.creator_id;
  title = c.title;
  description = none;
  ipfs_cid = none;
  ipfs_url = none;
  content_type = c.content_type;
  subscription_tier = c.subscription_tier;
  is_published = c.is_published;
  locked = true;
}

-- `!content.subscription_tier`
abbrev pub is_public : ContentMetadata → Bool
is_public c = elim c.subscription_tier [ none ↦ true | some t ↦ is_empty t ]

abbrev pub is_owner : Option ℕ → ContentMetadata → Bool
is_owner none c = false
is_owner (some requester) c = requester == c.creator_id

abbrev pub or_else {ℓ} : {A : Type ℓ} → Option A → Option A → Option A
or_else none b = b
or_else (some a) b = some a

-- What IPFS answers when the upload of the metadata goes through: an identifier and its URL. An
-- `ipfs_cid` that is missing or the empty text is `none`.
abbrev pub pinned : CreateContentDto → Option (ℕ × ℕ) → ℕ × Option ℕ
pinned dto upload = elim dto.ipfs_cid [
  | some cid ↦ (cid, dto.ipfs_url)
  | none ↦ elim upload [ none ↦ (0, dto.ipfs_url) | some (cid, url) ↦ (cid, some url) ]
]

-- A new row, with the columns' defaults. The empty identifier is 0.
abbrev pub new_content :
    (creator_id : ℕ) → CreateContentDto → Option (ℕ × ℕ) → (id : ℕ) → ContentMetadata
new_content creator_id dto upload id = record {
  id = id;
  creator_id = creator_id;
  title = dto.title;
  description = dto.description;
  ipfs_cid = (pinned dto upload).0;
  ipfs_url = (pinned dto upload).1;
  content_type = get_or dto.content_type image;
  subscription_tier = dto.subscription_tier;
  is_published = get_or dto.is_published false;
}

-- Object.assign(content, dto)
abbrev pub assign : UpdateContentDto → ContentMetadata → ContentMetadata
assign dto c = record c {
  title = get_or dto.title c.title;
  description = or_else dto.description c.description;
  ipfs_cid = get_or dto.ipfs_cid c.ipfs_cid;
  ipfs_url = or_else dto.ipfs_url c.ipfs_url;
  content_type = get_or dto.content_type c.content_type;
  subscription_tier = or_else dto.subscription_tier c.subscription_tier;
  is_published = get_or dto.is_published c.is_published;
}

module _ (contents : Table content_key no_clash) where
  unfoldable pub find_content : ℕ → contents.Store → Option ContentMetadata
  find_content id s = contents.find_one (λ c. c.id == id) (λ _. 0) s

  unfoldable pub create_content :
      (creator_id : ℕ)
      → CreateContentDto
      → Option (ℕ × ℕ)
      → contents.Store
      → Result ContentError ContentMetadata × contents.Store
  create_content creator_id dto upload s =
      elim (contents.insert (new_content creator_id dto upload) s) [
        | none ↦ (err save_failed, s)
        | some (c, s') ↦ (ok c, s')
      ]

  unfoldable pub update_content :
      (id requester : ℕ)
      → UpdateContentDto
      → contents.Store
      → Result ContentError ContentMetadata × contents.Store
  unfolding find_content
  update_content id requester dto s = elim (find_content id s) [
    | none ↦ (err content_not_found, s)
    | some c ↦
        if not (c.creator_id == requester)
        then (err not_owner, s)
        else elim (contents.save (assign dto c) s) [
          | none ↦ (err save_failed, s)
          | some s' ↦ (ok (assign dto c), s')
        ]
  ]

  unfoldable pub remove_content :
      (id requester : ℕ) → contents.Store → Result ContentError (Unit {0}) × contents.Store
  unfolding find_content
  remove_content id requester s = elim (find_content id s) [
    | none ↦ (err content_not_found, s)
    | some c ↦
        if not (c.creator_id == requester)
        then (err not_owner, s)
        else (ok tt, contents.delete (λ x. x.id == c.id) s)
  ]

  module _ (subs : Table id_of clash) where
    abbrev pub subscribes : Option ℕ → (creator now : ℕ) → subs.Store → Bool
    subscribes none creator now subscriptions = false
    subscribes (some requester) creator now subscriptions =
        is_subscriber subs requester creator now subscriptions

    abbrev pub view : Option ℕ → (now : ℕ) → subs.Store → ContentMetadata → GatedContentView
    view requester now subscriptions c =
        if is_public c
        then unlocked c
        else if is_owner requester c
        then unlocked c
        else if subscribes requester c.creator_id now subscriptions
        then unlocked c
        else build_teaser c

    unfoldable pub get_for_requester :
        (id : ℕ)
        → Option ℕ
        → (now : ℕ) → subs.Store
        → contents.Store
        → Result ContentError GatedContentView
    unfolding find_content
    get_for_requester id requester now subscriptions s = elim (find_content id s) [
      | none ↦ err content_not_found
      | some c ↦ ok (view requester now subscriptions c)
    ]
