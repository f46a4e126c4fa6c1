-- ===== src/Simulator/Requests.antt =====
-- internal/simulator/request_gen.go.
use bidflock.Prelude.{
  ℕ, Bool, ◌||◌, Option, none, some, List, [], ◌∷◌, map, String, length, str_eq, if◌then◌else◌,
}
use bidflock.Prelude.Int.{pos}
use bidflock.Prelude.Float.{Float64}
use bidflock.Prelude.Text.{concat, show_ℕ}
use bidflock.Prelude.Partial.{Partial, ◌>>=◌, pure, call, index, draw}
use bidflock.Models.OpenRtb.{BidRequest, Imp, Banner, Video, Native, App, Site, User, Device, Geo}
use bidflock.Auction.{second_price}
use bidflock.Simulator.Random.{Sources}
use bidflock.Simulator.Users.{generate_user, device_info, pick_ssp, pick_weighted_index}

pub record Slot (F : Type 0) : Type 0 where
  pub slot_type : String
  pub width : ℕ
  pub height : ℕ
  pub floor_cpm : F
  pub weight : F

abbrev pub app_bundles : List String
app_bundles =
    "com.example.hypercasual" ∷ "com.example.socialmedia" ∷ "com.example.newsreader"
    ∷ "com.example.weatherapp" ∷ "com.example.musicplayer" ∷ "com.example.fooddelivery"
    ∷ "com.example.rideshare" ∷ "com.example.fintech" ∷ []

abbrev pub site_domains : List String
site_domains =
    "news.example.com" ∷ "sports.example.com" ∷ "tech.example.com" ∷ "lifestyle.example.com"
    ∷ "entertainment.example.com" ∷ []

abbrev pub is_phone : String → Bool
is_phone os = str_eq os "iOS" || str_eq os "Android"

abbrev slot_native : Native
slot_native = record { request = "{\"ver\":\"1.2\"}"; ver = "1.2"; api = [] }

module _ {F : Type 0} ⦃f : Float64 F⦄ where
  open f use {lit}

  abbrev slot : String → ℕ → ℕ → F → F → Slot F
  slot kind w h floor weight = record {
    slot_type = kind;
    width = w;
    height = h;
    floor_cpm = floor;
    weight = weight;
  }

  abbrev pub ad_slots : List (Slot F)
  ad_slots =
      slot "banner" 320 50 (lit 30 2) (lit 35 2)
      ∷ slot "banner" 300 250 (lit 50 2) (lit 25 2)
      ∷ slot "banner" 728 90 (lit 40 2) (lit 10 2)
      ∷ slot "video" 640 480 (lit 150 2) (lit 20 2)
      ∷ slot "native" 0 0 (lit 60 2) (lit 10 2)
      ∷ []

  -- The geo of the user goes to a device that has none.
  abbrev pub geo_or : Option (Geo F) → Option (Geo F) → Option (Geo F)
  geo_or (some g) fallback = some g
  geo_or none fallback = fallback

  abbrev base_imp : String → Slot F → Imp F
  base_imp id s = record {
    id = id;
    banner = none;
    video = none;
    native_ad = none;
    bid_floor = s.floor_cpm;
    bid_floor_cur = "USD";
    secure = pos 1;
    ext = [];
  }

  abbrev slot_banner : Slot F → Banner
  slot_banner s = record {
    w = pos s.width;
    h = pos s.height;
    btype = [];
    battr = [];
    position = pos 1;
  }

  abbrev slot_video : Slot F → Video
  slot_video s = record {
    mimes = "video/mp4" ∷ [];
    min_duration = pos 5;
    max_duration = pos 30;
    protocols = pos 2 ∷ pos 3 ∷ [];
    w = pos s.width;
    h = pos s.height;
    start_delay = pos 0;
    linearity = pos 0;
    api = [];
  }

  -- The switch on the slot's type.
  unfoldable pub fill_imp : String → Slot F → Imp F
  fill_imp id s =
      if str_eq s.slot_type "banner"
      then record (base_imp id s) { banner = some (slot_banner s) }
      else if str_eq s.slot_type "video"
      then record (base_imp id s) { video = some (slot_video s) }
      else if str_eq s.slot_type "native"
      then record (base_imp id s) { native_ad = some slot_native }
      else base_imp id s

  module _ (s : Sources F) where
    open s use {World, user_rng, rng, new_uuid}

    unfoldable pub gen_app : Partial World App
    unfolding pick_ssp
    gen_app = do
      i ← draw rng.intn (length app_bundles)
      bundle ← index app_bundles i
      n ← draw rng.intn 100
      publisher ← pick_ssp user_rng
      pure (record {
        id = concat "app-" (show_ℕ n);
        name = bundle;
        bundle = bundle;
        cat = "IAB9" ∷ [];
        ver = "";
        publisher =
            some (record { id = publisher; name = "Mock Publisher"; cat = []; domain = "" });
        store_url = "";
      })

    unfoldable pub gen_site : Partial World Site
    unfolding pick_ssp
    gen_site = do
      i ← draw rng.intn (length site_domains)
      domain ← index site_domains i
      n ← draw rng.intn 100
      article ← draw rng.intn 10_000
      publisher ← pick_ssp user_rng
      pure (record {
        id = concat "site-" (show_ℕ n);
        name = domain;
        domain = domain;
        cat = "IAB12" ∷ [];
        page = concat "https://" (concat domain (concat "/article/" (show_ℕ article)));
        referrer = "";
        publisher =
            some (record { id = publisher; name = "Mock Publisher"; cat = []; domain = domain });
      })

    -- The request before it gets its app or its site.
    abbrev pub base_request : String → User F → Device F → String → Imp F → BidRequest F
    base_request id user device ssp imp = record {
      id = id;
      imp = imp ∷ [];
      site = none;
      app = none;
      user = some user;
      device = some device;
      auction_type = pos second_price;
      tmax = pos 150;
      wseat = [];
      cur = "USD" ∷ [];
      ext = some (record { ssp_id = ssp; exchange = ssp });
    }

    -- An app for a phone, a site for any other device.
    unfoldable pub place : String → BidRequest F → Partial World (BidRequest F)
    unfolding gen_app gen_site
    place os req =
        if is_phone os
        then (do app ← gen_app; pure (record req { app = some app }))
        else (do site ← gen_site; pure (record req { site = some site }))

    unfoldable pub generate : Partial World (BidRequest F)
    unfolding generate_user device_info pick_ssp pick_weighted_index fill_imp place
    generate = do
      user ← generate_user s
      device ← device_info user_rng
      ssp ← pick_ssp user_rng
      i ← pick_weighted_index user_rng (map (λ t. t.weight) ad_slots)
      chosen ← index ad_slots i
      id ← call new_uuid
      imp_id ← call new_uuid
      place device.os (
          base_request id user (record device { geo = geo_or device.geo user.geo }) ssp
            (fill_imp imp_id chosen))
