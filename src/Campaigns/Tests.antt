-- ===== src/Campaigns/Tests.antt =====
-- The campaign service on a database that holds one campaign and accepts every write.
use bidflock.Prelude.{refl, true, none, some, List, [], ◌∷◌, ◌++◌, String}
use bidflock.Prelude.Fixed.{Fixed, fixed_float}
use bidflock.Models.Campaign.{Campaign, CampaignEvent, campaign_created, campaign_updated}
use bidflock.Campaigns.Stored
use bidflock.Campaigns.Stored.{Store}
use bidflock.Campaigns.Example.{draft, banner}
use bidflock.Campaigns.Database.{document, Database, Collection, no_documents}
use bidflock.Campaigns.Service.{create_campaign, update_campaign, delete_campaign, create_ad}
use bidflock.Campaigns.Events.{PublishLog, PublishesResult, PublishesRemoval, changes_publish}
use bidflock.Campaigns.Links.{Links, create_ad-Links}
use bidflock.Campaigns.Validity.{Verdict, create_campaign_lem}

abbrev Log : Type 0
Log = List (String × (String × CampaignEvent Fixed))

abbrev accepting : {A G : Type 0} → Collection Log A G
accepting = record {
  insert_one = λ _ w. (true, w);
  find_one = λ _ w. (no_documents, w);
  replace_one = λ _ _ w. (some 1, w);
  delete_one = λ _ w. (some 1, w);
  find = λ _ w. (some [], w);
}

abbrev database : Database Fixed
database = record {
  World = Log;
  advertisers = accepting;
  campaigns = accepting;
  ads = accepting;
  now = λ w. (63_000_000_000_000_000_000, w);
  new_uuid = λ w. ("c1", w);
  publish = λ topic key e w. (true, w ++ ((topic, (key, e)) ∷ []));
}

abbrev database_log : PublishLog database
database_log = record {
  log = λ w. w;
  now_log = λ w. refl;
  uuid_log = λ w. refl;
  insert_log = λ c w. refl;
  find_log = λ id w. refl;
  insert_ad_log = λ a w. refl;
  replace_log = λ id c w. refl;
  delete_log = λ id w. refl;
  publish_log = λ topic key e w. refl;
}

changes_publish_example :
    PublishesResult database database_log campaign_created [] (create_campaign database draft [])
    × (PublishesResult database database_log campaign_updated []
          (update_campaign database "c2" draft [])
        × PublishesRemoval database database_log "c2" [] (delete_campaign database "c2" []))
changes_publish_example = changes_publish database database_log "c2" draft []

abbrev nameless : Campaign Fixed
nameless = record draft { name = "" }

create_campaign_lem_example : Verdict database nameless [] (create_campaign database nameless [])
create_campaign_lem_example = create_campaign_lem database nameless []

-- The database with one campaign, which is found under every identifier.
abbrev with_draft : Database Fixed
with_draft = record database {
  campaigns = record accepting { find_one = λ _ w. (document draft, w) };
}

abbrev with_draft_log : PublishLog with_draft
with_draft_log = record {
  log = λ w. w;
  now_log = λ w. refl;
  uuid_log = λ w. refl;
  insert_log = λ c w. refl;
  find_log = λ id w. refl;
  insert_ad_log = λ a w. refl;
  replace_log = λ id c w. refl;
  delete_log = λ id w. refl;
  publish_log = λ topic key e w. refl;
}

create_ad-Links_example : Links with_draft with_draft_log banner [] (create_ad with_draft banner [])
create_ad-Links_example = create_ad-Links with_draft with_draft_log banner []

abbrev empty : Store
empty = record { stored = λ _. none; events = [] }
