-- ===== src/Scoring/Example.antt =====
-- A store of the scoring service that answers every call.
use bidflock.Prelude.{refl, true, Option, none, some, String, str_eq, if◌then◌else◌}
use bidflock.Prelude.Fixed.{Fixed}
use bidflock.Models.Campaign.{CampaignCache}
use bidflock.Scoring.Store.{Store, IsStore}

abbrev pub Table : Type 0
Table = String → Option (CampaignCache Fixed)

abbrev pub store : Store Fixed
store = record {
  World = Table;
  cached = λ w. w;
  now = λ w. (record { hour = 13; weekday = 4 }, w);
  get_number = λ _ w. (none, w);
  set_number = λ _ _ _ w. (true, w);
  get_campaign = λ k w. (w k, w);
  set_campaign = λ k c w. (true, λ j. if str_eq k j then some c else w j);
  del = λ k w. (true, λ j. if str_eq k j then none else w j);
}

pub store-IsStore : IsStore store
store-IsStore = record {
  now_keeps = λ w. refl;
  get_number_keeps = λ k w. refl;
  get_campaign_keeps = λ k w. refl;
  set_campaign_cached = λ k c w _ j. refl;
  del_cached = λ k w _ j. refl;
}
