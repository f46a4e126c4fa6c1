-- ===== src/Scoring/Cache.antt =====
-- The campaign cache after a sequence of campaign events.
use text.Mathlib.TextLemmas.{append_inj}
use bidflock.Prelude.{
  ◌≡◌, refl, sym, ap, ◌∙◌, Bool, true, false, Bool-cases, inl, inr, Option, none, some, List, [],
  ◌∷◌, String, str_eq, eq_iff, if◌then◌else◌,
}
use bidflock.Models.Campaign.{Campaign, CampaignCache, CampaignEvent, campaign_deleted}
use bidflock.Prelude.Text.{concat}
use bidflock.Prelude.Float.{Float64}
use bidflock.Scoring.Store.{Store, IsStore}
use bidflock.Scoring.Service.{
  campaign_key, to_cache, cache_campaign, sync_cache, handle_cache_record,
}

campaign_key_eq : (a b : String) → str_eq (campaign_key a) (campaign_key b) ≡ str_eq a b
campaign_key_eq a b = elim (Bool-cases (str_eq a b)) [
  | inl e ↦ (eq_iff _ _).1 (ap campaign_key ((eq_iff a b).0 e)) ∙ sym e
  | inr e ↦ elim (Bool-cases (str_eq (campaign_key a) (campaign_key b))) [
    | inl k ↦ k ∙ sym ((eq_iff a b).1 (tails ((eq_iff (campaign_key a) (campaign_key b)).0 k)))
    | inr k ↦ k ∙ sym e
  ]
]
  where
    tails : concat "campaign:" a ≡ concat "campaign:" b → a ≡ b
    tails same = (append_inj same refl).1

module _ {F : Type 0} ⦃f : Float64 F⦄ where
  -- What the events make of the cached campaign `id`: a deletion removes it, an event with a
  -- campaign of that identifier replaces it, any other leaves it.
  abbrev pub after_campaign :
      String → Option (Campaign F) → Option (CampaignCache F) → Option (CampaignCache F)
  after_campaign id none old = old
  after_campaign id (some c) old = if str_eq c.id id then some (to_cache c) else old

  abbrev pub after_event :
      String → Option (CampaignEvent F) → Option (CampaignCache F) → Option (CampaignCache F)
  after_event id none old = old
  after_event id (some e) old =
      if str_eq e.event_type campaign_deleted
      then (if str_eq e.campaign_id id then none else old)
      else after_campaign id e.campaign old

  abbrev pub after_events :
      String → List (Option (CampaignEvent F)) → Option (CampaignCache F) → Option (CampaignCache F)
  after_events id [] old = old
  after_events id (e ∷ es) old = after_events id es (after_event id e old)

module _ {F : Type 0} ⦃f : Float64 F⦄ (store : Store F) (laws : IsStore store) where
  open store use {World, cached, set_campaign, del}
  open laws use {set_campaign_cached, del_cached}

  -- Every write succeeds.
  abbrev pub Writes : Type 0
  Writes =
      ((k : String) (c : CampaignCache F) (w : World) → (set_campaign k c w).0 ≡ true)
      × ((k : String) (w : World) → (del k w).0 ≡ true)

  abbrev pub handle_records : List (Option (CampaignEvent F)) → World → World
  handle_records [] w = w
  handle_records (e ∷ es) w = handle_records es (handle_cache_record store e w).1

  module _ (writes : Writes) (id : String) where
    cache_campaign_lem :
        (o : Option (Campaign F)) (w : World)
        → cached (cache_campaign store o w).1 (campaign_key id)
          ≡ after_campaign id o (cached w (campaign_key id))
    cache_campaign_lem none w = refl
    cache_campaign_lem (some c) w =
        set_campaign_cached (campaign_key c.id) (to_cache c) w (writes.0 _ _ w) (campaign_key id)
        ∙ ap (λ b. if b then some (to_cache c) else cached w (campaign_key id))
            (campaign_key_eq c.id id)

    record_lem :
        (e : Option (CampaignEvent F)) (w : World)
        → cached (handle_cache_record store e w).1 (campaign_key id)
          ≡ after_event id e (cached w (campaign_key id))
    unfolding handle_cache_record sync_cache
    record_lem none w = refl
    record_lem (some e) w = by_type (str_eq e.event_type campaign_deleted)
      where
        by_type :
            (b : Bool)
            → cached
                ((if b then del (campaign_key e.campaign_id) else cache_campaign store e.campaign)
                  w).1
                (campaign_key id)
              ≡ (if b
                  then (if str_eq e.campaign_id id then none else cached w (campaign_key id))
                  else after_campaign id e.campaign (cached w (campaign_key id)))
        by_type true =
            del_cached (campaign_key e.campaign_id) w (writes.1 _ w) (campaign_key id)
            ∙ ap (λ b. if b then none else cached w (campaign_key id))
                (campaign_key_eq e.campaign_id id)
        by_type false = cache_campaign_lem e.campaign w

    -- After any sequence of records, a campaign is cached as the last event about it says, if every
    -- write to the store succeeds: gone if that was its deletion, otherwise with that event's values;
    -- without an event about it, it is as it was.
    pub cache_follows_events :
        (es : List (Option (CampaignEvent F))) (w : World)
        → cached (handle_records es w) (campaign_key id)
          ≡ after_events id es (cached w (campaign_key id))
    cache_follows_events [] w = refl
    cache_follows_events (e ∷ es) w =
        cache_follows_events es (handle_cache_record store e w).1
        ∙ ap (after_events id es) (record_lem e w)
