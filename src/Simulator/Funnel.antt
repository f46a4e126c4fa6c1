-- ===== src/Simulator/Funnel.antt =====
-- internal/simulator/event_gen.go: the events after a win. `SimulateFunnel` ignores the error of
-- `Publish`, so what counts is what it hands to it.
use bidflock.Prelude.{List, [], ◌∷◌, ◌++◌, String, if◌then◌else◌}
use bidflock.Prelude.State.{Act, ◌>>=◌, ◌>>◌, pure}
use bidflock.Prelude.Float.{Float64}
use bidflock.Models.Campaign.{Time, unix_milli}
use bidflock.Models.OpenRtb.{BidCandidate}
use bidflock.Models.Events.{ImpressionEvent, ClickEvent, ConversionEvent}
use bidflock.Simulator.Random.{Sources}

pub data Value (F : Type 0) : Type 0 where
  impression : ImpressionEvent F → Value F
  click : ClickEvent → Value F
  conversion : ConversionEvent F → Value F

-- The arguments of one call of `Publish`.
pub record Publication (F : Type 0) : Type 0 where
  pub topic : String
  pub key : String
  pub value : Value F

abbrev pub topic_impressions : String
topic_impressions = "impressions"

abbrev pub topic_clicks : String
topic_clicks = "clicks"

abbrev pub topic_conversions : String
topic_conversions = "conversions"

-- The random source, the clock and the identifiers, with the calls of `Publish` so far.
pub record Published (F W : Type 0) : Type 0 where
  pub world : W
  pub calls : List (Publication F)

module _ {F : Type 0} ⦃f : Float64 F⦄ where
  open f use {lit}

  abbrev pub prob_win_to_impression : F
  prob_win_to_impression = lit 90 2

  abbrev pub ctr_banner : F
  ctr_banner = lit 15 3

  abbrev pub cvr_default : F
  cvr_default = lit 7 2

module _ {F : Type 0} ⦃f : Float64 F⦄ (s : Sources F) where
  open f use {lit, add, mul, lt}
  open s use {World, rng, new_uuid, now}

  abbrev pub State : Type 0
  State = Published F World

  abbrev ask : {A : Type 0} → Act World A → Act State A
  ask m st = ((m st.world).0, record st { world = (m st.world).1 })

  abbrev publish : Publication F → Act State (Unit {0})
  publish p st = (tt, record st { calls = st.calls ++ (p ∷ []) })

  module _ (winner : BidCandidate F) (bid_id user_id ssp_id : String) where
    abbrev pub impression_of : String → Time → Publication F
    impression_of id stamp = record {
      topic = topic_impressions;
      key = winner.campaign_id;
      value = impression (record {
        event_id = id;
        bid_id = bid_id;
        request_id = bid_id;
        campaign_id = winner.campaign_id;
        ad_id = winner.ad_id;
        user_id = user_id;
        ssp_id = ssp_id;
        price = winner.clearing_price;
        timestamp = unix_milli stamp;
      });
    }

    abbrev pub click_of : String → String → Time → Publication F
    click_of id impression_id stamp = record {
      topic = topic_clicks;
      key = winner.campaign_id;
      value = click (record {
        event_id = id;
        impression_id = impression_id;
        campaign_id = winner.campaign_id;
        ad_id = winner.ad_id;
        user_id = user_id;
        timestamp = unix_milli stamp;
      });
    }

    abbrev pub conversion_of : String → String → F → Time → Publication F
    conversion_of id click_id draw stamp = record {
      topic = topic_conversions;
      key = winner.campaign_id;
      value = conversion (record {
        event_id = id;
        click_id = click_id;
        campaign_id = winner.campaign_id;
        ad_id = winner.ad_id;
        user_id = user_id;
        value = add (lit 100 1) (mul draw (lit 900 1));
        timestamp = unix_milli stamp;
      });
    }

    unfoldable pub fire_conversion : String → Act State (Unit {0})
    fire_conversion click_id = do
      id ← ask new_uuid
      draw ← ask rng.float64
      stamp ← ask now
      publish (conversion_of id click_id draw stamp)

    unfoldable pub after_click : String → F → Act State (Unit {0})
    unfolding fire_conversion
    after_click click_id draw = if lt cvr_default draw then pure tt else fire_conversion click_id

    unfoldable pub fire_click : String → Act State (Unit {0})
    unfolding after_click
    fire_click impression_id = do
      id ← ask new_uuid
      stamp ← ask now
      publish (click_of id impression_id stamp)
      draw ← ask rng.float64
      after_click id draw

    unfoldable pub after_impression : String → F → Act State (Unit {0})
    unfolding fire_click
    after_impression impression_id draw =
        if lt ctr_banner draw then pure tt else fire_click impression_id

    unfoldable pub fire_impression : Act State (Unit {0})
    unfolding after_impression
    fire_impression = do
      id ← ask new_uuid
      stamp ← ask now
      publish (impression_of id stamp)
      draw ← ask rng.float64
      after_impression id draw

    unfoldable pub simulate_funnel : Act State (Unit {0})
    unfolding fire_impression
    simulate_funnel = do
      draw ← ask rng.float64
      if lt prob_win_to_impression draw then pure tt else fire_impression
