-- ===== src/Consumers/Handlers.antt =====
-- The handlers of internal/consumer (impression.go, click.go, conversion.go), and the dispatcher of
-- cmd/consumer/main.go. A record is its topic with the value decoded for it; `none` is no JSON.
use bidflock.Prelude.{ℕ, Bool, true, false, Option, none, some}
use bidflock.Models.Events.{ImpressionEvent, ClickEvent, ConversionEvent}
use bidflock.Consumers.Rows.{
  ImpressionRow, ClickRow, ConversionRow, Row, impression_row, click_row, conversion_row,
}
use bidflock.Consumers.Writer.{Writer, append}

pub data Message (F : Type 0) : Type 0 where
  impressions : Option (ImpressionEvent F) → Message F
  clicks : Option ClickEvent → Message F
  conversions : Option (ConversionEvent F) → Message F
  other_topic : Message F

abbrev pub to_click : ClickEvent → ClickRow
to_click e = record {
  event_id = e.event_id;
  impression_id = e.impression_id;
  campaign_id = e.campaign_id;
  ad_id = e.ad_id;
  user_id = e.user_id;
  timestamp = e.timestamp;
}

module _ {F : Type 0} where
  abbrev pub to_impression : ImpressionEvent F → ImpressionRow F
  to_impression e = record {
    event_id = e.event_id;
    bid_id = e.bid_id;
    request_id = e.request_id;
    campaign_id = e.campaign_id;
    ad_id = e.ad_id;
    user_id = e.user_id;
    ssp_id = e.ssp_id;
    price = e.price;
    timestamp = e.timestamp;
  }

  abbrev pub to_conversion : ConversionEvent F → ConversionRow F
  to_conversion e = record {
    event_id = e.event_id;
    click_id = e.click_id;
    campaign_id = e.campaign_id;
    ad_id = e.ad_id;
    user_id = e.user_id;
    value = e.value;
    timestamp = e.timestamp;
  }

  -- Each handler answers whether it returned no error.
  unfoldable pub handle_impression :
      ℕ → Option (ImpressionEvent F) → Writer (Row F) → Bool × Writer (Row F)
  unfolding append
  handle_impression batch_size none s = (false, s)
  handle_impression batch_size (some e) s =
      (true, append batch_size "impressions" (impression_row (to_impression e)) s)

  unfoldable pub handle_click : ℕ → Option ClickEvent → Writer (Row F) → Bool × Writer (Row F)
  unfolding append
  handle_click batch_size none s = (false, s)
  handle_click batch_size (some e) s = (true, append batch_size "clicks" (click_row (to_click e)) s)

  unfoldable pub handle_conversion :
      ℕ → Option (ConversionEvent F) → Writer (Row F) → Bool × Writer (Row F)
  unfolding append
  handle_conversion batch_size none s = (false, s)
  handle_conversion batch_size (some e) s =
      (true, append batch_size "conversions" (conversion_row (to_conversion e)) s)

  unfoldable pub dispatch : ℕ → Message F → Writer (Row F) → Bool × Writer (Row F)
  unfolding handle_impression handle_click handle_conversion
  dispatch batch_size (impressions e) s = handle_impression batch_size e s
  dispatch batch_size (clicks e) s = handle_click batch_size e s
  dispatch batch_size (conversions e) s = handle_conversion batch_size e s
  dispatch batch_size other_topic s = (true, s)
