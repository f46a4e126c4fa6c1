-- ===== src/System/Consistent.antt =====
-- Any changes of the campaigns, seen by a follower of their events.
use bidflock.Prelude.{
  ℕ, ◌≡◌, refl, sym, ap, ◌∙◌, inl, inr, Bool, true, false, ◌&&◌, Option, some, List, [], ◌∷◌,
  String, str_eq, eq_iff, if◌then◌else◌, if-intro,
}
use bidflock.Prelude.State.{Act}
use bidflock.Prelude.Float.{Float64}
use bidflock.Models.Campaign.{Ad, Campaign, campaign_updated}
use bidflock.Campaigns.Database.{Found, document, no_documents, query_error}
use bidflock.Campaigns.Repository.{
  Result, ok, failure, from_find, replace_campaign, find_campaign, insert_ad,
}
use bidflock.Campaigns.Service.{publish_event, link_ad, insert_into, create_ad}
use bidflock.Campaigns.Documents.{
  has_matched, Change, create, update, delete, add_ad, perform, perform_changes,
}
use bidflock.System.Follower.{
  Feed, IsInStep, IsSteady, unchanged-IsInStep, published-IsInStep, of_change,
}
use bidflock.System.Writes.{create-IsInStep, update-IsInStep, delete-IsInStep}

module _ {F : Type 0} ⦃f : Float64 F⦄ (feed : Feed F) (steady : IsSteady feed) where
  open feed use {db, laws, docs, follower}
  open follower use {of}
  open db use {World, now, new_uuid, publish}
  open laws use {
    log, now_log, uuid_log, insert_log, find_log, insert_ad_log, replace_log, delete_log,
  }
  open docs use {
    holds, now_holds, uuid_holds, publish_holds, insert_ad_holds, find_holds, find_document,
    insert_holds, replace_holds, delete_holds,
  }

  -- The event of a new ad brings the view in step, also if the replacement failed.
  linked-IsInStep :
      (c x : Campaign F) (w : World)
      → x.status ≡ c.status
      → x.id ≡ c.id
      → holds w c.id ≡ some c
      → IsInStep feed w
      → IsInStep feed
          (publish_event db campaign_updated c.id (some x) (db.campaigns.replace_one c.id x w).1).1
  linked-IsInStep c x w status id stored h =
      published-IsInStep feed w _ campaign_updated c.id (some x) (inl (inr refl, x, (refl, id)))
        (replace_log c.id x w) (by_answer (has_matched answer) refl) h
    where
      answer : Option ℕ
      answer = (db.campaigns.replace_one c.id x w).0

      v : World
      v = (db.campaigns.replace_one c.id x w).1

      replaced :
          (b : Bool)
          → has_matched answer ≡ b
          → (j : String) → holds v j ≡ (if b && str_eq c.id j then some x else holds w j)
      replaced b e j =
          replace_holds c.id x w j ∙ ap (λ d. if d && str_eq c.id j then some x else holds w j) e

      kept : has_matched answer ≡ false → of (some x) ≡ of (holds w c.id)
      kept failed = elim steady [
        | inl same ↦ same c x status ∙ sym (ap of stored)
        | inr answers ↦
            absurd (cc (answers c.id x w id (λ gone. absurd (cc (gone, stored))), failed))
      ]

      at_key :
          has_matched answer ≡ false
          → (j : String) (b : Bool) → str_eq c.id j ≡ b
          → of (holds w j) ≡ (if b then of (some x) else of (holds w j))
      at_key failed j false e = refl
      at_key failed j true e =
          ap (λ i. of (holds w i)) (sym ((eq_iff c.id j).0 e)) ∙ sym (kept failed)

      by_answer :
          (b : Bool)
          → has_matched answer ≡ b
          → (j : String) → of (holds v j) ≡ (if str_eq c.id j then of (some x) else of (holds w j))
      by_answer true e j = of_change feed c.id (some x) w v j (replaced true e j)
      by_answer false e j = ap of (replaced false e j) ∙ at_key e j (str_eq c.id j) refl

  link_ad-IsInStep :
      (c : Campaign F) (r : Result (Unit {0})) (ad : Ad) (w : World)
      → holds w c.id ≡ some c
      → IsInStep feed w
      → IsInStep feed (link_ad db c (r, ad) w).1
  unfolding replace_campaign
  link_ad-IsInStep c (failure e) ad w stored h = h
  link_ad-IsInStep c (ok _) ad w stored h =
      linked-IsInStep c _ (now w).1 refl refl (now_holds w c.id ∙ stored)
        (unchanged-IsInStep feed w (now w).1 (now_log w) (now_holds w) h)

  insert_into-IsInStep :
      (ad : Ad) (o : Found (Campaign F)) (w : World)
      → ((c : Campaign F) → o ≡ document c → holds w c.id ≡ some c)
      → IsInStep feed w
      → IsInStep feed (insert_into db ad (from_find o) w).1
  unfolding insert_ad
  insert_into-IsInStep ad no_documents w stored h = h
  insert_into-IsInStep ad query_error w stored h = h
  insert_into-IsInStep ad (document c) w stored h =
      let kept = λ (j : String). insert_ad_holds _ _ j ∙ now_holds _ j ∙ now_holds w j in
      link_ad-IsInStep c _ _ _ (kept c.id ∙ stored c refl)
        (unchanged-IsInStep feed w _ (insert_ad_log _ _ ∙ now_log _ ∙ now_log w) kept h)

  create_ad-IsInStep :
      (req : Ad) (w : World) → IsInStep feed w → IsInStep feed (create_ad db req w).1
  unfolding create_ad find_campaign
  create_ad-IsInStep req w h =
      let u = (new_uuid w).1 in
      let found = db.campaigns.find_one req.campaign_id u in
      let stored : (c : Campaign F) → found.0 ≡ document c → holds found.1 c.id ≡ some c = λ c e.
        let (held, own) = find_document req.campaign_id u c e in
        find_holds req.campaign_id u c.id ∙ ap (holds u) own ∙ held in
      let before =
        unchanged-IsInStep feed w found.1 (find_log req.campaign_id u ∙ uuid_log w)
          (λ j. find_holds req.campaign_id u j ∙ uuid_holds w j) h in
      if-intro {A = Act World (Result Ad)} (λ act. IsInStep feed (act w).1)
        (str_eq req.landing_url "") (λ _. h)
        (λ _.
          insert_into-IsInStep (record req { id = (new_uuid w).0 }) found.0 found.1 stored before)

  perform-IsInStep : (c : Change F) (w : World) → IsInStep feed w → IsInStep feed (perform db c w)
  unfolding perform
  perform-IsInStep (create c) w h = create-IsInStep feed c w h
  perform-IsInStep (update id c) w h = update-IsInStep feed id c w h
  perform-IsInStep (delete id) w h = delete-IsInStep feed id w h
  perform-IsInStep (add_ad ad) w h = create_ad-IsInStep ad w h

  -- A follower of the campaign events follows MongoDB: from a state where its view is that of what
  -- is stored once the published events are consumed, any calls of CreateCampaign, UpdateCampaign,
  -- DeleteCampaign and CreateAd, one after the other, lead to such a state.
  pub perform_changes-IsInStep :
      (changes : List (Change F)) (w : World)
      → IsInStep feed w
      → IsInStep feed (perform_changes db changes w)
  unfolding perform_changes
  perform_changes-IsInStep [] w h = h
  perform_changes-IsInStep (c ∷ cs) w h =
      perform_changes-IsInStep cs (perform db c w) (perform-IsInStep c w h)
