-- ===== src/System/Writes.antt =====
-- The campaign service's writes, seen by a follower of its events.
use bidflock.Prelude.{
  ℕ, zero, suc, ◌≡◌, refl, ◌∙◌, inl, inr, Bool, true, false, Option, none, some, String, if-intro,
}
use bidflock.Prelude.State.{Act}
use bidflock.Prelude.Float.{Float64}
use bidflock.Models.Campaign.{Campaign, campaign_created, campaign_updated, campaign_deleted}
use bidflock.Campaigns.Repository.{
  Result, from_insert, from_count, insert_campaign, replace_campaign, remove_campaign,
}
use bidflock.Campaigns.Service.{
  is_complete, validate_campaign, after_write, after_removal, store_campaign, create_campaign,
  rewrite_campaign, update_campaign, delete_campaign,
}
use bidflock.System.Follower.{Feed, IsInStep, unchanged-IsInStep, published-IsInStep, of_change}

module _ {F : Type 0} ⦃f : Float64 F⦄ (feed : Feed F) where
  open feed use {db, laws, docs, follower}
  open follower use {of}
  open db use {World, now, new_uuid, publish}
  open laws use {
    log, now_log, uuid_log, insert_log, find_log, insert_ad_log, replace_log, delete_log,
  }
  open docs use {
    holds, now_holds, uuid_holds, publish_holds, insert_ad_holds, find_holds, find_document,
    insert_holds, replace_holds, delete_holds,
  }

  validate-IsInStep :
      (c : Campaign F) (w : World) → IsInStep feed w → IsInStep feed (validate_campaign db c w).1
  unfolding validate_campaign
  validate-IsInStep c w h =
      if-intro {A = Act World Bool} (λ act. IsInStep feed (act w).1) (is_complete c)
        (λ _. unchanged-IsInStep feed w (now w).1 (now_log w) (now_holds w) h) (λ _. h)

  -- What follows a write that was answered by `r`.
  inserted-IsInStep :
      (c : Campaign F) (b : Bool) (w : World)
      → (db.campaigns.insert_one c w).0 ≡ b
      → IsInStep feed w
      → IsInStep feed
          (after_write db campaign_created (from_insert b, c) (db.campaigns.insert_one c w).1).1
  inserted-IsInStep c false w answer h =
      unchanged-IsInStep feed w _ (insert_log c w) (λ j. insert_holds c w j ∙ rw answer) h
  inserted-IsInStep c true w answer h =
      published-IsInStep feed w _ campaign_created c.id (some c) (inl (inl refl, c, (refl, refl)))
        (insert_log c w)
        (λ j. of_change feed c.id (some c) w _ j (insert_holds c w j ∙ rw answer refl)) h

  store-IsInStep :
      (req : Campaign F) (w : World) → IsInStep feed w → IsInStep feed (store_campaign db req w).1
  unfolding store_campaign insert_campaign
  store-IsInStep req w h =
      let u = (new_uuid w).1 in
      let v = (now (now u).1).1 in
      inserted-IsInStep _ _ v refl (
        unchanged-IsInStep feed w v (now_log _ ∙ now_log _ ∙ uuid_log w)
          (λ j. now_holds _ j ∙ now_holds _ j ∙ uuid_holds w j) h)

  pub create-IsInStep :
      (req : Campaign F) (w : World) → IsInStep feed w → IsInStep feed (create_campaign db req w).1
  unfolding create_campaign
  create-IsInStep req w h =
      let valid = validate_campaign db req w in
      if-intro {A = Act World (Result (Campaign F))} (λ act. IsInStep feed (act valid.1).1) valid.0
        (λ _. store-IsInStep req valid.1 (validate-IsInStep req w h))
        (λ _. validate-IsInStep req w h)

  replaced-IsInStep :
      (c : Campaign F) (n : Option ℕ) (w : World)
      → (db.campaigns.replace_one c.id c w).0 ≡ n
      → IsInStep feed w
      → IsInStep feed
          (after_write db campaign_updated
            (from_count n, c)
            (db.campaigns.replace_one c.id c w).1).1
  replaced-IsInStep c none w answer h =
      unchanged-IsInStep feed w _ (replace_log c.id c w) (λ j. replace_holds c.id c w j ∙ rw answer)
        h
  replaced-IsInStep c (some zero) w answer h =
      unchanged-IsInStep feed w _ (replace_log c.id c w) (λ j. replace_holds c.id c w j ∙ rw answer)
        h
  replaced-IsInStep c (some (suc n)) w answer h =
      published-IsInStep feed w _ campaign_updated c.id (some c) (inl (inr refl, c, (refl, refl)))
        (replace_log c.id c w)
        (λ j. of_change feed c.id (some c) w _ j (replace_holds c.id c w j ∙ rw answer refl)) h

  rewrite-IsInStep :
      (id : String) (req : Campaign F) (w : World)
      → IsInStep feed w
      → IsInStep feed (rewrite_campaign db id req w).1
  unfolding rewrite_campaign replace_campaign
  rewrite-IsInStep id req w h =
      replaced-IsInStep _ _ (now w).1 refl
        (unchanged-IsInStep feed w (now w).1 (now_log w) (now_holds w) h)

  pub update-IsInStep :
      (id : String) (req : Campaign F) (w : World)
      → IsInStep feed w
      → IsInStep feed (update_campaign db id req w).1
  unfolding update_campaign
  update-IsInStep id req w h =
      let valid = validate_campaign db req w in
      if-intro {A = Act World (Result (Campaign F))} (λ act. IsInStep feed (act valid.1).1) valid.0
        (λ _. rewrite-IsInStep id req valid.1 (validate-IsInStep req w h))
        (λ _. validate-IsInStep req w h)

  removed-IsInStep :
      (id : String) (n : Option ℕ) (w : World)
      → (db.campaigns.delete_one id w).0 ≡ n
      → IsInStep feed w
      → IsInStep feed (after_removal db id (from_count n) (db.campaigns.delete_one id w).1).1
  removed-IsInStep id none w answer h =
      unchanged-IsInStep feed w _ (delete_log id w) (λ j. delete_holds id w j ∙ rw answer) h
  removed-IsInStep id (some zero) w answer h =
      unchanged-IsInStep feed w _ (delete_log id w) (λ j. delete_holds id w j ∙ rw answer) h
  removed-IsInStep id (some (suc n)) w answer h =
      published-IsInStep feed w _ campaign_deleted id none (inr (refl, refl)) (delete_log id w)
        (λ j. of_change feed id none w _ j (delete_holds id w j ∙ rw answer refl)) h

  pub delete-IsInStep :
      (id : String) (w : World) → IsInStep feed w → IsInStep feed (delete_campaign db id w).1
  unfolding delete_campaign remove_campaign
  delete-IsInStep id w h = removed-IsInStep id _ w refl h
