-- ===== src/System/CaughtUp.antt =====
-- The bidding service's consumer of the campaign events, as cmd/bidding/main.go starts it, with the
-- loop of pkg/kafka and the campaign service that publishes the events.
use bidflock.Prelude.{
  ℕ, zero, suc, ◌≡◌, refl, sym, ap, ◌∙◌, inl, Bool, true, false, Option, none, some, List, [], ◌∷◌,
  ◌++◌, map, String, str_eq, is_empty, if◌then◌else◌, if-intro,
}
use bidflock.Prelude.State.{Act}
use bidflock.Prelude.Float.{Float64}
use bidflock.Models.Campaign.{CampaignEvent, status_active}
use bidflock.Campaigns.Documents.{Documents, Change, perform_changes}
use bidflock.Bidding.ActiveSet.{
  RedisSets, IsReachable, active_campaigns_key, is_active, verdict, sync_campaign,
  sync_campaign_ids_lem, consume, consume-append,
}
use bidflock.Clients.Consumer.{Client, Fetches, each_record, handle_fetches, run}
use bidflock.Clients.Delivered.{IsGroup}
use bidflock.Campaigns.Database.{Database}
use bidflock.Campaigns.Events.{PublishLog}
use bidflock.System.Follower.{IsInStep, published}
use bidflock.System.Active.{active_feed}
use bidflock.System.Consistent.{perform_changes-IsInStep}

-- The value of a record with its event decoded; `none` is no JSON of an event.
abbrev pub Value : Type 0 → Type 0
Value F = Option (CampaignEvent F)

abbrev concerns : {F : Type 0} → String → Value F → Bool
concerns j none = false
concerns j (some e) = str_eq e.campaign_id j

-- The events of one campaign. They have one key, so Kafka keeps their order.
abbrev pub of_campaign : {F : Type 0} → String → List (Value F) → List (Value F)
of_campaign j [] = []
of_campaign j (r ∷ rs) = let rest = of_campaign j rs in if concerns j r then r ∷ rest else rest

module _ {F : Type 0} (redis : RedisSets) where
  -- Whether `j` is listed after the records, from whether it was.
  abbrev standing : String → Bool → List (Value F) → Bool
  standing j old [] = old
  standing j old (none ∷ rs) = standing j old rs
  standing j old (some e ∷ rs) =
      standing j (if str_eq e.campaign_id j then verdict redis e old else old) rs

  consume-standing :
      (up : IsReachable redis) (j : String) (rs : List (Value F)) (d : redis.Db)
      → redis.is_member (consume redis rs d) active_campaigns_key j
        ≡ standing j (redis.is_member d active_campaigns_key j) rs
  unfolding consume sync_campaign
  consume-standing up j [] d = refl
  consume-standing up j (none ∷ rs) d = consume-standing up j rs d
  consume-standing up j (some e ∷ rs) d =
      consume-standing up j rs _ ∙ ap (λ b. standing j b rs) (sync_campaign_ids_lem redis up e d j)

  standing-of_campaign :
      (j : String) (old : Bool) (rs : List (Value F))
      → standing j old rs ≡ standing j old (of_campaign j rs)
  standing-of_campaign j old [] = refl
  standing-of_campaign j old (none ∷ rs) = standing-of_campaign j old rs
  standing-of_campaign j old (some e ∷ rs) =
      if-intro
        (λ (l : List (Value F)).
          standing j (if str_eq e.campaign_id j then verdict redis e old else old) rs
          ≡ standing j old l)
        (str_eq e.campaign_id j)
        (λ _.
          standing-of_campaign j (if str_eq e.campaign_id j then verdict redis e old else old) rs)
        (λ other.
          ap (λ b. standing j (if b then verdict redis e old else old) rs) other
          ∙ standing-of_campaign j old rs)

  -- The order of events of different campaigns does not matter.
  consume-of_campaign :
      (up : IsReachable redis) (j : String) (xs ys : List (Value F)) (d : redis.Db)
      → of_campaign j xs ≡ of_campaign j ys
      → redis.is_member (consume redis xs d) active_campaigns_key j
        ≡ redis.is_member (consume redis ys d) active_campaigns_key j
  consume-of_campaign up j xs ys d same =
      let old = redis.is_member d active_campaigns_key j in
      consume-standing up j xs d
      ∙ standing-of_campaign j old xs
      ∙ ap (standing j old) same
      ∙ sym (standing-of_campaign j old ys)
      ∙ sym (consume-standing up j ys d)

-- The Redis of the bidding service in the world of its consumer: only `SyncCampaign` writes the set,
-- and `store` is the world after it was called with a record and left Redis so.
pub record Host {F V : Type 0} (redis : RedisSets) (client : Client (Value F) V) : Type 0 where
  pub view : V → redis.Db
  pub store : Value F → redis.Db → V → V
  pub view_store : (r : Value F) (d : redis.Db) (v : V) → view (store r d v) ≡ d
  pub poll_view : (v : V) → view (client.poll v).1 ≡ view v
  pub commit_view : (v : V) → view (client.commit v).1 ≡ view v

abbrev is_event : {F : Type 0} → Value F → Bool
is_event none = false
is_event (some _) = true

module _ {F V : Type 0} (redis : RedisSets) (client : Client (Value F) V)
    (host : Host redis client) where
  open host use {view, store, view_store, poll_view, commit_view}

  -- The handler that main gives the consumer.
  unfoldable pub sync_handler : Value F → Act V Bool
  sync_handler r v = (is_event r, store r (sync_campaign redis r (view v)) v)

  module _ (group : IsGroup client sync_handler) (start : redis.Db) where
    open group use {handled, poll_handled, handler_handled, commit_handled}

    -- The set is what the records handled so far make of it.
    abbrev pub IsReplayed : V → Type 0
    IsReplayed v = view v ≡ consume redis (handled v) start

    kept-IsReplayed :
        (v u : V) → view u ≡ view v → handled u ≡ handled v → IsReplayed v → IsReplayed u
    kept-IsReplayed v u same done h = same ∙ h ∙ ap (λ rs. consume redis rs start) (sym done)

    each_record-IsReplayed :
        (rs : List (Value F)) (v : V)
        → IsReplayed v
        → IsReplayed (each_record client sync_handler rs v)
    unfolding each_record sync_handler
    each_record-IsReplayed [] v h = h
    each_record-IsReplayed (r ∷ rs) v h =
        let next = (sync_handler r v).1 in
        let replayed : IsReplayed next =
          view_store r _ v
          ∙ ap (sync_campaign redis r) h
          ∙ sym (consume_last (handled v) r)
          ∙ ap (λ rs. consume redis rs start) (sym (handler_handled r v)) in
        each_record-IsReplayed rs next replayed
      where
        consume_last :
            (rs : List (Value F)) (r : Value F)
            → consume redis (rs ++ (r ∷ [])) start ≡ sync_campaign redis r (consume redis rs start)
        consume_last rs r = unfold consume in consume-append redis rs (r ∷ []) start

    handle_fetches-IsReplayed :
        (fetches : Fetches (Value F)) (v : V)
        → IsReplayed v
        → IsReplayed (handle_fetches client sync_handler fetches v)
    unfolding handle_fetches
    handle_fetches-IsReplayed fetches v h =
        if-intro IsReplayed (is_empty fetches.errors)
          (λ _.
            kept-IsReplayed _ _ (commit_view _) (commit_handled _)
              (each_record-IsReplayed fetches.records v h))
          (λ _. h)

    run-IsReplayed :
        (turns : ℕ) (v : V) → IsReplayed v → IsReplayed (run client sync_handler turns v).1
    unfolding run
    run-IsReplayed zero v h = h
    run-IsReplayed (suc turns) v h =
        let p = client.poll v in
        let polled = kept-IsReplayed v p.1 (poll_view v) (poll_handled v) h in
        if-intro (λ (out : Bool × V). IsReplayed out.1) (client.is_done p.1) (λ _. polled)
          (λ _. run-IsReplayed turns _ (handle_fetches-IsReplayed p.0 p.1 polled))

-- The whole path of a campaign's status: any calls of CreateCampaign, UpdateCampaign, DeleteCampaign
-- and CreateAd, one after the other and from a state in step, and any turns of the loop of the bidding
-- service's consumer, whose set is what the records handled before make of it. Once the records that
-- it has handled are, for each campaign, the published events of that campaign in order, whatever lies
-- between them, the set holds a campaign exactly if MongoDB holds it as active. Kafka takes every
-- event, a write that MongoDB answers by an error has changed nothing, and every SADD and SREM of the
-- consumer succeeds: the code does not look at their errors.
pub active_set_catches_up :
    {F V : Type 0} ⦃f : Float64 F⦄ (db : Database F) (laws : PublishLog db) (docs : Documents db)
    (redis : RedisSets) (up : IsReachable redis) (start : redis.Db) (client : Client (Value F) V)
    (host : Host redis client) (group : IsGroup client (sync_handler redis client host))
    (changes : List (Change F)) (w : db.World) (turns : ℕ) (v : V)
    → let feed = active_feed redis up start db laws docs in
      IsInStep feed w
      → IsReplayed redis client host group start v
      → let w' = perform_changes db changes w in
        let v' = (run client (sync_handler redis client host) turns v).1 in
        ((j : String)
          → of_campaign j (group.handled v') ≡ of_campaign j (map some (published feed w')))
        → (id : String)
        → redis.is_member (host.view v') active_campaigns_key id ≡ is_active (docs.holds w' id)
active_set_catches_up db laws docs redis up start client host group changes w turns v step replayed
      same id =
    let feed = active_feed redis up start db laws docs in
    let w' = perform_changes db changes w in
    ap (λ d. redis.is_member d active_campaigns_key id)
      (run-IsReplayed redis client host group start turns v replayed)
    ∙ consume-of_campaign redis up id _ (map some (published feed w')) start (same id)
    ∙ perform_changes-IsInStep feed (inl (λ c x e. ap (λ s. str_eq s status_active) e)) changes w
        step id
