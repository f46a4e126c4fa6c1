-- ===== src/Campaigns/Stored.antt =====
-- A MongoDB that holds campaigns under their identifiers, and a Kafka that keeps what is published.
use bidflock.Prelude.{
  ◌≡◌, ◌≢◌, refl, sym, ap, ◌∙◌, eq_iff, eq_refl, Bool, true, false, ◌&&◌, Option, none, some, List,
  [], ◌∷◌, ◌++◌, ℕ, String, str_eq, if◌then◌else◌,
}
use bidflock.Prelude.Fixed.{Fixed, fixed_float}
use bidflock.Models.Campaign.{Campaign, CampaignEvent}
use bidflock.Campaigns.Database.{Database, Collection, Found, document, no_documents}
use bidflock.Campaigns.Events.{PublishLog}
use bidflock.Campaigns.Documents.{Documents, has_matched}

pub record Store : Type 0 where
  pub stored : String → Option (Campaign Fixed)
  pub events : List (String × (String × CampaignEvent Fixed))

abbrev pub put : String → Option (Campaign Fixed) → Store → Store
put id c w = record w { stored = λ j. if str_eq id j then c else w.stored j }

-- What is stored under an identifier that it has.
abbrev pub own : String → Option (Campaign Fixed) → Option (Campaign Fixed)
own j none = none
own j (some c) = if str_eq c.id j then some c else none

abbrev pub held : Store → String → Option (Campaign Fixed)
held w j = own j (w.stored j)

abbrev pub inserted : Option (Campaign Fixed) → Campaign Fixed → Store → Bool × Store
inserted none c w = (true, put c.id (some c) w)
inserted (some _) c w = (false, w)

abbrev pub met : Option (Campaign Fixed) → Store → Store → Option ℕ × Store
met none w v = (some 0, w)
met (some _) w v = (some 1, v)

abbrev pub answer : Option (Campaign Fixed) → Found (Campaign Fixed)
answer none = no_documents
answer (some c) = document c

-- The `_id` of a document cannot be replaced.
abbrev pub replaced : Bool → String → Campaign Fixed → Store → Option ℕ × Store
replaced false id c w = (none, w)
replaced true id c w = met (held w id) w (put id (some c) w)

abbrev pub accepting : {A G : Type 0} → Collection Store A G
accepting = record {
  insert_one = λ _ w. (true, w);
  find_one = λ _ w. (no_documents, w);
  replace_one = λ _ _ w. (some 1, w);
  delete_one = λ _ w. (some 1, w);
  find = λ _ w. (some [], w);
}

abbrev pub database : Database Fixed
database = record {
  World = Store;
  advertisers = accepting;
  campaigns = record {
    insert_one = λ c w. inserted (held w c.id) c w;
    find_one = λ id w. (answer (held w id), w);
    replace_one = λ id c w. replaced (str_eq c.id id) id c w;
    delete_one = λ id w. met (held w id) w (put id none w);
    find = λ _ w. (some [], w);
  };
  ads = accepting;
  now = λ w. (63_000_000_000_000_000_000, w);
  new_uuid = λ w. ("c1", w);
  publish = λ topic key e w. (true, record w { events = w.events ++ ((topic, (key, e)) ∷ []) });
}

pub inserted_events :
    (o : Option (Campaign Fixed)) (c : Campaign Fixed) (w : Store)
    → (inserted o c w).1.events ≡ w.events
inserted_events none c w = refl
inserted_events (some _) c w = refl

pub met_events :
    (o : Option (Campaign Fixed)) (w v : Store)
    → v.events ≡ w.events
    → (met o w v).1.events ≡ w.events
met_events none w v h = refl
met_events (some _) w v h = h

pub replaced_events :
    (b : Bool) (id : String) (c : Campaign Fixed) (w : Store)
    → (replaced b id c w).1.events ≡ w.events
replaced_events false id c w = refl
replaced_events true id c w = met_events (held w id) w (put id (some c) w) refl

abbrev pub database_log : PublishLog database
database_log = record {
  log = λ w. w.events;
  now_log = λ w. refl;
  uuid_log = λ w. refl;
  insert_log = λ c w. inserted_events (held w c.id) c w;
  find_log = λ id w. refl;
  insert_ad_log = λ a w. refl;
  replace_log = λ id c w. replaced_events (str_eq c.id id) id c w;
  delete_log = λ id w. met_events (held w id) w (put id none w) refl;
  publish_log = λ topic key e w. refl;
}

own_put :
    (id : String) (c : Campaign Fixed) (w : Store) (j : String)
    → str_eq c.id id ≡ true
    → held (put id (some c) w) j ≡ (if str_eq id j then some c else held w j)
own_put id c w j same = by_key (str_eq id j) refl
  where
    by_key :
        (b : Bool)
        → str_eq id j ≡ b
        → own j (if b then some c else w.stored j) ≡ (if b then some c else held w j)
    by_key false e = refl
    by_key true e =
        let key : c.id ≡ j = (eq_iff c.id id).0 same ∙ (eq_iff id j).0 e in
        ap (λ b. if b then some c else none) ((eq_iff c.id j).1 key)

own_gone :
    (id : String) (w : Store) (j : String)
    → held (put id none w) j ≡ (if str_eq id j then none else held w j)
own_gone id w j = by_key (str_eq id j)
  where
    by_key : (b : Bool) → own j (if b then none else w.stored j) ≡ (if b then none else held w j)
    by_key false = refl
    by_key true = refl

pub held-inserted :
    (o : Option (Campaign Fixed)) (c : Campaign Fixed) (w : Store) (j : String)
    → held (inserted o c w).1 j ≡ (if (inserted o c w).0 && str_eq c.id j then some c else held w j)
held-inserted none c w j = own_put c.id c w j (eq_refl c.id)
held-inserted (some _) c w j = refl

pub held-replaced :
    (b : Bool) (id : String) (c : Campaign Fixed) (w : Store) (j : String)
    → str_eq c.id id ≡ b
    → held (replaced b id c w).1 j
      ≡ (if has_matched (replaced b id c w).0 && str_eq id j then some c else held w j)
held-replaced false id c w j same = refl
held-replaced true id c w j same = by_answer (held w id)
  where
    by_answer :
        (o : Option (Campaign Fixed))
        → let out = met o w (put id (some c) w) in
          held out.1 j ≡ (if has_matched out.0 && str_eq id j then some c else held w j)
    by_answer none = refl
    by_answer (some _) = own_put id c w j same

pub held-removed :
    (o : Option (Campaign Fixed)) (id : String) (w : Store) (j : String)
    → let out = met o w (put id none w) in
      held out.1 j ≡ (if has_matched out.0 && str_eq id j then none else held w j)
held-removed none id w j = refl
held-removed (some _) id w j = own_gone id w j

pub answer_held :
    (id : String) (o : Option (Campaign Fixed)) (c : Campaign Fixed)
    → answer (own id o) ≡ document c
    → (own id o ≡ some c) × (c.id ≡ id)
answer_held id none c h = absurd (cc h)
answer_held id (some x) c h = by_id (str_eq x.id id) refl h
  where
    kept : Bool → Option (Campaign Fixed)
    kept b = if b then some x else none

    by_id :
        (b : Bool)
        → str_eq x.id id ≡ b
        → answer (kept b) ≡ document c
        → (kept b ≡ some c) × (c.id ≡ id)
    by_id false e h = absurd (cc h)
    by_id true e h =
        let same : x ≡ c = cc h in
        (ap some same, ap (λ (y : Campaign Fixed). y.id) (sym same) ∙ (eq_iff x.id id).0 e)

pub answer_missing : (o : Option (Campaign Fixed)) → answer o ≡ no_documents → o ≡ none
answer_missing none h = refl
answer_missing (some c) h = absurd (cc h)

pub missing :
    (b : Bool) (id : String) (c : Campaign Fixed) (w : Store)
    → held w id ≡ none
    → has_matched (replaced b id c w).0 ≡ false
missing false id c w h = refl
missing true id c w h = ap (λ o. has_matched (met o w (put id (some c) w)).0) h

abbrev pub database_documents : Documents database
database_documents = record {
  holds = held;
  now_holds = λ w j. refl;
  uuid_holds = λ w j. refl;
  publish_holds = λ topic key e w j. refl;
  insert_ad_holds = λ a w j. refl;
  find_holds = λ id w j. refl;
  find_document = λ id w c h. answer_held id (w.stored id) c h;
  find_missing = λ id w h. answer_missing (held w id) h;
  insert_holds = λ c w j. held-inserted (held w c.id) c w j;
  replace_holds = λ id c w j. held-replaced (str_eq c.id id) id c w j refl;
  replace_missing = λ id c w h. missing (str_eq c.id id) id c w h;
  delete_holds = λ id w j. held-removed (held w id) id w j;
}

met_some : (o : Option (Campaign Fixed)) (w v : Store) → o ≢ none → has_matched (met o w v).0 ≡ true
met_some none w v h = absurd (h refl)
met_some (some _) w v h = refl

-- The replacement of a stored campaign succeeds.
pub replaces :
    (id : String) (c : Campaign Fixed) (w : Store)
    → c.id ≡ id
    → held w id ≢ none
    → has_matched (database.campaigns.replace_one id c w).0 ≡ true
replaces id c w same h =
    ap (λ b. has_matched (replaced b id c w).0) ((eq_iff c.id id).1 same)
    ∙ met_some (held w id) w (put id (some c) w) h
