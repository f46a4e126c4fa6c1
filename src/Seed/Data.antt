-- ===== src/Seed/Data.antt =====
-- scripts/seed.go: the tables, and what the script uses of Go, of HTTP and of JSON.
use bidflock.Prelude.{
  ℕ, ◌+◌, ◌%◌, Option, none, some, List, [], ◌∷◌, String, str_eq, leb, if◌then◌else◌,
}
use bidflock.Prelude.State.{Act, ◌>>=◌, pure}
use bidflock.Prelude.Text.{concat}
use bidflock.Models.Campaign.{Time, Advertiser, Campaign, Ad}
use bidflock.Rpc.Wire.{Codec}
use bidflock.Simulator.Random.{Rng}

-- Go's `s[0]`, `s[1:]` and `string(b)`.
pub record Bytes : Type 0 where
  pub first : String → ℕ
  pub rest : String → String
  pub of_byte : ℕ → String

-- The random source, the clock, `AddDate` with months and days from a time, identifiers, JSON, and
-- `http.Post` of a body to a path: its status and body, or none for an error.
pub record Host (F : Type 0) : Type 1 where
  pub World : Type 0
  pub Data : Type 0
  pub rng : Rng F World
  pub now : Act World Time
  pub months_after : ℕ → Time → Time
  pub days_before : ℕ → Time → Time
  pub new_uuid : Act World String
  pub bytes : Bytes
  pub advertisers : Codec Data Advertiser
  pub campaigns : Codec Data (Campaign F)
  pub ads : Codec Data Ad
  pub http_post : String → Data → Act World (Option (ℕ × Data))

abbrev pub industries : List String
industries =
    "e-commerce" ∷ "gaming" ∷ "fintech" ∷ "education" ∷ "health" ∷ "travel" ∷ "automotive"
    ∷ "fashion" ∷ "food" ∷ "entertainment" ∷ []

abbrev pub geo_targets : List (List String)
geo_targets =
    ("US" ∷ [])
    ∷ ("JP" ∷ [])
    ∷ ("GB" ∷ "DE" ∷ "FR" ∷ [])
    ∷ ("US" ∷ "CA" ∷ [])
    ∷ ("BR" ∷ [])
    ∷ ("IN" ∷ [])
    ∷ ("US" ∷ "GB" ∷ [])
    ∷ ("JP" ∷ "KR" ∷ [])
    ∷ []

abbrev pub interest_targets : List (List String)
interest_targets =
    ("sports" ∷ "gaming" ∷ [])
    ∷ ("fashion" ∷ "beauty" ∷ [])
    ∷ ("tech" ∷ "finance" ∷ [])
    ∷ ("food" ∷ "travel" ∷ [])
    ∷ ("education" ∷ "health" ∷ [])
    ∷ ("gaming" ∷ "entertainment" ∷ [])
    ∷ []

abbrev pub ad_types : List String
ad_types = "banner" ∷ "video" ∷ "native" ∷ []

-- `s[0] - 32` is a byte, so it wraps around.
unfoldable pub uc_first : Bytes → String → String
uc_first bytes s =
    if str_eq s "" then s else concat (bytes.of_byte ((bytes.first s + 224) % 256)) (bytes.rest s)

module _ {F : Type 0} (host : Host F) where
  open host use {World, Data, http_post}

  abbrev accepted : {A : Type 0} → Codec Data A → Option (ℕ × Data) → Option A
  accepted codec none = none
  accepted codec (some (status, body)) = if leb 400 status then none else codec.unmarshal body

  abbrev post_encoded : {A : Type 0} → Codec Data A → String → Option Data → Act World (Option A)
  post_encoded codec path none = pure none
  post_encoded codec path (some body) = do resp ← http_post path body; pure (accepted codec resp)

  -- `postJSON`; every body that the script posts has the type of the result.
  unfoldable pub post_json : {A : Type 0} → Codec Data A → String → A → Act World (Option A)
  post_json codec path body = post_encoded codec path (codec.marshal body)
