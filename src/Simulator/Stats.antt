-- ===== src/Simulator/Stats.antt =====
-- The counters of internal/simulator/traffic.go: `sendRequest` as one goroutine among others, whose
-- atomic additions interleave. A counter is an `int64` that counts requests, so it is taken as exact.
use bidflock.Prelude.{ℕ, zero, suc, ◌+◌, ◌-◌, ◌/◌, List, [], ◌∷◌, length, leb, if◌then◌else◌}

pub record Stats : Type 0 where
  pub total_requests : ℕ
  pub total_bids : ℕ
  pub total_no_bids : ℕ
  pub total_errors : ℕ
  pub total_latency_ms : ℕ
  pub latency_buckets : List ℕ

-- `[50]int64`
abbrev pub bucket_count : ℕ
bucket_count = 50

abbrev pub zeros : ℕ → List ℕ
zeros zero = []
zeros (suc n) = 0 ∷ zeros n

abbrev pub no_stats : Stats
no_stats = record {
  total_requests = 0;
  total_bids = 0;
  total_no_bids = 0;
  total_errors = 0;
  total_latency_ms = 0;
  latency_buckets = zeros bucket_count;
}

abbrev pub sum : List ℕ → ℕ
sum [] = 0
sum (n ∷ ns) = n + sum ns

-- What `sendBidRequest` answers: an error, or a response with or without seats.
pub data Answer : Type 0 where
  failed : Answer
  bid : Answer
  no_bid : Answer

-- `buckets[i]++`
abbrev pub bump : ℕ → List ℕ → List ℕ
bump i [] = []
bump zero (n ∷ ns) = suc n ∷ ns
bump (suc i) (n ∷ ns) = n ∷ bump i ns

abbrev pub bucket_of : ℕ → ℕ → ℕ
bucket_of latency_ms count = if leb count (latency_ms / 2) then count - 1 else latency_ms / 2

unfoldable pub count_request : Stats → Stats
count_request st = record st { total_requests = st.total_requests + 1 }

unfoldable pub add_latency : ℕ → Stats → Stats
add_latency ms st = record st { total_latency_ms = st.total_latency_ms + ms }

unfoldable pub add_bucket : ℕ → Stats → Stats
add_bucket ms st = record st {
  latency_buckets = bump (bucket_of ms (length st.latency_buckets)) st.latency_buckets;
}

unfoldable pub count_answer : Answer → Stats → Stats
count_answer failed st = record st { total_errors = st.total_errors + 1 }
count_answer bid st = record st { total_bids = st.total_bids + 1 }
count_answer no_bid st = record st { total_no_bids = st.total_no_bids + 1 }

-- Where a goroutine of `sendBurst` stands in `sendRequest`: before it, then after each addition.
pub data Phase : Type 0 where
  started : Phase
  counted : Phase
  timed : ℕ → Answer → Phase
  sorted : ℕ → Answer → Phase
  finished : ℕ → Answer → Phase

-- One atomic addition of `sendRequest`. The answer comes between the first and the second.
pub data SendStep : Phase → Stats → Phase → Stats → Type 0 where
  counts : {st : Stats} → SendStep started st counted (count_request st)
  answers :
      {st : Stats} {ms : ℕ} {a : Answer} → SendStep counted st (timed ms a) (add_latency ms st)
  sorts :
      {st : Stats} {ms : ℕ} {a : Answer} → SendStep (timed ms a) st (sorted ms a) (add_bucket ms st)
  finishes :
      {st : Stats} {ms : ℕ} {a : Answer}
      → SendStep (sorted ms a) st (finished ms a) (count_answer a st)

-- A step of the load generator: a goroutine starts, or one of them goes on.
pub data LoadStep : List Phase → Stats → List Phase → Stats → Type 0 where
  spawns : {ps : List Phase} {st : Stats} → LoadStep ps st (started ∷ ps) st
  here :
      {p q : Phase} {ps : List Phase} {st su : Stats}
      → SendStep p st q su
      → LoadStep (p ∷ ps) st (q ∷ ps) su
  there :
      {p : Phase} {ps qs : List Phase} {st su : Stats}
      → LoadStep ps st qs su
      → LoadStep (p ∷ ps) st (p ∷ qs) su

-- What the load generator can come to from its start.
pub data Reached : List Phase → Stats → Type 0 where
  begins : Reached [] no_stats
  steps :
      {ps qs : List Phase} {st su : Stats} → Reached ps st → LoadStep ps st qs su → Reached qs su
