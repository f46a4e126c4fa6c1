-- ===== src/Simulator/Counts.antt =====
-- The counters of traffic.go against the goroutines that write them.
use bidflock.Prelude.{
  ℕ, zero, suc, ◌+◌, ◌<◌, ◌≡◌, refl, ◌∙◌, ap, List, [], ◌∷◌, length, sym, subst, ltb, leb, ◌==◌,
  ◌&&◌, ◌*◌, if◌then◌else◌, arith,
}
use bidflock.Simulator.Stats.{
  Stats, Answer, Phase, SendStep, LoadStep, Reached, bump, bucket_of, bucket_count, zeros, sum,
  failed, bid, no_bid, started, counted, timed, sorted, finished, counts, answers, sorts, finishes,
  spawns, here, there, begins, steps, count_request, add_latency, add_bucket, count_answer,
}

-- How much of a quantity the goroutines carry together.
abbrev pub carried : (Phase → ℕ) → List Phase → ℕ
carried of [] = 0
carried of (p ∷ ps) = of p + carried of ps

abbrev pub requested : Phase → ℕ
requested started = 0
requested counted = 1
requested (timed _ _) = 1
requested (sorted _ _) = 1
requested (finished _ _) = 1

abbrev pub waited : Phase → ℕ
waited started = 0
waited counted = 0
waited (timed ms _) = ms
waited (sorted ms _) = ms
waited (finished ms _) = ms

abbrev pub bucketed : Phase → ℕ
bucketed started = 0
bucketed counted = 0
bucketed (timed _ _) = 0
bucketed (sorted _ _) = 1
bucketed (finished _ _) = 1

-- Whether a latency belongs into a bucket: each has two milliseconds, the last has all the rest.
abbrev pub belongs : ℕ → ℕ → ℕ
belongs i ms =
    if ltb i 49
    then (if leb (i * 2) ms && ltb ms (i * 2 + 2) then 1 else 0)
    else if i == 49
    then (if leb 98 ms then 1 else 0)
    else 0

abbrev pub sorted_into : ℕ → Phase → ℕ
sorted_into i started = 0
sorted_into i counted = 0
sorted_into i (timed _ _) = 0
sorted_into i (sorted ms _) = belongs i ms
sorted_into i (finished ms _) = belongs i ms

-- `buckets[i]`, and 0 beyond them.
abbrev pub entry : ℕ → List ℕ → ℕ
entry i [] = 0
entry zero (n ∷ ns) = n
entry (suc i) (n ∷ ns) = entry i ns

abbrev pub is_failed : Answer → ℕ
is_failed failed = 1
is_failed bid = 0
is_failed no_bid = 0

abbrev pub is_bid : Answer → ℕ
is_bid failed = 0
is_bid bid = 1
is_bid no_bid = 0

abbrev pub is_no_bid : Answer → ℕ
is_no_bid failed = 0
is_no_bid bid = 0
is_no_bid no_bid = 1

abbrev pub closed : (Answer → ℕ) → Phase → ℕ
closed of started = 0
closed of counted = 0
closed of (timed _ _) = 0
closed of (sorted _ _) = 0
closed of (finished _ a) = of a

-- Each counter holds what the goroutines have added to it.
pub record IsCounted (ps : List Phase) (st : Stats) : Type 0 where
  pub requests : st.total_requests ≡ carried requested ps
  pub latency : st.total_latency_ms ≡ carried waited ps
  pub buckets : sum st.latency_buckets ≡ carried bucketed ps
  pub each_bucket : (i : ℕ) → entry i st.latency_buckets ≡ carried (sorted_into i) ps
  pub size : length st.latency_buckets ≡ bucket_count
  pub errors : st.total_errors ≡ carried (closed is_failed) ps
  pub bids : st.total_bids ≡ carried (closed is_bid) ps
  pub no_bids : st.total_no_bids ≡ carried (closed is_no_bid) ps

length-bump : (i : ℕ) (ns : List ℕ) → length (bump i ns) ≡ length ns
length-bump i [] = refl
length-bump zero (n ∷ ns) = refl
length-bump (suc i) (n ∷ ns) = ap suc (length-bump i ns)

sum-bump : (i : ℕ) (ns : List ℕ) → i < length ns → sum (bump i ns) ≡ sum ns + 1
sum-bump i [] h = absurd (omega arith)
sum-bump zero (n ∷ ns) h = omega arith
sum-bump (suc i) (n ∷ ns) h = omega (arith, sum-bump i ns (omega arith))

entry-bump :
    (i j : ℕ) (ns : List ℕ)
    → i < length ns
    → entry j (bump i ns) ≡ entry j ns + (if i == j then 1 else 0)
entry-bump i j [] h = absurd (omega arith)
entry-bump zero zero (n ∷ ns) h = omega arith
entry-bump zero (suc j) (n ∷ ns) h = grind arith
entry-bump (suc i) zero (n ∷ ns) h = grind arith
entry-bump (suc i) (suc j) (n ∷ ns) h = grind (arith, entry-bump i j ns (omega arith))

entry-zeros : (i n : ℕ) → entry i (zeros n) ≡ 0
entry-zeros i zero = refl
entry-zeros zero (suc n) = refl
entry-zeros (suc i) (suc n) = entry-zeros i n

bucket_of-belongs : (i ms : ℕ) → (if bucket_of ms bucket_count == i then 1 else 0) ≡ belongs i ms
bucket_of-belongs i ms = ground arith

bucket_of_lt : (ms : ℕ) → bucket_of ms bucket_count < bucket_count
bucket_of_lt ms = ground arith

-- What one step adds to a counter it adds to what the goroutines carry.
record Moves (st su : Stats) (ps qs : List Phase) : Type 0 where
  requests : su.total_requests + carried requested ps ≡ st.total_requests + carried requested qs
  latency : su.total_latency_ms + carried waited ps ≡ st.total_latency_ms + carried waited qs
  buckets :
      sum su.latency_buckets + carried bucketed ps ≡ sum st.latency_buckets + carried bucketed qs
  each_bucket :
      (i : ℕ)
      → entry i su.latency_buckets + carried (sorted_into i) ps
        ≡ entry i st.latency_buckets + carried (sorted_into i) qs
  size : length su.latency_buckets ≡ length st.latency_buckets
  errors :
      su.total_errors + carried (closed is_failed) ps
      ≡ st.total_errors + carried (closed is_failed) qs
  bids : su.total_bids + carried (closed is_bid) ps ≡ st.total_bids + carried (closed is_bid) qs
  no_bids :
      su.total_no_bids + carried (closed is_no_bid) ps
      ≡ st.total_no_bids + carried (closed is_no_bid) qs

SendStep-Moves :
    {p q : Phase} {st su : Stats} (ps : List Phase)
    → SendStep p st q su
    → length st.latency_buckets ≡ bucket_count
    → Moves st su (p ∷ ps) (q ∷ ps)
unfolding count_request add_latency add_bucket count_answer
SendStep-Moves ps counts h = record {
  requests = omega arith;
  latency = refl;
  buckets = refl;
  each_bucket = λ i. refl;
  size = refl;
  errors = refl;
  bids = refl;
  no_bids = refl;
}
SendStep-Moves ps (answers {ms}) h = record {
  requests = refl;
  latency = omega arith;
  buckets = refl;
  each_bucket = λ i. refl;
  size = refl;
  errors = refl;
  bids = refl;
  no_bids = refl;
}
SendStep-Moves ps (sorts {st} {ms}) h =
    let ns = st.latency_buckets in
    let k = bucket_of ms bucket_count in
    let more =
      sum-bump (bucket_of ms (length ns)) ns
        (subst (λ n. bucket_of ms n < n) (sym h) (bucket_of_lt ms)) in
    let at : (i : ℕ) → entry i (bump (bucket_of ms (length ns)) ns) ≡ entry i ns + belongs i ms =
      λ i.
        ap (λ n. entry i (bump (bucket_of ms n) ns)) h
        ∙ entry-bump k i ns (subst (λ n. k < n) (sym h) (bucket_of_lt ms))
        ∙ ap (λ n. entry i ns + n) (bucket_of-belongs i ms) in
    record {
      requests = refl;
      latency = refl;
      buckets = omega (arith, more);
      each_bucket = λ i. omega (arith, at i);
      size = length-bump (bucket_of ms (length ns)) ns;
      errors = refl;
      bids = refl;
      no_bids = refl;
    }
SendStep-Moves ps (finishes {a = failed}) h = record {
  requests = refl;
  latency = refl;
  buckets = refl;
  each_bucket = λ i. refl;
  size = refl;
  errors = omega arith;
  bids = refl;
  no_bids = refl;
}
SendStep-Moves ps (finishes {a = bid}) h = record {
  requests = refl;
  latency = refl;
  buckets = refl;
  each_bucket = λ i. refl;
  size = refl;
  errors = refl;
  bids = omega arith;
  no_bids = refl;
}
SendStep-Moves ps (finishes {a = no_bid}) h = record {
  requests = refl;
  latency = refl;
  buckets = refl;
  each_bucket = λ i. refl;
  size = refl;
  errors = refl;
  bids = refl;
  no_bids = omega arith;
}

LoadStep-Moves :
    {ps qs : List Phase} {st su : Stats}
    → LoadStep ps st qs su
    → length st.latency_buckets ≡ bucket_count
    → Moves st su ps qs
LoadStep-Moves spawns h = record {
  requests = omega arith;
  latency = omega arith;
  buckets = omega arith;
  each_bucket = λ i. omega arith;
  size = refl;
  errors = omega arith;
  bids = omega arith;
  no_bids = omega arith;
}
LoadStep-Moves (here {ps} s) h = SendStep-Moves ps s h
LoadStep-Moves (there s) h =
    let rest = LoadStep-Moves s h in
    record {
      requests = omega (arith, rest.requests);
      latency = omega (arith, rest.latency);
      buckets = omega (arith, rest.buckets);
      each_bucket = λ i. omega (arith, rest.each_bucket i);
      size = rest.size;
      errors = omega (arith, rest.errors);
      bids = omega (arith, rest.bids);
      no_bids = omega (arith, rest.no_bids);
    }

-- In whatever order the additions of the goroutines interleave, each counter of the load generator
-- holds what they have added to it: one request for each that has counted itself, its latency once it
-- has an answer, one in the bucket of just that latency, two milliseconds wide or the last of the
-- fifty, and one of error, bid and no bid when it is through.
pub Reached-IsCounted : {ps : List Phase} {st : Stats} → Reached ps st → IsCounted ps st
Reached-IsCounted begins = record {
  requests = refl;
  latency = refl;
  buckets = refl;
  each_bucket = λ i. entry-zeros i bucket_count;
  size = refl;
  errors = refl;
  bids = refl;
  no_bids = refl;
}
Reached-IsCounted (steps r s) =
    let old = Reached-IsCounted r in
    let move = LoadStep-Moves s old.size in
    record {
      requests = omega (arith, old.requests, move.requests);
      latency = omega (arith, old.latency, move.latency);
      buckets = omega (arith, old.buckets, move.buckets);
      each_bucket = λ i. omega (arith, old.each_bucket i, move.each_bucket i);
      size = move.size ∙ old.size;
      errors = omega (arith, old.errors, move.errors);
      bids = omega (arith, old.bids, move.bids);
      no_bids = omega (arith, old.no_bids, move.no_bids);
    }
