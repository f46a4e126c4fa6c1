-- ===== src/Lib.antt =====
-- bidflock, a demand-side platform for ad auctions: a model of its services and the theorems about
-- them.
--
-- A bid request reaches the bidding service over HTTP. It reads the active campaigns from Redis,
-- asks the scoring service for a bid for each of their ads, asks the budget service whether each bid
-- may be made and how it is paced, runs the auction, has the budget service deduct the price, and
-- answers; every run publishes one result on Kafka. The campaign service manages advertisers,
-- campaigns and ads in MongoDB and publishes an event for each change of a campaign; the bidding,
-- budget and scoring services each keep their own view of the campaigns from these events.
--
-- Files and sources:
--   Prelude: what all parts share. Prelude/Float is Go's float64 as an interface with the IEEE 754
--     facts that theorems name as hypotheses; Prelude/Fixed is a concrete instance for the
--     examples; Prelude/State is the type of a method that may change the world, Prelude/Partial
--     that of one that may also panic; Prelude/Text shows numbers.
--   Models: the structs of pkg/models (Campaign, Events, OpenRtb) and of gen/go (Messages).
--   Auction: internal/bidding/auction.go. `sort.Slice` is the parameter `Sorter`. Auction/Order and
--     Auction/Outcome prove what a run comes to; Auction/Insertion is a sorter.
--   Bidding: internal/bidding/service.go and handler.go. Peers is what the service calls, Build
--     makes its messages, Process is `ProcessBidRequest`, Handler is `bid`, ActiveSet is
--     `SyncCampaign`. Accounting, Price and Pacing hold proofs.
--   Budget: internal/budget. Redis is the server with the documented effect of each command; Keys,
--     Pacing, Limiter, Service and Server are keys, pacing.go, limiter.go, service.go and
--     grpc_server.go. Spend treats one deduction, Grant one check, Solvent and History whole histories,
--     Window the frequency cap, Divergence the recursion of pacing.go; Unchanged, Gone and Expired
--     treat a budget whose key has expired.
--   Scoring: internal/scoring. Store is what it uses of Redis; Feature, Predictor and Service are
--     feature.go, predictor.go and service.go. Cover, Cache, Probability and Rising hold proofs.
--   Campaigns: internal/campaign. Database is MongoDB, Kafka, the clock and the uuid package;
--     Repository, Service and Handler are repository.go, service.go and handler.go. Documents is
--     what MongoDB holds, and a sequence of changes; Events, Links, Validity and Api hold proofs.
--   Consumers: internal/consumer and the dispatcher of cmd/consumer/main.go. Rows and Writer are
--     writer.go, Handlers the three handlers; Conserve follows the rows through the writer,
--     Drain through `Close`.
--   Simulator: internal/simulator. Random is math/rand and the uuid package; Users and Requests are
--     user_gen.go and request_gen.go, Traffic and Stats traffic.go, Reporter and Funnel reporter.go
--     and event_gen.go. Picking, WellFormed and Served treat the requests, Bursts the load, Counts
--     and Answered the counters, Percentiles, Quantiles and Seconds the reporter, Chain the funnel.
--   Rpc: the stubs of gen/go with the codec of pkg/codec (Wire, Stubs) and internal/bidding/
--     grpc_client.go (Clients). Calls and Delivery treat the two ends of a call.
--   Clients: pkg/kafka (Consumer) and pkg/redis (Store). Delivered treats commits.
--   System: the services together. Denied and Starved treat the bids of the bidding service with the
--     budget service behind it, Solvent the daily budgets, Wired and Connected the gRPC connection
--     between them. Follower is a service that follows the campaigns from their events; Writes and
--     Consistent treat the changes that it follows, Active is the active set of the bidding service,
--     Cached the cache of the scoring service, CaughtUp the consumer that cmd/bidding/main.go starts,
--     Resurrected two requests at a time.
--   Commands: the main functions of cmd. Process is what a process does, Services and Simulate are
--     the commands; Orderly holds proofs.
--   Seed: scripts/seed.go. Data is its tables and what it calls, Script is `main`.
--   The Example files are concrete worlds for the examples in the Tests files.
--
-- A method is a function from the world to its results and the new world. Calls of other systems
-- are fields of a record, and their answers are values: a call that fails or times out answers
-- `none` or an error. A call of Redis in Budget may lose its answer before or after the server has
-- run the command. Goroutines that publish a result are listed when they are started; the calls of
-- one request are in the order of the code, and a script of Redis is one step. In Consumers/Writer the
-- goroutines are part of the state, and events say which of them takes its next step; in
-- Simulator/Stats a relation gives the atomic additions of the goroutines, in any order.
--
-- Fuel: `GetMultiplier` and `getPacingInfo` of internal/budget call each other, so `get_multiplier`
-- and what uses it take the number of calls that may still be made, and answer `none` when it is
-- used up. No amount is enough while Redis answers, as Budget/Divergence shows; when a read in the
-- recursion fails, the call returns. `run` of Clients/Consumer takes the number of turns of a loop
-- that only its context ends, and its theorems hold for every number. All other loops are structural.
--
-- Not modelled: metrics, logs, the JSON encoding itself, the transport of gRPC and HTTP, routers
-- and their middleware, constructors that only store their arguments, and what the load generator
-- and the seed script print. Rounding is that of
-- the `Float64` interface: nothing is assumed of it but the laws that a theorem names.
pub mod Prelude
pub mod Models
pub mod Auction
pub mod Bidding
pub mod Budget
pub mod Scoring
pub mod Campaigns
pub mod Consumers
pub mod Simulator
pub mod Rpc
pub mod System
pub mod Clients
pub mod Seed
pub mod Commands
