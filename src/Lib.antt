-- ===== src/Lib.antt =====
-- A verification library of the engine: the Go program under go/ that watches the pools of two
-- exchanges on Arbitrum, enumerates arbitrage cycles, prices them and sends flash-loan transactions.
--
-- Parts and files, by the path of the code below go/internal:
--   scheduler/latest.go     Scheduler: chain heads, coalesced to the newest one. Scheduler/Steps has
--                           the interleavings of its goroutines as a step relation, Sequential the
--                           calls one after the other.
--   dex/evm.go              Dex: ABI words, hexadecimal text, calldata.
--   pools/pools.go          Pools; Logs the log scan that finds changed pools, Discovery the pools of
--                           a pair and the refresh of one.
--   routes/routes.go        Routes: cycles over the market; Limits has the budgets, Paths the
--                           permutations, Combinations the pools of each hop, Cycles the whole.
--   cache/pool_cache.go     Cache: pool states with their blocks.
--   pricing/pricing.go      Pricing: the economics of an opportunity.
--   wallet/wallet.go        Wallet: reserved nonces.
--   rpc/client.go           Rpc: Limiter the rate limit and the minute budgets, Errors what an answer
--                           means and whom it blames, Provider the settings and the state of
--                           a provider, Health what changes it, Choice the provider for a request, Call
--                           the loop over attempts.
--   opportunity/engine.go, quotes/quotes.go
--                           Opportunity: the candidate that the pipeline takes; Quotes the quote cache
--                           and its budget, Costs the cached fees, Sampling the hops and costs of a route,
--                           Evaluation what an evaluation returns and announces, Quoters the calls
--                           of the two quoters.
--   execution/builder.go, execution/pipeline.go, simulation/simulation.go, tx/manager.go
--                           Execution: requests and their validation; Build makes them, Pipeline is
--                           the run from a candidate to a transaction, Gates what it guarantees.
--   graph/graph.go          Graph: the liquidity graph, Cycles its simple cycles.
--   optimizer/optimizer.go  Optimizer: Samples the sizes of a loan, Best the choice among them.
--   nearmiss/nearmiss.go    NearMiss: what is recorded of rejected routes, and their scores.
--   safety/oracle.go        Safety: the gate over price feed and sequencer.
--   fees/arbitrum.go        Fees: the cost of a transaction.
--   tx/manager.go           Tx: error classes and waiting for a receipt; its broadcast is in
--                           Execution/Pipeline/Broadcast.
-- A chain head goes from the scheduler to the log scan, whose changed pools go to the cache;
-- routes are enumerated over the cached pools and evaluated by the opportunity engine, whose
-- quotes are calls of the RPC client; a candidate goes through the pipeline, which uses the
-- wallet's nonces. Base has what all parts share. Each part's Tests runs it on small inputs.
--
-- How the code is read:
--   - a string is a list of bytes, with ASCII case and white space; a big.Int is an integer, optional
--     where the code tests for nil; a time is a number, 0 for the zero time; in the safety gate the
--     seconds of a feed wrap and the ages saturate at 64 bits, as in Go's package time;
--   - a 64-bit number is a natural number, with its wrap-around written out where it can occur;
--     an int that the code treats as 0 when it is negative is a natural number;
--   - a map is an association list with one entry a key, or a function;
--   - the answers of the node, the Keccak hash, the ABI packing, address parsing and signatures are
--     arguments; metrics and tracker entries are a list of events;
--   - a method under a lock is one step. In the scheduler the compare-and-swap, the critical section,
--     the send and the receive are steps of their own. A section of the RPC client reads the clock
--     once, and the client and the engine are the caller's alone during a call and an evaluation; the
--     quote counters are followed through every interleaving of the sections.
-- Bounds: the log scan runs on fuel, one round more than the last block's number, and the results
-- include that this is enough; waiting for a receipt runs on one round more than the poll that gives
-- it; the inner loop of Run takes its fuel as an argument. Every other loop is structural.
--
-- Not modelled: the market engine, the counters of the quoters' metrics, the WebSocket client, the
-- snapshots and the wrappers of the RPC client, whose average latency is an argument, decision and
-- pair statistics, the averages of the route memory, configuration, notifications and logs, the
-- commands; the Python bot and the contracts, which are other programs.
pub mod Base
pub mod Cache
pub mod Dex
pub mod Execution
pub mod Fees
pub mod Graph
pub mod NearMiss
pub mod Opportunity
pub mod Optimizer
pub mod Pools
pub mod Pricing
pub mod Routes
pub mod Rpc
pub mod Safety
pub mod Scheduler
pub mod Tx
pub mod Wallet
