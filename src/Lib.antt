-- ===== src/Lib.antt =====
-- A verification library for the RedStone oracles monorepo: the serialization of oracle data, the
-- registry of oracles, the decisions of the on-chain relayer, the packages and subscriptions of the
-- broker, and the agreement of RPC providers.
--
-- How the parts interact. Oracle nodes sign data packages; packages/protocol turns packages into the
-- bytes of a payload and back. The nodes and data services themselves are entries of a SmartWeave
-- contract, packages/oracles-smartweave-contracts. The relayer, packages/on-chain-relayer, fetches
-- packages through packages/sdk, decides which feeds of an adapter contract need an update, and runs
-- its updates through a queue. Packages also reach it over the message broker, whose clients are in
-- packages/mqtt5-client: a subscriber gathers the packages of a time, picks those closest to the
-- median with packages/sdk and passes them on. Chains are read and transactions are sent through
-- packages/rpc-providers.
--
-- Prelude: shared names. Tests and Lists (conditionals, lists measured by native numbers), Int
--   (integers, and `slice` of JavaScript), Results (a value or the error thrown), Dict (a JavaScript
--   object as a dictionary, with its order of keys).
-- Registry: packages/oracles-smartweave-contracts/src/contracts/redstone-oracle-registry.
--   State is types.ts (`RedstoneOraclesState` and the inputs), Common is common/, Nodes is nodes/,
--   DataServices is data-services/ and evolve.ts, Contract is `handle` of
--   redstone-oracle-registry.contract.ts with `run`, the state after a sequence of actions. A throw
--   is an error value, and a read leaves the state. Ownership, References, Lifecycle and Pages hold
--   the theorems.
-- Protocol: packages/protocol/src. Platform is what the code takes from ethers, decimal.js and
--   floating point, a record of operations, with the laws that are relied on as a second record;
--   Model is one platform that has the laws. Constants and Convert are common/, DataPoint and
--   DataPackage are data-point/ and data-package/, Payload and Parser are redstone-payload/. Bytes
--   and texts are lists of numbers. `toBytes` sorts the points of a package in place, so its model
--   returns the package that it leaves. Slices, ReadPoints, Layout, PackageParts, ReadPackage,
--   ReadPackages and RoundTrip lead up to the round trip of a payload; Canonical and Sorted are about
--   the order of the points, Objects about plain objects and sizes.
-- Relayer: packages/on-chain-relayer/src. Config is types.ts and config/RelayerConfig.ts. Packages
--   and Historical are `getDataPackagesTimestamp`, `getLastRoundDetails` and
--   `convertToHistoricalDataPackagesRequestParams` of packages/sdk/src. Deviation and Conditions are
--   core/update-conditions; MultiFeed is multi-feed/should-update-in-multi-feed.ts, ExtraFeeds is
--   multi-feed/gas-optimization and multi-feed/args; PriceFeeds is price-feeds/should-update.ts and
--   custom-integrations/mento/data-packages-decimals.ts; Override is
--   config/timely-override-since-last-update.ts. The contract's data is passed on as a state, since
--   `getLastRoundDetails` writes to it. OperationQueue is runner/OperationQueue.ts: calls of `enqueue`
--   and ends of operations are steps of a relation, in any order. Rounds, Newer, Additions, Inclusion,
--   Iteration, Due, LastFeed and Drain hold the theorems.
-- Mqtt: packages/mqtt5-client/src. PubSub is `subscribe` and `unsubscribe` of
--   MultiPubSubClient.ts; Replay is what its calls leave the clients subscribed to, and Fill,
--   Opening, Subscriptions, ReleaseCalls, ReleaseReplay and Release hold the theorems. Publish is
--   its `publish` and `stop`, with lodash's `chunk` as a parameter; Chunks has one that has the
--   laws. CircuitBreaker is RateLimitsCircuitBreaker.ts, FeedState is LastPublishedFeedState.ts.
--   Subscriber is DataPackageSubscriber.ts: State (the fields and the constructor), Publishing
--   (`publish` and what it calls), Receiving (`processNewPackage`), Events (the handler of messages,
--   the timers and `subscribe`, each a step; `run` is a sequence of them) and Fallback
--   (`enableFallback`). Timers keep an entry of `packagesPerTimestamp` that cleaning replaces by
--   another one with the same arrays, so entries and arrays have addresses in a store. Contract is a
--   machine for what the comment of the class says of the packages that are published. Reaction says
--   when they are, and Quorums and Timing lead to its theorem. Stores, Prepared, Soundness,
--   SoundPublish, SoundStore, SoundAdd and SoundReceive lead up to Refinement and Order; Repeats is
--   about the fallback.
-- Sdk: packages/sdk/src/DataPackagesResponseCache.ts, in ResponseCache, with lodash's `isEqual` and
--   `pick` as parameters; and pick-closest-to-median.ts in Closest, with the median of packages/utils
--   and the numbers of the relayer's Config; Sorting and Picking hold the theorems. Of
--   request-data-packages.ts, Requests is the validation of a gateway's answer, with the theorems in
--   Validated, FeedResults and Response, and Gateways is the choice among the gateways, whose
--   answers, errors, checks and timer are events in any order, with the theorems in MostRecent and
--   Gathered.
-- Rpc: packages/rpc-providers/src. Agreement is `executeWithAgreement` of
--   providers/ProviderWithAgreement.ts: the providers run concurrently, so its shared state goes
--   through a sequence of events in any order. Votes, MostVotes, Outcome and Settled lead up to
--   Justified and Finished. BlockNumbers is its `getBlockNumber`, with Monotone; CuratedList is
--   providers/CuratedRpcList.ts with `weightedRandom` of packages/utils, and Quarantine. Broadcast
--   and TxDelivery are tx-delivery-man/TxDelivery.ts with the scaling of gas and fees, the network
--   being an environment; Delivery and Attempts hold the theorem.
-- The Examples of each part run the theorems at concrete inputs.
--
-- Bounds and fuel. Numbers are natural numbers; the ones that JavaScript must hold exactly are bounded
-- by the checks of the code, which the models keep. Two loops run on fuel: `_subscribe`, two rounds a
-- topic and two more: a round either makes a connection, after which the next one takes a topic, or
-- takes a topic at once; and `getBestProviders`, one call for each provider in quarantine and one
-- more, since each call releases one. All other loops follow a list or a count that is read from the
-- input.
--
-- Not modelled. Network requests, the clock, cron-parser, ethers, decimal.js, lodash and floating
-- point are parameters. Log and error messages are left out, except for what tells errors apart.
-- Calls of the broker's clients that fail are left out, and of the relayer the loop around an
-- iteration and the calls of contracts. Of the subscriber a callback that throws is left out, of
-- the RPC providers the fees from the history of blocks, the fallback among providers and the
-- decorators. Records are values, so what `_.cloneDeep` protects from sharing is not shown; a
-- picked package is kept as it is where the source builds it again by `SignedDataPackage.fromObj`;
-- a configured deviation check has its percentage; and fees are scaled by the kind they have,
-- whichever estimator does it. The cache service, the connectors to chains other than Ethereum's
-- and the contracts in other languages are not part of it.
mod Prelude
pub mod Registry
pub mod Protocol
pub mod Relayer
pub mod Mqtt
pub mod Sdk
pub mod Rpc
