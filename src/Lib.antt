-- ===== src/Lib.antt =====
-- A verification library for the plugins of this repository: clients that add the methods of a
-- Solana service to a connection. Each plugin keeps its own state and talks to the network through
-- the connection that it is given; the plugins do not call each other, but for the name service,
-- whose methods stand in front of the connection's.
--
-- Shared modules
--   Prelude: lists over the native numbers, JavaScript's `Map` with text keys, integers, code that
--     may throw (Result) and code that may throw and changes a state (Effect: what was written before
--     a throw stays written), JavaScript's numbers as an interface (Number).
--   Bytes: `Uint8Array` and `DataView`; a write or a read out of range is the RangeError.
--   Connection: calls to the network, numbered, and the transactions that are sent. What a call
--     answers is a parameter and may differ from call to call.
--
-- Programs
--   Pyth (kit-plugin-pyth/src/lib/pyth-client.ts): Pyth.Price is parsePythPriceAccountData,
--     Pyth.Accumulator is parseAccumulatorUpdate, Pyth.Borsh is buildPostUpdateAtomicData with
--     borshEncodeBytes and borshEncodeProofVec. A loop over a count that was read is a recursion on
--     that count. Pyth.Client has the requests to Hermes, Pyth.Client.Post the posting of updates.
--   Watch: the polls and the interval of watchPythPriceFeed (kit-plugin-pyth) and of watchTokenPrice
--     and watchPortfolioValue (kit-plugin-jupiter-pricing), over any sequence of ticks and answers.
--   Jupiter (kit-plugin-jupiter-pricing/src/lib): Jupiter.Client is JupiterClient of jupiter.ts with
--     its caches, Jupiter.Utils is utils.ts, Jupiter.Plugin the methods of plugin.ts.
--   Switchboard (kit-plugin-switchboard/src/lib/switchboard-client.ts): Switchboard.Feed is
--     parseSwitchboardFeedAccountData, Switchboard.Client is SwitchboardClient.
--   Squads (kit-plugin-squads-multisig/src/lib/squads-client.ts): Squads.Client is SquadsClient.
--   Tuktuk (kit-plugin-tuktuk-task-scheduler/src/lib/tuktuk-client.ts): Tuktuk.Compile is
--     compileTukTukTransaction, Tuktuk.Bitmap is nextAvailableTaskId, Tuktuk.Seed is bigIntToSeed, and
--     Tuktuk.Client has the methods that read accounts and send transactions. A generated instruction
--     builder is the record of its input; generated decoders and fetchers, the derivation of
--     addresses and SHA-256 are parameters. Tuktuk.Monitor is monitorTask, as the runs of its
--     interval.
--   Metaplex (kit-plugin-metaplex/src/lib): Metaplex.Deserialize is metadata-deserializer.ts, and
--     Metaplex.Client is MetaplexClient, with its cache in the state. A reading of the clock counts as
--     a call, so two readings may differ. getBatchTokenMetadata is not modelled.
--   Ans (kit-plugin-ans-name-service/src/lib/ans.ts): Ans.Client is ANSClient with both caches.
--     Ans.Plugin is plugin.ts, where the methods of the connection are parameters: one that returns a
--     promise is a computation, and watchPortfolioValue, which returns at once, a `Direct` one.
--   Arcium (kit-plugin-arcium/src/lib): Arcium.Plan is how upload-circuit.ts divides a circuit,
--     Arcium.Upload its instructions, Arcium.Pda the addresses of pda.ts, Arcium.Upload.Run is
--     uploadToCircuitAcc and uploadCircuit. What Promise.all starts runs in the order in which it is
--     started, and all of it runs even if a part of it throws. The chunk loop has the number of
--     upload transactions as fuel, which is enough for a chunk size above zero, since each round then
--     sends at least one; with zero the loop of the source does not end.
--     Arcium.Serialization is serialization.ts, and Arcium.Events is events.ts: a poll is a
--     computation over the calls and the pauses, and the attempts that are left are the 120 of the
--     source. awaitComputationFinalizationSubscription is not modelled. Arcium.Encryption is the key
--     fetch of encryption.ts.
--
-- Not modelled: the rest of the Arcium plugin, the adapters for Kite and LiteSVM, generated program
-- clients, and kit-plugin-arcium/src/lib/rescue-cipher.ts, which is a copy of another project's code. Console
-- output has no model. All other recursion is structural.
mod Prelude
pub mod Bytes
pub mod Connection
pub mod Watch
pub mod Pyth
pub mod Tuktuk
pub mod Metaplex
pub mod Ans
pub mod Arcium
pub mod Jupiter
pub mod Switchboard
pub mod Squads
