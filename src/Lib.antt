-- ===== src/Lib.antt =====
-- Fusion+ swaps between Ethereum and Aptos: a model of the off-chain services and what holds of it.
--
-- A user signs an order in the frontend and sends it to the order engine, over HTTP or over a socket.
-- The order engine keeps the orders (OrderService) and tells all connected clients of every change.
-- Resolvers listen, decide when and how much of an order to fill by their share and by a Dutch
-- auction, create escrows on the destination chain, record their fills at the order engine, and ask
-- the user for the secret when the source escrow exists. A partial fill has a secret of its own, one
-- of the leaves of a Merkle tree. A relayer submits transactions on behalf of users.
--
-- The files and the code they model:
--   * Base: numbers, lists, a JavaScript `Map` (Base/Dict), integers (Base/Int), methods that may
--     throw (Base/Exec), and truth of optional texts (Base/Truthy).
--   * Amount: decimal texts and percentages, as backend/order-engine/src/services/OrderService.ts
--     uses them.
--   * Order: backend/order-engine/src/types/order.ts; Order/Samples holds orders for tests.
--   * Signature: backend/order-engine/src/utils/signature.ts.
--   * OrderService: backend/order-engine/src/services/OrderService.ts, all methods (createOrder
--     is create_order, and so on). The state is the record Service: the two maps, and the events
--     that were emitted. A method is an action that gives a result or an error and the state it
--     leaves. OrderService/State has the state and its errors, OrderService/Counting how the
--     fills of an order are counted, and OrderService/Commands the calls as data, with `step` and
--     `run`. OrderService/Market is its specification: each order's state as a function of the
--     calls that concern it, and the market as a quotient that forgets all
--     but the order stored at each id.
--   * Auction: backend/order-engine/src/utils/dutchAuction.ts, of which
--     backend/resolver/src/utils/dutchAuction.ts is a copy.
--   * Secrets: backend/order-engine/src/utils/partialFillSecrets.ts but for its trees.
--   * Merkle: generateSecrets of frontend/src/utils/partialFillSecrets.ts, and verifyMerkleProof
--     of contracts/ethereum/contracts/FusionPlusGaslessEscrowV2.sol.
--   * Escrow: contracts/ethereum/contracts/FusionPlusGaslessEscrowV2.sol, all functions that
--     change its state. Escrow/State has its data, Escrow/Requests its calls as data,
--     Escrow/Steps the contract as a state machine, and Escrow/Cases and Escrow/Calls how a call
--     takes the steps of it.
--   * Socket: backend/order-engine/src/websocket/orderSocket.ts. A handler gives the calls on
--     socket.io, in order, and the new state of the service.
--   * Routes: backend/order-engine/src/api/routes/orders.ts. A request gives a response and the
--     new state of the service.
--   * Relayer: the /relay route of backend/relayer/src/services/RelayerServiceSimple.ts, split
--     where it awaits its transaction, so that requests can interleave.
--   * Resolver: calculateOptimalFillPercentage of
--     backend/resolver/src/services/ResolverServiceV2.ts; Resolver/PartialFill: its
--     handlePartialFillOrder and createPartialEscrows; Resolver/PartialFill/Reported: its
--     handleAPTEscrowCreated; Resolver/PartialFill/Revealed: its handler of secret:reveal;
--     Resolver/FillIndex: its determineFillIndex; Resolver/Intake: its handleNewOrder, split at
--     its first wait, and Resolver/Intake/News: its listeners of order:new, order:update and
--     order:fill; Resolver/Balances: its checkBalance, getDestinationBalance and
--     getCurrentFillPercentage, and backend/resolver/src/services/BalanceTracker.ts. Of the same
--     service, Resolver/Settlement: its completeSwap and updateFillStatus; Resolver/Monitoring:
--     the polls of startEscrowMonitoring and handleSourceEscrowCreated; Resolver/Prices: its
--     checkProfitability and the amount that createDestinationEscrow pays out, with
--     backend/resolver/src/services/PriceService.ts; Resolver/Opening and Resolver/Opening/State:
--     its createDestinationEscrow and executeGaslessWETHEscrow; Resolver/Opening/MultiAgent: its
--     handleMultiAgentAptosOrder; Resolver/Signed: its listeners of signed orders, and
--     Resolver/Signed/Simulated: its handleSponsoredAptosOrder, which announces an escrow without
--     a transaction. These methods run over a state that holds the resolver's maps and the steps
--     taken so far: each call on a chain or on the order engine and each message is a step, and a
--     record holds the answers. A failed call is an error that the caller's catch block handles.
--
-- Units and bounds: percentages are natural numbers in units of 1/300 %, so that thirds are exact;
-- rates are integers in units of 10⁻⁶, and times whole seconds or milliseconds as in the source.
-- The rounding of floating-point numbers is not modelled: prices and the rates made of them are
-- exact fractions, and a text that is no number makes parseInt none. Fuel is used in two places:
-- the digits of a number have as much fuel as the number itself, and the Merkle tree has as much as
-- there are leaves, which is enough since a level of more than one node is followed by a shorter
-- one.
--
-- The parameters are what the code takes from libraries and from outside: ethers (hashes, recovered
-- addresses, BigInt of its own), zod's parsing, uuids, the clock, the answers of the chains and of
-- the order engine to the resolver; for the contract, the hashes, ECDSA.recover, the tokens' transfers
-- and the caller's transaction.
--
-- Not modelled: the user interface and the wallets, the calls on the chains themselves, the other
-- contracts, the events and getters of the one that is modelled and tokens that call it back,
-- scripts, and the trees of merkletreejs. Of the resolver: the waits between its steps and handlers
-- that overlap in them, and the methods that nothing calls (handleSignedEthereumOrder,
-- checkPartialFillOrderExists).
pub mod Base
pub mod Amount
pub mod Order
pub mod Signature
pub mod OrderService
pub mod Auction
pub mod Secrets
pub mod Merkle
pub mod Socket
pub mod Routes
pub mod Relayer
pub mod Escrow
pub mod Resolver
