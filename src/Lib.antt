-- ===== src/Lib.antt =====
-- Verification library of the crypto-sim backend: the services of backend/src that move balances,
-- and what can be said of every history of their calls.
--
-- The program is a NestJS backend over one PostgreSQL database. Users place binary options on a demo
-- and a real account; administrators create and decide trades, review deposits and withdrawals, and
-- keep a pool of deposit addresses; jobs settle expired trades, release expired reservations and
-- complete trading cycles. All services share the tables of backend/prisma/schema.prisma.
--
-- Files and what they model:
-- - Common and its children: helpers, integers over the native naturals, lists, texts as lists of
--   code points, results of calls that throw, and tables as lists with unique keys, after Prisma's
--   findUnique, update, updateMany and delete.
-- - Database: the rows and the record of all tables that the modelled services touch.
-- - Samples: rows for the tests.
-- - Transactions: TransactionLogService (backend/src/transaction-log/transaction-log.service.ts).
--   Hours is ensureMarketOpen; Durations is UserResponseDto.normalizeTradeDurations
--   (backend/src/users/dto/user-response.dto.ts); Reasons is buildPendingForceSettleReason and
--   parsePendingForceSettleReason; Balances is updateUserAccountAfterSettle; Settle is
--   settleTransactionBySystem and settleTransaction; Create is createTransaction; AdminCreate is
--   adminCreateTransaction; Cancel is cancelTransaction, updateCurrentPrice,
--   getTransactionByOrderNumber and forceSettleTransaction; Listing is getUserTransactions,
--   getAdminTransactions and getUserStatistics, and Listed what they answer; AutoSettle is
--   autoSettleByOrderNumber and autoSettleExpiredTransactions. Calls lets the calls follow each other
--   in any order; Changes
--   breaks them into writes of one trade; Outcomes says what a call that goes through has read and
--   written; Owners, Equity and Statistics hold the invariants; Forced is about the preset of a
--   settlement.
-- - Deposits: DepositAddressService and DepositAddressRiskCheckerService
--   (backend/src/deposit-address): Patterns is ADDRESS_PATTERNS; Addresses is create, update, remove,
--   findByAddress, getById, checkOne and runScheduled; Allocate is allocateForUser; Release is
--   releaseExpiredAllocations; Review is consumeAllocation and applyReviewOutcome. Fitting tells what
--   an address must be and which a user has used, Picking is about
--   the address that an allocation gives, Accounts about what its pending amount stands for.
-- - Funding: FundingService (backend/src/funding/funding.service.ts): Checks is its checks and
--   parsers; Requests is createDeposit, createWithdraw and updateWithdrawAddress; Reviews is
--   reviewRecord; Listing is findUserRecords, findAdminRecords and countAdminPendingRecords. Outcomes
--   says what a review that goes through has read and written, Balances is
--   about the users' balances, and Accounts about the pool of deposit addresses.
-- - MarketSessions: MarketSessionService (backend/src/market-session/market-session.service.ts).
--   Lifecycle lets its calls follow each other; Listing is findAll.
-- - TradingManagement: TradingManagementService
--   (backend/src/trading-management/trading-management.service.ts): Completion is
--   handleCycleCompletion, with the writes that may fail; Numbers is about the cycles,
--   Sessions about the states; Listing is findAllSessions, findOneSession and findAllCycles.
-- - Users: UsersService (backend/src/users/users.service.ts) in Service, generateUniqueUserId
--   (backend/src/common/utils/user-id.generator.ts) in Ids, and OperatorsService
--   (backend/src/operators/operators.service.ts) in Operators. Balances is about adjustments, Distinct
--   about identifiers and addresses.
-- - Email: EmailVerificationService (backend/src/email/email-verification.service.ts) and the route
--   verify-code of backend/src/email/email.controller.ts. Codes is about what verifies, Runs about
--   sequences of calls.
-- - Auth: AuthService (backend/src/auth/auth.service.ts) in Service, AdminAuthService
--   (backend/src/admin-auth/admin-auth.service.ts) in Admins, and bcrypt and the tokens in Libraries.
--   Sessions is about passwords and refresh tokens, LastAdmin about who can still log in, Accounts
--   about the calls of all services that write users.
-- - Support: SupportService (backend/src/support/support.service.ts): Rows is its tables;
--   Conversations is getOrCreateUserConversation, closeConversation and assignConversation; Messages
--   is sendMessage, markAsRead and recallMessage; Queries is the lists and counts; Csv is
--   exportConversationsAsCSV, with a reader of the format in its child. Unread and Runs are about the
--   counters, Opening about interleaved calls, Paging about pages, Recall about recalled messages.
-- - Settings: SettingsService (backend/src/settings/settings.service.ts). Lookup is about what a reader
--   sees.
-- - Access: FrontendIpWhitelistService
--   (backend/src/frontend-ip-whitelist/frontend-ip-whitelist.service.ts) in Frontend and
--   IpWhitelistGuard (backend/src/common/guards/ip-whitelist.guard.ts) in Guard. Lists is about both.
--
-- How the services interact. All but Support, Email, Settings and the administrators' accounts write
-- the one Database: trades and reviews move the balances that the administration of users adjusts, and
-- registration uses up a code of Email before it inserts a user. Support, Email, Settings and the
-- administrators have tables that nothing else writes, and a state of their own here.
--
-- How the state corresponds. An operation takes the database and gives a result: the row and the
-- database after the writes, or what it throws. The clock, drawn identifiers and order numbers,
-- market prices and fetched pages are arguments. A call runs to its end before the next one starts,
-- but for getOrCreateUserConversation, whose parts interleave, and updateSettingsBatch, whose writes
-- come in any order; a throw stands before the first write, or in a transaction that is rolled back,
-- and where it does not (mail, registration, the web server's file, the completion of cycles) the call
-- returns the state beside its outcome, or the state that it leaves. Amounts are
-- integers in units of 10^-8, the scale of the columns, rates of 10^-4; the products that the source
-- computes as floating-point Numbers are rounded half up to the column's unit. Times are
-- milliseconds. Identifiers are numbers that are only compared.
--
-- No loop over rows needs fuel. The attempts of generateUniqueUserId are bounded by the source, at ten.
-- JSON.stringify and JSON.parse are a parameter with the law that what was written is read back;
-- String.prototype.toUpperCase and the market's prices are parameters without laws. bcrypt compares the
-- first 72 bytes of UTF-8, and a signed token verifies until it expires: these are the laws of
-- Auth.Libraries. Node's isIP and Number, the package ipaddr.js, and the database's search without regard to case are parameters without laws.
--
-- Not modelled: logging, the delivery of broadcasts and of the queue, sending mail, market
-- data, content, the passport strategies, a batch of settings in which a write fails, and
-- interleavings of other calls than the two above.
pub mod Common
pub mod Database
pub mod Samples
pub mod Transactions
pub mod Deposits
pub mod Access
pub mod Auth
pub mod Email
pub mod Funding
pub mod MarketSessions
pub mod Settings
pub mod Support
pub mod TradingManagement
pub mod Users
