-- ===== src/Lib.antt =====
-- AfroPay: the core of the payment API (apps/api/src of the repository), its services as functions
-- on explicit state.
--
-- The parts and how they interact. A client sends a transfer (transaction/transaction.service.ts):
-- with an idempotency key or without, a row is created and a job is put on the queue
-- 'transactions'. The worker (transaction/transaction.processor.ts) takes the job, takes a lease
-- on the transaction (common/lock/lock.service.ts), compares the amounts
-- (transaction-integrity.ts), asks the fraud service, submits to the chain and stores the outcome.
-- A job that has used up its attempts goes to the queue of failed jobs
-- (transaction-dlq.service.ts). Freezing and clawback (transaction/compliance-action.service.ts)
-- are requested and approved by administrators and then handed to the Rust worker as a job. A
-- guard (rate-limit/rate-limit.guard.ts) counts the requests of a client. An hourly check
-- rebalances the reserves of corridors (reconciliation/liquidity.service.ts). The worker reaches
-- the chain through a router over RPC endpoints (soroban/rpc-client.service.ts). Users have
-- wallets (wallet/wallet.service.ts), deposit and withdraw in sessions with an anchor
-- (anchor/sep24.service.ts) and confirm their documents (kyc/kyc.service.ts); a reviewer gives
-- them a tier, which has a daily limit. The browser keeps the transfers that are written offline
-- and delivers them later (apps/frontend/lib). The services write to the audit log
-- (audit/audit.service.ts), a chain of hashes.
--
-- The files.
--   Prelude      the monad `Exec` of state and errors, triples and their rules, tables of the
--                database, lists, Boolean tests
--   Audit        AuditService.log as `log` over `append`; the payload of an entry; the chain
--                (Chain), the trigger of the database (Trigger), the queries (Query)
--   Compliance   ComplianceActionService: `request_action`, `approve`, `reject`, `execute`,
--                `record_execution_result`; FourEyes has the step relation of the service,
--                Listing its query
--   Drafts       offlineQueue.ts and syncEngine.ts of apps/frontend/lib: the queue, `claim_draft`,
--                `drain_queue` and the other operations
--   Kyc          KycService: Upload has `generate_upload_url`, `confirm_upload`, `submit_kyc`,
--                `update_kyc_record`; Limits has `assert_within_daily_limit`, Spent
--                `get_daily_spent` and KycGuard as `can_activate`, Day the transfers of a day
--   Lock         InMemoryRedisLockStore as `acquire`, `extend`, `release`; RedisLockService as
--                `acquire_lock`, `extend_lock`, `release_lock`, `with_lock`
--   Liquidity    LiquidityService: `check_rebalance_guards`; Corridors has `check_corridor`,
--                Results `record_execution_result`
--   RateLimit    RateLimitGuard as `can_activate` over buckets in memory
--   Rpc          RpcClientService: the endpoints and their health; Ranking is rankHealthy, Calls
--                is withEndpoint and the polls
--   Sep24        Sep24Service: the sessions and their tokens, `Steps` the step relation
--   Transaction  the rows and the queue; Send is TransactionService.sendTransfer; Amount is
--                transaction-integrity.ts; Processor is TransactionProcessor; Dlq is
--                TransactionDlqService; History is getHistory and getTransactions,
--                Status is getTransaction, updateRiskScore and
--                updateTransactionStatus of TransactionService
--   Wallet       WalletService: Service has creation, import, the default, aliases, deletion
--
-- The model. An action takes the state and returns a result or an error with the new state: what
-- was written before a throw stays. Errors are the classes of the exceptions, without their texts.
-- Texts are `String`, times are natural numbers of milliseconds, absent values (undefined and
-- null) are `none`; an idempotency key is a text that is not empty. The JSON of cached responses
-- and of job data is the value it stands for. Log lines are left out, and the metadata of the
-- worker's audit events.
--
-- Parameters. The tables of the database, the queues, the fraud service, SHA-256 and the
-- identifiers and tokens that are drawn are arguments; what is assumed of them stands in records
-- of laws (IsAuditTable, Table, IsLawful, IsTxTable, IsReader, IsRanged, IsQueue, IsPaged,
-- IsSessionTable, IsToken, IsWalletTable, IsOrdered), each with an instance in a module of tests.
-- The store of documents and its digests, the signed tokens of sessions, the replies of endpoints
-- and of the server of the drafts are functions; the browser's store is a list of records.
-- JavaScript numbers that are not whole (`Numbers`) are an abstract type. Risk scores are an
-- abstract type with the two comparisons that the worker makes, and the amounts of rebalances one
-- with the operations that the guards use. The database and Redis answer every call, except where
-- an operation returns an error of its own (the audit log, the queues, the creation of a
-- transaction). Calls run to their end one after the other, except where a theorem splits a call
-- at the point where another one comes between. The code that is modelled loops over lists and
-- texts only, by structural recursion; the one definition on fuel is `collect` of
-- Transaction/History/Walk, a client that follows cursors, with one page more than there are rows.
--
-- Not modelled: the limiter on Redis, the reserve monitor and the forecast of liquidity, the
-- simulation of fees and transfers, anchors, erasure, authentication, the encryption of wallets
-- and their reconciliation with the chain, the key vault, the HTTP layer, the rest of the front
-- ends, the Rust worker, the contracts and the Python analytics.
pub mod Prelude
pub mod Audit
pub mod Compliance
pub mod Drafts
pub mod Kyc
pub mod Liquidity
pub mod Lock
pub mod RateLimit
pub mod Rpc
pub mod Sep24
pub mod Transaction
pub mod Wallet
