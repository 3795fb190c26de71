-- ===== src/Lib.antt =====
-- The money services of the Kanz Coins backend: how an account is charged and refunded, how an order
-- ends, how a deposit is credited, and how a referrer earns commissions and is paid.
--
-- The parts and how they interact. An order is paid from its user's wallet, which may go below zero
-- down to a credit line; each change of a balance puts one entry on the ledger. A provider reports
-- the state of an order as a text, which is mapped to an order status. A result moves the order out
-- of PROCESSING and may call for a refund, which flags the order and pays the wallet. An
-- administrator may refund an order or complete it by force. An approved deposit credits the wallet
-- and may earn the user's referrer a commission. A payout locks commissions; a review releases them,
-- or marks them as paid, by hand or with a credit to the wallet.
--
-- The files.
--   Prelude: shared names; Tests (Boolean tests on numbers), Int (integers over the native numbers),
--     Lists, Table (a collection of documents under their ids), Query (updates, counts and selections
--     on it), Exec (calls that return or throw, sessions with rollback), Text (texts as code points),
--     Number (JavaScript numbers, parseFloat), Double (IEEE doubles, and in Double/Rounding the error of
--     a rounding).
--   Money: amounts and the rounding helpers of src/modules/wallet/wallet.service.js.
--   Errors: the classes of src/shared/errors/AppError.js, by their codes.
--   Db: the collections: src/modules/users/user.model.js, src/modules/groups/group.model.js,
--     src/modules/wallet/walletTransaction.model.js, src/modules/orders/order.model.js.
--   Wallet: src/modules/wallet/wallet.service.js. debitWalletAtomic is debit_wallet_atomic,
--     refundWalletAtomic is refund_wallet_atomic, creditWalletDirect is credit_wallet_direct,
--     forcedDebitWallet is forced_debit_wallet in its read and its write, _createTransactionRecord is
--     create_transaction_record. Below it: Accounts, Charges, Credits and Refusals (one operation),
--     Books and Limits (any sequence of them), RoundTrip, Races, Effects.
--   Providers/Status: src/modules/providers/statusMapper.js; _MAP is status_map.
--   Orders/Refund: markOrderAsFailed, processOrderRefund (its reads and guards are plan_order_refund,
--     its writes commit_order_refund) and markOrderAsCompleted of src/modules/orders/order.service.js.
--   Orders/Fulfillment: transitionFromProcessing, refundFailedOrder and processOrderStatusResult (its
--     branches are count_retry, complete_terminal and refund_terminal) of
--     src/modules/orders/orderFulfillment.service.js.
--   Orders/Admin: refundOrder and completeOrder of src/modules/admin/admin.orders.service.js.
--     Below Orders: Branches (the states an operation can end in), Results (what a predicate needs to
--     hold through a status result), Once (the refund guard), Graph (the statuses), Polling, Payments,
--     Proportional, Lifecycle, Overrides, Quota.
--   Targets: approveTargetOrder and rejectTargetOrder of src/modules/targets/target.service.js, each as
--     its read and its write; Targets/Reviews is what they do, alone and interleaved.
--   OrderFields: validateOrderFields and applyProviderMapping of
--     src/modules/orders/orderFields.validator.js; below it Accepted (one value), Loop (its steps),
--     Rules (what it stands for, without its loop), Agreement and Returned (the loop against the rules),
--     Validated (a whole submission) and Mapping.
--   AdminWallet: addFunds, deductFunds and setBalance (set_user_balance) of
--     src/modules/admin/admin.wallet.service.js; below it Adjustments (one call), Books (any sequence
--     of them) and Debts, which has adjustNegativeBalancesForInflation and
--     adjustNegativeBalancesForDeflation as the two courses of adjust_negative_balances.
--   Store: the collections beside those of the wallet: src/modules/deposits/deposit.model.js,
--     src/modules/referrals/referralCommission.model.js,
--     src/modules/referralPayouts/referralPayout.model.js, src/modules/currency/currency.model.js.
--   Payouts: createReferralPayout of src/modules/referralPayouts/referralPayout.service.js, with
--     the choice of commissions for an amount in Selection, their checks in Validation, a key that
--     was used before in Replay, the three reviews in Review and the audit in Audit. Invariant is
--     the agreement of payouts and commissions; Settle, Claim and Earn keep it on the tables,
--     Ends, WalletEnds and CreateEnds are the states that a call can end in, Keeps and Runs put
--     these together; Reviews and Payment are single calls.
--   Commissions: processDepositReferralCommission of src/modules/referrals/referralCommission.service.js,
--     with eligibility in Referrals, percentages and conversion in Rates, and the marks on the deposit
--     in Marks. Keeps is what a predicate needs to hold through it,
--     Records and Repeat are about a second call; Reconcile has reconcileReferralCommissions and
--     setReferralCommissionOverride.
--   Deposits: createDepositRequest, approveDeposit, rejectDeposit and updatePendingDeposit of
--     src/modules/deposits/deposit.service.js, the first in Requests; Automation is
--     src/modules/deposits/paymentMethodAutomation.service.js. Ends, Once (any sequence) and Edits.
--
-- How state and calls are modelled. The state is a record of collections; a collection is a list of
-- documents under their ids. One atomic update of the server (findOneAndUpdate, updateOne,
-- updateMany) is one step on it. A call takes the state to a result and a new state; what was written
-- before a throw stays written unless a session rolls it back, and a Boolean says whether a session
-- could be opened. A document that a caller read earlier is an argument, and may be stale. The id that
-- a new document gets is an argument; an id that is taken is refused like a broken unique index, and a
-- duplicate key inside a session is an error that can be caught in it, where a server would end the
-- transaction. refundFailedOrder always opens its session, as on a server that has transactions. A
-- save does not refuse an order for a negative `remains` that an update without validation stored.
--
-- Numbers. An amount is an exact decimal with six places, kept as an integer of millionths; binary
-- floating point is modelled only where its rounding can change whole units, the partial refund of
-- processOrderRefund, which floors a product of doubles. Elsewhere an amount is what the code computes
-- before its rounding error. `toFixed` and Math.round are written out. Rates and percentages count millionths too.
-- ObjectIds and dates are natural numbers.
--
-- Parameters. The server's $round, with the one law KeepsCents: it leaves an amount in whole cents
-- alone. The quotients of decimal.js in a commission (`divide`), the hash of a payout request
-- (`hash`), the text of an id (`id_text`) and the cache of the currency converter (`cached`), about
-- which nothing is assumed.
--
-- Bounds. Loops are recursion on lists. The scaling of a double's significand (raise and lower)
-- has as many steps as a double has exponents, so they run out only where a double loses digits or
-- overflows. The retry limit is the code's 120.
--
-- Not modelled: audit entries, notifications and test hooks (fire and forget), the controllers, routes
-- and validation, the provider adapters and the jobs that call them, and the services that
-- are left for later: registration and login, products, categories, order creation, currencies but
-- for the rate that a deposit reads, the normalisation of a payout request and its receipt file.
pub mod Prelude
pub mod Money
pub mod Errors
pub mod Db
pub mod Wallet
pub mod Providers
pub mod Orders
pub mod Targets
pub mod OrderFields
pub mod AdminWallet
pub mod Store
pub mod Payouts
pub mod Commissions
pub mod Deposits
