-- ===== src/Lib.antt =====
-- CellFlow tracks transactions of the CKB blockchain from their preparation to their settlement. A
-- snapshot has three axes, what was submitted, what the chain shows and how far the workflow is; a
-- reconciliation asks CKB nodes about the transaction and moves the snapshot by what they answer.
--
-- Core is packages/core/src. Core/Status and Core/Types are types.ts; Core/Errors is errors.ts, with
-- `throw` as the case `err` of a result. Of state-machine.ts, Core/Confirmation has
-- parseHexBlockNumber, computeConfirmationCount and isConfirmationSatisfied; Core/Settlement has
-- isSettlementReady, deriveOverallStatus and deriveRecommendedAction; Core/Submission has
-- updateSubmission; Core/Observation has initialSnapshot, applyChainObservation,
-- supersedeNodeRejectionFromChainEvidence and setWorkflowStatus. Core/Confirmation also has
-- parseConfirmationPolicy of confirmation.ts, and Core/Conflict is conflict-evidence.ts.
-- Assertions is packages/assertions/src/index.ts.
-- Rpc is workflows/reconcile/src/rpc.ts. Rpc/Session is one endpoint's session, whose network calls
-- are the fields of a record; Rpc/Inspect is creatorCanonicalEvidence and
-- inspectInputOutPointsOnSession; Rpc/Observe is assertIdentity and observe; Rpc/Client is the client
-- over several endpoints, withSession with its circuit breaker, inspectInputOutPointsAt and
-- verifyCanonicalBlockAt. Observations that Rpc/Observe makes are what Core/Observation applies, and
-- inspections are what Core/Conflict counts.
-- Reconcile is workflows/reconcile/src/reconcile.ts and monitoring.ts: Reconcile/Schedule has
-- nextReconcileDelayMs, isTerminal and monitoring.ts; Reconcile/Domain inputConflictDomain;
-- Reconcile/Corroborate corroborateCanonicalSpend; Reconcile/Assess evaluateAssertions. The function
-- reconcileIntentOnce is, after its observation, Reconcile/Draft, Reconcile/Contention,
-- Reconcile/Spend and Reconcile/Judge up to the conflict, and Reconcile/Decide from the expected
-- Cells to the call of applySnapshot; Reconcile/Compete is promoteCommittedCompetingCandidate, which
-- precedes it, with the observation of each candidate and the writes of Store/Promote; for an
-- observation that failed it is Reconcile/Outage. What reconciliation writes is the input of
-- Store/Apply.
-- Store is packages/db/src: Store/Rows has the records of types.ts and snapshotFromExecution,
-- Store/Outbox insertEventAndOutbox with the ledger of events and the webhook deliveries, and
-- Store/Apply applySnapshot, on the rows of one intent, as one transaction: it returns the new rows
-- or OptimisticConcurrencyError. Store/Reading is getIntent; Store/Attach attachTransaction, on the
-- attempts of the project and the revisions of signed payloads; Store/Submit markSubmissionStatus;
-- Store/Promote updateCandidateAttempt and promoteAttemptProjection. Store/Writers is the relation of
-- all these writers on an intent, in any order. Random identifiers and the database's clock are
-- arguments of the writers, and so is the comparison of stored inputs with new ones, which the
-- source makes on the text that the database returns. Store/Leases has the leases of reconciliation
-- (claimDueExecutions, renewReconcileLease, releaseReconcileLease) and Store/Deliveries the rows of
-- webhook_deliveries with their claims, leases, completion and retry by hand; each call is a function
-- of the whole table and of the time. Webhooks is packages/webhooks/src/delivery.ts: what an attempt
-- at a delivery records and when the next is due, with the post's outcome as an argument; Webhooks/Runs
-- is the relation of what workers and users do to the deliveries. In
-- workflows/webhook-delivery/src/index.ts each run of a worker claims under a random owner, which
-- the relation takes to be new. Webhooks/Destination is ssrf.ts, with the parsing of URLs, isIP and
-- the lookup of names as parameters. Core/Config is config.ts.
-- Api is apps/api/src/service.ts: Api/Retry the loop of three attempts, Api/Mark markSubmission and
-- Api/Attach attachTransaction, where each attempt reads the rows and then meets what other writers
-- have made of them. Core/Validation is validation.ts, through which Api/Attach passes its inputs.
-- Json holds the documents that the source types as `unknown`, and Prelude the shared helpers.
--
-- Numbers are natural numbers. A text is a string, read as its code units where the source matches a
-- regular expression; toLowerCase acts on the letters A to Z. Numbers in documents are natural, as
-- the program writes them. The stored copies of RPC answers and
-- the English messages of errors are left out, and so are the fields of an input observation that are
-- only stored. A session's answers do not change during one observation. A reconciliation takes as
-- arguments, in its context, signedPayloadFingerprintSha256 of packages/core/src/signed-payload.ts,
-- the reading and writing of times, the configured limits, and the documents in which evidence is
-- stored. The delay of a monitored settlement is rounded down to a millisecond. No definition needs
-- fuel: every loop of the modelled code runs over a list.
--
-- Not modelled: sockets, SQL, cryptography, the user interface, scripts, and the parts of the
-- repository that the list of components names as open.
mod Prelude
mod Examples
pub mod Json
pub mod Core
pub mod Assertions
pub mod Rpc
pub mod Store
pub mod Webhooks
pub mod Api
pub mod Reconcile
