-- ===== src/Lib.antt =====
-- The JavaScript packages of the Useful repository: the Computer Use controller, the CSV and Markdown
-- tables of the office core, and the action runtime with the contract of its actions.
--
-- The parts, and the files that model them.
--   Js: the values that cross the packages' borders, and the tests that the code makes on them. A
--     value is plain data: it has no getters and no prototype of its own.
--   ComputerUse: packages/computer-use-contract/src/index.mjs. A policy (normalizeComputerUsePolicy, in
--     ComputerUse/Policy) limits what a session may do. A session (ComputerUse/Session) observes, and
--     executes one action at a time: it reads the request (assertComputerUseAction in
--     ComputerUse/Action, validateSafetyChecks in ComputerUse/Checks), lets the provider prepare the
--     action, asks for an approval of every check, records the authorization, and commits. Answers of
--     the provider carry network evidence (ComputerUse/Network), whose addresses are read and
--     rejected by ComputerUse/Address. The error codes and the shape tests are in ComputerUse/Base.
--   Office: packages/office-core/src/csv.mjs and table-markdown.mjs, with the limits of limits.mjs and
--     exactObject of errors.mjs. Office/Csv reads (parseCsv), Office/Csv/Writer writes and inspects
--     (stringifyCsv, inspectCsv), Office/Markdown writes tables (rowsToMarkdownTable),
--     Office/Markdown/Reader reads them (parseMarkdownTable), and Office/Base has the limits and codes.
--   Actions: packages/action-runtime/src and packages/action-contract/src/index.mjs. Actions/Contract
--     checks a schema and a value against it (validateSchemaShape, validateValue, utf8JsonBytes), and
--     Actions/Descriptor the descriptor of an action (validateActionDescriptor). The registry holds the
--     fields of a descriptor that has been accepted.
--     Actions/Registry keeps the actions by name (registry.mjs) and Actions/Query pages through them,
--     in the order of Actions/Order (compareCodePoints). Actions/Executor runs a registered action
--     between its guards (executor.mjs), Actions/Receipt is the check that each of its receipts runs
--     through (validateExecutionReceipt of action-contract/src/receipt.mjs), and Actions/Recipe checks and runs a recipe of several calls
--     (recipe.mjs): Pointer has its references, Run the expansion of templates and the loop over the
--     steps. Actions/Diff and Actions/Ipv4 are the handlers of the text diff and of the IPv4 action
--     (utility-actions.mjs), with the checks of Actions/Base and the lines of Actions/Lines.
--     Js/Json is the JSON.stringify that the contract and the recipes measure with.
--
-- How the code corresponds to the definitions.
--   A text is the list of its UTF-16 code units, which is what length and an index read in the source.
--   A function that throws returns a Result with the code of the error; messages are left out.
--   A loop over an array or a text is a recursion over the list: there is no fuel in the code's
--     functions. Query/Pages follows cursors for as many rounds as it is given, which are enough.
--   A handler is a function from its input to the events of its call, in their order: that it returns or
--     throws, that the timer fires, that the signal is aborted. The first one settles the call, as in
--     guardedCall. A registry is a list of entries and a list of names, each name with its entry.
--   What a recipe's steps put out is kept by the identifier of the step; a run is a fold over the steps,
--     and what the abort controller says in a round is an argument of it.
--   A session is a record, and the code between two awaits is one transition of it. Session.step maps
--     an event (a call of observe, execute or close, the end of an await, an abort by the caller, by a
--     deadline or by close, and the promises that go on after their operation was given up) to the
--     next session, the calls that it makes and the reply to the caller. Session.run folds a list of
--     events, so a theorem on every list covers every order in which they can come.
--   runBounded lets an operation fail as soon as its signal is aborted, while the operation's own
--     promise goes on. The event settle is that failure; an answer that comes before it runs into
--     assertCurrent. The promises left behind change a session only by a failed audit of an
--     observation and by the flag commitCompleted, which are events of their own.
--   runBounded begins an operation in a job of its own, behind the code that called it. For observe this
--     job is an answer to the event observe, at which the provider is asked, so a close or an abort may
--     come in between; a settle cannot, since the job runs before the promise can reject. For execute the job only reads on, up to the digest, which calls nobody outside.
--   The code that runs when a promise settles (finally, then catch of execute) is one transition
--     with the settling, so no other event comes in between.
--   The call of the provider's close, its answer and the record of it are the event provider_closed;
--     the calls that a step makes are those of observe and execute.
--
-- Parameters: the platform's URL parser (url), which is new URL with the four parts that the code
--   reads, or that it throws; the digest of an action (digest), which is Web Crypto's SHA-256 of
--   canonical JSON; whether the controller has an approval callback (asks); and clock readings, which
--   are arguments of the events. In the action runtime: the platform's comparison of two numbers
--   (less), its NFKC normalization to lower case (normalize), the executor that the
--   caller of a recipe brings along (call), and what the abort controller says in each round (turn).
--
-- Bounds. A buffer has no own properties here, as an ArrayBuffer and a DataView have none; the elements of
--   a typed array, which are own properties of it, are not modelled. toLowerCase is written out for the units whose lower case is or contains an ASCII letter. The
--   digest of an observation is a text here: the source's test would also let an array pass that
--   prints as a digest. IP literals keep the source's own length limits where it has them.
--
-- Not modelled: the maps of sessions, the checks of a new session's handle and identifier, and reap;
--   the fields of audit events and canonical JSON; the conversions between formats, ZIP and OOXML of the
--   office core; of the action runtime the times of receipts and their upgrade, the suggestions
--   and the other handlers; the agent, host and plugin packages, the command line, the MCP server, the
--   desktop application and the Rust crates. The cycle tests of recipes are not modelled either: a value here is a tree.
pub mod Common
pub mod Js
pub mod Office
pub mod ComputerUse
pub mod Actions
