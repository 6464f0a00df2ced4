-- ===== src/Lib.antt =====
-- ToolHub: a control plane that manages Skills and MCP servers on hosts, and a Bridge that runs on
-- each host and applies what the control plane sends. The control plane keeps its state in a
-- database, decides which tools of an MCP server an agent may call, and compiles manifests and
-- routing bundles. The Bridge takes signed requests, keeps a journal in a bbolt file, and acts on the
-- host through an adapter.
--
-- What models what, by the paths of the repository:
--   Policy, Policy/Schema, Policy/Reasons: internal/policy/catalog.go. `classify` is Classify, in
--     stages in the order of its body; a schema is a Json value, a RawMessage says whether the
--     bytes decode.
--   Protocol/Errors: the error codes and BoundedAPIError of internal/bridgeprotocol/types.go. A Go
--     `error` is a data type with the errors.New, ApiError and wrapping cases.
--   Protocol/Target, Protocol/Manifest: Target.Validate, DesiredManifest.Normalize and Validate of
--     the same file. An error is a constructor for each message; the first one wins, as in the code.
--   Protocol/Bundle, Protocol/Governance: the structs and RoutingBundle.Validate of
--     internal/bridgeprotocol/governance.go. A loop is a recursion over the list whose arguments are
--     the maps that the loop fills, held as lists of keys.
--   Protocol/Body: ValidateGovernanceBody of that file, a walk that carries the depth and a count.
--   Protocol/Canary: the capability of a Relay, and the request and response of the session canary.
--   Protocol/External: what these files take from google/uuid, the canonical JSON and Unicode.
--   Bridge/Auth, Bridge/Auth/Sign: VerifyRequest, SignRequest and ParseKey of
--     internal/bridgeprotocol/auth.go, VerifyPayload and SignPayload of
--     internal/security/token.go, with the digests as parameters. A time is its nanoseconds.
--   Bridge/Bolt: go.etcd.io/bbolt as an interface: buckets with get, put, delete and their laws, and
--     Bridge/Bolt/Assoc, a list of entries that meets it.
--   Bridge/Nonces: AcceptNonce of internal/bridge/journal.go and authenticate of
--     internal/bridge/server.go.
--   Bridge/Operation, Bridge/Operation/Encode: operations and results, what the journal keeps of a
--     result, the JSON of the structs by their tags, and hasSensitiveValue.
--   Bridge/Journal: IdempotencyGet, IdempotencyBegin, IdempotencyPut, PutOperation and Operation.
--   Bridge/Recovery: RecoverOperations and RecoverPendingIdempotency, at the start of the Bridge.
--   Bridge/Backups: Backups and GCBackups, and sortBackups of internal/bridge/journal_helpers.go.
--   Bridge/Server, Bridge/Server/Operations: mutation, recoveredIdempotencyResponse,
--     persistRunningOperation and persistSafeOperation of internal/bridge/server.go.
--   Files: a tree of files as os.Lstat, os.ReadDir and os.ReadFile show it.
--   Skills and its children: internal/skills/package.go. Slug is slugify, Paths safeArchivePath,
--     Contents normalizeRoot and parseFrontmatter, Inspect the report, Build buildPackage, Archive
--     ScanZIP, Directory ScanDirectory as a walk over the tree. What the ZIP library, YAML, regexp and
--     net/url do is the record `Library`.
--   Runtime and its children: internal/runtime/manager.go and PathsFor of internal/runtime/paths.go.
--     Copy is copyTree, Inventory the scan and managedDrift, Preflight the difference, Extract
--     extractSkillArtifact, Stage the new root of mirrorSkillRoot, Replace atomicReplaceDirectory,
--     backupRoot and restoreRoot, Manager Apply, Reconcile and Restore. A `Disk` is the Skill root,
--     what was moved aside, and the backups; how each system call ends, those of the scans before and
--     after the change too, is an argument (`Calls`), so a theorem holds for every combination of
--     failures.
-- Common holds the shared tests, lists, texts and paths; the modules below a component hold its
-- lemmas, and a module Tests holds its tests and witnesses.
--
-- How the parts meet: the Skill root is scanned with the scan of Skill packages, and a Skill
-- is extracted
-- through ScanZIP; a manifest carries a target and, for the shared relay, a routing bundle; a
-- request passes `authenticate`, then `mutation`, whose handler records its operation. Both work on
-- buckets of one Bolt, which the development never opens.
--
-- Limits. Every recursion is structural, so there is no fuel. A Go map that is ranged over is a
-- list, in the order of one iteration. Sorting is a stable insertion sort, where Go's may order
-- equal keys otherwise. bbolt does not say what a ForEach visits once its bucket has changed, so
-- the visits of RecoverOperations are an argument. A cursor that deletes while it moves visits the
-- entries that the bucket had when it began; bbolt does not promise that. Requests are served one
-- after the other: what two handlers do at the same time is not modelled. json.Marshal and
-- json.Unmarshal of one struct are taken to be inverse to each other. A nil slice is an empty list.
-- One failed write into a new directory stands for all, since the directory is then removed. The
-- owners of files, and changes that other processes make meanwhile, are left out. The text of an
-- error that nothing reads is shortened. Scans of Hermes and of the shared Relay are other
-- functions, so Restore is modelled for the native runtimes. A disk error of bbolt is not modelled
-- but for a key that it refuses.
--
-- Not modelled: the Salt recovery records of the journal, the adapter, the rest of the runtime engine
-- (Hermes, native clients, mcpm and the Relay process), the store and the compiler of profiles, the
-- worker, the HTTP API, the web interface, and mcpm, which is a copy of another project.
pub mod Common
pub mod Files
pub mod Json
pub mod Policy
pub mod Protocol
pub mod Bridge
pub mod Skills
pub mod Runtime
