-- ===== src/Lib.antt =====
-- A model of mcptrust, which pins what an MCP server offers and guards the connection to it. A scan
-- of a server lists its tools, prompts and resource templates; the lockfile holds hashes of them;
-- `mcptrust check` compares a new scan with the lockfile; and the proxy stands between a host and the
-- server, filters the lists that the server sends and refuses calls that the lockfile does not name.
--
-- Parts, and the code that each file models:
--   Base              numbers, lists, results, strings as lists of bytes, Go maps with string keys as
--                     association lists (Base/Maps), shared by all.
--   Json              the values that encoding/json decodes into interface{} (internal/proxy/bridge.go).
--   Models            internal/models: lockfile.go, lockfile_v3.go, policy.go,
--                     report.go.
--   Locker/Canonical  internal/locker/canonical.go: canonicalizeValueV1 with the marshalling of its
--                     result is canonicalize_v1, writeJCSValue is write_jcs_value.
--   Locker/Hash       internal/locker/hasher.go and hasher_v3.go.
--   Locker/Build      internal/locker/builder_v3.go: Build is build.
--   Differ            internal/differ/v3.go: CompareV3 is compare_v3; each comparison is its two loops,
--                     `removed` and `each`.
--   Proxy/Limits      internal/proxy/limits.go: ReadLine is read_line over the bytes still to come.
--   Proxy/Template    CompileTemplateMatcher of internal/proxy/enforce.go, and the matching that the
--                     regular expressions it builds do: a placeholder but the last takes a run
--                     without '/', the last takes any run.
--   Proxy/Enforce     the allowlists of internal/proxy/enforce.go.
--   Proxy/Filter      internal/proxy/filter.go: the tables of pending and used IDs (register, apply,
--                     prune_recent_used) and the filters of lists.
--   Proxy/Session     internal/proxy/proxy.go: handle_host_request and handle_server_response are one
--                     round each of the loops handleHostRequests and handleServerResponses, on one
--                     shared state; Proxy/Session/Served runs any interleaving of rounds. Messages
--                     of internal/proxy/errors.go.
--   Proxy/Preflight   the gates of preflight of internal/proxy/proxy.go: drift_gate for its lines on
--                     the drift, policy_gate for those on the rules.
--   Check             internal/cli/check_output.go: BuildCheckResult is build_check_result.
--   Runner/Docker     internal/runner/docker_parser.go.
--   Runner/Command    internal/runner/sanitize.go; Runner/Command/Words is the grammar of commands, of
--                     its own. Runner/Override is its ValidateArtifactMatch.
--   Artifact          internal/artifact/resolver.go and isValidDigest of internal/artifact/pin.go.
--   Scanner           internal/scanner/engine.go: list_pages is the loop of ListPrompts and of
--                     ListResourceTemplates; Scanner/Risk, Scanner/Command (parseCommand) and
--                     Scanner/Report (Scan, cut at its early returns) are the rest of the file.
--   Locker/Manager    internal/locker/manager.go, on decoded lockfiles.
--   Differ/Engine     internal/differ/engine.go, with internal/differ/translator.go in
--                     Differ/Translator.
--   Policy            internal/policy/engine.go.
--   Redact            internal/observability/receipt/redact.go.
--   Tarball           internal/netutil/tarball.go: follow is client.Do of package net/http with the
--                     client of createSecureClient, one connection after the other.
--   Signature         internal/crypto/signature.go.
--   Examples          the definitions and the theorems at concrete inputs.
--
-- State is passed explicitly: a round takes the state and gives the next one with what it wrote. The
-- locks of the proxy make each round of the filter one step, so that an interleaving is a sequence of
-- rounds. A Go map is an association list without double keys; its order stands for the order of a
-- range statement, which Go leaves open.
--
-- Parameters: SHA-256, the marshalling of scalars, the decoding of runes and the arithmetic of float64
-- (the record Encoding), the random bytes of request IDs, the two clock readings of a round, the
-- quoting of %q and the digits of %d, strings.ToLower and unicode.ToLower, unicode.IsSpace, the
-- started process of a scan with its answers (the record Server), the library of CEL (the record
-- Cel), the network of a download (the record Network), the encodings of a signature file (the record
-- Codec) and the library jsondiff on the texts of the empty object and a schema.
--
-- Bounds and fuel: the attempts of Register are counted by a number that starts at the 3 of the code;
-- the deletions of pruneRecentUsed take the size of the table as fuel, which is enough since each of
-- them shortens it. The loops over pages count down from the 100 pages of the code, and the theorem on
-- a server that answers page by page asks for fewer pages. All other loops recur on their input.
--
-- Not modelled: starting and stopping processes, the file system, the network, keys and cosign,
-- bundling, logging, and the printing of the command line. Nor are these, which have logic of their
-- own: the provenance of artifacts and the registries (internal/artifact), the runners of pinned
-- artifacts (internal/runner), and the policy input of version 3 (internal/policy/policy_input.go).
-- canonicalizeNumber and idKey of the proxy have no caller but tests. Where sort.Slice leaves the order
-- of equal keys open, the model keeps it. A nil slice is the empty list.
pub mod Base
pub mod Json
pub mod Models
pub mod Proxy
pub mod Locker
pub mod Differ
pub mod Runner
pub mod Scanner
pub mod Artifact
pub mod Policy
pub mod Check
pub mod Redact
pub mod Tarball
pub mod Signature
mod Examples
