-- ===== src/Lib.antt =====
-- mirror-sync keeps local mirrors of Debian and Alpine package repositories. For each repository it
-- fetches the signed metadata, decides from it which files to mirror, downloads what is missing,
-- publishes the metadata behind the files, and prunes what is no longer named.
--
-- How the parts interact. internal/config reads the settings, and says which repositories there are
-- and from which servers, with which limits and proxy, each is fetched. internal/app runs the
-- repositories and repeats a run that fails. The runner of a repository, of internal/apt or
-- internal/apk, fetches the state that the repository is to have, downloads it, and prunes the
-- rest. internal/apt verifies a suite's Release, selects files from it, derives the by-hash copies
-- and reads the indexes into a map of payloads. internal/download fetches files through
-- internal/httpx, whose requests hold permits of internal/limit, checks them, and hands them to
-- internal/publish, which renames them into place. Every path of a file goes through internal/safe.
--
-- Files, and the code that each is about:
--   Base        shared types and lemmas: results, Go integers, Go strings as bytes, maps, sorting
--   Model       internal/model/model.go: Checksums and the values that the parts exchange
--   Safe        internal/safe/path.go: Rel is rel, Join is safe_join
--   Apt         internal/apt: Checksums (sameChecksums, mergeChecksums, ranks), ByHash
--               (parseAcquireByHash, deriveByHashFiles), History (validateByHashHistory,
--               updateByHashHistory), Control (scanControl, addPayload), Packages (parsePackages),
--               Sources (parseSources), Signed (verifyInRelease, verifyDetachedSignature), Release
--               (parseReleaseHashes, selectReleaseForms), Select (selectReleaseFiles),
--               Resolved (internal/apt/resolved_state.go), Indexes (openResolvedNamedIndex,
--               openPublishedNamedIndex, consumeIndex), Runner (fetchState, readPublishedState,
--               loadByHashHistory, writeByHashHistory, pruneState, Sync, Verify, Prune)
--   Apk         internal/apk/apk.go: verifyAPKIndex, verifyAPKPayload; Index (parseIndex,
--               by the lines and by the stanzas), Runner (Sync, Verify, Prune)
--   Config      internal/config/config.go: Source, PayloadSources; Limits (rejectExplicitZeroLimits),
--               Nodes (where a limit stands in a file), Validate (validate), Load (Load)
--   App         internal/app/app.go: runRepoWithRetries, eachRepo
--   World       the files, the permits held and the environment, with pre- and postconditions
--   Publish     internal/publish/publish.go: Verify, AtomicWrite, PublishMetadata, PublishFile,
--               Prune, AcquireLock; ByHash (MaterializeByHash)
--   Httpx       internal/httpx/httpx.go and internal/limit/limit.go: Do, GetBytes, Acquire
--   Download    internal/download/download.go: downloadOne, downloadAndPublish, ensureSyncedOne,
--               ensureRepairedOne, ensureMany, ResolveExact
--   Scheduler   internal/scheduler/scheduler.go: matches, and Next of a cron schedule
--   Tests       runs on concrete inputs
-- A definition has the name of the Go function in snake case; a Go type keeps its name. A loop over a
-- slice is structural recursion on a list, so no fuel is needed; the loop of Do recurses on the number
-- of rounds, which is one more than the client's retries, and the search of a cron schedule on the
-- number of minutes left of the 366 days that the code allows it, and the runs of a repository on the
-- number of its retries.
--
-- Conventions. Strings are lists of bytes; case folding and trimming are those of ASCII. An error is a
-- value of Result with the fixed part of its text. int and int64 values that the code compares or
-- parses are signed numbers without overflow, since the code only compares them; counters are natural
-- numbers. A map is an association list that holds a key once, and a loop over a map visits the list.
-- The package path and path/filepath functions are modelled lexically, on Unix. What the program calls
-- of the OpenPGP packages is the parameter OpenPgp; the operating system, the servers, the contexts,
-- the decompressors and the hash functions are the parameter Env, whose answers may differ from call to
-- call. What internal/config calls of net/url, time and os is the parameter Host, and of package yaml
-- the parameter Reader; gzip, tar, PEM, X.509 and RSA in internal/apk are the parameter Formats; the
-- Setup of a runner holds these, the settings, the JSON of the manifests and what a walk of the published
-- root meets. The workers of a download take the files one after the other, and the tasks of App each
-- have a state of their own. In World a file has its whole content or another kind; directories, modes and times are not
-- part of it, so that a change of a mode is only a call that may fail.
--
-- Not modelled: interleavings of goroutines, the release of locks, logging, the set-up of net/http,
-- the encodings JSON and YAML, the reading of cron lines, the endless loop of the daemon, the plans that
-- are only printed, and the command line.
pub mod Base
pub mod Model
pub mod Safe
pub mod Apt
pub mod World
pub mod Publish
pub mod Httpx
pub mod Download
pub mod Scheduler
pub mod Config
pub mod Apk
pub mod App
pub mod Tests
