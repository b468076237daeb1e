-- ===== src/Lib.antt =====
-- A model of omnistat, the agent that keeps one Omnismith entity per host (and one per disk, network
-- interface and the like) up to date, with the theorems that make its core correct.
--
-- The program collects observations from modules on a schedule, buffers them per entity, and
-- publishes what is buffered: dimensions as one partial update, metrics as chunks. Before that it
-- finds or creates the host's entity by a key, and brings the project's schema up to what the
-- modules declare. The parts are modelled as functions on explicit state. A platform, a clock and a
-- printer are records of functions on an abstract state `S`, which the theorems quantify over, so
-- they hold for every platform unless a law is named.
--
--   Prelude      tests, lists over the native numbers, Go strings as lists of bytes, Go maps as
--                association lists, stable sorting, counting, lists of distinct names.
--   Values       the dynamic values of observations, and Go's conversions to float64
--                (internal/collect/validate.go, toFloat).
--   Manifest     kinds, desired templates and attributes (internal/manifest); Manifest/Validate is
--                validate.go, with the slugs (Distinct) and references (Links) of what it accepts,
--                Manifest/Title is TitleFromSlug, and Manifest/Resolve is resolve.go.
--     Manifest/Resolve follows the passes of Resolve: Templates (the templates and their
--                overrides), Attributes (attributes, ranks, labels), Whole (Resolve and its
--                problems). Keyed, Links, Sound, Complete, Entities, Moored and WellFormed relate
--                what it returns to the manifests.
--   Runes        UTF-8 decoding, unicode.IsSpace and unicode.IsControl, which ValidKey calls; Trim
--                and Fields are the functions of Go's strings on white space and on ASCII letters.
--   Strconv      Go's int with its bounds, Itoa and Atoi.
--   Settle       internal/settle/settle.go: Until.
--   Collect      internal/collect. Sample and Buffer are buffer.go; Buffers is buffers.go; Validate
--                is validate.go; Sources (Sources, platformUnion), Observe (collectOne, targetOf)
--                and Failures (failureLog) are parts of scheduler.go; Observe/Collected and Addressed
--                are about each observation's fate.
--     Collect/Buffer keeps the definitions of Add, Snapshot, Ack, Empty and Drops; its children
--                prove them against a log of all samples added: Queues (one queue), Steps (one
--                operation), Snapshots, Sound (the invariant), Rounds (a snapshot, samples that
--                arrive, an acknowledgement), Dims (the latest-value map).
--     Collect/Buffers has the cap on entities (Cap), the samples of one entity (Isolation), and
--                the list of Targets (Distinct).
--   Identity     internal/identity: Keys is ValidKey, Upsert is upsert, Host is ResolveHost, Keyed
--                is keyed.go.
--   Publish      internal/publish: Types is api.go and the structs, Render is Render, Update is
--                updateDims and rejectedSlugs, Send is the chunk loop of Publish, Batch is Publish,
--                Entities is entities.go, with the turn of each entity (Places, Isolation) and the
--                counts (Counted).
--   Schema       internal/schema: Types is schema.go and api.go, Diff is diff.go, and apply.go is in
--                two: Execute (execute, exists, merge, resolvedFrom) and Apply (ApplyWith,
--                notYetDone). Their children are about empty plans (Diff/Holds, Diff/InPlace), what
--                a plan creates and binds (Diff/Additive), its order (Diff/Ordered), the creations
--                of a run (Apply/Creations, Keys, Once, Written, Unrepeated), the ids (Apply/Ids,
--                Noted, Kept, Converged), and the options in a re-plan (Apply/Options).
--   Systemd      Systemd/EnvFile is internal/systemd/envfile.go: FormatEnv, and ParseEnv with its
--                automaton of quotes; its children follow a value (Values), a line (Lines) and a
--                file (RoundTrip) from the one to the other.
--   Upgrade      internal/upgrade and internal/cli/upgrade.go. Version is version.go, Release is
--                release.go, Http is the body of a download (client.go), Fetch is fetch.go and
--                stage.go, Command is the command; its children follow what it does to the service
--                (Handover, Service) and how a binary comes to be installed (Chain, Verified).
--                Machine is a record of what they ask of the machine: files, archives, SHA-256,
--                other programs, the network, and the service manager (Installation of
--                internal/service/plan.go).
--   Tests        runs of the code at concrete inputs.
--
-- Components meet as they do in the source. Collect/Observe adds to Collect/Buffers;
-- Publish/Entities takes a snapshot of a buffer, gives it to Publish/Batch, and acknowledges what
-- comes back, which Publish/Batch/Rounds composes with Collect/Buffer/Rounds; Schema/Apply waits
-- by Settle's `until`, and plans the desired schema that Manifest/Resolve returns (Diff/Ordered).
-- Upgrade/Command finds the release by Upgrade/Release, lets Upgrade/Fetch prepare it, and hands
-- over by the new binary's own install.
--
-- Bounds and fuel. The indices of a buffer's queue are uint64 with their wrap-around (`% 2 ^
-- 64`); the theorems on them ask that fewer than 2 ^ 64 samples were added. The int counters of
-- results and the lengths are unbounded naturals, and so are a buffer's bound and an exit status,
-- which Go's int lets be negative; the conversion to int in Ack is the identity, which it is for a
-- snapshot of the buffer itself. `send_chunks` has as fuel the number of metrics, which is enough,
-- since every chunk takes at least one. `run` of Schema/Apply recurses
-- on the re-reads that are left (5 at first) and the list of remaining actions, so it needs no
-- fuel. The integers of Strconv are integers with the bounds of int64 as a test. A download's
-- body is what its reads deliver until it ends or fails. Strings are bytes, and instants are
-- natural numbers of nanoseconds since Go's zero time.
--
-- Maps. An association list's order stands for the order in which Go ranges over the map, which
-- the language leaves open; a theorem holds for every order. Mutexes make each method one step,
-- so concurrency is a sequence of steps: samples that arrive during a publish are an explicit
-- list.
--
-- Not modelled: the command line save `upgrade`, the configuration, the reading of the operating
-- system, the modules' own collection, the HTTP client, and the service managers. Of the upgrade,
-- the parsing of the releases' URL, the proxy, the redirects and the printed texts are left out;
-- an end of the command stands for its message. The texts of floats and times (strconv, time) are
-- arguments (`Formats`). Logging is left out, save where a returned value or a counter is what
-- the log shows (Collect/Failures). The goroutines of Scheduler.Run and the clock are left out: a
-- collection is one step that takes the provider's answer. The observations that a collection logs
-- as dropped are a list beside the buffers (Collect/Observe). The modules without an interval are in
-- the order of their names in the error of Sources, where Go sorts the texts. `text_of` of
-- Publish/Batch is empty where Go's type assertion would panic, which no rendered value meets.
pub mod Prelude
pub mod Values
pub mod Manifest
pub mod Collect
pub mod Strconv
pub mod Upgrade
pub mod Settle
pub mod Systemd
pub mod Runes
pub mod Identity
pub mod Publish
pub mod Schema
pub mod Tests
