-- ===== src/Lib.antt =====
-- yamaha-cli (Go): a command-line tool that controls Yamaha receivers over the local network.
--
-- The program has four libraries and a command line on top of them. pkg/ynca speaks the older
-- line protocol YNCA on TCP port 50000: requests and reports are lines `@SUBUNIT:FUNCTION=value`.
-- pkg/yxc speaks the HTTP protocol YamahaExtendedControl. pkg/discover finds receivers on the
-- network. internal/cli holds the commands, with internal/config, internal/output and
-- internal/debuglog.
--
-- The files, and the code that each is about:
--
-- Prelude, Text: shared names; the Go string functions, over strings as lists of bytes. Letter case
-- and white space are those of ASCII: on other runes `strings.ToUpper`, `EqualFold` and `TrimSpace`
-- do more than the model.
--
-- Ynca.Errors: pkg/ynca/errors.go (the error types, `IsTransport`), and `isTimeout` and
-- `isConnReset` of pkg/ynca/client.go. An error chain is this package's error, perhaps a
-- `net.OpError`, and a leaf.
--
-- Ynca.Framing: `splitCRLF` and the loop of the `bufio.Scanner` around it. A connection delivers its
-- bytes in chunks. The scanner ends with
-- `bufio.ErrTooLong` when its buffer of 64 KiB is full; a token that is longer, in a chunk that the
-- scanner would read in parts, ends it as well. The fuel of the loop is one more than the length of
-- the buffer: each token takes a byte at least.
--
-- Ynca.Wire: `parseLine`, `classifyReply` (pkg/ynca/client.go), `parseReport` (pkg/ynca/session.go).
--
-- Ynca.Client: the one-shot client of pkg/ynca/client.go: `dialLocked`, `wakeLocked`,
-- `sendOnceLocked`, `Send`, `sendMultiOnceLocked`, `SendMulti`, `Probe`. The network is a script in
-- the state: what each dial brings, and the outcomes of the deadlines, the writes and the reads of
-- each connection. A write that fails has put its first bytes on the wire, as many as the script
-- says. A call runs under the client's mutex, so a call is a function of the state. Time stands in
-- the script only, as a read that fails by a timeout or a context that is done.
--
-- Ynca.Enums: pkg/ynca/enums.go and the power states of control.go, the closed sets of wire values and
-- their parsers. Ynca.Codec: pkg/ynca/codec.go over a record `Floats`, which stands for float64,
-- math.Round and strconv.
--
-- Ynca.Control: `get`, `put` and the typed calls of pkg/ynca/control.go, zone_control.go and tuner.go,
-- and the transport calls of nowplaying.go. Ynca.Control.Sleep: the sleep timer.
--
-- Ynca.Reports: the loop over the lines of a fan-out that the decoders share. Ynca.Status
-- (`decodeStatus`, `GetStatus`), Ynca.Playing (`decodeMetaInfo`, `GetNowPlaying`, `SubunitForInput`),
-- Ynca.Tuner (`decodeRDSInfo`, `GetTunerStatus`) and Ynca.Scenes (`decodeSceneNames`,
-- `sceneNameIndex`) are those decoders and the calls around them.
--
-- Ynca.Session: `Run` of pkg/ynca/session.go, as what its handler is called with and the error that it
-- returns. The pings that it writes are left out.
--
-- Yxc.Errors, Yxc.Client: pkg/yxc/errors.go and the engine of client.go: `do`, `doOnce`,
-- `rateLimitWait`, `shouldRetry`. The network is a script, time is a number of milliseconds in the
-- state, and the decoding of `response_code` is a parameter. Yxc.Zone: pkg/yxc/zone.go; the
-- parameters of a request are a table, which url.Values encodes. `SetPureDirect` and its three likes
-- are `set_zone_enable` at their method. Yxc.Dist: pkg/yxc/dist.go. Yxc.Media: pkg/yxc/system.go,
-- tuner.go and netusb.go. Yxc.Cache: pkg/yxc/cache.go over a file's state and content; its atomic
-- save is a success or a failure.
--
-- Yxc.Backoff, Yxc.Events: pkg/yxc/events.go. The supervisor of a subscription is a state machine:
-- what the `select` of a phase takes is an input, and `Reaches` gives the states of a run. It calls
-- the client of Yxc.Client. An event that the code drops because nobody takes it at the cancellation
-- counts as handed on.
--
-- Yxc.Validate: pkg/yxc/validate.go, `Levenshtein` and `DidYouMean`, over the runes of a string.
--
-- Config: internal/config/config.go. Config.Resolve: `Resolve`. Config.Save: `saveTo` over files
-- that map paths to contents, with the states of the files between the system calls and at each byte
-- of the write. The code does not sync before it renames: that the disk keeps the order of the calls
-- across a crash is assumed. YAML is a parameter.
--
-- Cli.Errors: internal/cli/errors.go, `ErrorExitCode`; an error chain is the list of its kinds, with
-- the errors of both protocols among them. Cli.Rediscover: internal/cli/dhcp.go,
-- `runWithRediscover`, over an operation, a search and a file that are parameters, and
-- Cli.Rediscover.Twin: `runYNCAWithRediscover`. Cli.Volume: internal/cli/volume.go,
-- `parseVolumeArg`, over a record `Scale` for floats and the scale of a zone. Cli.Power:
-- internal/cli/power.go, `waitForPowerOn` over a script of polls; the fuel is one round for each
-- tick before the deadline and one. Cli.Link: internal/cli/link.go, `link create` and `link
-- dissolve` as sequences of calls on several receivers. Cli.Watch: internal/cli/ynca_watch.go, the
-- loop of `runYncaWatch` over what each round meets.
--
-- Discover: pkg/discover. Discover.Exchange: `mSearchExchange` of search.go, over a script of what
-- arrives, and when; a read that waits ends at its deadline, or a fixed lag later, and the code
-- between two waits takes no time. The fuel is two rounds for each request, one for each arrival,
-- and one. Discover.Fetch: `fetchOne`, `fetchWithRetry` and `newDevice` of discover.go and
-- `parseDescriptionXML` of xml.go; net/http, net/url and encoding/xml are parameters. Discover.Find:
-- `fetchAndFilter`, `search`, `Search` and `LookupByUDN`; fetches run concurrently, and their
-- results are taken in the order of the locations. Discover.Sweep: `sweepTargets` and `capTargets`
-- of sweep.go over the addresses of the interfaces; the fuel of the loop over a subnet is its size.
-- Discover.Probe: `sweep`, over the addresses that accept a connection. Discover.Locations:
-- `defaultSearchLocations` over the results of the interfaces in the order in which they end,
-- `searchAddrs`, and the callback of `searchIface`.
--
-- Ynca.Functions: pkg/ynca/functions.go. Yxc.Features: the lookups of pkg/yxc/types.go and
-- pkg/yxc/scale.go; Cli.Volume takes the two conversions as fields of its `Scale`.
--
-- Output: internal/output/output.go: `ParseFormat`, `Render`, `renderTable` and `writeKV`.
-- Output.Table: `rowColumns`, `writeRowsTable`; a row is an association list in the order in which a
-- map is visited, a value is the text that fmt prints for it, and a table is the text that the
-- writer gets, or none where the code panics.
--
-- Cli.Diff: internal/cli/ynca_diff.go, the command's comparison of two dumps, over the lines of both
-- files.
--
-- Cli.Dump: internal/cli/ynca_dump.go: the loop of `runYncaDump` over the client of Ynca.Client,
-- `writeDumpReplies`, `defaultDumpCommands`. Text.Scan: the lines of a bufio.Scanner, without its
-- cap, and the verb %q, which takes all bytes beyond ASCII as printable. Cli.Args: `canonicalZone`,
-- `validateConfigHost`. Cli.Add: `runConfigAdd` of internal/cli/config_cmd.go; the config file is
-- what it holds, and what other runs make of it during the probe is an argument. Cli.Wizard:
-- `runWizard`, and `discover --add`, which asks the same questions and works on the copy of the file
-- that was loaded before them; what other runs save meanwhile is not modelled there. Cli.Root:
-- `setupState`, `needsDevice`, `wrapTransportError` and `Execute` of internal/cli/root.go, over the resolution of
-- Config.Resolve, the wizard and the state of Cli.Rediscover; what the file loads as behind a wizard is
-- an argument.
--
-- Not modelled: real sockets, HTTP, JSON, XML and YAML encoding, terminal prompts and printing, the
-- arithmetic of floats; the sockets and the tracing of pkg/discover, `EventDo` and the decoding of
-- replies in pkg/yxc, and the commands of internal/cli beyond those named.
mod Prelude
pub mod Text
pub mod Ynca
pub mod Yxc
mod Tests
pub mod Cli
pub mod Config
pub mod Discover
pub mod Output
