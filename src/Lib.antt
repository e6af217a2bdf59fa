-- ===== src/Lib.antt =====
-- Verification library of uploadfun, which uploads a batch of files to many FTP, FTPS and SFTP
-- endpoints at once.
--
-- The program's parts, and the modules that model them (paths from the repository's root):
--
-- - uploadfun.go (Upload): the endpoint, the options and the events. Go's `int` and `time.Duration`
--   are integers, byte counts and attempt numbers are natural numbers.
-- - dispatch.go (Dispatch): the engine. One goroutine for each endpoint drives an `uploader`, reports
--   on a channel, and retries. Dispatch/Effects has the interfaces: `Uploader` is the interface of
--   that name, `Process` is the context, the clock, the pause, the temporary files and the random
--   bytes. Both act on a world of any type, so that every answer may depend on all that happened
--   before; the context may be found cancelled at any question. A worker is a record with the
--   world, the fields of `endpointWorker` that change, and a log in which every event and every call
--   with its result is entered, the newest first.
--   Dispatch/Worker has one definition for each method of `endpointWorker`: `run` (its loop is
--   `visit_all`, the body `visit`), `uploadFile` (`upload_file`, its loop `upload_attempts`, the body
--   `attempt_once`), `connect`, `transfer`, `disconnect`, `sleepBeforeRetry` and the reports.
--   Dispatch/Probe has `runDryRun` with the probe file. Dispatch/Fan has `runEndpoint`,
--   `failAllFiles`, `dispatch` and `Upload`: the events of the goroutines come in any interleaving
--   that keeps the order of each.
-- - cmd/uploadfun/printer.go (Cli): Cli/Json is the JSON form of an event, Cli/Throttle the state and
--   arithmetic of progress lines, Cli/Printer the printer and `processEvents`.
-- - transports.go (Transports): Transports/Adapter is `transportUploader` as an `Uploader` over clients
--   of internal/transport, whose methods and dial functions are parameters. A method call on a nil
--   client is a panic, and is recorded.
-- - internal/transport (Transports): Transports/Conn is `verifyBySize` and `progressReader`,
--   Transports/Guard the deadlines (`stallGuard`, `guardedConn`), Transports/Session the methods of
--   `FTPClient` and `SFTPClient` on an open session, Transports/Auth `sftpAuthMethods`, Transports/Tls
--   `resolveTLSConfig`, Transports/Ftp and Transports/Sftp the dials. The libraries that speak FTP, SSH
--   and SFTP are parameters: `ftp.Dial` is given the dial function, as in the source, and may call it
--   at will; what is read from the local file is a list of numbers of bytes. A connection is a number,
--   a `net.Conn` is such a number, bare, guarded or under TLS, and what is done to it is entered in a
--   list of deeds. Transports/Real puts the dials and the
--   clients together for `newRealUploader`, Transports/Uploaded to Transports/Assured
--   `uploadFile`, the adapter and a client, and
--   Transports/Unreadable to Transports/Abandoned a run on a local file that may not be opened.
-- - config.go (Config): Config/Policy is `resolvePolicy`, Config/Env `interpolateEnv`, Config/Fields the
--   checks of an endpoint's fields, Config/Load `buildEndpoint` and `LoadConfig`. The YAML decoder, the
--   environment, the home directory, and the reading and printing of durations are parameters. A list
--   of errors is returned in place of the slice that the source appends to, and the set of names
--   seen so far is passed on. Config/Reference and Config/Judged state the conditions on a
--   configuration as tests of their own, without the errors.
-- - cmd/uploadfun/main.go (Cli): Cli/Flags is `parseInterleaved` over a model of the flag package on
--   the flags that `parseArgs` defines, Cli/Files is `expandPaths` over a file system that does not
--   change meanwhile, Cli/Main is `parseArgs` and `run`. `LoadConfig` and `Upload` are parameters of
--   `run`; the theorems on `run` as a whole take for `Upload` the events of Dispatch/Fan, and Cli/Loaded
--   takes for `LoadConfig` that of Config/Load. Cli/Signals is `main` with `handleSignals`, as a step
--   relation with the signals that arrive.
-- - internal/testdocker and internal/testservers (Harness), the servers for the integration tests:
--   Harness/Docker is `Run`, `Remove` and `WaitForPort`, Harness/Servers is `StartPureFTPD` and
--   `StartAtmozSFTP` with `populateKnownHosts`, over a machine (Harness/Machine) whose commands, files,
--   network and clock are parameters. What is done to it is entered in a list; `os.Exit` is an outcome.
-- - Base: shared names; Go's errors as roots that are wrapped or joined (Base/Errors); `%d`, `%x` and
--   `filepath.Base` (Base/Text); integers (Base/Int).
--
-- The loop of `parseInterleaved` has fuel, the number of words, since each round takes a word away, and
-- so has `%d`, which takes a digit away in each round. The loop of `WaitForPort` has as many rounds as
-- there can be pauses before the deadline, and two more. The loops over files and events recur on the
-- list, and the loop over attempts recurs on the number of attempts left. The counter of connect
-- failures is not bounded by a machine word, since it grows by one for each failed connect.
--
-- Not modelled: the wait inside `sleepRetryDelay`; the formatting of seconds with two decimals, which goes
-- through a float and is a parameter of the printer.
pub mod Base
pub mod Upload
pub mod Dispatch
pub mod Transports
pub mod Harness
pub mod Config
pub mod Cli
mod Tests
