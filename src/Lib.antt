-- ===== src/Lib.antt =====
-- The OpenClaw device daemon (Go): a process on a device that keeps a web socket to a cloud, routes
-- the cloud's messages to handlers, and sends their answers back.
--
-- The parts, the files that model them, and the code:
--   Protocol        internal/protocol/messages.go: the messages and the names of their types.
--   Router          internal/router/router.go: `handle` is `MessageRouter.Handle`, with one function
--                   per handler. What is sent to the cloud is a list of messages.
--   Gateway         internal/gateway/adapter.go: Values, Events, Texts, Attachments and Images read
--                   the events of a chat turn; Collect is the loop of `collectChatReplies`, with its
--                   variables as the record `Turn` and one function per step, and the end of `Chat`.
--                   Transcript reads the session's file, Uploads brings local files to the back end.
--   Config          internal/config/config.go: the configuration, its defaults, `normalize`, `Load`
--                   with the overrides from the environment, and `UpdateCloudWSURL`.
--   Files           the three copies of `writeAtomically` (internal/store, internal/config,
--                   internal/manager) over a table of files.
--   Store           internal/store/state_store.go: the state file.
--   Runner          internal/runner/remote_cmd_runner.go: remote commands.
--   Gateway.Session internal/gateway/adapter.go: `Chat` from the dial on. Tokens and Crypto are the
--                   token, the identity and its keys; Wire, Messages and Requests the frames, the requests
--                   and the loops that wait for a response; Chat puts them before Collect.
--   Gateway.UploadCalls  internal/gateway/adapter.go: the three HTTP calls of an upload; Http is what
--                   they use of net/http.
--   Manager         internal/manager/config_manager.go: `apply` is `ConfigManager.Apply`, one function
--                   per step; Env is the environment file, Json the settings of OpenClaw.
--   Cloud           internal/cloud/client.go: the delays of `Run`, and what `readLoop` makes of one
--                   message; Goroutines is `runOnce` and the `readLoop` of each connection, as a relation
--                   between states; Sending is `SendEnvelope`.
--   Video           internal/video: Words and Runtime read texts and settings, Task is the polling
--                   loop, Generate the making of a video, Table the entries of `Generate` for each request,
--                   MiniMax the client of the provider (minimax_client.go).
--   App             internal/app/app.go: the parts put together as `New` does.
--   Probe           cmd/wsprobe/main.go: Device, Requests and Run.
--   Base, Text and Json hold what Go and its standard library give: numbers, lists, errors, strings as
--   lists of bytes (with the functions of package strings), JSON values.
--
-- How they interact: the router hands a chat message to the video service, the image service or the
-- gateway adapter, each of which answers by a list of replies or by an error; `Router.Turns` states
-- what the router relies on, and `App` fills it in. The adapter and the manager share the state file,
-- each by loads and saves of its own. The configuration bounds of `Config.Laws` are what `Runner.Laws`
-- starts from.
--
-- Bounds and fuel: an `int` is an integer; where the code multiplies durations, the product wraps at
-- 64 bits (`mul64`). No definition needs fuel: the loops over frames, events, attempts and polls
-- recur on what was read, and functions that descend into JSON recur on the value. A turn for which no
-- terminal event has been read yet is `waiting`, which is a state and no result.
--
-- Arguments of the model, since their code is not in the repository: encoding/json, net/url, time,
-- os/exec, strconv.Quote, the network, the answers of the operating system, and the image service
-- (internal/imagegen is imported but missing). White space, letter case and byte order are those of
-- UTF-8 texts; letters outside ASCII keep their case here except where `Text.Case` says otherwise.
-- A JSON object is an association list that is searched from the front, as if no key stood twice.
--
-- The gateway and the cloud are lists of frames: what a connection brings, in order, up to its end,
-- with what the operating system answers to the saves that a frame causes. `Chat` is an action on what
-- is still to be read, what was written, and the disk.
--
-- Not modelled: log lines, the mutexes of calls that hold them for their whole body,
-- the image service, `main` of cmd/openclaw-daemon with its signals, and
-- `HTTPBaseURL`, which nothing calls.
pub mod Base
pub mod Text
pub mod Http
pub mod Json
pub mod Protocol
pub mod Files
pub mod Config
pub mod Runner
pub mod Store
pub mod Router
pub mod Gateway
pub mod Manager
pub mod Cloud
pub mod Video
pub mod App
pub mod Probe
pub mod Tests
