-- ===== src/Lib.antt =====
-- A model of bb-auth, a unified authentication daemon for polkit, the GNOME keyring and GPG pinentry.
--
-- The program. Requests for a password come from polkit, from keyring clients and from pinentry. The
-- daemon opens a session for each, shows it to a UI provider (a panel plugin, or the built-in
-- fallback window) over a local socket with JSON lines, and carries the answer back to the one that
-- asked. Providers register, send heartbeats and are ranked; one is active at a time.
--
-- The files, and the code that they follow (paths from the repository's root):
--   Prelude, Json       numbers, lists, hashes, and QJsonObject as a list of members
--   Qt                  the functions of Qt on texts that the source calls
--   EventQueue          core/agent/EventQueue: the queue behind the `next` message
--   EventRouter         core/agent/EventRouter: who gets an event
--   MessageRouter       core/agent/MessageRouter: handlers by message type
--   Registry            core/agent/ProviderRegistry: providers, heartbeats, the active one
--   Session             core/Session: one session and its events
--   SessionStore        core/agent/SessionStore: the open sessions by id
--   SessionStore/Content, SessionStore/Shown, SessionStore/Refinement
--                       what its calls do to an id, its specification, and that it is met
--   Session/Lifecycle, Session/Created
--                       what a reader finds in a session's events
--   Providers/Manifest, Providers/Discovery, Providers/Launcher
--                       core/providers: parsing, finding and launching UI providers
--   RequestContext, RequestContext/Desktop, RequestContext/Actor, RequestContext/Hints
--                       core/RequestContext: the program behind a request, from /proc and desktop
--                       entries
--   Agent/State         the members of CAgent and of its managers, as one record
--   Agent/Sessions      core/Agent.cpp: events, provider status, sessions, the fallback UI
--   Agent/Keyring, Agent/Pinentry
--                       core/managers: the requests that wait for an answer
--   Agent/Polkit        core/PolkitListener: authentications and their retries
--   Agent/Handlers, Agent/Respond, Agent/Messages
--                       core/Agent.cpp: the handlers of messages, of answers, and their table
--   Agent/Loop          the events that Agent.cpp connects to handlers, and the reachable states
--   Agent/Sound, Agent/Frame, Agent/Stored
--                       what the operations of the agent keep, and what they leave alone
--   Ipc/Framing         core/ipc/IpcServer.cpp: the lines of a socket
--   Ipc/Server          core/ipc/IpcServer.cpp: the buffers of the clients, their lines, and the agent
--   Fallback/Client, Fallback/Client/Messages
--                       fallback/FallbackClient: the connection of the fallback window
--   Fallback/Client/Bounds, Fallback/Client/Reachable, Fallback/Client/Backoff,
--   Fallback/Client/Agreement
--                       what it keeps, its delays, and its agreement with the daemon
--   Fallback/Prompt, Fallback/Prompt/Text, Fallback/Prompt/Extract
--                       fallback/prompt: normalised texts, what is extracted from them
--   Fallback/Prompt/Build, Fallback/Prompt/Build/Steps, Fallback/Prompt/Build/Model
--                       fallback/prompt/PromptModelBuilder: what the window shows of an event
--   Fallback/Window, Fallback/Window/Events
--                       fallback/FallbackWindow: the session that is shown, answers and timers
--   Modes/Assuan        modes/pinentry.cpp: the escapes of the Assuan protocol
--   Modes/Pinentry, Modes/Pinentry/Daemon, Modes/Pinentry/Commands
--                       modes/pinentry.cpp: its state, its requests to the daemon, its commands
--   Modes/Pinentry/Protocol, Modes/Pinentry/Replies, Modes/Pinentry/Delivery
--                       its messages as a protocol, its output, and its work with the daemon
--   Tests               the theorems at concrete inputs, and runs of the definitions
-- All these paths lie under src/. A method is a function of the same name in snake_case that
-- returns the new state. An if-chain with early returns is a chain of conditionals, a loop a
-- recursion on the list it visits; the loop of onReadyRead takes the number of bytes as its fuel,
-- since every round takes at least one of them out. A pointer that may be null is an option; sockets
-- and PolkitQt1's sessions are numbers.
--
-- What is a parameter. QHash and std::unordered_map are association lists in an arbitrary order of
-- iteration. Qt's containers and texts are treated as the standard library of the program. All that
-- asks the system is a parameter: the clock, the states of the sockets, peer processes, the file
-- system, processes that are started, QUuid, QJsonDocument's parser, QString::trimmed and toLower,
-- QDir's paths and QRegularExpression's matches (records Host and World). One World describes one
-- call of a handler: within a handler the clock and the sockets do not change. Times and counters do
-- not overflow. A QPointer is not cleared by a deletion, since a socket is deleted only after its
-- disconnection has removed it everywhere. What PolkitQt1 does inside a call is not modelled: its
-- signals are separate events.
--
-- In RequestContext, what /proc and the desktop files hold is a parameter, and so are the functions
-- of Qt on texts that depend on Unicode (record Texts). The agent takes the resolved actor as a
-- parameter.
--
-- A run of pinentry is a list of lines, each with what its command finds: the UUID that it would draw,
-- and the daemon's responses. What it prints, the requests and the responses are its effects, in their
-- order. Texts are converted to UTF-16 code units and back by parameters.
--
-- An event of the fallback client comes with the state of its socket, which is the same within a
-- handler; the buffer is set before the lines of a read are handled, since no handler looks at it.
--
-- The window's single shots of 300 ms and 1.2 s are events that may come at any time. In the prompt
-- model the regular expressions are parameters, each by its first captured group.
--
-- Not modelled: readBootstrapState (it reads a file; its result is a parameter), the wiring in
-- CAgent::start, the start and the stop of IpcServer, the command line, the other modes, the widgets
-- of the fallback window (their layout, sizes and the folding of the details), and the keyring
-- prompter (a C program around GCR).
pub mod Prelude
pub mod Json
pub mod Qt
pub mod EventQueue
pub mod Registry
pub mod Session
pub mod SessionStore
pub mod Providers
pub mod EventRouter
pub mod MessageRouter
pub mod Ipc
pub mod RequestContext
pub mod Agent
pub mod Fallback
pub mod Modes
pub mod Tests
