-- ===== src/Lib.antt =====
-- cocaine-framework-go: a verification library of the framework's Go code.
--
-- The framework connects a Go application to cocaine-runtime (a worker: it serves events) and to
-- other applications (a service: it calls them). Both sides exchange messages over one socket; a
-- message names its session, its type within the session and carries a payload and headers.
-- Modelled are the package of protocol version 1, cocaine12/, with its HTTP proxy, and the package
-- of the older protocol, cocaine/.
--
-- Files and what they model:
--   Errors, Effects: the error values of cocaine12, and how a call ends (it returns, panics, or
--     waits on a channel for ever).
--   Message: cocaine12/protocol.go (Message, the dynamic values of a payload) and the
--     constructors of cocaine12/wprotov1.go. Message.Trace is getTrace, getTraceData,
--     decodeTracingId, decodeRawTraceName and traceInfoToHeaders.
--     Message.Span: the trace information of contexts in cocaine12/trace.go.
--   Worker.Dispatch: v1Protocol.onMessage and dispatchUtilityMessage of cocaine12/wprotov1.go over
--     the interface protocolHandler, a record of functions on a state. Worker.Dispatch.Cases is
--     the one rule by which properties of the dispatcher are proved.
--   Worker.Stream: type request of cocaine12/handler.go. Its goroutine `loop` is a state (queue,
--     closed, seen, ended) and the rounds of its select are events, so that every schedule is a
--     list of events; `push` and `Close` of the worker are events too. Read is `read`, over a
--     parameter for convertPayload, which calls a package that is not part of the repository.
--   Worker.Response: type response of cocaine12/handler.go and trapRecoverAndClose of
--     cocaine12/workerng.go. A handler is the list of what it does with its response.
--   Worker.State: WorkerNG of cocaine12/workerng.go: its fields, message handlers, Stop, the
--     heartbeat and the handshake. Requests live in a store, since a handler keeps its request
--     after the worker has deleted the session. The choice of a select on the connection's channel
--     is an input. `receive` is w.dispatcher.onMessage(w, msg).
--   Worker.Loop: WorkerNG.Run and loop of cocaine12/workerng.go. A round of the select is an event,
--     and so are what happens beside it: a timer expires, Stop is called, the goroutine of a
--     request moves. A timer is whether it runs and whether a tick waits in its channel.
--   Worker.Tokens: the registry of token managers in cocaine12/token.go.
--   Worker.Events: EventHandlers of cocaine12/worker_handlers.go; a handler is a function from its
--     request to what it does with its response.
--   Socket: cocaine12/asocket.go. Socket.Buffer is asyncBuff (the variables of its loop are its
--     state, the cases of its select functions), Socket the asyncRWSocket with writeloop, readloop,
--     Send, Read and Close, as steps. An event says how Encode, Flush and Decode end; the code does
--     not look at the result of Flush, and a bufio.Writer accepts nothing after an error.
--   Service.Dispatch: cocaine12/dispatch.go. Service.Sessions: cocaine12/sessions.go.
--   Service.Channel: cocaine12/channel.go, with serviceRes of cocaine12/service.go. The conversion
--     of a payload calls the codec and is a parameter. A Get that waits and a push are steps.
--   Service.Client: cocaine12/service.go: call, loop, pushDisconnectedError, Reconnect, Call and
--     Close on a store of channels; how resolving and connecting end is an input.
--     Service.Connect: serviceCreateIO of cocaine12/service.go and NewLocator of
--     cocaine12/locator.go; connecting is a parameter. Service.Locators: the flag -locator of
--     cocaine12/defaults.go.
--   Http.Reader: requestReader of cocaine12/utils.go. Http.Header: the header type of net/http as
--     far as it is used, HeadersHTTPtoCocaine and HeadersCocaineToHTTP. Http.Writer, Http.Handler:
--     ResponseWriter of cocaine12/httpresponse.go and WrapHandler of cocaine12/httphandler.go; what
--     a writer does with its stream is a list of acts, which Worker.Response carries out. WriteHead
--     and UnpackProxyRequest call the codec and are parameters.
--   Proxy: cocaine12/proxy/proxy.go: where a request goes (Proxy.Route), what is packed, and what
--     the client gets (Proxy.Replies), as a list of acts on the http.ResponseWriter. A request says
--     how NewService, packRequest, Call and Get end, panics included.
--   Logger: severities, cocaineLogger, fallbackLogger and Entry of cocaine12/ (clogger.go,
--     fallbacklogger.go, entry.go, severity.go, logger.go), over a record for package fmt; an Entry
--     calls its logger through a record of functions.
--   Bridge: cocaine12/bridge/bridge.go: filterEndpointArg and the fallback handler of NewBridge; the
--     child is a function from a request to its answer.
--   Cocaine.Message: cocaine/message.go: the messages, packMsg and the unpackers, over a record for
--     the package uuid. Cocaine.Message.Feed is the stream unpacker, over a record for the codec:
--     Decode returns the values and the rest of the buffer, or fails.
--   Cocaine.Pair: getServiceChanPair of cocaine/service.go: its goroutine, the service that puts
--     results and the caller who takes them. Cocaine.Service: the session keeper of
--     cocaine/sessionkeeper.go and the methods of Service on a store of such pairs; its Steps are
--     calls, messages, lost connections, the moves of the goroutines, and the steps of which the end
--     of a loop and Reconnect consist, so that they may alternate.
--   Cocaine.Relay: Request and Response of cocaine/worker.go, whose goroutines do the same, and what
--     handlers do with a response. Cocaine.Worker: type Worker and the rounds of its Loop.
--   Cocaine.Socket: cocaine/asocket.go: the buffer and both sockets; Cocaine.Socket.Steps are the
--     client, the goroutines and the connection.
--   Cocaine.Resolve: the goroutine of Locator.Resolve in cocaine/locator.go, over the pieces that Read
--     gives it.
--   Cocaine.Http: the ResponseWriter of cocaine/response_writer.go and WrapHandler of
--     cocaine/httpreq.go; Cocaine.Http.Same compares the writer with that of cocaine12/.
--   Tests: runs on concrete inputs.
--
-- Conventions. A Go string or []byte is a list of numbers; a uint64 is a number, and where the
-- code relies on its width, a hypothesis says that it is below 2 ^ 64. A map is an association
-- list. A result pair (value, error) is a pair with an optional error, or a Result where the value
-- is not read on an error. Loops recur on their lists, and Http.Reader.Drain counts
-- the reads of a caller. Only the loop of Feed takes fuel: one round for each byte of the buffer
-- and one more, since a Decode takes at least one byte; Cocaine.Message.Pieces shows that more
-- fuel changes nothing.
--
-- Not modelled: how texts are formatted and printed, the bytes on a socket and the MessagePack codec
-- under vendor/,
-- the real time of timers, and signals.
pub mod Prelude
pub mod Errors
pub mod Cocaine
pub mod Proxy
pub mod Bridge
pub mod Effects
pub mod Message
pub mod Worker
pub mod Socket
pub mod Service
pub mod Http
pub mod Logger
pub mod Tests
