-- ===== src/Lib.antt =====
-- A model of value-rpc, a bidirectional RPC library in Go: streams with credit-based flow control,
-- sessions that outlive their connections, the dispatch of requests, and the client's policies.
--
-- The parts and the files that model them:
--   Prelude          Boolean tests, lists and the arithmetic of int64 on patterns, `% 2 ^ 64`.
--   Errors           valuerpc/error.go: the codes of errors, and their readers.
--   Wire             valuerpc/types.go, verify.go and protocol.go. The value library is a parameter,
--                    the record Wire.Values, with what the code relies on as its laws.
--   Flow             CreditGate (valuerpc/credit.go) blocks a sender, StreamPump (valuerpc/pump.go)
--                    queues what the receiver's read loop gets, Meter counts what the consumer takes and
--                    grants new credit (valueserver/serving_request.go, valueserver/serving_stream.go,
--                    valueclient/request.go). Link joins them to one stream direction: every step of
--                    the sender, the read loops, the pump and a teardown is a step of a relation.
--                    So is the StreamEnd with a value that an outgoingStreamer sends without a credit, and
--                    a null value, which the receiver passes over. The connection of a Link stays up.
--   Session          HashChain (valuerpc/hashchain.go) over a digest that is a parameter; Server
--                    (valueserver/server.go, createOrUpdateServingClient, with authorizeResume and
--                    replaceConn of valueserver/serving_client.go); Client (handshakeToken of
--                    valueclient/client.go); Reconnect runs the two over a link that loses messages.
--   Serving          valueserver/serving_client.go: the checks and the caps of new requests, with each
--                    handler's goroutine as a list of phases that interleave with the others'.
--   Exchange         valueclient/request.go with processResponse, failRequest and the end of streamOut of
--                    valueclient/client.go: a request of the client from its start to its end.
--   Framing          valuerpc/rpc.go: messages as frames on a stream of bytes, with the write buffer that is
--                    used again. The MessagePack codec is a parameter.
--   Connection       valueserver/server.go: handshake and handleConnection. It puts together Wire.Protocol,
--                    Session.Server, Framing and Serving: who is admitted, and how the frames of a client
--                    become the requests of its session.
--   Acceptor         valueserver/server.go: the accept loop of Run with the goroutines of its connections
--                    and Close, as steps that interleave.
--   Reverse          valueserver/serving_stream.go: the streams that the server opens, as the refinement of
--                    the client's requests in Exchange.
--   Responder        valueserver/serving_request.go and, in Client, valueclient/serving.go: who answers a
--                    stream, with the handler's goroutine and its streamer.
--   Calls            valueclient/client.go: the requests that a client has in flight, with sendRequest, Reconnect
--                    and the caller's giving up as steps that interleave, and retryReconnect in Backoff.
--   Routing          getResponseHandler of valueclient/client.go and processRequest of
--                    valueserver/serving_client.go: which of its maps each end looks a frame's id up in.
--   Envelope         valuerpc/peer.go with the like builders of valueserver/serving_client.go, valuerpc/metadata.go, the
--                    requests of the two ends (constructRequest and effectiveTimeout of valueclient/client.go,
--                    CallFunction of valueserver/serving_client.go), and how each end reads a reply.
--   Unary            A unary call on the end that serves it: serveFunctionRequest with the unary part of
--                    doServeFunctionRequest of valueserver/serving_client.go, and in Client serveInboundCall of
--                    valueclient/client.go. Contract says what a call promises without messages.
--   Pending          valueserver/serving_client.go: the calls that wait for their client's replies, with
--                    CallFunction and completePendingCall as steps that interleave.
--   Outbox           valueserver/serving_client.go: send and the sender of a session.
--   Opening          How a call or a stream is opened: SingleResp of valueclient/request.go with the four patterns of
--                    valueclient/client.go, and awaitReady with the three of valueserver/serving_stream.go.
--   Interceptor      valuerpc/interceptor.go.
--   Memory           valuerpc/transport_mem.go: the registry of in-memory listeners.
--   Resilience       Breaker, Retry and Bulkhead: resilience/breaker.go, retry.go and policies.go.
--   Examples         The theorems on concrete inputs, and tests.
--
-- A Go method on a struct is a function from the state before to the state after; a critical section or
-- a channel operation is one such step, and concurrency is a list or a relation of steps. An int64 is
-- its 64-bit pattern, a natural number below 2 ^ 64; `slt` and `sle` compare as signed numbers. The loops
-- of the hash chain run on their bound. The retry loop runs on as many rounds as attempts are allowed,
-- which is enough because it stops at the last attempt.
--
-- Read loops run on a number of rounds; one round more than there are messages is enough, because the last
-- one meets the end of the stream.
-- The loop of retryReconnect has no end of its own where its attempts are not limited; its rounds are an
-- argument.
--
-- Not modelled: sockets, deadlines and the transports other than framing and the registry of the
-- in-memory one, the client's loop that writes its queued messages, contexts and timers but for the outcome
-- that they decide, metrics but for the beginning and the end of a request, logging, and the random source, the
-- digest, the codec, the value library and the texts of errors, which are parameters.
mod Prelude
pub mod Errors
pub mod Wire
pub mod Flow
pub mod Session
pub mod Serving
pub mod Interceptor
pub mod Resilience
mod Examples
pub mod Reverse
pub mod Framing
pub mod Exchange
pub mod Opening
pub mod Calls
pub mod Connection
pub mod Routing
pub mod Unary
pub mod Outbox
pub mod Envelope
pub mod Responder
pub mod Acceptor
pub mod Memory
pub mod Pending
