-- ===== src/Lib.antt =====
-- A WebSocket aggregator in C: listeners accept TCP connections, worker threads do the handshake
-- and read frames from the sources, an aggregator thread takes the messages from a queue and sends
-- them to one sink. This library models the parts that decide about bytes and states.
--
-- The parts and their files:
--   Base (Tests, Lists, Bits, Store)  names of the libraries, Boolean tests, lists, bit masks,
--                                     objects at addresses
--   Ws/Header                         src/ws.c: wsParseHeader, wsEncodeHeader
--   Ws/Mask, Ws/Close, Ws/Utf8        src/ws.c: wsUnmask, wsIsValidCloseCode, wsUtf8Feed and its kin
--   Ws/Accept                         src/ws.c: wsComputeAccept
--   Base64, Sha1                      src/base64.c, src/sha1.c
--   Http                              src/http.c: the request of the handshake and the answers
--   Http/Fields, Http/Tokens          what a header and a token in its list are, apart from the code
--   Buffer                            src/conn.c and inc/conn.h: Buf_t and its operations
--   Buffer/Socket                     src/conn.c: bufRecv and bufSend
--   Upstream                          src/ws_client.c: queueMaskedFrame, reconnectDelayMs
--   Upstream/Client                   src/ws_client.c: the client, updateEvents, upstreamDisconnect,
--                                     upstreamAdd, flushUpstreamTx, beginClose
--   Upstream/Frames                   src/ws_client.c: processBufferedFrames, publishReactorMessage
--   Upstream/Handshake                src/ws_client.c: queueHandshake, readHandshake,
--                                     processHandshakeResponse
--   Upstream/Reactor                  src/ws_client.c: readUpstreamFrames, handleUpstreamEvent,
--                                     resumePausedClients, upstreamConnect, reconnectClients
--   Conn                              inc/conn.h: Conn_t
--   Conn/Registry, Conn/Links,        src/conn.c: g_registry and its operations, connNew,
--   Conn/Registered                   connDestroy, connClose, registryDestroyAll; what they keep
--   Conn/Opening, Conn/Closing,       the theorems on connNew, connClose and registryDestroyAll
--   Conn/DestroyAll
--   Agg/Message                       src/agg.c: Msg_t, Frame_t and what makes them
--   Agg/Sources                       src/agg.c: findOrCreateSrc, aggSrcDown and the counting
--   Agg/Json                          src/agg.c: jsonEscapeInto and the text of a message
--   Agg/State                         inc/agg.h and src/agg.c: Agg_t, aggInit, aggOnMessage
--   Agg/Sink                          src/agg.c: sinkFlush, closeSink, adoptSink, sinkArm,
--                                     sinkReadAndHandle
--   Agg/Pump                          src/agg.c: aggPump, resumeParked
--   Agg/Control                       src/agg.c: the control queue, aggDrainForShutdown, the events
--                                     of the sink
--   Agg/Thread                        src/agg.c: the loop of aggregatorThread, its events and ends
--   Queue                             src/queue.c: push, as its callers see it
--   Queue/Nodes, Queue/Chain          inc/queue.h and src/queue.c: Queue_t and its functions on a
--                                     chain of nodes, and what the nodes spell
--   Queue/Fifo, Queue/Contract, Trace the queue against a list, call by call and over any run
--   Queue/Delete, Queue/Waiting       deleteQueueWith; the condition variable, as steps of threads
--   Options                           src/options.c: parseArgs, addUpstreamUrl
--   Worker, Worker/Frames             src/worker.c: the dispositions, handleWsOpen
--   Worker/Handshake                  src/worker.c: handleHandshakeRead, handleHandshakeSend
--   Worker/Thread                     src/worker.c: the loop of workerThread
--
-- How the code is read. A byte is a natural number, a buffer the list of the bytes written to its
-- block with `cap`, `len` and `off`; size_t keeps its wrap-around where a value of the peer enters
-- a sum. `malloc` and `realloc` are functions from a size to whether the allocator gives it. `recv`
-- and `send` are scripts of answers, used up a call at a time, so every way in which reading and
-- writing may be interrupted is a script. A handler is a function of the connection and of what the
-- threads share, the queues and the park list, as the values they hold; the mutexes make each
-- access to these one step. It is modelled as if no other thread ran during it: what the aggregator
-- may do between parkListPush and EPOLL_CTL_DEL in handleWsOpen is outside the model. The names follow the C code: `buf_reserve` is bufReserve. A function
-- of the code that is long is several definitions, one for each part, composed as in the code.
--
-- Fuel. The capacity doubles at most 64 times (Buffer/Growth). The loop of bufRecv has a call for
-- every byte and every answer of its script (`calls`), and so have those of readHandshake and
-- readUpstreamFrames. The loop of handleWsOpen has a round more
-- than `rx` has bytes, since each round that goes on takes two bytes at least. The loops of src/http.c
-- and src/sha1.c have a round for every byte of their text, and each round takes one at least. Each
-- round of aggPump takes a message from the queue or ends it, and a parked connection adds one.
-- sinkReadAndHandle and processBufferedFrames go on only behind a frame of two bytes or more.
--
-- deleteQueueWith has a round more than the queue counts items, registryDestroyAll any number of rounds
-- above the number of connections, and aggregatorThread one for each return of epoll_wait.
--
-- Sizes are those of a 64-bit system: Msg_t 56, Frame_t 8, QNode_t 16 bytes.
--
-- Not modelled: the listener, the start and stop of the threads and the logger (system calls and
-- output only); the round of the reactor's thread with its file descriptors, and the creation of the
-- descriptors of the aggregator's thread, with the returns where it fails; the links of the park list; the blocking client
-- wsClientThread, which nothing calls; printUsage.
pub mod Agg
pub mod Base
pub mod Base64
pub mod Buffer
pub mod Conn
pub mod Http
pub mod Options
pub mod Queue
pub mod Sha1
pub mod Upstream
pub mod Worker
pub mod Ws
