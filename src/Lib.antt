-- ===== src/Lib.antt =====
-- The fault diagnosis system: a server on epoll that collects audio and log messages of clients over
-- TCP, and the client library that sends them.
--
-- Parts, and the files that model them:
--
-- - Wire, Framing: the message format of audioserver/AudioDataUnit.h (a packed 12-byte NetMsgHeader,
--   then the data), and IsValidNetMsgHeader. Framing.scan says what the messages in a stream of bytes
--   are, independently of buffers; Framing/Messages relates it to what a sender writes.
-- - Server/Conn: class EpollMateData, the state of a connection, with Conn/Deleted for its destructor.
-- - Server/Receive: AudioServer::readFunc (audioserver/AudioServer.cpp). `Receive` has one function
--   per block of the handler, composed as in the source (`judge_header`, `move_forward`,
--   `take_message`); Receive/Loop has the loops. The proofs stand in Header (the search for a
--   header), Window (the offsets and the bytes that count as received), Window/Judge and
--   Window/Refine (the handler implements Framing.scan), Delivery (one recv), Stream (a run), Rounds
--   (the jumps back to FindHeader), Queues, Origin (whose messages are enqueued), Whole and Stall
--   (where the buffer is used up).
-- - Server/Send: TcpSendData and AudioServer::writeFunc. Prefix is about the loop over send, Write
--   about the handler.
-- - Server/TaskMap: the template TaskMap, from addresses to connections, with TaskMap/Mapping for the
--   mapping that it stands for, a quotient.
-- - Server/Epoll: EpollServer::epollRun (audioserver/EpollServer.cpp), with the callbacks as
--   parameters, as in the source. Count has the step relation of the server and the count of its
--   connections, Reports and Rounds whole rounds of the loop under what epoll_wait promises, Keeps
--   what the callbacks keep, and Reconnect what a second connection from an address does.
-- - Server/Running: the loop of requestListenFunc (audioserver/AudioServer.cpp), epollRun with
--   readFunc and writeFunc as its callbacks. Sockets is about what the handlers leave alone of a
--   connection, Sound about the whole loop, Idle and Routed about the messages of several connections,
--   and Duplex about one on which reads and writes alternate.
-- - Config, Text: class CCfgFileParser (audioserver/CCfgFileParser.cpp, with a copy in audioclient)
--   and the C string functions it calls. Written is what settings look like in a file, Items and
--   Meaning what the parser makes of them, Errors where it stops.
-- - Server/Settings, Server/Results: ReadPath and readConfig (audioserver/global.cpp), and the
--   identifiers of results (AudioServer.cpp).
-- - Server/Listening: the opening of the listening socket, EpollServer::Bind, Listen and Create and
--   AudioServer::requestListenFunc, which Ignored is about.
-- - Client/Tcp: class TcpClient (audioclient/TcpClient.cpp), with the descriptors that are open.
-- - Client/Connection: connectToServer (audioclient/ClientManage.cpp) and the loop that repeats it.
-- - Client/Outgoing, Client/Incoming: the two halves of ClientManagement::netWorkFunc
--   (audioclient/ClientManage.cpp). Outgoing/Conserved is about the bytes of a block over the rounds
--   of the loop; Incoming/Step and Incoming/Stream are about whole messages that are received, and
--   Incoming/Overrun about accesses outside the buffer, which end the model with `none`.
-- - Client/Outgoing/Drained: the client gets rid of its queue; Outgoing/Unframed: what send_pcm puts
--   into it.
-- - Client/NewTcp, Client/OldTcp: two other versions of TcpClient (audioclient/New-TCP and
--   audioclient/Old-TCP), compared with the one that is built.
-- - Client/Start, Client/Status: init_audio_client (audioclient/AudioClient.cpp) and what it starts,
--   and the counters of OutputStatusFunc.
-- - Server/Start: from main (audioserver/main.cpp, global.cpp) to the running threads, with
--   Start/Threads; Server/Worker: workerFunc, the threads that take what readFunc enqueued, with
--   Worker/Starved; Server/Status: the counters and the time limit of outputStateFunc.
-- - Loading: loadDecoderModule of the server and of the client (audioclient/mylog.cpp).
-- - Files: audioserver/MyFile.cpp, with Names (how long the names are) and Origins (getCodeLine).
-- - Transfer: from the queue of a client to the queues of the server, with Transfer/Clients for several
--   clients and the event loop.
-- - Client/Settings, Client/Header: readFunctionConfig and the reading of a header in pieces.
-- - Settings, Paths, Wave: what the server and the client both do with settings, directories
--   (myMakeDir) and wave files (audioserver/Wave.cpp).
-- Base has the shared helpers, Socket what the socket calls answer, Queue what DeDataQueue promises,
-- Tests the theorems at concrete inputs.
--
-- How the parts interact: epollRun hands the connection of an event to readFunc or writeFunc;
-- readFunc hands each audio message to EnDataQueue of libmmdecoder.so, which is not in the repository
-- and a parameter here, with its return value as a function of the calls made before; the client
-- takes the block to send from DeDataQueue of the same library, a parameter too. Transfer puts the
-- client's rounds, a network that keeps the order of the bytes, and the server's reads together;
-- Server/Running puts the event loop, its two handlers and the threads behind its queues together.
--
-- Choices. A buffer is the list of its bytes, and a pointer into it an offset. The socket calls are
-- lists of results, in the order of the calls. Counters of 32 and 64 bits wrap around where the
-- source's do. `find_header` and `find_incoming` have fuel one above the number of bytes received,
-- since each `goto FindHeader` uses up at least one of them (in the client, where `iReadLen` has not
-- wrapped around). The other loops are structural, on the bytes or on the results of the
-- calls. Memory that `new` returns has any contents of the size asked for.
--
-- Not modelled: the scheduling of threads, log output, the clock, the text of the statistics and its
-- floating point factors, and libmmdecoder.so itself. The client's copies of files of the server
-- (CCfgFileParser, MyFile, Wave) are modelled once.
pub mod Base
pub mod Socket
pub mod Wire
pub mod Framing
pub mod Server
pub mod Queue
pub mod Text
pub mod Config
pub mod Client
pub mod Transfer
pub mod Wave
pub mod Paths
pub mod Files
pub mod Loading
pub mod Settings
pub mod Tests
