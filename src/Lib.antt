-- ===== src/Lib.antt =====
-- A verification library for the push server of this repository: the receive buffer, the packet
-- protocol, the value formats, the registry of clients and their queues, the life of one client
-- connection, the threads, the server with its store, the history of the database, and the
-- start of the process with its configuration. The definitions translate the C++ sources function by
-- function, under names in snake_case, and are executable.
--
-- How the parts interact. A connection (`LPushConn`) owns a socket of the state-threads runtime and
-- a protocol object. The protocol reads packets through a buffer that `grow` fills from the socket,
-- and writes packets with one `writev`. A handshake packet carries JSON in the value format of
-- `LPushFMT`; a client that passes the digest test and the secret test is entered in the static
-- maps of `LPushSource`, with a queue of its own. `cycle_all` spreads the messages that it takes
-- from the store over these queues, and `playing` forwards the next one of a queue to its client.
-- The server accepts connections, and its main thread calls `cycle_all` every second; the history
-- thread puts the stored messages of a client that has come back into the queue of that client.
--
-- Files and sources:
--   Errors       src/kernel/lpushSystemErrorDef.h, the return codes
--   Wire         the big-endian 32-bit integers that both formats use
--   Heap         what the code depends on of malloc
--   Math         src/kernel/lpushMath.cpp: empty, md5Encoder, isIntergeStr
--   Fmt          src/protocol/lpushFmt.cpp: decoders; Fmt/Encode the encoders; Fmt/Json the JSON
--                value; Fmt/RoundTrip and Fmt/Bounds their proofs
--   Socket       src/app/lpushAppSt.cpp; Socket/Core src/core/lpushSocket.cpp with its rates, and
--                Socket/Core/Agrees how the two sockets compare; Socket/Stream the behaviour of
--                the runtime that is relied on; Socket/Pipe a runtime over two lists for the
--                examples
--   FastBuffer   src/core/lpushFastBuffer.cpp: `mem` is the block, `p` and `end` are offsets;
--                FastBuffer/Inv, View, Fill and Grow the proofs
--   Protocol     src/protocol/lpushProtocolStack.{h,cpp}: header, chunk, readHeader, readMessage;
--                Protocol/Packet the format; Protocol/Send the replies and sendPacket;
--                Protocol/Handshake the messages; Protocol/Parse, Protocol/Flag, Protocol/Receive
--                and Protocol/Authorised the proofs
--   Source       src/app/lpushSource.cpp: Source/Message the worker's messages, Source/Keys the
--                keys of the store, Source/Registry the static maps with clients, sources and
--                queues, Source/Deliver the proof about cycle_all, Source/Mailbox what the registry
--                promises as mailboxes and the proof that it keeps this,
--                Source/FastQueue the queue with slots and what it is as a queue
--   Conn         src/app/lpushAppLpushConn.cpp: Conn/Open the opening of a session, Conn/Forward
--                the messages of an open session, Conn/Push the forwarding of a message;
--                Conn/Cycle the rounds of the receive thread and of the consume thread
--                (src/app/lpushRecvThread.cpp, src/app/lpushConsumThread.cpp);
--                Conn/Cycle/Single one round of the latter; Conn/Threads their start and stop; Conn/Secret, Conn/Callback,
--                Conn/Register, Conn/Authorised and Conn/Heartbeat the proofs
--   Thread       src/app/lpushThread.cpp: LPushThread, cut where a thread gives way; Thread/System an
--                owner and its thread as a step relation; Thread/Inv, Safety and Finish the proofs;
--                Thread/Handler the callbacks of a handler over the life of a thread
--   PThread      src/app/lpushPThread.cpp, cut at each access of a flag, with the step relation of
--                both threads; PThread/Inv and Joined the proofs
--   Redis        src/core/lpushRedis.cpp; Redis/Sorted its sorted sets, Redis/Laws the proofs
--   Listener     src/app/lpushAppListener.cpp: listen and cycle; Listener/Closing the destructor on the
--                table of descriptors
--   Server       src/app/lpushServer.cpp and src/core/lpushConnection.cpp: connections and signals;
--                Server/Start the start, with run of src/main/main.cpp, and Server/Boot its proof;
--                Server/Conns the list of connections under all events; Server/Cycle the main
--                thread, Server/Tasks the task list of the store, Server/Ticks the proof;
--                Server/Signals the signal pipe and its thread
--   Mongo        src/core/lpushMongoClient.cpp: queries, return codes, documents as maps;
--                Mongo/Client a client and the pool (src/core/lpushMongoPool.cpp), Mongo/Maps the
--                documents that are made of maps
--   History      src/app/lpushMongoIOThread.cpp: the queue of entities and do_cycle; History/Texts,
--                Page, Endless, Queue and Success the proofs; History/Sharing the entities that the
--                connections and the thread share, with Inv and Closing its proofs
--   Logger       src/kernel/lpushLogger.cpp: a line of the log in its block; Logger/Block and Line
--                the proofs; Logger/Context the ids of threads, Logger/Report err_sys_report and
--                its like, Logger/Setup the initialisation
--   Config       src/kernel/lpushJson.cpp: the configuration and maps of strings as JSON;
--                Config/Entries and Texts the proofs
--   Utils        src/kernel/lpushUtils.{h,cpp}: checkProDir and Trim; Utils/Place the proof
--   Main         src/main/main.cpp: the arguments, the daemon, the order of the start;
--                Main/Serves the proof
--   Common       shared names, Boolean tests, lists, texts, association lists, with
--                Common/Maps on association lists without repeated keys
--   Tests        the theorems at concrete inputs
--
-- Conventions. A result `none` is a fault: a failed assertion, an access outside a block, a shift
-- that C++ does not define, an exception, a use of a deleted object. An `int` is its 32-bit
-- pattern and a `long long` its 64-bit pattern; a byte is a number. Pointers to objects are
-- options or numbers that stand for addresses. The static maps are association lists of which the
-- first entry of a key counts. Strings are lists of bytes; `c_str` is the part before the first NUL.
--
-- Fuel. The loop of `grow` has no bound in the source. Each of its rounds reads a byte at least or
-- ends it, so `required + 1` rounds are enough. The loop of `selectMongoHistoryWork` takes a number
-- of rounds and says whether it has returned; with one page of documents it does not loop.
--
-- What is taken as given. The flag array of the source has no NUL of its own, and the byte behind
-- it is taken to be 0. The operands of `*buf++ << 24 | *buf++ << 16 | ...` are taken from left to
-- right. A C string in a block ends with the block. The runtime, the JSON library, MD5, the store,
-- the database and the clock are arguments, with what is relied on as hypotheses of the theorems
-- that need it. Calls of the store and the database are recorded in the order they are made.
--
-- Interleavings. Threads of the state-threads library give way only in its calls. `Thread.System`
-- has a step for each stretch between two of them and all orders of these; `PThread`, whose threads
-- are those of the system, has a step for each access of a shared flag. `History.Sharing` has the
-- openings and closings of connections and the takings of the history thread in any order, and lets
-- the allocator choose the addresses. The rounds of the consume thread take what other threads push
-- meanwhile as an argument of each round. The other rounds of a connection, and those of the main
-- thread and of the history thread, are functions of what they find.
--
-- Not modelled: the libraries, the float values of the format, the handshake that the client side
-- would send, the unit tests and the test client, the log of statistics, and the sleeps between the
-- rounds of a loop.
pub mod Common
pub mod Errors
pub mod Wire
pub mod Heap
pub mod Math
pub mod Fmt
pub mod Socket
pub mod FastBuffer
pub mod Protocol
pub mod Source
pub mod Conn
pub mod Thread
pub mod Redis
pub mod Listener
pub mod Server
pub mod Mongo
pub mod History
pub mod Logger
pub mod Utils
pub mod Config
pub mod Main
pub mod PThread
pub mod Tests
