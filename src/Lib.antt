-- ===== src/Lib.antt =====
-- SA-Excutor: a daemon (saced) that runs shell commands, named services and event-triggered
-- services for clients, and the client library (libsace) that talks to it.
--
-- Parts and how they interact. A reader takes a command from a client and posts a message; the
-- dispatcher (saced/SaceCommandDispatcher.cpp) gives it to the executor of its handler type; each
-- executor (saced/SaceExcutor.cpp) has a queue, a semaphore and one thread, which runs the handler.
-- The normal executor starts children on a pipe by sace_popen; the service executor forks children
-- and looks after them in monitor_service_status. Children apply the parameters that the client
-- wrote (libsace/SaceParams.cpp). Results and responses go back through writers.
--
-- Files.
-- Common: Boolean tests, equality, maps as association lists, byte images, the outcome Run of a
--   handler: it returns, it hangs within its fuel, or it does what C++ leaves undefined.
-- Types: the records of libsace/include/sace/SaceTypes.h, saced/SaceClient.h, saced/SaceMessage.h and
--   saced/SaceWriter.h. An enumeration that comes from the wire is its byte; a std::string is the
--   list of its bytes; a 32-bit int is its bit pattern.
-- Params: SaceCommandParams and its setters (libsace/include/sace/SaceParams.h), decode_uid and
--   parseCommandParams, the triggers and parseEventParams (libsace/SaceParams.cpp).
-- Wire: the parcels (writeToParcel and readFromParcel of libsace/SaceTypes.cpp and
--   libsace/SaceParams.cpp). Wire/Laws has the Parcel of the platform as a record of operations with
--   laws, Wire/Rules the readers as a monad with one rule for each way to build a reader, and
--   Wire/Command and Wire/Result the codecs. Wire/Names has the texts for the log.
-- Process: sace_popen, sace_pclose, handle_child_params and set_proc_capability. The answers of
--   pipe2, malloc, vfork and waitpid are arguments. The loop of sace_pclose runs on fuel:
--   one unit is one look at the child, and a fuel above the look at which the child ends is enough.
-- Normal: SaceNormalExcutor: mRunningCmd, mClientCmd and mSeqCmd as one state with the global
--   pidlist, and startNormalCmd, closeNormalCmd, destroyNormalCmd and excuteNormal; Normal/Uninit has
--   onUninit and the destructor.
-- Service: SaceServiceExcutor: mRunningService, mSeqService and mNameService hold addresses, and
--   the services lie in a heap, so a read of freed memory is undefined. Service/Handle has
--   excuteNormal and handleServiceInfo, Service/Uninit has onUninit and the destructor,
--   Service/Monitor has monitor_service_status, with the iterators of its two loops as positions;
--   Service/Info has the image of a service that a query returns.
-- Executor: SaceExcutor as a step relation: senders, posts, waits, the thread, the request to exit;
--   Executor/Dispatcher has SaceCommandDispatcher::handleMessage.
-- Event: SaceEvent (saced/SaceEvent.cpp): its maps and sets, the handlers for ADD, DEL and INFO, the
--   two handle_result, and the part of a round of the monitor thread that starts services. Event/File
--   and Event/Parser have read_ini_file: the lines of getline, the tokens, the attributes (each word
--   takes a character of its line, so the number of those is fuel enough). Event/Blocks describes
--   the file as a list of services. Event/Writer has write_ini_file, and Event/Monitor onInit,
--   onUninit and the monitor thread.
-- Reader: the socket reader (saced/SaceReader.cpp): typeCmdToMsg, the security check, the slots, and
--   the loop that reads commands, where the parcel is an argument; and the binder reader, with its
--   calls in Reader/Binder.
-- Client: the objects of libsace/SaceObj.cpp: error codes, close, stop, pause, restart, getState. The
--   sender is an argument: the result that comes back for a command.
-- Sender: SaceSocketSender (libsace/SaceSender.cpp): init, uninit, excuteCommand, the map of results,
--   and what the receiving thread does with a message (Sender/Receive). The wait of a caller runs
--   over the list of its wake-ups; a list that comes to the deadline is enough for it to return.
-- Manager: SaceManager (libsace/SaceManager.cpp): its two maps over a store of shared objects,
--   runCommand, the queries and checkService, the events, and onResponse.
-- Examples: the models on concrete inputs.
--
-- Bounds. Descriptors, pids, signals and addresses are natural numbers; labels are 64-bit numbers
-- made by SEQUENCE_TO_LABEL. decode_uid keeps the wrap of strtoul and the cut to 32 bits;
-- the extraction of resource limits keeps the saturation of the C++ streams.
--
-- Not modelled: the binder sender, the writers, the Java binding, the log itself, a stream that fails
-- while the event file is written, and the failures of thread and semaphore creation.
pub mod Common
pub mod Types
pub mod Params
pub mod Wire
pub mod Process
pub mod Normal
pub mod Service
pub mod Executor
pub mod Event
pub mod Reader
pub mod Client
pub mod Sender
pub mod Manager
pub mod Examples
