-- ===== src/Lib.antt =====
-- A model of the core of POP-C++: how calls between parallel objects are encoded, sent, queued and
-- answered, and what holds of it.
--
-- Parts
--
-- A remote call is a message. The caller packs its arguments into a message buffer, the buffer is
-- sent over a connection, the broker of the called object receives it, queues it and serves it,
-- and the answer, or the exception that the method has thrown, goes back the same way.
--
-- - Base: tests on the native numbers, lists, results with errors, bytes and words. A C++ `int` is
--   a word: a number below 2 ^ 32 that is negative from 2 ^ 31 on; what the code computes on it
--   keeps the wrap-around (`wrap32`, `increment`, `decrement`).
-- - Buffer: lib/dynamic/buffer_raw.cc, lib/dynamic/buffer_xdr.cc, lib/core/buffer.cc and
--   include/core/pop_buffer.h. Types has the message header (pop_message_header) and the buffer
--   (`header`, `unpackpos`, `packeddata`); an argument of Pack is an Item and one of UnPack a
--   Shape, with one constructor for the overloads of the number types, one for `bool` and one for
--   `char`. Raw and Xdr are the two classes (Reset, Pack, UnPack, CheckUnPack); Header is the
--   header and its five words; Wire is get_load, Send up to the call of the combox, and Recv, once
--   for both classes, which differ in the order of bytes (Encoding); Connection has the receiving
--   loops; Text the strings and vectors. Queue is the interface that both classes fill
--   (BufferClass with BufferLaws: a buffer is a queue of items), and that all clients take as a
--   parameter; Call puts a whole message together.
-- - Exception: lib/core/exception.cc (Codes) and SendException and CheckAndThrow of
--   lib/core/buffer.cc. Remote is an exception on its way from one side to the other.
-- - AccessPoint: lib/core/accesspoint.cc and include/core/pop_accesspoint.h.
-- - Broker: lib/core/broker.cc, lib/core/broker_serve.cc and lib/dynamic/broker_receive.cc. Broker
--   and Order are the choice of GetRequest; Threads the interleavings of RegisterRequest,
--   GetRequest, ServeRequest and the invocation threads, as steps between states; PopCall the
--   calls that the broker answers itself, with AddRef and DecRef of lib/dynamic/object.cc and
--   FindFactory of lib/core/buffer_factory_finder.cc; Methods the table of method names; Invoke
--   is DoInvoke with its catch clauses.
-- - CodeMgr: services/lib/codemgr.cc and services/lib/codemgr.ph, RegisterCode and QueryCode.
-- - Od: lib/core/od.cc and include/core/pop_od.h. The members of pop_od with the demands of power,
--   memory and bandwidth, and both directions of Serialize; Url is the address, where one with a
--   user is `undefined`, since the code copies between overlapping parts of an array.
-- - JobMgr: services/lib/jobmgr.cc and services/lib/jobmgr.ph. Reserve has Reserve and
--   MatchAndReserve, with the wall time of a machine in Walltime; Release what gives resources
--   back, on a list of jobs whose references are positions (an entry that has been erased is read
--   as the next one, and behind the last the result is `undefined`); Account, Invariant, Shrink
--   and Limits are about every sequence of operations (Run); Bounds and Cancel about single ones;
--   Choice is MatchAndReserve for several objects.
--   Nodes is NodeInfoMap, Pause the list of paused applications, and Trace the list of requests
--   and the addresses that a request has passed.
-- - Search: MatchWildcard of lib/dynamic/utils.cc (Wildcard, Complete), and the search for nodes.
--   Request is lib/dynamic/request.cc, where a member with its `_has...Set` is a Field (Fields);
--   Response is lib/dynamic/response.cc with lib/dynamic/popc_search_node_info.cc, Route
--   lib/core/popwayback.cc, Exploration lib/dynamic/explorationList.cc, and Node what a
--   node of services/lib/popc_search_node.cc keeps: its resources, the requests that it knows and
--   the answers that have come.
--
-- Bounds and fuel
--
-- A message is less than 2 ^ 31 bytes long (IsSmall), since the reading position is an `int`. The
-- receiving loops run on fuel, as much as bytes are wanted; a call that succeeds delivers a byte,
-- so this is enough. A broker is followed through states with fewer than 2 ^ 31 requests of each
-- kind (IsBounded), since the counters are `int`s. `concPendings` is read and written in two steps,
-- since the threads that change it hold different locks.
--
-- The loop of CheckPauseList is followed for a number of turns (check_pause_list); it either ends
-- within one turn more than there are entries, or never. The other loops of a JobMgr and of
-- MatchWildcard are recursion on the list or the text.
--
-- Parameters
--
-- The XDR routines of the system (XdrLibrary with XdrLaws: what is encoded is decoded, in the
-- documented space), the receiving side of a connection (ComboxReader with ComboxLaws: it delivers
-- the bytes in order, in pieces that are not empty), the serialization of a parallel object that
-- is thrown (ObjectCodec), the text of a system error number and that of what() of a std::exception,
-- and the arithmetic and the order of floats (Floats with IsOrdered) are parameters. SampleXdr,
-- Samples and JobMgr/Words instantiate them. For a JobMgr the clock, the addresses that GetIP
-- finds, and what the search node and the objects answer are arguments.
--
-- Storage that a constructor leaves unset is a parameter too (`storage`): it holds anything.
--
-- Not modelled
--
-- Sockets, threads and processes themselves; load and RecvCtrl; builds with OD_DISCONNECT or
-- POP_PSEUDO; ReceiveRequest, Run's end and Initialize of the broker;
-- operator=, getValue and the constructor of object descriptions; of the job manager what starts
-- processes or calls other services (CreateObject, AllocResource, Forward, Exec, ExecObj); the
-- other services but for the code manager, GetPlatform of the code manager, which assigns a null
-- pointer to a text, the propagation of requests between search nodes, the client side of parallel
-- objects, the parser.
pub mod Base
pub mod Buffer
pub mod Exception
pub mod AccessPoint
pub mod Broker
pub mod Od
pub mod JobMgr
pub mod Search
pub mod CodeMgr
