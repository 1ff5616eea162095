-- ===== src/Lib.antt =====
-- Verification of the esp32_components library, a collection of C components for the ESP32.
--
-- Parts and files:
-- - SwFifo/src/SwFifo.c, a circular buffer of items: SwFifo.antt. The state is the record `SwFifo`; the
--   block of memory is a list of bytes and the indices are `uint32_t`s that wrap. SwFifo/Inv is the
--   invariant, SwFifo/Queue the bounded queue that a client sees.
-- - Cobs/src/Cobs.c, COBS byte stuffing: Cobs.antt. Buffers are lists with an end, and an access outside
--   one is the outcome `faults`; Cobs/Spec is the stuffing on lists.
-- - Cobs/src/Cobs_frame.c, frames in a byte stream: CobsFrame.antt, on top of SwFifo and Cobs. The state
--   machine is the type `State`, a round of its loop the function `step`; CobsFrame/Bytes and
--   CobsFrame/Search are its reads and searches, CobsFrame/Receive its rounds, CobsFrame/Stream its calls
--   and CobsFrame/RoundTrip the way from the framer to the deframer.
-- - CList/include/CList.h, circular doubly linked lists: CList.antt. The heap is a function from pointers
--   to links; CList/Links has the predicate `Ring` that ties it to a list of entries, CList/Insert,
--   CList/Remove, CList/Iter, CList/Flush and CList/Drain follow the operations and loops, and
--   CList/Session runs them in any order.
-- - SwTimer/SwTimer.c, timers over the microsecond clock: SwTimer.antt. The clock counts that a function
--   reads are its arguments; SwTimer/Elapsed and SwTimer/Sleep say what a timer measures.
-- - Random/include/Random.h, numbers made of random words: Random.antt, with the ranges in Random/Range.
-- - WS2812Led/src/WS2812Led.c, LED strips: Ws2812Led.antt. Ws2812Led/Color is the arithmetic of colours,
--   Ws2812Led/Segment the state of a segment with its fills and timers, Ws2812Led/Gradient the gradients
--   and blends, Ws2812Led/Effects the other effects and the loop of a segment's task. The static variables
--   of the effects are the record `Statics`, which all segments share. Ws2812Led/Sound is the invariant of
--   a segment, which Ws2812Led/Burn, Ws2812Led/Lights, Ws2812Led/Trails and Ws2812Led/Turn follow through
--   the effects. Ws2812Led/Strip is the strip: its list of segments, on top of CList, the task that draws
--   them and the calls that add and show them.
-- - WS2812Led/src/encoder.c, the encoder of a strip: Ws2812Led/Encoder.antt, over two encoders of the RMT
--   driver that are parameters.
-- - ProtoRpc/src/ProtoRpc.c and PbGeneric/src/PbGeneric.c, remote procedure calls: ProtoRpc.antt, over the
--   frames that nanopb unpacks messages into; ProtoRpc/Session is about the
--   replies. TestRpc/src/TestRpc.c, a callset for tests: TestRpc.antt.
-- - UdpSocket/src/UdpSocket.c, UdpServer/src/UdpServer.c, UdpEcho/src/UdpEcho.c and
--   UdpRpcServer/src/UdpRpcServer.c, servers of datagrams: Udp.antt, on top of ProtoRpc. A run of the task is
--   a list of what its socket calls meet; Udp/Replies is about what is sent.
-- - TcpSocket/src/TcpSocket.c, TcpServer/src/TcpServer.c and TcpEcho/src/TcpEcho.c, servers of connections:
--   Tcp.antt. Tcp/Send is the write in parts and Tcp/Stream the echo of a whole connection.
-- - TcpRpcServer/src/TcpRpcServer.c, remote calls over TCP: TcpRpc.antt, on top of CobsFrame, ProtoRpc and
--   Tcp; TcpRpc/RoundTrip follows a framed call to its framed reply.
-- - RtosUtils/src/RtosUtilsRpc.c, the report of the system's tasks: RtosUtilsRpc.antt.
-- - Lfs_Part/src/Lfs_Part.c, littlefs on flash partitions: LfsPart.antt. LfsPart/Blocks is about the places of
--   blocks, LfsPart/Lookup about the registry of partitions, on top of CList.
-- - littlefs/src/lfs_helpers.c, reads and writes in one call and a pool of descriptors: LfsHelpers.antt.
-- - Lfs_Part/src/Lfs_PartRpc.c, files over remote calls: LfsPartRpc.antt, on top of LfsHelpers, LfsPart and
--   CList. LfsPartRpc/Cache is the cache of what is open, LfsPartRpc/Access what the handlers do on a file or
--   a directory, LfsPartRpc/Steps what they share and LfsPartRpc/Handlers the handlers and the resolver.
--   LfsPartRpc/Table and LfsPartRpc/Requests say what a client sees, a table of descriptors;
--   LfsPartRpc/Vacancy and LfsPartRpc/Keys relate it to the pool and to the items, LfsPartRpc/Mirror and
--   LfsPartRpc/Alloc follow the cache, LfsPartRpc/Refine, LfsPartRpc/Answers and LfsPartRpc/Opening the
--   handlers, LfsPartRpc/Session and LfsPartRpc/Simulate sessions of messages. LfsPartRpc/Listing and
--   LfsPartRpc/Paging are about the listing of a directory, LfsPartRpc/Total and LfsPartRpc/Ends about
--   the end of every call.
-- - WifiConnect/WifiConnect.c, the connection to an access point: Wifi.antt. A run is a list of the events
--   that the handler is called for; Wifi/Retries is about its retries.
-- - Fs_Api/include/Fs_Api.h, a file system as an object of functions, and Lfs_Api/src/Lfs_Api.c, which makes
--   one of a partition: LfsApi.antt, on top of LfsHelpers.
-- - lua/src/lua_thread.c, the task that runs script files: LuaThread.antt, on top of LfsApi. A run is a list
--   of what its rounds meet, the state a list of what the task did; LuaThread/Files is about what it holds.
--
-- Fuel: `decode` runs its outer loop on `max_buf_out + 1` rounds; every round but the last writes a byte.
-- The deframer runs five rounds of its loop, one for each of its states. The loops over a list run on
-- any fuel above the number of its entries, and the busy wait of a timer on the clock counts it is given.
-- The loop over a directory runs on any fuel above the number of its entries.
-- A transmission runs on any fuel above the number of its symbols and one more.
--
-- Parameters: `malloc` and the creation of a mutex or a task are arguments of the functions that ask
-- for them; clock counts, random words and the results of esp_timer and RMT calls are arguments of the
-- functions that read them. What the RMT driver documents of its encoders is the record `IsSender`;
-- nanopb is the record `Nanopb`, littlefs the records `Lfs` and `Littlefs`, and what the socket calls
-- return is an argument of what calls them.
--
-- Not modelled: log messages; the Lua interpreter, its libraries and the remote calls of
-- lua/src/lua_thread_rpc.c, which only pass a name on; the bit timings of the encoder, which are
-- computed in floating point; the copies of littlefs and nanopb.
pub mod Base
pub mod SwFifo
pub mod Cobs
pub mod SwTimer
pub mod CList
pub mod CobsFrame
pub mod Random
pub mod Ws2812Led
pub mod ProtoRpc
pub mod TestRpc
pub mod Udp
pub mod Tcp
pub mod RtosUtilsRpc
pub mod LfsHelpers
pub mod LfsPart
pub mod LfsPartRpc
pub mod TcpRpc
pub mod Wifi
pub mod LfsApi
pub mod LuaThread
