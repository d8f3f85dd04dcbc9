-- ===== src/Lib.antt =====
-- tarm-io: a C++ library for networking, files and timers over libuv's event loop. This development
-- models its core in the layers in which the code is built:
--
-- VariableLengthSize: source/io/core/VariableLengthSize.{h,cpp}, sizes of 1 to 8 bytes of 7 bits each,
--   on the two packed 64-bit words of the class. A function of the model has the name of the method;
--   each takes the object and returns the new one. VariableLengthSize/Decoder has the same decoder with
--   its bytes in a list, VariableLengthSize/Wire the value of such a list.
-- Message: source/io/net/GenericMessageOrientedClientBase.h, messages over a stream client, each
--   sent as its size and its bytes. The receive callback is the list of events that it is called with,
--   `memcpy` past the buffer is the outcome `fault`. Message/Phase is the receiver as a machine that
--   takes one byte at a time. The loop of `on_data_receive` runs on 2 * length + 1 rounds of fuel, which
--   is enough because a round takes a byte or ends a message of size 0 before one that does.
-- StatusCode, Error: source/io/StatusCode.{h,cpp} and Error.{h,cpp}. The numbers of libuv's codes are a
--   parameter.
-- EventLoop: source/io/EventLoop.cpp. Scheduled callbacks and their executor (EventLoop/Callbacks),
--   callbacks of other threads with every interleaving (EventLoop/Posted), the timer that keeps the loop
--   alive (EventLoop/Block), the life of a work item between the loop's thread and the pool's
--   (EventLoop/Work), and signal handlers (EventLoop/Signals).
-- RefCounted: source/io/Removable.cpp and RefCounted.cpp, objects that the loop deletes.
-- TcpWrites: source/io/net/detail/TcpClientImplBase.h, the requests and answers of a TCP stream.
-- Timer: source/io/Timer.cpp. Of libuv's timer the model has the time until its next call
--   and its repeat; what becomes of it after a call is a parameter.
-- Backlog: source/io/BacklogWithTimeout.h, the buckets of items that expire, each with a timer. The
--   constructor's loop runs on the timeout as fuel, which is enough because it halves.
-- UdpServer: source/io/net/UdpServer.cpp with the handle of net/detail/UdpImplBase.h. It uses Timer for
--   closed peers and Backlog for the others; here the backlog is the list of the ids of its items.
-- BufferSize: source/io/global/Configuration.cpp, the searches for the limits of a socket's buffer. The
--   binary search runs on its upper bound as fuel, since each round makes the bounds closer; the
--   doubling on 31, since a size that is not 0 passes the limit by then.
-- File: source/io/fs/File.cpp with fs/detail/FsCommon.h, a file with its four read buffers and the
--   callbacks that it posts to its loop. `again` is the call of its own `schedule_removal`, which runs on
--   fuel: one call is enough where it comes back at all (File/Removal).
-- TcpClient: source/io/net/TcpClient.cpp, the connection of a client from `connect` to the close callback,
--   with the handles that are being closed. `none` is a call of libuv with a null pointer.
-- TcpServer: source/io/net/TcpServer.cpp with the clients that it accepts, net/TcpConnectedClient.cpp. The
--   clients are a list in which each has the number of its connection, which stands for its address in
--   memory.
-- Dir: source/io/fs/Dir.cpp with fs/detail/FsCommon.h, the state of a directory and its listings. The
--   removal runs on fuel as in File.
-- Convert, Endpoint: source/io/ByteSwap.cpp, Convert.cpp, net/Endpoint.cpp and net/detail/PeerId.{h,cpp},
--   addresses in the fields of the C structures, their texts and the ids of peers.
-- Tls: source/io/net/detail/OpenSslClientImplBase.h, the TLS or DTLS side of a client, with the results of
--   OpenSSL as arguments. The memory BIOs are not in the state: what is pending in them is an argument.
-- Prelude: names of the libraries, Boolean tests, lists and bits that the others share.
--
-- Integers are natural numbers with the wrap-around of 64 bits written out where the code can reach it.
-- Out of the model are the logging, what OpenSSL does, the functions
-- that make and remove directories, the bytes of read buffers, and Path, which is derived from Boost.Filesystem.
pub mod Prelude
pub mod VariableLengthSize
pub mod Message
pub mod StatusCode
pub mod Error
pub mod RefCounted
pub mod EventLoop
pub mod Timer
pub mod Backlog
pub mod UdpServer
pub mod TcpWrites
pub mod BufferSize
pub mod File
pub mod TcpClient
pub mod TcpServer
pub mod Dir
pub mod Convert
pub mod Endpoint
pub mod Tls
