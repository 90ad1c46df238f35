-- ===== src/Lib.antt =====
-- Async-HTTP: an HTTP client that runs its requests on a worker thread, on the delegates, threads,
-- timers and acknowledged transport of DelegateMQ.
--
-- HTTP/async_http.h and HTTP/async_http.cpp are modelled by Http.antt (responses, libcurl's
-- interface), Http/Global.antt (curl_global_addref and curl_global_release), Http/Request.antt
-- (WriteCallback, HttpGet, HttpPost) and Http/Client.antt (the class AsyncHttp: get_wait,
-- post_wait, get_callback, post_callback, get_future, post_future, init, shutdown). libcurl is the
-- record Curl, with the documented effect of curl_easy_reset and curl_easy_setopt as its laws. A
-- client holds a thread of Thread.antt, to which it sends tasks; a worker's round takes a message
-- from that thread and runs the task on the client's curl handle. Http/Client/Wait.antt,
-- Http/Client/Expired.antt, Http/Client/Shutdown.antt and Http/Client/Start.antt are about one
-- client, Http/Lifecycle.antt about several that share libcurl's global state, Http/Options.antt
-- about single requests. A blocking call is told by its schedule: how many messages the worker
-- finishes before the deadline, and whether it is inside one then.
--
-- DelegateMQ/port/os/stdlib/StdlibThread.cpp, with DelegateMQ/port/os/common/ThreadMsg.h and
-- DelegateMQ/delegate/DelegateMsg.h, is modelled by Thread/State.antt (the data) and Thread.antt
-- (the operations): create_thread, dispatch_delegate (DispatchDelegate, with wake for the end of a
-- producer's wait), process_step (a round of Process), exit_begin and exit_end (ExitThread before
-- and after the join). Each is what happens under m_mutex. Thread/History.antt has the steps that
-- any interleaving is made of, Thread/Exit.antt the loop and ExitThread as a whole. The loop has
-- fuel, one unit for a message; ExitThread gives it the number of messages that wait, which is
-- enough. Watchdog.antt models the list of watched threads of the same file: create_thread
-- registers one, destroy removes it, watchdog_check_all is WatchdogCheckAll.
--
-- DelegateMQ/delegate/DelegateAsyncWait.h and DelegateMQ/delegate/Semaphore.h are modelled by
-- AsyncWait.antt: a blocking call as a message that the sender and the receiver change in turn
-- (dispatch, wait, finish; start_invoke, end_invoke, cancel). AsyncWait/Outcome.antt has their
-- interleavings. The client's send_wait is the same call seen from the sender, with the receiver's
-- rounds as its schedule.
--
-- DelegateMQ/extras/util/Timer.cpp is modelled by Timer.antt: start, stop, check_expired,
-- process_timers. DelegateMQ/extras/util/TransportMonitor.h is modelled by Reliable/Monitor.antt
-- (add, remove, cancel, pass), and DelegateMQ/extras/util/RetryMonitor.h by Reliable/Retry.antt
-- (send_with_retry, on_status_changed), where the monitor's callbacks run: acknowledge is Remove,
-- process is Process. The transport below is a parameter. Both loops over batches have fuel, one
-- unit for a batch.
--
-- The bytes that go to other processes are modelled by Wire.antt and its children, in
-- DelegateMQ/port/transport and DelegateMQ/extras. Wire/Frame.antt has the header of
-- common/DmqHeader.h as bytes, and a transport's links to its monitor, which is the one of
-- Reliable/Monitor.antt. Wire/Port.antt is the interface of a byte stream, a socket or a serial
-- port: a parameter with laws for read and write; ReadExact stands on it, with the number of bytes
-- as its fuel, since a turn reads one at least. Wire/Tcp.antt is linux-tcp/LinuxTcpTransport.h
-- (send_to_socket, receive_socket, receive_server), Wire/Udp.antt is linux-udp/LinuxUdpTransport.h
-- over a network of datagrams that is a parameter too, Wire/Serial.antt is
-- serial/SerialTransport.h, whose loop that looks for a marker takes fuel, one unit for a byte of
-- noise and one more, Wire/Crc.antt is util/crc16.h with both versions of Crc16CalcBlock, and
-- Wire/Dispatch.antt is dispatcher/Dispatcher.h. A call of the operating system that returns no
-- bytes, for an error, the end or a time-out, is one case.
--
-- DelegateMQ/delegate/DelegateRemote.h is modelled by Remote.antt, for a delegate of one argument:
-- send is operator(), invoke is Invoke, and the errors that they report; the serializer is a
-- parameter. DelegateMQ/extras/databus/Participant.h is modelled by Peer.antt (the ring that finds
-- duplicates, the latches of errors) and Peer/Channels.antt (dispatch_if_interested,
-- register_handler, process_incoming, on_channel_error), whose channels, of
-- DelegateMQ/extras/dispatcher/RemoteChannel.h, hold a remote delegate each. Peer/Requests.antt has
-- the series of calls of one.
--
-- DelegateMQ/extras/databus/DataBus.h is modelled by Bus.antt (its state) and its children:
-- Bus/Slots.antt (the arrays of participants), Bus/Limiter.antt (RateLimiter, Filter),
-- Bus/Registry.antt (the tables of types, signals, serializers and errors), Bus/Publish.antt
-- (InternalPublish, in the steps that its comments number), Bus/Subscribe.antt (InternalSubscribe)
-- and Bus/Calls.antt (series of calls). Its signals are those of Signals.antt and its participants
-- those of Peer.antt. A topic is a string, a list of bytes, and std::map is a list in the order of
-- its keys. Objects behind a shared_ptr<void> carry the type they were made with, and a state keeps
-- a record of the static casts. An effect is what subscribers, monitors and error handlers get. A
-- call is one step under the lock, and FaultHandler ends the series.
--
-- DelegateMQ/delegate/MulticastDelegate.h is modelled by Multicast.antt: the list with its null
-- pointers (push_back, remove, clear, assign, move_assign), BroadcastGuard (enter, leave) and the
-- loop of operator(), whose steps are events between which callbacks change the container.
-- Multicast/Safe.antt is the broadcast of DelegateMQ/delegate/MulticastDelegateSafe.h.
-- DelegateMQ/delegate/Signal.h is modelled by Signals.antt: connect, disconnect, clear, mark_dead
-- for the destructor, get_snapshot and invoke_snapshot. Shared pointers are numbers there.
--
-- DelegateMQ/extras/allocator/Allocator.cpp is modelled by Allocator.antt, with the free list that
-- runs through the blocks (push, pop, allocate, deallocate) and clients that write to the blocks
-- that they hold. Allocator/Buckets.antt is the table of allocators of xallocator.cpp
-- (get_allocator for xallocator_get_allocator), whose block sizes are checked for requests of up to
-- 4096 bytes.
--
-- Numbers are natural numbers: a time is a count of one unit, an int is its bit pattern, and the
-- product of two size_t wraps at 2 ^ 64. The messages of a thread carry any delegate; how running
-- it ends is a parameter.
--
-- Not modelled: libcurl itself; the start, exit and idle handlers of a thread; copying and
-- comparing delegates, and moving a connection from one handle to another; xmalloc and xfree on top
-- of the table of allocators, and the safeguards of a debugging build; opening and closing of
-- sockets; the other operating systems, and the transports and serializers over third-party
-- libraries, msg_serialize among them; calls of the data bus out of its own callbacks, and
-- NetworkNode and DeadlineSubscription on top of it.
pub mod Prelude
pub mod AsyncWait
pub mod Watchdog
pub mod Wire
pub mod Remote
pub mod Peer
pub mod Bus
pub mod Multicast
pub mod Signals
pub mod Allocator
pub mod Thread
pub mod Timer
pub mod Reliable
pub mod Http
pub mod Tests
