-- ===== src/Lib.antt =====
-- smart_net: a library of TCP and reliable multicast endpoints on Linux, by its own event loop.
-- The development models the protocols and the state machines; paths are from the repository's root.
--
-- The program's parts. An application derives from an endpoint class of
-- libsmart_net/src/smart_net/sn_endpoint_impl.h. An endpoint owns a socket of
-- libcomm_net/src/network/sn_socket_impl.h, a state machine of
-- libcomm_utils/src/utils/state_machine.h and a pointer to the engine of
-- libsmart_net/src/framework/sn_engine.cpp. The engine's input and output tasks watch the sockets
-- through epoll; they report what is ready to the endpoint, which calls its socket and gives the
-- application what was received.
--
-- Which file models which part:
-- Base and its children: the Boolean tests on numbers, int32_t status codes, u_int32_t and u_int64_t
--   arithmetic that wraps, failed assertions as `none`, lists, numbers modulo a window's size, and
--   std::set as an ascending list (OrderedSet).
-- StateMachine: CStateMachine::reg_evt_state and post_evt (state_machine.hpp) on an association list;
--   Laws states what a registration changes.
-- Memory.Block: CMemBlock (libcomm_utils/src/memory/mem.h) over its array of bytes; Content is the list of
--   bytes that it holds. Memory.Ring: CSmartRB (memory/smart_rb.h) and, in Laws, its contract.
-- Utils.SmartPtr: CSmartPtr (libcomm_utils/src/utils/smart_ptr.h) over the counter of ICommonBase; Counts and
--   Steps compare it with plain pointers, for objects that hold no counted pointers themselves.
-- Framework: libsmart_net/src/framework. IoObj is IIoObj, Epoll is CEpoll with one round of exec; Caches
--   holds the loops over the sets of objects to be added and removed, Epoll.Rounds and Exec their effect,
--   Faults a refused EPOLL_CTL_ADD. Timer is ITimerObj and CTimeNotifier (Exec: a round, Period: when a timer
--   is due). Task is CIoTask, and Engine is CSNEngine (Choice and Placing: which task an object gets, Life:
--   start and stop).
-- Rmp.Packet: the packets, and the memory block that holds one.
-- Rmp.Receiver: the fields and functions of class CRmpSock that a receiver uses: recvep_handle_odata,
--   recvep_handle_hb, recvep_handle_pkg, get_next_recved_data, set_ack, and the loop of
--   CRmpEndpoint::handle_input_evt that hands packets out (drain, deliver). Its children prove, in
--   this order: Loops (the two scans of stored packets), Buffer (the array of stored packets), Inv
--   (a receiver between two packets), Odata, Deliver, Drain and Activate (the branches of one packet),
--   Total (one packet), Stream (many packets), Aborts (packets that end the process), and Timers, which
--   defines the receiver's branch of CRmpSock::handle_can_send. Polling defines udp_recv and the loop of
--   CRmpSock::handle_can_recv over the datagrams that wait; SameSender and Polled relate it to deliver_all.
-- Rmp.Sender: the fields and functions of CRmpSock that a sender uses: send, the sender's branch of
--   handle_can_send (send_loop, heartbeat), sendep_handle_nak and sendep_handle_ack. Window is the
--   invariant of its array; Send, Sending, Resend with Nak, and Recvers with Ack are about one
--   function each; Polling has sendep_handle_pkg and the loop of udp_send.
-- Rmp.Endpoint: CRmpEndpoint: its handlers, its init_sm, and the invariant of its fields; Reports is what
--   the tasks call.
-- Rmp.System: a sender, a network that reorders (Carried), and a receiver that is polled.
-- Rup.Socket: CRupSock: its queues and both of its sides. Queue, Sending, Draining and Losses are about the
--   bytes that are sent, Receiving and Transfer about those that arrive.
-- Rup.Endpoint: CRupEndpoint: its states, events, handlers and CRupEndpoint::init_sm. Inv is
--   the invariant of its fields, Io its entry points, Reports, KeepAlive and
--   Faults what they do over one and over several events.
-- Rup.Acceptor: CRupAcceptor: its states, events, handlers, and the giving of a new connection to an
--   idle endpoint. Rup.Connector: CRupConnector: its states, events, handlers, and the invariant of its
--   fields; it gives a connection to an idle endpoint by the loop of Rup.Acceptor. Stuck is a failed addition. Reports of both is what
--   the tasks and the timers call.
-- Pkg: libsmart_net/src/smart_net. Header is CPkgHdr (pkg.h) as its bytes, Archive is CArchive (archive.h), whose
--   bodies the application writes in place, and Dispatcher is CDispatcher (dispatcher.h) with Streams about a
--   block of several packages; RoundTrip joins them.
-- Tests modules hold the concrete inputs at which the theorems are applied.
--
-- State is passed explicitly. An abort, which is a failed CMN_ASSERT or a call through a null pointer,
-- is `none`. Numbers are natural numbers; 64-bit and 32-bit fields wrap where the source computes on
-- them, and theorems bound the sequence numbers by 2 ^ 64. Arrays that are indexed modulo their size
-- are functions of the index. Loops of the source run on fuel: `find_valid_end` and
-- `find_unvalid_begin` are given the length of the range they scan; `drain`, both `send_loop`,
-- `resend_loop`, `poll`, `dispatch` and `sendto_loop` take a bound as an argument, and the theorems state
-- how much is enough: for `poll`, one call more than datagrams; for CDispatcher, more than the packages and
-- than the bodies of each; for CRupSock's loop, one step for each block and each call that is interrupted.
-- `none` is then also a loop that has not ended.
--
-- Parameters. What the kernel's calls answer is a function of the number of the call or an argument: send,
-- sendto, recv, recvfrom, epoll_ctl, epoll_wait, epoll_create, pthread_create. What sendto() makes udp_send
-- return is a function of the packet for a receiver, and of the number of the call for a sender. The objects
-- that the tasks call are a client, a function from a call to its new state and what it asks of the task.
-- The order of the hash map of receivers is the place where a new key is put. CSNEngine::del_endpoint,
-- add_timer and del_timer have no return statement; their values are arguments.
--
-- Not modelled: the compressed packages, whose macro is not defined; locks, since every operation is one
-- step; logging, threads and delegates, which carry no logic of the protocols, and counted pointers outside
-- of their own model, and in it the nested destructors of objects that hold such pointers; sn_net_addr.cpp,
-- sock.h, utils.cpp, file.cpp and time_info.cpp, which wrap system calls;
-- smart_pbx, a stub of an application with files that the build leaves out; the test programs.
pub mod Base
pub mod Rmp
pub mod StateMachine
pub mod Rup
pub mod Framework
pub mod Memory
pub mod Pkg
pub mod Utils
