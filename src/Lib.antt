-- ===== src/Lib.antt =====
-- Verification of the network programs of this repository: the chat server and client of Lab3, the
-- TCP programs of Lab2 and Lab4, parts of the support library that they are built on (Lab2017/lib),
-- and some of the servers and clients of Lab2017.
--
-- The programs and how they interact. The labs open their sockets with functions of their own
-- (tcp_easy_listen, tcp_easy_connect); the chat server multiplexes its chatters with select(2) and
-- keeps them in two parallel tables; the chat client copies between the terminal and the server;
-- tcp_sender and tcp_receiver transfer an amount of data, and the servers of Lab2 and Lab4 send a file
-- to clients that show it. The library reads and writes streams that the kernel cuts in pieces (readn,
-- writen, readline), and opens sockets by name. Of Lab2017 there are an echo server over poll(2), a
-- server with a pool of threads, one with a pool of children to which it passes its connections, a
-- client that copies without blocking, one that fetches many files at once, a daemon that passes ICMP
-- errors to the owners of UDP sockets, the functions that turn names into addresses and back, ping, and
-- an echo client over select(2).
--
-- The files.
--   Prelude: the names that the modules share, C strings, lists with native numbers, integers.
--   Chat: Lab3/chatserver.c. The globals are the record `Chat`; chatLoop is `round` and `chat_loop`,
--     processChat `process`, addChatter `add_chatter`, remove_chatter `remove_chatter`. What the
--     process writes, closes and prints is a list of actions, in order. `none` stands for a write
--     outside an array. Chat/Tables and Chat/Roster relate the tables to the list of chatters,
--     Chat/Valid to the well-formedness of the tables.
--   Client: Lab3/chatclient.c. Client/Lossy is about short writes, Client/Loop about a full buffer and a
--     server that is gone.
--   Delivery: Lab2/tcp_fork_server.c, tcp_client.c and tcp_easy_ipv4_client.c, and
--     Lab4/tcp_easy_ipv46_server.c and tcp_easy_ipv46_client.c.
--   PollServer: Lab2017/tcpcliserv/tcpservpoll01.c. A round of the loop of main is `round`; the
--     answers of the kernel in it are a record.
--   ThreadPool: Lab2017/server/serv08.c, pthread08.c and pthread08.h. What the main thread and the
--     threads of the pool do next is part of the state, and their interleavings are a step relation.
--   ChildPool: Lab2017/server/serv05.c, child05.c and child.h. A round of the parent is `round`, what a
--     child does between two rounds a step. ChildPool/Loads counts what each child has to do, and
--     ChildPool/Each says what a round does to each.
--   Icmpd: Lab2017/icmpd, with sock_get_port.c and sock_bind_wild.c of Lab2017/lib. Icmpd.antt has the
--     table of the clients and the handlers of their sockets, Icmpd/Daemon the packets and the rounds.
--   AddrInfo: Lab2017/libgai, that is getaddrinfo and getnameinfo. AddrInfo.antt makes, copies and frees
--     the entries of a list and counts the memory; AddrInfo/Lookup has the loop over what is searched,
--     AddrInfo/Service the service and the whole of getaddrinfo, AddrInfo/Names getnameinfo. The other
--     files below it are proofs: Offers, Copies and Ports of what ga_serv makes, Grows and Search of
--     what getaddrinfo finds, Numeric and RoundTrip of numeric names, Blocks, PortBlocks, Saved and
--     Leaks of memory, Quits of err_quit.
--   Ping: Lab2017/ping, with tv_sub.c of Lab2017/lib. Ping.antt has the requests, what is shown of a
--     packet, and the loop; Ping/Requests is about the checksum, Ping/Fields, Ping/Replies and Ping/Hops
--     are about answers, Ping/Loop about a whole run, Ping/Exchange about both.
--   Echo: Lab2017/select/strcliselect02.c and Lab2017/lib/str_echo.c, a session of the two.
--   Packet: the packets of raw sockets, which Icmpd and Ping read.
--   WebClient: Lab2017/nonblock/web.h, web.c, start_connect.c and write_get_cmd.c.
--   Stream: Lab2017/lib/readn.c, writen.c, readline.c.
--   Transfer: Lab4/tcp_sender.c and tcp_receiver.c.
--   Copying: Lab2017/nonblock/strclinonb.c.
--   Endpoint: the functions that open sockets in Lab2, Lab3, Lab4 and Lab2017/lib.
--   Datagram: Lab2017/lib/rtt.c and Lab2017/rtt/dg_send_recv.c.
--   Checksum: Lab2017/libfree/in_cksum.c.
--
-- The kernel is not modelled: what it answers to the calls is given to each function, one answer to a
-- call or a record of answers to a round of a loop, and theorems name what they need of it (a read
-- gives no more than was asked for). A list of answers that ends leaves the program waiting, which is a
-- result of its own. Floating-point numbers are the record `Floats`, of which some laws
-- of IEEE 754 are assumed.
--
-- Bounds. The loops run over the answers of the kernel. The second loop of chatLoop reads numChats
-- anew and has fuel: numChats when it starts, which is enough since no chatter joins in it; `none`
-- would show in its theorems. The loop of the web client that starts connections has as fuel the
-- number of files that are left, since each of its rounds takes one. The ring of the thread pool has
-- its 32 places. What getaddrinfo allocates comes from a number of allocations that succeed, which is
-- part of its state. A size_t has 64 bits, an int and an unsigned number of the checksum 32; what wraps is
-- written out with `%`.
--
-- Not modelled: the wrappers of system calls (Accept, Writen, Socket), which end the process when a
-- call fails (where a module has no answer for that failure, the process that ends there is left
-- out); output for debugging and errors, main functions beyond what is named above; the copies of
-- other projects' code (Lab2017/ping/bsdping.c, the address conversion and the other getaddrinfo.c of
-- Lab2017/libfree), of which calls are parameters; and the other programs of Lab2017.
pub mod Prelude
pub mod Chat
pub mod ChildPool
pub mod Stream
pub mod Transfer
pub mod Copying
pub mod Endpoint
pub mod Datagram
pub mod Client
pub mod Checksum
pub mod Icmpd
pub mod Packet
pub mod Ping
pub mod AddrInfo
pub mod PollServer
pub mod ThreadPool
pub mod Echo
pub mod Delivery
pub mod WebClient
