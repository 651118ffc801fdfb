-- ===== src/Lib.antt =====
-- A verification library of the TCP/UDP publish-subscribe server and its subscriber client.
--
-- The program: a server that receives datagrams on a topic over UDP and forwards them to the TCP clients that
-- subscribed to the topic, and a client that subscribes and prints what it gets. Both wait in poll() on a
-- poller. The server keeps a list of the connected clients and a list of the subscriptions.
--
-- The files, and the code that each models (paths from the repository's root):
--   Base          the shared names of the libraries, tests on numbers, lemmas on lists
--   Outcome       what a run of C code ends in: a return, exit(), undefined behaviour, or no more answers;
--                 the rules of total and of partial correctness
--   CString       C strings, strcpy() and the conversions of sscanf() that the program uses
--   DList         the doubly linked list that clients.c and subscriptions.c both write out, over a store of
--                 nodes at addresses; the two functions that print a list in DList/Print
--   Clients       clients.h, clients.c; its specification stands in Clients/Refinement
--   Subscriptions subscriptions.h, subscriptions.c
--   Poller        poller.h, poller.c
--   Packets       packets.h: the packed structs and their bytes; what util.c prints of them in Packets/Print
--   Sockets       util.c: send_all() and recv_all()
--   TcpClient     TCP_client.c: the messages of the client and their packets (TcpClient), the arguments and the
--                 typed commands (Input), the decoding of what the server sends (Display), and the state and
--                 the loop of run_client() (Run)
--   TcpServer     TCP_server.h, TCP_server.c; the invariant of its lists stands in TcpServer/Invariant
--   UdpServer     UDP_server.h, UDP_server.c
--   Server        server.c: the commands, the messages, and the loop of run_server(), with the invariant of
--                 the whole server in Server/Invariant, its exit in Server/Exit, and the specification on plain
--                 lists in Server/Broker (one event) and Server/Broker/Loop (the loop)
--   Startup       the arguments of the server, the socket addresses and the sockets: the start of main() in server.c
--                 and TCP_client.c, and the set-up functions of TCP_server.c, UDP_server.c and TCP_client.c
--   Exchange      the parts of both programs composed: a datagram up to the line that the client prints, a typed
--                 command up to the list of subscriptions of the server
--   Tests         the theorems at concrete inputs, and a computed run of the server
--
-- A function of the program has its name in small letters (TCP_server_subscribe() is tcp_server_subscribe),
-- and takes the state it works on and returns it. A struct that is passed by pointer is a record that is passed
-- in and out; the nodes of the lists stand in a store, so that a NULL, a freed address or an overrun array is
-- `fault`. A failed DIE() and exit() are `exited`. The system is not modelled: what accept(), recv(), recvfrom(),
-- poll() and malloc() answer, and the contents of a variable that is read before it is set, are arguments.
-- Numbers are natural numbers; a value that the code stores in 8 or 16 bits is reduced where the code reduces it.
--
-- Loops run on fuel. A loop over a list gets the count of allocated nodes and one more, and a well-formed list
-- has no more nodes than that. The loops of util.c get the count of the answers and one more, since each turn uses
-- an answer. The loop of TCP_server_send_to_subscribers() gets the count of subscriptions and one more, since each
-- turn moves the cursor to a later node. The inner loop of the client gets the count of the watched descriptors and
-- one more, since each turn moves the iterator on; that of the server takes the answers of the system, one a turn,
-- and 1001 of them are enough, since the poller has at most 1000 entries.
-- The endless loops of the server and of the client are `run_rounds`, over finitely many rounds.
--
-- Not modelled: the system calls themselves, the text that printf() makes of what it is given, the values of
-- its floating-point arguments, which stand as the expressions that the code computes, the unused
-- TCP_server_print() and command_args_print(), the tests and the scripts; stored_messages.h
-- has no implementation.
pub mod Base
pub mod Outcome
pub mod CString
pub mod DList
pub mod Clients
pub mod Subscriptions
pub mod Poller
pub mod Packets
pub mod Sockets
pub mod TcpClient
pub mod TcpServer
pub mod UdpServer
pub mod Server
pub mod Startup
pub mod Exchange
pub mod Tests
