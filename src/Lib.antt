-- ===== src/Lib.antt =====
-- EveryoneTalk: a chat server over TCP with a MySQL database, and its terminal client.
--
-- The parts. The server starts one thread per connection, which reads lines "number;text", deals
-- with each and writes a line back. The handlers keep three tables in memory (users, friends,
-- logins), send statements to the database, and leave a notice in one slot of global variables for a
-- notifying thread, which opens connections to the clients of the friends. The client prints
-- requests, reads the replies and the notices, and shows friends and messages through windows of ten
-- lines.
--
-- The files.
--   Prelude, Int, Outcome, CString: lists and bytes; the int of C with atoi and sprintf("%d");
--     results, in which a write past the end of an array is a value; C strings and std::string::find.
--   Common: server/common.h and client/common.h, whose types agree.
--   Server/State: the global variables of the server. Server/Sql: server/execute_sql.cpp.
--   Server/Users, Server/Friends, Server/Logins: server/tbl_userinfo.cpp, server/tbl_friendinfo.cpp,
--     server/tbl_logininfo.cpp.
--   Server/Parse, Server/Handlers, Server/Dispatch, Server/Notify: server/server.cpp, the functions
--     that take a message apart, the handlers, deal_msg, and notify_client.
--   Server/Notify/Call: server/notify_client.cpp, the connection of one notice.
--   Server/Connection: the loop of deal_msg over the lines of one connection.
--   Server/Threads: the start of the server and its threads, with the rounds of all connections in any order
--     on the one buffer of readline. Server/Connection alone is a thread between whose rounds no other reads,
--     and so is the server in Protocol/Exchange.
--   Server/Notify/Race: the slot between the handlers and the notifying thread as a step relation.
--   Server/Accounts, Server/Sessions, Server/Invariant, Server/Safety, Server/Notify/Friends: what is
--     proved of them.
--   Wire/Readline, Wire/Writen: server/readline_server.cpp and server/writen_server.cpp, whose
--     functions client/wrapsock.cpp repeats.
--   Client/Serialize: client/serialize_msg.cpp.
--   Client/Friends, Client/Talk, Client/Window: client/deal_friend_data.cpp and
--     client/deal_talk_data.cpp, with what is proved of them below.
--   Client/Requests: client/everyone_talk.cpp and deal_msg of client/connect_server.cpp.
--   Client/Notices, Client/Keyboard, Client/Commands: client/client_gui.cpp, what a notice does, how a
--     command is read, and which function it calls. Client/SendLoop: get_send_msg of
--     client/deal_talk_data.cpp.
--   Client/Notices/Calls: the listening thread of client/client_gui.cpp.
--   Client/Terminal: what the terminal is asked to do, and what the client relies on. Client/Drawing: the
--     tables that the client prints and fills in.
--   Client/Config: client/read_config.cpp, the values in config.ini.
--   Client/Console, Client/Program: main and the screens of client/client_gui.cpp, composed of all of the
--     above: each function takes the keys to come, the connection and the windows, and returns, writes past
--     the end of an array, or waits.
--   Protocol: what one program prints and the other reads.
--   Tests: concrete runs.
--
-- The functions keep their names, get_msgtpye among them. A handler takes the state and gives the
-- new state and the number that is sent back. Bytes are lists of numbers; a char array holds a C
-- string and `store` gives `overflow` where a text and its NUL do not fit. Numbers that the source
-- keeps in an int are integers, and atoi saturates as a 64-bit strtol does and then wraps to 32
-- bits. The database is a parameter: for each statement, given those before it, a result and the
-- rows. The terminal is a parameter, too: what it shows, and a law that a sequence which neither
-- scrolls nor meets the last column does what it says. What the source leaves uninitialised is an
-- argument, and so is what read, write and the keyboard give.
--
-- Fuel. The loops that cut a text run on its length, since each round takes at least one byte off.
-- The loops over a file run on two more than its bytes, since each round takes a byte or meets the
-- end. Each loop of the client runs one round more than there are keys, since each round takes a
-- key. The loop of a connection runs as many rounds as it is given environments.
--
-- Not modelled. Opening a socket, the start of threads and syslog are calls of the system, and
-- server/wrapsock_server.cpp, client/wrapsock.cpp and the two wrappthread.cpp wrap such calls one
-- by one. The client's setbuf(stdin, NULL) in
-- print_register, a typed line that starts with a NUL, for which get_send_msg writes in front of its
-- array and which is taken as empty here, and NULL in a column of the database are left out. A notice
-- counts as sent in Server/Notify/Race once it is printed. The moves of the cursor between the fields of the forms and around what is typed are
-- left out, and so are server/server_bak.cpp, client/keyboard.cpp and client/process_instance.cpp,
-- which are not built, the tests by hand, and ftrace.c, a file of the Linux kernel. The server's
-- maps are association lists in the order of insertion. In Server/Notify/Race a name and the text
-- or state behind it are read in one step, and a post is one step, as the handlers post under the
-- mutex. Rounds of different connections follow each other in Server/Threads; in the source they
-- can meet inside the tables, which nothing guards. Notices that reach the client while it runs
-- are not interleaved with the keys in Client/Program; they are among the moves of the windows.
pub mod Prelude
pub mod Int
pub mod Outcome
pub mod CString
pub mod Common
pub mod Client
pub mod Server
pub mod Protocol
pub mod Wire
pub mod Tests
