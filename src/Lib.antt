-- ===== src/Lib.antt =====
-- PSD-IMS, an instant messaging system in C: a server on gSOAP that keeps users, friendships, chats and
-- messages in a MySQL database, and a client that keeps its own copy of what concerns its user.
--
-- The client's collections are all made of one bounded list of items without duplicates
-- (`src/common/list.c`): the friends, the friend requests, the members of a chat, the messages of a chat
-- and the chats. A request to the server reaches a handler (`src/server/psd_ims_server.c`), which makes a
-- connection, checks the login and calls functions that each send SQL queries
-- (`src/server/persistence.c`).
--
--   * ItemList: `src/common/list.c` and `list.h`. `ItemList` is `struct linked_list`, with the items in
--     the order of `next` in place of the ring of nodes, and with a record of what `item_free` has got.
--     A function and its model have the same name. Find, Bounds, Lookup and Delete have the lemmas.
--   * ItemList.Ring: the same functions on a heap of nodes, with the pointers `next` and `prev` and the
--     ghost node; a read or a write through a pointer that is not in use is a fault. `Represents` says
--     which `ItemList` a ring stands for. Chain, Represents, Nodes, Find, Refine and Loops go through
--     the operations, Runs and Life through sequences of calls.
--   * Client: Friends, Requests, Members, Messages and Chats are `src/client/friends.c`,
--     `friend_requests.c`, `chat_members.c`, `messages.c` and `chats.c`, Common is what these files
--     repeat. `granted` says whether `malloc` grants the blocks of a call.
--   * Server.Run: the state of a run, `Conn`, is the connection to MySQL with all queries sent; a run
--     ends with a value or in a crash, which is a write behind an array or a read through NULL. The
--     server of MySQL is the field `answer`: its reply to a query is any function of the queries so far.
--   * Server.Persistence: `src/server/persistence.c`, by tables: Users, Friendship, ChatTable,
--     MessageTable, Lists (what a client asks for) and Notifications. The sizes of the `char` arrays, the
--     tests of lengths and the texts of the queries are the code's.
--   * Server.Login and Server.Handlers: `check_login` and the handlers `psdims__...` of
--     `src/server/psd_ims_server.c`. `Env` is what a handler meets: whether there is a connection, what
--     an array that is not initialised holds, and the time. Results written through pointers are
--     returned, `none` where the handler leaves the pointer alone. In Handlers.Attachments the files are
--     part of the state, and `FileEnv` says what the file system permits and how much of a file has come
--     to the disk when it is closed.
--   * Client.Network: `src/client/network.c`. The stubs of gSOAP are the fields of `Stubs`, functions on
--     the state of a world that the model knows nothing of; `none` is any answer but SOAP_OK, and a string
--     in an answer may be NULL. A `char *` of the client is a `Pointer`, which may be wild; its use is a
--     fault, as are the use of NULL where a string is read and a write through a block that `malloc` has
--     refused. Calls has the functions that only ask.
--   * Client.Session: `src/client/psd_ims_client.c`. The file itself has `_recv_messages` and the functions
--     on received friends and messages alone; State has `struct psd_ims_client`, the login and the logout;
--     Sending, Notifications and Fetching the other calls, and `fetch_chat`, `fetch_pending` and
--     `fetch_friends` are `psd_recv_messages`, `psd_recv_pending_messages` and `psd_recv_friends` over the
--     network. Acts makes of all calls the steps of a state machine. Holds is the invariant; Rounds,
--     FetchedMessages, FetchedData and Signing have its lemmas, Reach the induction over all runs; Whole,
--     Safe, SafeNews, SafeCalls and Faultless are about faults, Refusals and Logins about clients that
--     are not logged in,
--     logins and logouts, Answers about the answers to friend requests, Shown and Marked about
--     notifications.
--   * Server.Threads: the listening loop of `src/server/server.c` and the counter of threads, as a step
--     relation; `running` is the number of threads that the counter is meant to be.
--   * Server.Digits, Decimal, Strings, Reads and Gives: lemmas on texts, on `strcat`, on what is sent,
--     and on what a run gives; Overruns, Fits, Safety, Waiting and Outcomes: the properties.
--   * Prelude: shared names; `Int` has C's `int` as a signed number. Tests: runs on concrete data.
--
-- Bounds and fuel. `show_digits` has fuel for 20 digits, more than an `int` has. `wait_for_time` has a
-- number of rounds; its end is proved where there is a free second among them. Recursion is structural
-- everywhere else. An `int` is not bounded but where a statement asks for 32 bits; the one increment that
-- can pass the largest `int` is a crash there.
--
-- Rounds of the loops on the heap are bounded by a number, and every theorem on them says how many are
-- enough: more than the list has room for. The client's lists hold 50 items each, as in
-- `src/client/psd_ims_client.h`.
--
-- Not modelled: gSOAP and the stubs that it generates, signals and mutexes, `get_file`, which nothing
-- calls, `psd_send_message` and `psd_recv_message_attachment`, which work on files, the terminal
-- interface and the iterators for it, and the leak detector. `free_persistence` and the freeing of single
-- blocks are left out where no state that is modelled depends on them. A NULL argument is an Option or a
-- flag where the code tests it.
pub mod Prelude
pub mod ItemList
pub mod Client
pub mod Server
pub mod Tests
