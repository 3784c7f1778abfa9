-- ===== src/Lib.antt =====
-- Verification of the exchange simulator: a matching engine in C++ behind TCP sessions.
--
-- Parts and how they interact. A client's bytes are received by the epoll thread, which cuts them into
-- messages (Epoll, Framing) and pushes these to a ring buffer (Spsc). The matching thread pops them, parses
-- them (Wire), calls the matching engine (Engine), which routes by symbol to an order book (Book), and
-- sends what the book reports to the sessions (Sessions) and to the market state (Market), which the
-- dashboard shows (Dashboard). The accept thread (Accept) registers a session at a login; Client is the
-- program at the other end of the connection.
--   Prelude      tests, lists, machine words, maps, and the outcome of a piece of code
--   Core         core/include/types.hpp, order.hpp and price_level.hpp: the shared data
--   Levels       the price-ordered maps of an order book, and the template helpers getOrCreateLevel,
--                removeFromLevel and insertIntoLevel of matching/src/order_book.cpp
--   Book         matching/include/order_book.hpp and matching/src/order_book.cpp: matchAgainst is
--                Book/Matching, the public operations are Book/Api; Book/Spec and Book/Rules say
--                without pointers what they promise, Book/Valid when a book is in order
--   Engine       matching/include/matching_engine.hpp and matching/src/matching_engine.cpp
--   Spsc         containers/include/spsc_queue.hpp; Spsc/Steps has its two threads
--   Market       src/market_state.hpp
--   Sessions     src/session_manager.hpp
--   Wire         net/include/protocol.hpp: layout, reading, and the converters
--   Net          net/src/tcp_socket.cpp, and below it net/src/tcp_client.cpp (Net/Connect) and
--                net/src/tcp_server.cpp (Net/Listen); Net/Ownership is any use of their objects
--   Framing      src/thread_epoll.cpp, the framing loop, and core/include/raw_message.hpp
--   Epoll        src/thread_epoll.cpp, the receive loop and the two callbacks, and
--                net/src/epoll_mgr.cpp, the event loop that calls them; Epoll/Shared puts the logins of
--                Accept between its events
--   Dispatch     src/thread_matching.cpp
--   Accept       src/thread_accept.cpp, the login, with its messages of net/include/protocol.hpp;
--                Accept/Server is the socket of the connection
--   Dashboard    src/thread_gui.cpp
--   Client       client/src/main.cpp: Client/Session is the state of its two threads, Client/Arrivals
--                recvThreadFunc, Client/Console the input loop of main and Client/Startup what is
--                before it; Client/Text is the part of std::stringstream that it reads with,
--                and Client/Typed joins the input loop to the framing and the parser of the exchange
--
-- Correspondence. A pointer to an element is an address of a heap, which is a function from
-- addresses to elements; `new` takes the next address, `delete` erases the entry, and reading an
-- erased address is the outcome `fault`. The same holds for an iterator that is read without a test
-- against end(). std::map is the list of its entries in iteration order, std::unordered_map a
-- function to Option, std::vector and std::list are lists, and the two output vectors of a call are
-- the record Sink. Price, Quantity, TraderId and SymbolId are 32-bit words and OrderId is a 64-bit
-- word: numbers, with the wrap-around written where the code adds or subtracts. Packed structs are
-- little-endian bytes. The clock and the order of unordered_map keys are arguments; `send` is an entry
-- of a list. What recv, send, accept, connect and epoll_wait return is data that a loop is given in the
-- order of its calls, and so is what another thread does between two steps of a loop: the messages that
-- the client has received since the last line, the sessions that a confirmation is sent with, and what
-- the accept thread does to the sessions between two rounds of the event loop. Epoll/Shared lets
-- connections come between any two events as well.
--
-- Fuel. The inner loop of matchAgainst gets one round more than its level has orders, and the outer
-- loop one more than there are levels: each round removes an order or uses up the incoming one. The
-- framing loop takes its fuel as an argument, and the epoll thread gives it a round for each byte and
-- one more, which decides whether it ends. A loop over the results of system calls has a round for each
-- result, and is out of fuel where a call has not returned.
--
-- Not modelled. The program entry (src/main.cpp), which starts the threads and joins them. The text that
-- is printed: a printed line is a value with what it is given, and the client's prompts and its lines
-- that announce a request are left out. epoll_create, epoll_ctl and the options of sockets. Memory
-- exhaustion: `new` does not fail.
pub mod Prelude
pub mod Core
pub mod Levels
pub mod Book
pub mod Engine
pub mod Spsc
pub mod Market
pub mod Sessions
pub mod Wire
pub mod Net
pub mod Framing
pub mod Epoll
pub mod Dispatch
pub mod Accept
pub mod Dashboard
pub mod Client
