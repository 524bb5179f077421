-- ===== src/Lib.antt =====
-- SingleFlight Proxy Server: a proxy in front of a database server that answers repeated queries from
-- a cache and sends a query that several clients ask for at the same time to the server once.
--
-- The parts. src/SingleFlight/SingleFlight.cpp keeps one flight for each key that is being fetched:
-- the first to ask leads, the others leave a callback. src/QueryCache/QueryCache.cpp keeps two cache
-- levels (a least-recently-used list in memory and a Redis server behind hiredis), counts hits and
-- misses, and puts the flights behind both: doSingleFlight answers from the cache or joins a
-- flight, notifyFlightResult stores a result and ends the flight. src/Session/Session.cpp carries
-- the bytes between one client and the database server and asks the cache for every query message.
--
-- SingleFlight is src/SingleFlight/SingleFlight.{hpp,cpp}: do_single_flight is doSingleFlight,
-- notify_result is notifyResult, clear is clear; each block under one lock is a function of its own
-- (find_or_create, join, locate, publish, retire). A shared_ptr<Flight> is an address of a store.
-- SingleFlight/Threads lets threads interleave these blocks: a schedule is a list of events, and
-- every block is one step. A callback is a value of any type; the code's calls of callbacks are
-- results of the functions, as a list of the callbacks with their arguments, in the order of the
-- calls. SingleFlight/Refinement states the contract: a key is idle, or callbacks wait for it.
--
-- QueryCache/L1 is the first level (getL1, putL1, the setters, clear). A list iterator is the address
-- of its node; undefined behaviour (a dangling iterator, the first node of an empty list) is the
-- value `undefined` of Prelude/Outcome. QueryCache/L1/Spec is the bounded list that it promises.
-- QueryCache/L2 is the second level (getL2, putL2, connectRedis, disconnectRedis, the FLUSHDB of
-- clear), with hiredis, the network and the server as the parameter Hiredis. QueryCache/Hash is
-- hash_query, with OpenSSL's MD5 as a parameter. QueryCache/Counters is updateStats. QueryCache has
-- the class's methods, composed of these; its record Build says how the program was built and holds
-- the parameters. In getL2 the code names a variable redis_key that it does not declare; the model
-- reads it as the variable key declared above.
--
-- Session is src/Session/Session.{hpp,cpp}. A method that starts asynchronous operations of Boost.Asio
-- is a function from the session to the session after it and the operations that it starts, each with
-- its handler; the lambdas are the constructors of Handler, and what each does is a function on_...
-- of Session/Startup or Session/Bridge. Session/Message has the tests and the loop on message bytes.
-- Proxy is many sessions with the one cache that they share: a callback is the number of the session
-- that left it, an event is the completion of one operation, and `complete` runs its handler. Any
-- event may happen at any time, and a handler runs to its end before the next one starts.
-- Proxy/Start drives one session by the completions of its one pending operation. Proxy/Fetch and
-- Proxy/Lost are about one query in several sessions, Proxy/Pipelined about two queries that one
-- client sends without waiting, Proxy/Cut about a response in several reads, and Proxy/Passing about
-- everything that is no query.
--
-- Proxy/Pending keeps the operations that are pending: its step relation Goes lets a session start,
-- or one pending operation complete. Session/Handlers is the induction over the handlers, for any
-- judgement on what they start; Session/Lanes counts operations on server_buffer_ with it.
--
-- Where bytes come from. Session/Origin, Proxy/Origin and Main/Origin follow the bytes of a message
-- through the buffers of a session, the flights and both cache levels (QueryCache/Values,
-- QueryCache/Source). A Redis server is a hypothesis there, the record Redis of QueryCache/Redis:
-- a server that holds values of one kind only answers a GET with such a value or none, as long as
-- no SETEX of the program gives it another. QueryCache/Absent uses the same record for a key that the
-- server has no value for.
--
-- SharedSslContext is src/Session/SharedSSLContext.cpp: the set-up of the TLS contexts as the list of
-- the calls of OpenSSL and Boost.Asio that it makes. What the library returns is a parameter there:
-- which allocations give an object, and the three numbers that the code looks at.
--
-- Config is src/Config/Config.{hpp,cpp}, with yaml-cpp as the parameter YamlCpp of Config/Yaml: parse_yaml
-- is parseYaml, block by block, and an exception leaves the settings that were read before it.
-- Config/Paths says where each setting stands in a document, and Config/Ranges in which type's range
-- it has to be; what yaml-cpp's conversions give is a hypothesis there, Converts. ProxyServer is
-- src/ProxyServer/ProxyServer.{hpp,cpp}: the accept loop as a state machine, whose steps are those
-- between two reads of accepting_, over a Proxy; ProxyServer/Port has the conversions of the ports.
-- Main is src/main.cpp: `main` goes from the arguments to the running program or to an exit status, a
-- run is a list of signals, of steps of the worker threads and of their ends, and `status` is what
-- the joins wait for. The `run` of a thread returns only once the signal handler has stopped the
-- io_context; a handler that throws ends its thread at any time.
--
-- Numbers. A size_t is a natural number below 2^64, with the wrap-around written out where the code
-- adds; an int that the code divides, and a short, is an integer of Prelude/Int. Every loop of the
-- code runs over a list, and so do the functions. The digits of a number alone are found on fuel,
-- one more than the number: ProxyServer.Port reads the number back from them.
--
-- Not modelled: log lines; the locks themselves, except as the bounds of a step; a callback that
-- calls back into the flights while it runs (its effect is that of a further event); handlers of one
-- session that run on two threads at once. An operation on a socket that is not there is an
-- operation like any other in the functions of Session; Session/Stages names the streams that are
-- there, and Session/Dereferences makes the dereference of an empty optional undefined while a
-- session starts. The counter of waiters of a flight, an int that nothing reads, wraps in the model
-- where C++ leaves its overflow undefined.
pub mod Prelude
pub mod SingleFlight
pub mod QueryCache
pub mod Session
pub mod Config
pub mod Proxy
pub mod ProxyServer
pub mod SharedSslContext
pub mod Main
pub mod Tests
