-- ===== src/Lib.antt =====
-- fast-websocket-client: a header-only WebSocket client in C++17.
--
-- The program has three layers. `wsframe` (in single_header/fastws.hpp) writes and parses frames:
-- a `FrameFactory` turns a payload into the bytes of a masked frame, with a key from a cache of
-- random bytes, and a `FrameParser` turns the bytes that arrive, however they are cut, into frames.
-- The sockets (include/fastws/socket_wrapper.hpp) move bytes over TCP or TLS; `read_into` stores
-- them right in the buffer of the parser. The client (include/fastws/fastws.hpp) opens a connection
-- with the request of include/fastws/handshake.hpp, hands each frame that `poll` finds to a handler,
-- answers the server's pings, sends its own, and closes. The single header has a copy of the code
-- under include/; the frame layer is read from the single header.
--
-- Base.antt, Bits.antt   names, tests, lists and bits that the components share
-- FrameBuffer.antt       `FrameBuffer`: a vector with a position; an access outside it is `none`
-- Frame.antt             `Frame`, `Frame::construct`; Frame/Wire.antt has the layout of RFC 6455,
--                        Frame/Printing.antt the text of `operator<<`
-- FrameParser.antt       `FrameParser`: the stages, `parse`, `reset`, `clear`, `update`;
--                        FrameParser/Abstract.antt is the same as one pass over a list of bytes,
--                        FrameParser/Chunks.antt the updates that a sequence of chunks leads to
-- Random.antt            `XorShift128Plus`, `RandomCache<8>`
-- FrameFactory.antt      `FrameFactory`
-- Exec.antt              methods that change an object and may throw: state, result, bind
-- Handshake.antt         include/fastws/handshake.hpp
-- Socket.antt            what the client asks of its socket, the clock and the random numbers
-- Os.antt                the system calls, as a parameter with their documented behaviour
-- SocketWrapper.antt     `SocketWrapper` over the system calls
-- SslSocketWrapper.antt  `SSLSocketWrapper` over the system calls and OpenSSL, a parameter too
--                        SocketWrapper/Link.antt and SslSocketWrapper/Link.antt make them the
--                        socket of a client, `NoTLSClient` and `TLSClient`
-- Client.antt            `WSClient`: Client/Methods.antt has the sends and the ping timer,
--                        Client/Session.antt `connect`, `poll`, `close` and the constructor,
--                        Client/Callbacks.antt the handler's callbacks, which may call the client,
--                        Client/Descriptors.antt the destructor, over `SocketWrapper`;
--                        Client/Invariant.antt is how a property passes through every method, and
--                        Client/Lifetime.antt the constructor with the calls behind it, and
--                        Client/Delivery.antt what a handler is told of the frames that arrive,
--                        from a socket such as `SocketWrapper` in Client/Delivery/Tcp.antt,
--                        Client/Connecting.antt and Client/Closing.antt what `connect` and `close`
--                        come to at a server that answers, and Client/Sent.antt what goes to the
--                        socket
-- Examples.antt          examples/ping.cpp, example.cpp and coinbase.cpp: the handlers, with what they
--                        print as their state, and the loop of `main`
-- TestCases.antt         tests/test.cpp: the handlers, the cases and `main`
-- Benchmark.antt         the handlers and loops of benchmark/echo_test/fastws_benchmark.cpp and
--                        benchmark/latency/fastws_latency.cpp
-- Tests.antt             the theorems at concrete inputs
--
-- State is passed explicitly: a method of the client takes the client, the handler's state and the
-- world, and returns a result or an exception with all of them as they then are. A store outside a
-- vector is the exception `fault`; a byte that the parser reads outside one is 0, and
-- FrameParser/Beyond.antt compares its updates on vectors that differ behind the bytes written.
-- Numbers are natural numbers; a wrap-around of 64 bits is written out. Times are in nanoseconds,
-- where the code has doubles of milliseconds. A shift of an `int` by 32 bits and more, which C++ leaves undefined, is a
-- parameter (`Machine`), and some theorems ask of it that it shifts 0 to 0.
--
-- Loops run on the number of rounds that the code allows: the loop of `poll` on its limit of frames,
-- those of `connect` and `close` on ten rounds a second, `send` on the number of bytes to send,
-- which is enough where each round sends at least one. Callbacks nest to a depth that stands for the
-- stack; beyond it they throw. A C++ view is the list of its bytes, so that a view that is used
-- after its buffer changed, which the code's users must avoid, is not seen here.
--
-- The loop of an example's `main` runs on the list of what its condition is found to be in each
-- round, so that an interrupt may come at any time; a program whose list is used up raises
-- `no_progress`. An exception that nothing catches, and a throw of a destructor, end the process.
--
-- Not modelled: `plf::nanotimer` (another library), what the client itself prints and the texts of
-- the exceptions, the destruction of a client over `SSLSocketWrapper`, the times that the benchmarks
-- take and print and their threads' priority, and the benchmarks of another library.
pub mod Base
pub mod Bits
pub mod FrameBuffer
pub mod Frame
pub mod FrameParser
pub mod Examples
pub mod TestCases
pub mod Benchmark
pub mod Exec
pub mod Random
pub mod FrameFactory
pub mod Handshake
pub mod Socket
pub mod Os
pub mod SocketWrapper
pub mod SslSocketWrapper
pub mod Client
pub mod Tests
