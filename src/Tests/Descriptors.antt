-- ===== src/Tests/Descriptors.antt =====
-- Clients over both sockets (include/fastws/fastws.hpp, socket_wrapper.hpp) at concrete inputs.
use fast_websocket_client.Base.{
  ℕ, ◌≤◌, ◌≡◌, ◌≢◌, refl, false, List, [], ◌∷◌, Option, none, some, arith, length,
}
use fast_websocket_client.Exec.{failed_to_connect, throw, ◌>>=◌}
use fast_websocket_client.Handshake
use fast_websocket_client.SocketWrapper
use fast_websocket_client.Client.Methods
use fast_websocket_client.Client.Session
use fast_websocket_client.Socket.{Reliable}
use fast_websocket_client.Os.{Surroundings}
use fast_websocket_client.SocketWrapper.Link.{tcp_platform, tcp_platform-Reliable}
use fast_websocket_client.SslSocketWrapper.{
  Tls, Held, unconnected, construct, connect, connect_to, connect_each, secure, handshake,
  open_socket,
}
use fast_websocket_client.SslSocketWrapper.Link.{tls_platform, tls_platform-Reliable}
use fast_websocket_client.SslSocketWrapper.Descriptors.{Silent, Reopened, open_socket-Reopened}
use fast_websocket_client.Client.{new_client, Call, System}
use fast_websocket_client.Client.Descriptors.{Calm, whole_life, whole_life-Freed}
use fast_websocket_client.Examples.Example
use fast_websocket_client.Tests.Frames.{register, some_factory}
use fast_websocket_client.Tests.Sockets.{
  Kernel, kernel_os, kernel_os-Documented, booted, base, booted-Owns, idle_tls,
}

-- The clock stands still, and every random byte is 7.
abbrev pub around : Surroundings Kernel
around = record {
  clock = λ w. (0, w);
  sleep = λ w. w;
  random_byte = λ w. (7, w);
  base64 = λ bytes. bytes;
}

tcp_platform-Reliable_example : Reliable (tcp_platform kernel_os around)
tcp_platform-Reliable_example = tcp_platform-Reliable kernel_os around kernel_os-Documented

-- OpenSSL that stores no byte.
abbrev mute_tls : Tls
mute_tls = record idle_tls { read_ex = λ ssl n w. ([], w) }

mute_tls-fits :
    (ssl : Option (Unit {0})) (n : ℕ) (w : Kernel) → length (mute_tls.read_ex ssl n w).0 ≤ n
mute_tls-fits ssl n w = omega arith

tls_platform-Reliable_example : Reliable (tls_platform mute_tls around)
tls_platform-Reliable_example = tls_platform-Reliable mute_tls around mute_tls-fits

around-Calm : Calm kernel_os kernel_os-Documented around
around-Calm = record { at_clock = λ w d. refl; at_sleep = λ w d. refl; at_random = λ w d. refl }

-- The client of examples/example.cpp, at a server that does not answer.
abbrev unanswered : System (tcp_platform kernel_os around).World (List ℕ)
unanswered = record {
  client = new_client (104 ∷ []) (47 ∷ []) 80 [] 60 10 0 some_factory;
  handler = [];
  world = booted;
}

abbrev calls : List Call
calls = Call.poll 4 ∷ []

unanswered_ends :
    (whole_life kernel_os around ⦃handler = Example.handler⦄ 3 0 calls unanswered).0
    ≡ some (throw failed_to_connect)
unfolding whole_life Session.construct ◌>>=◌ Session.connect SocketWrapper.open_socket Methods.send
    SocketWrapper.send Handshake.build_websocket_handshake_request new_client Session.decimal
    Handshake.generate_sec_websocket_key Session.await_response Session.conclude
unanswered_ends = refl

unanswered_returns :
    (whole_life kernel_os around ⦃handler = Example.handler⦄ 3 0 calls unanswered).0 ≢ none
unanswered_returns e = let ends = unanswered_ends in cc

whole_life-Freed_example :
    kernel_os-Documented.is_open
      (whole_life kernel_os around ⦃handler = Example.handler⦄ 3 0 calls unanswered).1.world.world
      1
    ≡ base 1
whole_life-Freed_example =
    whole_life-Freed kernel_os around kernel_os-Documented around-Calm base
      ⦃handler = Example.handler⦄ 3 0 calls unanswered booted-Owns unanswered_returns 1

-- A server whose certificate is refused.
abbrev refusing_tls : Tls
refusing_tls = record idle_tls { ssl_connect = λ ssl w. (false, w) }

abbrev refused : Held ⦃tls = refusing_tls⦄
refused = record { wrapper = unconnected ⦃tls = refusing_tls⦄; world = booted.world }

refusing_tls-Silent : Silent ⦃tls = refusing_tls⦄ kernel_os-Documented
refusing_tls-Silent = record {
  at_ctx_new = λ w d. refl;
  at_ctx_free = λ c w d. refl;
  at_ssl_new = λ c w d. refl;
  at_ssl_free = λ l w d. refl;
  at_host_name = λ l h w d. refl;
  at_set_fd = λ l n w d. refl;
  at_ssl_connect = λ l w d. refl;
  at_clear_errors = λ w d. refl;
  at_shutdown = λ l w d. refl;
}

-- The wrapper whose constructor throws has the descriptor 1, which stays open.
refused_keeps :
    (construct ⦃tls = refusing_tls⦄ (49 ∷ []) 443 refused.world).1.wrapper.sockfd ≡ some 1
unfolding construct connect connect_to connect_each secure handshake
refused_keeps = refl

open_socket-Reopened_example :
    Reopened ⦃tls = refusing_tls⦄ kernel_os-Documented refusing_tls-Silent base refused
      (construct ⦃tls = refusing_tls⦄ (49 ∷ []) 443 refused.world).1.wrapper
      (open_socket ⦃tls = refusing_tls⦄ (49 ∷ []) 443 refused)
open_socket-Reopened_example =
    open_socket-Reopened ⦃tls = refusing_tls⦄ kernel_os-Documented refusing_tls-Silent base
      (49 ∷ []) 443 refused (record { counted = λ d. refl; apart = λ n e. absurd cc })
