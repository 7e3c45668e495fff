-- ===== src/Client/Invariant/Opening.antt =====
-- `connect` and the constructor keep an invariant.
use fast_websocket_client.Base.{ℕ, zero, suc, Bool, true, false, not, List, [], if◌then◌else◌}
use fast_websocket_client.Exec.{Error, failed_to_connect, pure, ◌>>=◌, ◌>>◌}
use fast_websocket_client.Exec.Keeps.{
  Keeps, Allowed, pure-Keeps, raise-Keeps, bind-Keeps, if-Keeps, when-Keeps,
}
use fast_websocket_client.FrameParser.{Machine}
use fast_websocket_client.Handshake.{random_bytes, generate_sec_websocket_key}
use fast_websocket_client.Socket.{Platform}
use fast_websocket_client.Client.{healthy, failed, Client, Handler, System, Event, on_open}
use fast_websocket_client.Client.Methods.{Method, assign, the_client, send}
use fast_websocket_client.Client.Session.{
  new_key, await_response, conclude, connect, greet, construct, contains, switching, request_of,
}
use fast_websocket_client.Client.Invariant.{Holds, Invariant}
use fast_websocket_client.Client.Invariant.Methods.{
  Kept, the_client-Keeps, on_world-Keeps, sleep-Keeps, assign-Keeps, send_ping-Keeps,
  start_timer-Keeps,
}

module _ ⦃platform : Platform⦄ ⦃handler : Handler⦄ ⦃machine : Machine⦄ where
  -- What opening a connection does besides the steps of an `Invariant`.
  pub record Opening (P : Client → platform.World → Type 0) (E : Error → Type 0) : Type 0 where
    pub at_open :
        (c : Client) (host : List ℕ) (port : ℕ) → Keeps (P c) E (platform.open_socket host port)
    pub at_random : (c : Client) (w : platform.World) → P c w → P c (platform.random_byte w).1
    pub at_conclusion :
        (c : Client) (w : platform.World) (b : Bool)
        → P c w
        → P (record c { connection_open = b; status = if b then healthy else failed }) w
    pub at_request :
        (c d : Client) (key : List ℕ) → Keeps (P d) E (platform.send (request_of c key))
    pub at_refusal : E failed_to_connect

module _ ⦃platform : Platform⦄ ⦃handler : Handler⦄ ⦃machine : Machine⦄
    {P : Client → platform.World → Type 0} {E : Error → Type 0} (inv : Invariant P E) where
  pub await_response-Keeps :
      (left : ℕ) (response : List ℕ) → Kept inv (await_response left response)
  unfolding await_response
  await_response-Keeps zero response = pure-Keeps response
  await_response-Keeps (suc left) response =
      bind-Keeps _ _ (on_world-Keeps inv _ (λ c. inv.at_read c 4096)) λ more.
        if-Keeps _ _ _ (pure-Keeps _)
          (bind-Keeps _ _ (sleep-Keeps inv) λ _. await_response-Keeps left _)

  pub conclude-Keeps :
      ((c : Client) (w : platform.World) (b : Bool)
        → P c w
        → P (record c { connection_open = b; status = if b then healthy else failed }) w)
      → (callback : Event → Method (Unit {0})) → ((e : Event) → Kept inv (callback e))
      → (response : List ℕ) → Kept inv (conclude callback response)
  unfolding conclude ◌>>=◌
  conclude-Keeps concluded callback kept response = record {
    apply = λ s h. decided (contains switching response) s h;
  }
    where
      answer : Kept inv (the_client >>= λ c. pure c.connection_open)
      answer = bind-Keeps _ _ (the_client-Keeps inv) λ c. pure-Keeps _

      decided :
          (b : Bool) (s : System platform.World handler.H)
          → Holds P s
          → let r =
              (assign (λ c. record c { connection_open = b })
                  >> (if b
                      then assign (λ c. record c { status = healthy }) >> callback on_open
                      else assign (λ c. record c { status = failed }))
                  >> (the_client >>= λ c. pure c.connection_open))
                s in
            Holds P r.1 × Allowed E r.0
      decided true s h =
          (bind-Keeps _ _ (kept on_open) λ _. answer).apply _ (concluded s.client s.world true h)
      decided false s h = (concluded s.client s.world false h, tt)

  -- The constructor after `connect`.
  pub greet-Keeps : E failed_to_connect → (connected : Bool) → Kept inv (greet connected)
  greet-Keeps refusal connected =
      bind-Keeps _ _ (when-Keeps (not connected) _ (raise-Keeps failed_to_connect refusal)) λ _.
        bind-Keeps _ _ (assign-Keeps inv _ (λ c w h. inv.at_waiting c w true h))
          λ _. bind-Keeps _ _ (start_timer-Keeps inv) λ _. send_ping-Keeps inv []

  module _ (opening : Opening P E) where
    random_bytes-kept :
        (n : ℕ) (c : Client) (w : platform.World)
        → P c w
        → P c (random_bytes platform.random_byte n w).1
    unfolding random_bytes
    random_bytes-kept zero c w h = h
    random_bytes-kept (suc n) c w h = random_bytes-kept n c _ (opening.at_random c w h)

    new_key-Keeps : Kept inv new_key
    unfolding generate_sec_websocket_key
    new_key-Keeps = record { apply = λ s h. (random_bytes-kept 16 s.client s.world h, tt) }

    module _ (callback : Event → Method (Unit {0}))
        (kept : (e : Event) → Kept inv (callback e)) where
      connect-Keeps : (timeout : ℕ) → Kept inv (connect callback timeout)
      unfolding connect send
      connect-Keeps timeout = bind-Keeps _ _ (the_client-Keeps inv) λ c.
          bind-Keeps _ _ (on_world-Keeps inv _ (λ d. opening.at_open d c.host c.port)) λ _.
            bind-Keeps _ _ new_key-Keeps λ key.
              bind-Keeps _ _ (on_world-Keeps inv _ (λ d. opening.at_request c d key)) λ _.
                bind-Keeps _ _ (await_response-Keeps _ _)
                  (conclude-Keeps opening.at_conclusion callback kept)

      pub construct-Keeps : (timeout : ℕ) → Kept inv (construct callback timeout)
      unfolding construct
      construct-Keeps timeout =
          bind-Keeps _ _ (connect-Keeps timeout) (greet-Keeps opening.at_refusal)
