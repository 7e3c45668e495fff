-- ===== src/Client/Invariant/Lasting.antt =====
-- Facts about the client alone that no value of the parser touches: they last however the world behaves.
use fast_websocket_client.Base.{
  ℕ, Bool, List, Option, none, some, if◌then◌else◌, ◌≢◌, ◌≡◌, refl, sym, subst, false,
}
use fast_websocket_client.Exec.{fault}
use fast_websocket_client.Exec.Keeps.{
  Keeps, AnyError, any-Allowed, pure-Keeps, raise-Keeps, bind-Keeps,
}
use fast_websocket_client.Frame.{Frame}
use fast_websocket_client.FrameParser.{Machine, FrameParser, update_view}
use fast_websocket_client.FrameFactory.{FrameFactory}
use fast_websocket_client.Socket.{Platform}
use fast_websocket_client.Client.{ConnectionStatus, healthy, failed, Client, Handler, System}
use fast_websocket_client.Client.Methods.{Method, assign, next_frame, parsed, parse_view}
use fast_websocket_client.Client.Invariant.{Holds, Invariant}
use fast_websocket_client.Client.Invariant.Frames.{client_frames}
use fast_websocket_client.Client.Invariant.Opening.{Opening}

pub record Lasting (P : Client → Type 0) : Type 0 where
  pub at_factory : (c : Client) (f : FrameFactory) → P c → P (record c { factory = f })
  pub at_parser : (c : Client) (p : FrameParser) → P c → P (record c { parser = p })
  pub at_timer : (c : Client) (t : ℕ) → P c → P (record c { ping_timer = t })
  pub at_waiting : (c : Client) (b : Bool) → P c → P (record c { waiting_for_ping = b })
  pub at_rtt : (c : Client) (t : ℕ) → P c → P (record c { last_rtt = t })
  pub at_end :
      (c : Client) (st : ConnectionStatus)
      → st ≢ healthy
      → P c
      → P (record c { connection_open = false; status = st })

module _ ⦃platform : Platform⦄ ⦃handler : Handler⦄ ⦃machine : Machine⦄ {P : Client → Type 0}
    (lasting : Lasting P) where
  abbrev pub OfClient : Client → platform.World → Type 0
  OfClient c w = P c

  abbrev Lasts : {A : Type 0} → Method A → Type 0
  Lasts m = Keeps (Holds OfClient) AnyError m

  -- What is no assignment to the client.
  aside-Keeps :
      {A : Type 0} (m : Method A)
      → ((s : System platform.World handler.H) → (m s).1.client ≡ s.client)
      → Lasts m
  aside-Keeps m same = record { apply = λ s h. (subst P (sym (same s)) h, any-Allowed (m s).0) }

  parser-Keeps : (p : FrameParser) → Lasts (assign (λ c. record c { parser = p }))
  parser-Keeps p = record { apply = λ s h. (lasting.at_parser s.client p h, tt) }

  next_frame-Keeps : Lasts next_frame
  unfolding next_frame
  next_frame-Keeps = bind-Keeps _ _ (aside-Keeps _ (λ s. refl)) λ c.
      bind-Keeps _ _ (aside-Keeps _ (λ s. refl))
        λ got. bind-Keeps _ _ (parser-Keeps _) λ _. pure-Keeps _

  parsed-Keeps : (o : Option (FrameParser × Option Frame)) → Lasts (parsed o)
  unfolding parsed
  parsed-Keeps none = raise-Keeps fault tt
  parsed-Keeps (some (p, out)) = bind-Keeps _ _ (parser-Keeps p) λ _. pure-Keeps out

  parse_view-Keeps : (view : List ℕ) → Lasts (parse_view view)
  unfolding parse_view
  parse_view-Keeps view =
      bind-Keeps _ _ (aside-Keeps _ (λ s. refl)) λ c. parsed-Keeps (update_view c.parser view)

  pub lasting-Invariant : Invariant OfClient AnyError
  lasting-Invariant = record {
    at_factory = λ c w f h. lasting.at_factory c f h;
    at_timer = λ c w t h. lasting.at_timer c t h;
    at_waiting = λ c w b h. lasting.at_waiting c b h;
    at_rtt = λ c w t h. lasting.at_rtt c t h;
    at_end = λ c w st e h. lasting.at_end c st e h;
    at_clear = λ c w h. lasting.at_parser c _ h;
    at_clock = λ c w h. h;
    at_sleep = λ c w h. h;
    goes = λ bytes. Unit {0};
    at_send = λ c bytes _. record { apply = λ w h. (h, any-Allowed _) };
    at_read = λ c n. record { apply = λ w h. (h, any-Allowed _) };
    at_next_frame = next_frame-Keeps;
    at_parse_view = parse_view-Keeps;
    at_frame = client_frames AnyError (λ bytes _. tt) tt tt tt;
    at_nesting = tt;
  }

  pub lasting-Opening :
      ((c : Client) (b : Bool)
        → P c
        → P (record c { connection_open = b; status = if b then healthy else failed }))
      → Opening OfClient AnyError
  lasting-Opening concluded = record {
    at_open = λ c host port. record { apply = λ w h. (h, any-Allowed _) };
    at_random = λ c w h. h;
    at_conclusion = λ c w b h. concluded c b h;
    at_request = λ c d key. record { apply = λ w h. (h, any-Allowed _) };
    at_refusal = tt;
  }
