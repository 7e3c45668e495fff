-- ===== src/Client/Sent.antt =====
-- What a client (include/fastws/fastws.hpp) hands to its socket: a log of it, and what the log may hold.
pub mod Life
pub mod ReadBack
pub mod Receipt
use fast_websocket_client.Base.{
  ℕ, zero, suc, ◌*◌, ◌≡◌, refl, sym, ap, subst, ◌∙◌, ◌⊎◌, inl, inr, Bool, List, [], ◌∷◌, ◌++◌,
  append_assoc, append-nil, length, All,
}
use fast_websocket_client.Exec.{Error, Result, ok, throw, Exec, follow, ◌>>=◌}
use fast_websocket_client.Exec.Keeps.{AnyError, Keeps, bind-Keeps}
use fast_websocket_client.FrameParser.{Machine}
use fast_websocket_client.Handshake.{random_bytes, generate_sec_websocket_key}
use fast_websocket_client.Socket.{Platform}
use fast_websocket_client.Client.{Client, Handler, System, Call}
use fast_websocket_client.Client.Methods.{Method, send}
use fast_websocket_client.Client.Session.{
  request_of, new_key, await_response, conclude, connect, greet, construct,
}
use fast_websocket_client.Client.Callbacks.{callback_at}
use fast_websocket_client.Client.Invariant.{Invariant}
use fast_websocket_client.Client.Invariant.Frames.{IsClientFrame}
use fast_websocket_client.Client.Invariant.Methods.{Kept}
use fast_websocket_client.Client.Invariant.Opening.{
  await_response-Keeps, conclude-Keeps, greet-Keeps,
}
use fast_websocket_client.Client.Invariant.Session.{callback_at-Keeps}
use fast_websocket_client.Client.Invariant.Worldly.{Worldly, worldly-Invariant}
use fast_websocket_client.Client.Lifetime.{after, lifetime, run_calls-kept}

-- A world, and what was given to its socket to send.
pub record Log (W : Type 0) : Type 0 where
  pub sent : List (List ℕ)
  pub world : W

-- The platform with a socket that writes down what it is given, whether it then sends it or throws.
abbrev pub logging : Platform → Platform
logging p = record {
  World = Log p.World;
  open_socket =
      λ host port l. let (r, w) = p.open_socket host port l.world in (r, record l { world = w });
  send = λ bytes l.
      let (r, w) = p.send bytes l.world in (r, record { sent = l.sent ++ (bytes ∷ []); world = w });
  read = λ n l. let (r, w) = p.read n l.world in (r, record l { world = w });
  read_into = λ b hint l. let (r, w) = p.read_into b hint l.world in (r, record l { world = w });
  clock = λ l. let (t, w) = p.clock l.world in (t, record l { world = w });
  sleep = λ l. record l { world = p.sleep l.world };
  random_byte = λ l. let (b, w) = p.random_byte l.world in (b, record l { world = w });
  base64 = p.base64;
}

-- Frames of a client behind `base`.
pub record Framed (base log : List (List ℕ)) : Type 0 where
  pub frames : List (List ℕ)
  pub behind : log ≡ base ++ frames
  pub framed : All IsClientFrame frames

pub nothing-Framed : (base : List (List ℕ)) → Framed base base
nothing-Framed base = record { frames = []; behind = sym (append-nil base); framed = tt }

pub All-append :
    (P : List ℕ → Type 0) (xs ys : List (List ℕ)) → All P xs → All P ys → All P (xs ++ ys)
All-append P [] ys h k = k
All-append P (x ∷ xs) ys h k = (h.0, All-append P xs ys h.1 k)

pub one_more-Framed :
    {base log : List (List ℕ)} (bytes : List ℕ)
    → IsClientFrame bytes
    → Framed base log
    → Framed base (log ++ (bytes ∷ []))
one_more-Framed {base} bytes good f = record {
  frames = f.frames ++ (bytes ∷ []);
  behind = ap (λ l. l ++ (bytes ∷ [])) f.behind ∙ append_assoc base f.frames (bytes ∷ []);
  framed = All-append IsClientFrame f.frames (bytes ∷ []) f.framed (good, tt);
}

-- The bytes are answers of the source of random bytes, each asked for in the world that the one before
-- it left, from `w` to `w'`.
pub data Drawn (p : Platform) : p.World → List ℕ → p.World → Type 0 where
  none_drawn : (w : p.World) → Drawn p w [] w
  one_drawn :
      (w : p.World) {w' : p.World} {bytes : List ℕ}
      → Drawn p (p.random_byte w).1 bytes w'
      → Drawn p w ((p.random_byte w).0 ∷ bytes) w'

-- The request of `c` behind `base`, and frames behind it. The key is Base64 of 16 bytes that were
-- drawn from `w` on.
pub record Requested (p : Platform) (w : p.World) (c : Client) (base log : List (List ℕ))
    : Type 0 where
  pub bytes : List ℕ
  pub sixteen : length bytes ≡ 16
  pub later : p.World
  pub drawn : Drawn p w bytes later
  pub frames : List (List ℕ)
  pub behind : log ≡ base ++ (request_of c (p.base64 bytes) ∷ frames)
  pub framed : All IsClientFrame frames
