-- ===== src/Client/Sent/Receipt.antt =====
-- What a server's parser makes of all that a client (include/fastws/fastws.hpp) sends behind the request
-- of the handshake.
use mathlib.Core.List.{map, append_cancel_left}
use fast_websocket_client.Base.{
  ℕ, suc, ◌+◌, ◌^◌, ◌≤◌, ◌<◌, ◌≡◌, refl, sym, ap, ap₂, subst, ◌∙◌, inl, inr, true, List, [], ◌∷◌,
  ◌++◌, some, arith, length, length-append, replicate, All, drop,
}
use fast_websocket_client.Frame.{Frame, Opcode, opcode_of, key_bytes, mask_from}
use fast_websocket_client.Frame.Wire.{wire, length_field, payload_field, length-mask_from}
use fast_websocket_client.FrameParser.{Machine, FrameParser}
use fast_websocket_client.FrameParser.Abstract.{IsValid}
use fast_websocket_client.FrameParser.LengthField.{ZeroShifts}
use fast_websocket_client.FrameParser.RoundTrip.{IsWireOpcode, received}
use fast_websocket_client.FrameParser.Stream.{IsIdle}
use fast_websocket_client.FrameParser.Chunks.{IsSendable, joined, updates}
use fast_websocket_client.FrameParser.Chunks.Delivery.{updates-wires}
use fast_websocket_client.Socket.{Platform}
use fast_websocket_client.Client.{Handler, System, Call}
use fast_websocket_client.Client.Invariant.Frames.{IsKind, IsClientFrame}
use fast_websocket_client.Client.Lifetime.{lifetime}
use fast_websocket_client.Client.Sent.{Log, logging}
use fast_websocket_client.Client.Sent.Life.{lifetime-Requested}

kind-IsWireOpcode : (o : Opcode) (n : ℕ) → IsKind o n → IsWireOpcode o
unfolding opcode_of
kind-IsWireOpcode Opcode.text n h = refl
kind-IsWireOpcode Opcode.binary n h = refl
kind-IsWireOpcode Opcode.ping n h = refl
kind-IsWireOpcode Opcode.pong n h = refl
kind-IsWireOpcode Opcode.close n h = refl
kind-IsWireOpcode Opcode.continuation n h = absurd h
kind-IsWireOpcode Opcode.unknown n h = absurd h
kind-IsWireOpcode (Opcode.unnamed k) n h = absurd h

length-wire : (f : Frame) → f.mask ≡ true → length f.payload ≤ length (wire f)
length-wire f masked =
    let body : length (payload_field f) ≡ 4 + length f.payload = rw masked (
      omega (
        arith,
        length-append (key_bytes f.masking_key) (mask_from f.masking_key 0 f.payload),
        length-mask_from f.masking_key 0 f.payload,
      )) in
    omega (arith, length-append (length_field f.mask (length f.payload)) (payload_field f), body)

client-IsSendable :
    (bytes : List ℕ) (c : IsClientFrame bytes) → length bytes < 2 ^ 31 → IsSendable c.frame
client-IsSendable bytes c small = record {
  named = kind-IsWireOpcode c.frame.opcode (length c.frame.payload) c.kind;
  small = omega (arith, length-wire c.frame c.masked, ap length c.layout, small);
}

abbrev frames_of : (log : List (List ℕ)) → All IsClientFrame log → List Frame
frames_of [] h = []
frames_of (b ∷ bs) h = h.0.frame ∷ frames_of bs h.1

wires-frames_of :
    (log : List (List ℕ)) (h : All IsClientFrame log) → map wire (frames_of log h) ≡ log
wires-frames_of [] h = refl
wires-frames_of (b ∷ bs) h = ap₂ (λ x xs. x ∷ xs) (sym h.0.layout) (wires-frames_of bs h.1)

frames_of-IsSendable :
    (log : List (List ℕ)) (h : All IsClientFrame log)
    → All (λ b. length b < 2 ^ 31) log
    → All IsSendable (frames_of log h)
frames_of-IsSendable [] h small = tt
frames_of-IsSendable (b ∷ bs) h small =
    (client-IsSendable b h.0 small.0, frames_of-IsSendable bs h.1 small.1)

-- Every string of the log is one frame, and the parser returns just these.
pub record ReadAll ⦃machine : Machine⦄ (chunks log : List (List ℕ)) (q : FrameParser) : Type 0 where
  pub frames : List Frame
  pub after : FrameParser
  pub layout : map wire frames ≡ log
  pub masked : All (λ f. f.mask ≡ true) frames
  pub reads :
      updates q (chunks ++ replicate (suc (length frames)) []) ≡ some (map received frames, after)
  pub idle : IsIdle after []

frames_of-masked :
    (log : List (List ℕ)) (h : All IsClientFrame log) → All (λ f. f.mask ≡ true) (frames_of log h)
frames_of-masked [] h = tt
frames_of-masked (b ∷ bs) h = (h.0.masked, frames_of-masked bs h.1)

no_more : (xs : List (List ℕ)) (y : List ℕ) (ys : List (List ℕ)) → xs ≡ xs ++ (y ∷ ys) → ⊥
no_more xs y ys e = omega (arith, ap length e, length-append xs (y ∷ ys))

module _ (p : Platform) ⦃handler : Handler⦄ ⦃machine : Machine⦄ (zeros : ZeroShifts machine) where
  -- Over any platform, with a socket that also writes down what it is given to send, after the
  -- constructor and then, unless it threw, any public calls, whatever the handler's callbacks do:
  -- when the socket was given a first string and behind it strings below 2 ^ 31 bytes, each of
  -- these is the bytes of one masked frame in the RFC's layout, and a valid parser that is between
  -- two frames with nothing unread, given their bytes in order in chunks that are cut anywhere,
  -- and then as many empty chunks as there are frames and one more, returns just these frames,
  -- once and in order (payloads still masked), and is between two frames again with nothing
  -- unread, on a machine that shifts 0 to 0.
  pub lifetime-ReadAll :
      (depth timeout : ℕ) (calls : List Call) (s : System (Log p.World) handler.H)
      (request : List ℕ) (log chunks : List (List ℕ)) (q : FrameParser)
      → (lifetime ⦃platform = logging p⦄ depth timeout calls s).world.sent
        ≡ s.world.sent ++ (request ∷ log)
      → All (λ b. length b < 2 ^ 31) log
      → joined chunks ≡ joined log
      → IsValid q
      → IsIdle q []
      → ReadAll chunks log q
  lifetime-ReadAll depth timeout calls s request log chunks q e small same v idle =
      elim (lifetime-Requested p depth timeout calls s) [
        | inl unsent ↦ absurd (no_more s.world.sent request log (sym unsent.1 ∙ e))
        | inr r ↦
            let tails = append_cancel_left s.world.sent _ _ (sym r.behind ∙ e) in
            let log_is : r.frames ≡ log = ap (drop 1) tails in
            let all = subst (All IsClientFrame) log_is r.framed in
            let layout = wires-frames_of log all in
            let (after, reads, valid, idle') =
              updates-wires zeros q chunks (frames_of log all) v idle
                (frames_of-IsSendable log all small) (same ∙ ap joined (sym layout)) in
            record {
              frames = frames_of log all;
              after = after;
              layout = layout;
              masked = frames_of-masked log all;
              reads = reads;
              idle = idle';
            }
      ]
