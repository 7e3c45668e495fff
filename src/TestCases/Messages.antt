-- ===== src/TestCases/Messages.antt =====
-- What the test server (of tests/test.cpp) reads of the message that a case sends.
use fast_websocket_client.Base.{
  ℕ, zero, suc, ◌^◌, ◌<◌, ◌≡◌, refl, ap, subst, ◌∙◌, List, [], ◌∷◌, ◌++◌, length, length-replicate,
  replicate, arith,
}
use fast_websocket_client.Frame.{Opcode}
use fast_websocket_client.FrameParser.{Machine, FrameParser}
use fast_websocket_client.FrameParser.Abstract.{IsValid}
use fast_websocket_client.FrameParser.LengthField.{ZeroShifts}
use fast_websocket_client.FrameParser.Stream.{IsIdle}
use fast_websocket_client.Socket.{Platform}
use fast_websocket_client.Client.{Event, System}
use fast_websocket_client.Client.Callbacks.{callback_at}
use fast_websocket_client.Client.Sent.{Log, logging}
use fast_websocket_client.Client.Sent.ReadBack.{
  ReadBack, invoke_text-ReadBack, invoke_binary-ReadBack,
}
use fast_websocket_client.TestCases.{initial_message, handler_of, react_1_1, react_1_2}

replicate_snoc : (n : ℕ) (x : ℕ) → replicate n x ++ (x ∷ []) ≡ x ∷ replicate n x
replicate_snoc zero x = refl
replicate_snoc (suc n) x = ap (λ xs. x ∷ xs) (replicate_snoc n x)

initial_message-replicate : (x n : ℕ) → initial_message x n ≡ replicate n x
unfolding initial_message
initial_message-replicate x zero = refl
initial_message-replicate x (suc n) =
    ap (λ xs. xs ++ (x ∷ [])) (initial_message-replicate x n) ∙ replicate_snoc n x

module _ (p : Platform) ⦃machine : Machine⦄ (zeros : ZeroShifts machine) (depth : ℕ) where
  -- For every message length below 2 ^ 31, the opening callback of each of the two handlers of the
  -- tests, on any platform with a socket that also writes down what it is given to send, gives the
  -- socket exactly one more string of bytes; a valid parser between two frames that is given it,
  -- with any bytes behind it, returns a final TEXT (or BINARY) frame whose payload, once unmasked,
  -- is as many asterisks (or bytes 254), and is then between two frames with just the bytes behind
  -- unread, on a machine that shifts 0 to 0.
  pub on_open-ReadBack :
      (n : ℕ) (rest : List ℕ) (q : FrameParser) (s : System (Log p.World) (List ℕ))
      → IsValid q
      → IsIdle q []
      → n < 2 ^ 31
      → ReadBack Opcode.text
          (replicate n 42)
          rest
          q
          s.world.sent
          (callback_at ⦃platform = logging p⦄ ⦃handler = handler_of react_1_1⦄
            (suc depth)
            Event.on_open
            (record s { handler = initial_message 42 n })).1.world.sent
        × ReadBack Opcode.binary
            (replicate n 254)
            rest
            q
            s.world.sent
            (callback_at ⦃platform = logging p⦄ ⦃handler = handler_of react_1_2⦄
              (suc depth)
              Event.on_open
              (record s { handler = initial_message 254 n })).1.world.sent
  unfolding callback_at react_1_1 react_1_2
  on_open-ReadBack n rest q s v idle small = (
    subst
        (λ message.
          ReadBack Opcode.text message rest q s.world.sent (after_text (initial_message 42 n)))
        (initial_message-replicate 42 n)
        (invoke_text-ReadBack p ⦃handler = handler_of react_1_1⦄ zeros
          (callback_at ⦃platform = logging p⦄ ⦃handler = handler_of react_1_1⦄ depth)
          (initial_message 42 n) (initial_message 42 n) rest q
          (record s { handler = initial_message 42 n }) v idle (fits 42)),
    subst
        (λ message.
          ReadBack Opcode.binary message rest q s.world.sent (after_binary (initial_message 254 n)))
        (initial_message-replicate 254 n)
        (invoke_binary-ReadBack p ⦃handler = handler_of react_1_2⦄ zeros
          (callback_at ⦃platform = logging p⦄ ⦃handler = handler_of react_1_2⦄ depth)
          (initial_message 254 n) (initial_message 254 n) rest q
          (record s { handler = initial_message 254 n }) v idle (fits 254)),
  )
    where
      after_text : List ℕ → List (List ℕ)
      after_text message =
          (callback_at ⦃platform = logging p⦄ ⦃handler = handler_of react_1_1⦄ (suc depth)
            Event.on_open (record s { handler = message })).1.world.sent

      after_binary : List ℕ → List (List ℕ)
      after_binary message =
          (callback_at ⦃platform = logging p⦄ ⦃handler = handler_of react_1_2⦄ (suc depth)
            Event.on_open (record s { handler = message })).1.world.sent

      fits : (x : ℕ) → length (initial_message x n) < 2 ^ 31
      fits x = omega (arith, ap length (initial_message-replicate x n), length-replicate n x, small)
