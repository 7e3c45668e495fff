-- ===== src/FrameParser/Oversized.antt =====
-- `check_extended_payload_len_64` (single_header/fastws.hpp) on lengths of 2 ^ 31 bytes and more.
use fast_websocket_client.Base.{
  ℕ, ◌+◌, ◌-◌, ◌^◌, ◌≤◌, ◌<◌, ◌≡◌, ap, ◌∙◌, Bool, true, false, List, none, arith, if◌then◌else◌,
  ltb, lt→ltb, le→ltb_false, length,
}
use fast_websocket_client.Frame.{Frame}
use fast_websocket_client.FrameParser.{
  Machine, extended_payload_len_64, payload_data, FrameParser, parse, result,
}
use fast_websocket_client.FrameParser.LengthField.{ZeroShifts, eight_bytes, gather-sign_extended}
use fast_websocket_client.FrameParser.Abstract.{
  Reading, at, pending_of, reading, IsValid, data_from, length_64_from, run_from,
}
use fast_websocket_client.FrameParser.Abstract.Refine.{parse-run}
use fast_websocket_client.FrameParser.Updates.{frame_of}

if-false : (b : Bool) (r s : Reading) → b ≡ false → (if b then r else s) ≡ s
if-false b r s e = rw e

module _ ⦃m : Machine⦄ (zeros : ZeroShifts m) where
  length_64-waits :
      (f : Frame) (l n : ℕ) (rest : List ℕ)
      → f.mask ≡ false
      → 2 ^ 31 ≤ n
      → n < 2 ^ 32
      → length rest < 2 ^ 63
      → length_64_from f l (eight_bytes n rest) ≡ at payload_data f (n + (2 ^ 64 - 2 ^ 32)) rest
  unfolding length_64_from data_from
  length_64-waits f l n rest plain lo hi few =
      let enough : ltb (length (eight_bytes n rest)) 8 ≡ false = le→ltb_false _ _ (omega arith) in
      let short : ltb (length rest) (n + (2 ^ 64 - 2 ^ 32)) ≡ true = lt→ltb _ _ (omega arith) in
      let waits : data_from f (n + (2 ^ 64 - 2 ^ 32)) rest
          ≡ at payload_data f (n + (2 ^ 64 - 2 ^ 32)) rest =
        rw short in
      rw enough (
        if-false f.mask _ _ plain
        ∙ ap (λ k. data_from f k rest) (gather-sign_extended zeros n rest lo hi)
        ∙ waits)

  -- On a machine that shifts 0 to 0, a valid parser that is about to read the eight bytes of a
  -- length n with 2 ^ 31 <= n < 2 ^ 32 of an unmasked frame, with any bytes below 2 ^ 63 behind
  -- them, takes the length to be n + 2 ^ 64 - 2 ^ 32 and returns no frame.
  pub oversized-waits :
      (p : FrameParser) (n : ℕ) (rest : List ℕ)
      → IsValid p
      → p.stage ≡ extended_payload_len_64
      → p.frame.mask ≡ false
      → pending_of p ≡ eight_bytes n rest
      → 2 ^ 31 ≤ n
      → n < 2 ^ 32
      → length rest < 2 ^ 63
      → (result (parse p) ≡ none) × ((parse p).payload_length ≡ n + (2 ^ 64 - 2 ^ 32))
  unfolding run_from
  oversized-waits p n rest v at_length plain holds lo hi few =
      let e : reading (parse p) ≡ at payload_data p.frame (n + (2 ^ 64 - 2 ^ 32)) rest =
        parse-run p v
        ∙ ap (λ s. run_from s p.frame p.payload_length (pending_of p)) at_length
        ∙ ap (λ xs. length_64_from p.frame p.payload_length xs) holds
        ∙ length_64-waits p.frame p.payload_length n rest plain lo hi few in
      (ap frame_of e, ap (λ r. r.payload_length) e)
