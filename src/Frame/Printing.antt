-- ===== src/Frame/Printing.antt =====
-- `Frame::opcode_to_string` and the `operator<<` of `Frame` (single_header/fastws.hpp): the text that a
-- stream is given, on a stream with the default flags.
use mathlib.Core.List.{append_cancel_right}
use fast_websocket_client.Base.{
  ℕ, ◌≡◌, refl, ap, Bool, true, false, not, ◌&&◌, List, [], ◌∷◌, ◌++◌, ◌==◌, ==_iff, arith, drop,
  Bool-cases, inl, inr,
}
use fast_websocket_client.Handshake.{codes}
use fast_websocket_client.Frame.{Opcode, MaskingKey, Frame}

unfoldable pub opcode_to_string : Opcode → List ℕ
opcode_to_string Opcode.continuation = codes "Opcode::CONTINUATION"
opcode_to_string Opcode.text = codes "Opcode::TEXT"
opcode_to_string Opcode.binary = codes "Opcode::BINARY"
opcode_to_string Opcode.close = codes "Opcode::CLOSE"
opcode_to_string Opcode.ping = codes "Opcode::PING"
opcode_to_string Opcode.pong = codes "Opcode::PONG"
opcode_to_string other = codes "Opcode::UNKNOWN"

-- A `bool` prints as 1 or 0.
abbrev pub digit : Bool → ℕ
digit true = 49
digit false = 48

-- A `std::uint8_t` is a character to the stream, so `std::hex` changes nothing.
abbrev key_text : Bool → MaskingKey → List ℕ
key_text false key = []
key_text true key = codes "[key=" ++ (key.k0 ∷ 32 ∷ key.k1 ∷ 32 ∷ key.k2 ∷ 32 ∷ key.k3 ∷ codes "]")

abbrev payload_text : List ℕ → List ℕ
payload_text [] = []
payload_text (x ∷ xs) = codes "[payload=\"" ++ ((x ∷ xs) ++ codes "\"]")

unfoldable pub print : Frame → List ℕ
print frame =
    codes "[fin="
    ++ (digit frame.fin
        ∷ (codes "]["
            ++ (opcode_to_string frame.opcode
                ++ (codes "][mask="
                    ++ (digit frame.mask
                        ∷ (codes "]"
                            ++ (key_text frame.mask frame.masking_key
                                ++ payload_text frame.payload)))))))

-- No bracket that closes.
abbrev is_free : List ℕ → Bool
is_free [] = true
is_free (x ∷ xs) = not (x == 93) && is_free xs

opcode_to_string-is_free : (o : Opcode) → is_free (opcode_to_string o) ≡ true
unfolding opcode_to_string
opcode_to_string-is_free Opcode.continuation = refl
opcode_to_string-is_free Opcode.text = refl
opcode_to_string-is_free Opcode.binary = refl
opcode_to_string-is_free Opcode.close = refl
opcode_to_string-is_free Opcode.ping = refl
opcode_to_string-is_free Opcode.pong = refl
opcode_to_string-is_free Opcode.unknown = refl
opcode_to_string-is_free (Opcode.unnamed n) = refl

free_head :
    (x : ℕ) (xs : List ℕ) → is_free (x ∷ xs) ≡ true → (x == 93 ≡ false) × (is_free xs ≡ true)
free_head x xs h = elim (Bool-cases (x == 93)) [
  | inl bracket ↦ let bad : false ≡ true = rw bracket at h in absurd cc
  | inr other ↦ (other, rw other at h)
]

-- The text before the first bracket that closes, and the text behind it.
split_at-bracket :
    (ps qs xs ys : List ℕ)
    → is_free ps ≡ true
    → is_free qs ≡ true
    → ps ++ (93 ∷ xs) ≡ qs ++ (93 ∷ ys)
    → (ps ≡ qs) × (xs ≡ ys)
split_at-bracket [] [] xs ys h k e = (refl, ap (drop 1) e)
split_at-bracket [] (b ∷ qs) xs ys h k e =
    let same : 93 ≡ b = cc in
    let no = (free_head b qs k).0 in let yes = (==_iff b 93).1 (omega (arith, same)) in absurd cc
split_at-bracket (a ∷ ps) [] xs ys h k e =
    let same : a ≡ 93 = cc in
    let no = (free_head a ps h).0 in let yes = (==_iff a 93).1 same in absurd cc
split_at-bracket (a ∷ ps) (b ∷ qs) xs ys h k e =
    let first : a ≡ b = cc in
    let (same, rest) =
      split_at-bracket ps qs xs ys (free_head a ps h).1 (free_head b qs k).1 (ap (drop 1) e) in
    (rw (first, same), rest)

-- The character at an index below the length.
abbrev char_at : ℕ → List ℕ → ℕ
char_at i text = elim (drop i text) [ [] ↦ 0 | x ∷ xs ↦ x ]

digit-injective : (a b : Bool) → digit a ≡ digit b → a ≡ b
digit-injective true true e = refl
digit-injective false false e = refl
digit-injective true false e = absurd (omega (arith, e))
digit-injective false true e = absurd (omega (arith, e))

payload_text-injective : (p q : List ℕ) → payload_text p ≡ payload_text q → p ≡ q
payload_text-injective [] [] e = refl
payload_text-injective [] (y ∷ ys) e = absurd cc
payload_text-injective (x ∷ xs) [] e = absurd cc
payload_text-injective (x ∷ xs) (y ∷ ys) e =
    append_cancel_right (x ∷ xs) (y ∷ ys) (codes "\"]") (ap (drop 10) e)

key_ext : (k l : MaskingKey) → k.k0 ≡ l.k0 → k.k1 ≡ l.k1 → k.k2 ≡ l.k2 → k.k3 ≡ l.k3 → k ≡ l
key_ext k l a b c d = λ i. record { k0 = a i; k1 = b i; k2 = c i; k3 = d i }

key_text-injective :
    (m n : Bool) (k l : MaskingKey) (p q : List ℕ)
    → m ≡ n
    → key_text m k ++ payload_text p ≡ key_text n l ++ payload_text q
    → (m ≡ true → k ≡ l) × (p ≡ q)
key_text-injective false false k l p q same e = (λ up. absurd cc, payload_text-injective p q e)
key_text-injective true true k l p q same e = (
  λ up. key_ext k l (ap (char_at 5) e) (ap (char_at 7) e) (ap (char_at 9) e) (ap (char_at 11) e),
  payload_text-injective p q (ap (drop 13) e),
)
key_text-injective false true k l p q same e = absurd cc
key_text-injective true false k l p q same e = absurd cc

-- Two frames that print the same have the same final flag, the same name of the opcode, the same
-- mask flag, the same payload and, if they are masked, the same key.
pub print-injective :
    (f g : Frame)
    → print f ≡ print g
    → (f.fin ≡ g.fin)
      × (opcode_to_string f.opcode ≡ opcode_to_string g.opcode)
      × (f.mask ≡ g.mask)
      × (f.mask ≡ true → f.masking_key ≡ g.masking_key)
      × (f.payload ≡ g.payload)
unfolding print
print-injective f g e =
    let (same_opcode, rest) =
      split_at-bracket (opcode_to_string f.opcode) (opcode_to_string g.opcode) _ _
        (opcode_to_string-is_free f.opcode) (opcode_to_string-is_free g.opcode) (ap (drop 8) e) in
    let same_mask = digit-injective f.mask g.mask (ap (char_at 6) rest) in
    let (same_key, same_payload) =
      key_text-injective f.mask g.mask f.masking_key g.masking_key f.payload g.payload same_mask
        (ap (drop 8) rest) in
    (digit-injective f.fin g.fin (ap (char_at 5) e), same_opcode, same_mask, same_key, same_payload)
