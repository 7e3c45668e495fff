-- ===== src/Handshake/Request.antt =====
-- The request of the handshake (include/fastws/handshake.hpp) as a server reads it, line by line.
use fast_websocket_client.Base.{
  ℕ, zero, suc, ◌≡◌, refl, ap, Bool, true, false, not, ◌&&◌, Bool-cases, inl, inr, List, [], ◌∷◌,
  ◌++◌, if◌then◌else◌, ◌==◌, drop,
}
use fast_websocket_client.Handshake.{codes, crlf, build_websocket_handshake_request}

abbrev pub begins_lf : List ℕ → Bool
begins_lf [] = false
begins_lf (x ∷ xs) = x == 10

-- The bytes before the first carriage return that a line feed follows, and those behind the two.
abbrev pub next_line : List ℕ → List ℕ × List ℕ
next_line [] = ([], [])
next_line (x ∷ xs) =
    let (line, rest) = next_line xs in
    if x == 13 && begins_lf xs then ([], drop 1 xs) else (x ∷ line, rest)

unfoldable pub read_lines : ℕ → List ℕ → List (List ℕ) × List ℕ
read_lines zero text = ([], text)
read_lines (suc n) text =
    let (line, rest) = next_line text in
    let (lines, left) = read_lines n rest in (line ∷ lines, left)

-- No carriage return.
abbrev pub is_line : List ℕ → Bool
is_line [] = true
is_line (x ∷ xs) = not (x == 13) && is_line xs

next_line-crlf : (l rest : List ℕ) → is_line l ≡ true → next_line ((l ++ crlf) ++ rest) ≡ (l, rest)
next_line-crlf [] rest h = refl
next_line-crlf (x ∷ xs) rest h = elim (Bool-cases (x == 13)) [
  | inl cr ↦ let bad : false ≡ true = rw cr at h in absurd cc
  | inr other ↦
      let tail : is_line xs ≡ true = rw other at h in rw (other, next_line-crlf xs rest tail)
]

is_line-append :
    (xs ys : List ℕ) → is_line xs ≡ true → is_line ys ≡ true → is_line (xs ++ ys) ≡ true
is_line-append [] ys h k = k
is_line-append (x ∷ xs) ys h k = elim (Bool-cases (x == 13)) [
  | inl cr ↦ let bad : false ≡ true = rw cr at h in absurd cc
  | inr other ↦
      let tail : is_line xs ≡ true = rw other at h in rw (other, is_line-append xs ys tail k)
]

abbrev push : List ℕ → List (List ℕ) × List ℕ → List (List ℕ) × List ℕ
push line (lines, left) = (line ∷ lines, left)

read_lines-zero : (text : List ℕ) → read_lines 0 text ≡ ([], text)
unfolding read_lines
read_lines-zero text = refl

-- One more line is read, and then the others.
read_lines-crlf :
    (n : ℕ) (l rest : List ℕ) (r : List (List ℕ) × List ℕ)
    → is_line l ≡ true
    → read_lines n rest ≡ r
    → read_lines (suc n) ((l ++ crlf) ++ rest) ≡ push l r
unfolding read_lines
read_lines-crlf n l rest r h e = rw (next_line-crlf l rest h) (ap (push l) e)

-- A server that reads the request for a host, a path and a key without carriage returns line by
-- line, where a line ends at a carriage return that a line feed follows, finds the six lines of
-- the handshake, in order, and behind them just the extra headers and the line break that ends the
-- headers.
pub read_lines-build :
    (host path key extra_headers : List ℕ)
    → is_line host ≡ true
    → is_line path ≡ true
    → is_line key ≡ true
    → read_lines 6 (build_websocket_handshake_request host path key extra_headers) ≡ (
      (codes "GET " ++ path ++ codes " HTTP/1.1")
          ∷ (codes "Host: " ++ host)
          ∷ codes "Upgrade: websocket"
          ∷ codes "Connection: Upgrade"
          ∷ (codes "Sec-WebSocket-Key: " ++ key)
          ∷ codes "Sec-WebSocket-Version: 13"
          ∷ [],
      extra_headers ++ crlf,
    )
unfolding build_websocket_handshake_request
read_lines-build host path key extra_headers h p k =
    read_lines-crlf 5 (codes "GET " ++ path ++ codes " HTTP/1.1") _ _
      (is_line-append (codes "GET " ++ path) (codes " HTTP/1.1")
        (is_line-append (codes "GET ") path refl p) refl)
      (read_lines-crlf 4 (codes "Host: " ++ host) _ _ (is_line-append (codes "Host: ") host refl h)
        (read_lines-crlf 3 (codes "Upgrade: websocket") _ _ refl (
          read_lines-crlf 2 (codes "Connection: Upgrade") _ _ refl (
            read_lines-crlf 1 (codes "Sec-WebSocket-Key: " ++ key) _ _
              (is_line-append (codes "Sec-WebSocket-Key: ") key refl k)
              (read_lines-crlf 0 (codes "Sec-WebSocket-Version: 13") _ _ refl
                (read_lines-zero _))))))
