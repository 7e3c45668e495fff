-- ===== src/Handshake.antt =====
-- include/fastws/handshake.hpp: the key and the request that open a connection, as bytes.
-- OpenSSL's Base64 and the random numbers are arguments.
pub mod Request
use Prim.Native.Char.{code}
use Prim.Native.String.{String}
use fast_websocket_client.Base.{ℕ, zero, suc, List, [], ◌∷◌, ◌++◌}

-- The bytes of an ASCII text.
abbrev pub codes : String → List ℕ
codes String.[] = []
codes (String.◌∷◌ c s) = code c ∷ codes s

-- A line break, "\r\n".
abbrev pub crlf : List ℕ
crlf = 13 ∷ 10 ∷ []

module _ {W : Type 0} (random_byte : W → ℕ × W) where
  -- The loop over the bytes of the key, with those that are left.
  unfoldable pub random_bytes : ℕ → W → List ℕ × W
  random_bytes zero w = ([], w)
  random_bytes (suc n) w =
      let (b, w') = random_byte w in let (bs, w'') = random_bytes n w' in (b ∷ bs, w'')

  unfoldable pub generate_sec_websocket_key : (List ℕ → List ℕ) → W → List ℕ × W
  unfolding random_bytes
  generate_sec_websocket_key base64 w = let (bytes, w') = random_bytes 16 w in (base64 bytes, w')

unfoldable pub build_websocket_handshake_request : List ℕ → List ℕ → List ℕ → List ℕ → List ℕ
build_websocket_handshake_request host path key extra_headers =
    (codes "GET " ++ path ++ codes " HTTP/1.1" ++ crlf)
    ++ ((codes "Host: " ++ host ++ crlf)
        ++ ((codes "Upgrade: websocket" ++ crlf)
            ++ ((codes "Connection: Upgrade" ++ crlf)
                ++ ((codes "Sec-WebSocket-Key: " ++ key ++ crlf)
                    ++ ((codes "Sec-WebSocket-Version: 13" ++ crlf) ++ (extra_headers ++ crlf))))))
