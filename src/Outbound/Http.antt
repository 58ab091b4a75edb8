-- ===== src/Outbound/Http.antt =====
-- `HttpConnectOutbound::handle` of src/outbound/http_connect_outbound.cpp, from the connection to
-- the proxy on.
use shine.Prelude.{
  List, [], ◌∷◌, ◌++◌, Option, none, some, Bytes, codes, Result, ok, err, unavailable,
  if◌then◌else◌,
}
use shine.Absl.{Absl}
use shine.Transport.Address.{Address}
use shine.Transport.Address.Text.{TextLib, to_string}
use shine.Inbound.Http.{occurs, read_until, line_of}

module _ (absl : Absl) (lib : TextLib) (base64 : Bytes → Bytes) where
  unfoldable pub auth_text : Bytes → Bytes → Bytes
  auth_text [] pass = []
  auth_text (u ∷ user) pass =
      codes "Proxy-Authorization: Basic "
      ++ (base64 ((u ∷ user) ++ (codes ":" ++ pass)) ++ codes "\r\n")

  -- The request. The branch for IPv6 prints the target as the other one does.
  unfoldable pub request_text : Bytes → Bytes → Address → Bytes
  request_text user pass target =
      let host_port = to_string absl lib target in
      codes "CONNECT "
      ++ (host_port
          ++ (codes " HTTP/1.1\r\nHost: "
              ++ (host_port ++ (codes "\r\n" ++ (auth_text user pass ++ codes "\r\n")))))

-- What the proxy answers: an error, or the pieces that the tunnel then gives. `message` is what the
-- error of a read says.
unfoldable pub on_reply : Bytes → Option (Bytes × List Bytes) → Result (List Bytes)
on_reply message none = err (unavailable message)
on_reply message (some (sb, pieces)) =
    if occurs (codes " 200 ") (line_of sb)
    then ok pieces
    else err (unavailable (codes "http connect failed: " ++ line_of sb))

unfoldable pub receive_reply : Bytes → List Bytes → Result (List Bytes)
receive_reply message pieces = on_reply message (read_until [] pieces)
