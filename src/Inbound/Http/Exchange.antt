-- ===== src/Inbound/Http/Exchange.antt =====
-- The HTTP CONNECT client of src/outbound against the server of src/inbound.
use shine.Prelude.{
  ℕ, ◌≡◌, refl, ◌∙◌, ap, List, [], ◌∷◌, ◌++◌, some, not, ◌&&◌, ◌||◌, Bool, true, false, arith,
  Bytes, codes, ok, append_assoc, ◌==◌,
}
use shine.Absl.{Absl, IsLawful}
use shine.Transport.Address.{Address}
use shine.Transport.Address.Text.{TextLib, Lacks, IsReliable, join, to_string}
use shine.Transport.Address.Text.RoundTrip.{HasText, parse_host_port-to_string}
use shine.Inbound.Http.{
  starts_with, occurs, header_end, read_until, line_of, chomp, established, accepts, on_target,
  on_tokens, on_header, handle_client,
}
use shine.Outbound.Http.{auth_text, request_text, on_reply, receive_reply}

starts_with-append : (t s : Bytes) → starts_with t (t ++ s) ≡ true
starts_with-append [] s = refl
starts_with-append (b ∷ t) s =
    let e : b == b ≡ true = ground arith in rw (e, starts_with-append t s) refl

or_true : (b : Bool) → b || true ≡ true
or_true true = refl
or_true false = refl

occurs-append : (t before behind : Bytes) → occurs t (before ++ (t ++ behind)) ≡ true
unfolding occurs
occurs-append [] [] [] = refl
occurs-append [] [] (b ∷ behind) = refl
occurs-append (c ∷ t) [] behind =
    ap (λ x. x || occurs (c ∷ t) (t ++ behind)) (starts_with-append (c ∷ t) behind)
occurs-append t (b ∷ before) behind =
    ap (λ x. starts_with t (b ∷ (before ++ (t ++ behind))) || x) (occurs-append t before behind)
    ∙ or_true _

line_of-append : (h s : Bytes) → Lacks b'\n' h → line_of (h ++ s) ≡ h ++ line_of s
unfolding line_of
line_of-append [] s l = refl
line_of-append (b ∷ h) s l =
    let e : b == b'\n' ≡ false = ground (arith, l.0) in rw (e, line_of-append h s l.1) refl

chomp-append : (h : Bytes) (b : ℕ) (s : Bytes) → chomp (h ++ (b ∷ s)) ≡ h ++ chomp (b ∷ s)
unfolding chomp
chomp-append [] b s = refl
chomp-append (c ∷ []) b s = refl
chomp-append (c ∷ d ∷ h) b s = ap (λ t. c ∷ t) (chomp-append (d ∷ h) b s)

read_until-first :
    (piece : Bytes) (later : List Bytes)
    → occurs header_end piece ≡ true
    → read_until [] (piece ∷ later) ≡ some (piece, later)
unfolding read_until occurs
read_until-first piece [] h = rw h refl
read_until-first piece (p ∷ later) h = rw h refl

-- A literal that lacks a character.
abbrev pub lacks_test : ℕ → Bytes → Bool
lacks_test c [] = true
lacks_test c (b ∷ s) = not (b == c) && lacks_test c s

pub lacking : (c : ℕ) (s : Bytes) → lacks_test c s ≡ true → Lacks c s
lacking c [] h = tt
lacking c (b ∷ s) h = (ground arith, lacking c s (ground arith))

-- What the client sends, as far as the server reads it: up to the end of the first line.
first_line :
    (hp rest : Bytes)
    → Lacks b'\n' hp
    → chomp (line_of (codes "CONNECT " ++ (hp ++ (codes " HTTP/1.1\r\nHost: " ++ rest))))
      ≡ join b' ' (codes "CONNECT" ∷ hp ∷ codes "HTTP/1.1" ∷ [])
unfolding line_of chomp
first_line hp rest l =
    ap (λ t. chomp (codes "CONNECT " ++ t))
      (line_of-append hp (codes " HTTP/1.1\r\nHost: " ++ rest) l)
    ∙ chomp-append (codes "CONNECT " ++ hp) b' ' (codes "HTTP/1.1\r")

module _ (absl : Absl) (lawful : IsLawful absl) (lib : TextLib) (reliable : IsReliable absl lib)
    (base64 : Bytes → Bytes) where
  -- The request ends with the end of a header.
  request_split :
      (user pass : Bytes) (target : Address)
      → (before : Bytes) × (request_text absl lib base64 user pass target ≡ before ++ header_end)
  unfolding request_text auth_text
  request_split [] pass target =
      let hp = to_string absl lib target in
      (codes "CONNECT " ++ (hp ++ (codes " HTTP/1.1\r\nHost: " ++ hp)), simp append_assoc)
  request_split (u ∷ user) pass target =
      let hp = to_string absl lib target in
      let cred = base64 ((u ∷ user) ++ (codes ":" ++ pass)) in
      (
        codes "CONNECT "
            ++ (hp
                ++ (codes " HTTP/1.1\r\nHost: "
                    ++ (hp ++ (codes "\r\nProxy-Authorization: Basic " ++ cred)))),
        simp append_assoc,
      )

  request_ends :
      (user pass : Bytes) (target : Address) (behind : Bytes)
      → occurs header_end (request_text absl lib base64 user pass target ++ behind) ≡ true
  request_ends user pass target behind =
      let (before, e) = request_split user pass target in
      ap (λ t. occurs header_end (t ++ behind)) e
      ∙ ap (occurs header_end) (append_assoc before header_end behind)
      ∙ occurs-append header_end before behind

  -- A target that can be written as text, without blanks and line ends, gets through from the client
  -- to the server, whatever user and password the client has; the client takes the reply for a
  -- success. What either side reads together with the header of the other one is lost to the tunnel:
  -- the streams begin with the piece behind it.
  pub http_exchange :
      (user pass : Bytes) (target : Address) (early late : Bytes) (later answers : List Bytes)
      (message : Bytes)
      → HasText lib target
      → Lacks b' ' (to_string absl lib target)
      → Lacks b'\n' (to_string absl lib target)
      → (handle_client lib true ((request_text absl lib base64 user pass target ++ early) ∷ later)
          ≡ accepts established target later)
        × (receive_reply message ((established ++ late) ∷ answers) ≡ ok answers)
  unfolding handle_client on_header on_tokens on_target receive_reply on_reply request_text occurs
      line_of
  http_exchange user pass target early late later answers message text no_blank no_end =
      let hp = to_string absl lib target in
      (
        ap (on_header lib true) (read_until-first _ later (request_ends user pass target early))
            ∙ ap
                (λ t.
                  on_tokens lib true later
                    (lib.str_split b' ' (chomp (line_of (codes "CONNECT " ++ t)))))
                (append_assoc hp _ early)
            ∙ ap (λ t. on_tokens lib true later (lib.str_split b' ' t)) (first_line hp _ no_end)
            ∙ ap (on_tokens lib true later) (
                reliable.str_split-join b' ' (codes "CONNECT") (hp ∷ codes "HTTP/1.1" ∷ []) (
                  lacking b' ' (codes "CONNECT") refl,
                  (no_blank, (lacking b' ' (codes "HTTP/1.1") refl, tt)),
                ))
            ∙ ap (on_target true later)
                (parse_host_port-to_string absl lawful lib reliable target text),
        ap (on_reply message) (
              read_until-first (established ++ late) answers
                (occurs-append header_end (codes "HTTP/1.1 200 Connection Established") late))
            ∙ refl,
      )
