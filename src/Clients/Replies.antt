-- ===== src/Clients/Replies.antt =====
-- From a producer of src/tcp_server/tcp_client_list.c through the FIFO to the client.
use cything.Prelude.{
  ℕ, zero, suc, ℤ, if◌then◌else◌, ◌≤◌, ◌<◌, ◌≡◌, ◌≢◌, refl, ap, sym, ◌∙◌, arith, true, false, some,
  List, [], ◌∷◌, ◌++◌, pos, length, append_assoc, map, ◌==◌,
}
use cything.Prelude.Bytes.{Bytes, codes, decimal}
use cything.Prelude.Every.{Every, Every-append}
use cything.Fifo
use cything.Fifo.{fifo_size, ends_line}
use cything.Fifo.Contents.{terminated}
use cything.Fifo.Lines.{push_all, joined, drain-push_all}
use cything.Device.{Env, Device}
use cything.Frame.{frame_send}
use cything.Clients.{
  parse_target, Clients, raw_text, cut_line, push_tcp_line, send_raw_to_client, split_lines, route,
  route_all, response_send, is_client_connected, response_line_max, decimal_ℤ,
}
use cything.Clients.Targets.{IsDigits, decimal-IsDigits, parse_target-decimal_ℤ}

split_lines-append :
    (text rest : Bytes)
    → Every (λ c. c ≢ b'\n') text
    → split_lines (text ++ (b'\n' ∷ rest)) ≡ (text ++ (b'\n' ∷ [])) ∷ split_lines rest
unfolding split_lines
split_lines-append [] rest h = ground arith
split_lines-append (c ∷ text) rest h = rw (split_lines-append text rest h.1, not_eol) refl
  where
    not_eol : (c == b'\n') ≡ false
    not_eol = ground (arith, h.0)

ends_line-append : (text : Bytes) → ends_line (text ++ (b'\n' ∷ [])) ≡ true
unfolding ends_line
ends_line-append [] = refl
ends_line-append (c ∷ []) = refl
ends_line-append (c ∷ d ∷ text) = ends_line-append (d ∷ text)

-- A reply: the socket's descriptor and the text.
abbrev pub Reply : Type 0
Reply = ℕ × Bytes

abbrev body : Reply → Bytes
body r = decimal r.0 ++ (b':' ∷ r.1)

abbrev line_of : Reply → Bytes
line_of r = body r ++ codes "\n"

raw_text-body : (r : Reply) → raw_text (pos r.0) r.1 ≡ line_of r
unfolding raw_text decimal_ℤ
raw_text-body r = sym (append_assoc (decimal r.0) (b':' ∷ r.1) (codes "\n"))

-- The descriptor is that of a client, and the line of the reply is not cut and is one line.
abbrev pub Fits : Reply → Type 0
Fits r =
    Every (λ c. c ≢ b'\n') r.1
    × (0 < r.0)
    × (r.0 ≤ 2147483647)
    × (length (raw_text (pos r.0) r.1) < response_line_max)

body_one_line : (r : Reply) → Fits r → Every (λ c. c ≢ b'\n') (body r)
body_one_line r f =
    Every-append (λ c. c ≢ b'\n') (decimal r.0) (b':' ∷ r.1)
      (digits_one_line (decimal r.0) (decimal-IsDigits r.0)) ((λ e. omega (arith, e)), f.0)
  where
    digits_one_line : (s : Bytes) → IsDigits s → Every (λ c. c ≢ b'\n') s
    digits_one_line [] h = tt
    digits_one_line (c ∷ s) h = ((λ e. omega (arith, e, h.0)), digits_one_line s h.1)

-- `send_raw_to_client` one reply after the other.
unfoldable pub send_all : List Reply → Clients → Clients
send_all [] c = c
send_all (r ∷ rs) c = send_all rs (send_raw_to_client (pos r.0) r.1 c)

cut_line_short : (text : Bytes) → length text < response_line_max → cut_line text ≡ text
unfolding cut_line
cut_line_short text h = ground (arith, h)

send_raw-push :
    (r : Reply) (c : Clients)
    → Fits r
    → send_raw_to_client (pos r.0) r.1 c
      ≡ record c { tcp_response_fifo = (Fifo.push (line_of r) c.tcp_response_fifo).0 }
unfolding send_raw_to_client push_tcp_line
send_raw-push r c f = rw (cut_line_short (raw_text (pos r.0) r.1) f.3, raw_text-body r) refl

send_all-push_all :
    (rs : List Reply) (c : Clients)
    → Every Fits rs
    → send_all rs c ≡ record c { tcp_response_fifo = push_all (map line_of rs) c.tcp_response_fifo }
unfolding send_all push_all
send_all-push_all [] c f = refl
send_all-push_all (r ∷ rs) c f =
    ap (send_all rs) (send_raw-push r c f.0) ∙ send_all-push_all rs _ f.1

terminated-line_of : (r : Reply) → terminated (line_of r) ≡ line_of r
terminated-line_of r = rw (ends_line-append (body r)) refl

split_lines-joined :
    (rs : List Reply) → Every Fits rs → split_lines (joined (map line_of rs)) ≡ map line_of rs
unfolding split_lines
split_lines-joined [] f = refl
split_lines-joined (r ∷ rs) f =
    ap (λ t. split_lines (t ++ joined (map line_of rs))) (terminated-line_of r)
    ∙ ap split_lines (append_assoc (body r) (codes "\n") (joined (map line_of rs)))
    ∙ split_lines-append (body r) (joined (map line_of rs)) (body_one_line r f.0)
    ∙ ap (λ t. line_of r ∷ t) (split_lines-joined rs f.1)

-- What the clients are to get: to each that is connected the text with a line end.
unfoldable pub answer : Env → List ℤ → List Reply → Device → Device
answer env accounts [] d = d
answer env accounts (r ∷ rs) d = answer env accounts rs (
    if is_client_connected (pos r.0) accounts
    then frame_send env (pos r.0) (r.1 ++ codes "\n") d
    else d)

route_parsed :
    (env : Env) (accounts : List ℤ) (line : Bytes) (n : ℕ) (payload : Bytes) (d : Device)
    → parse_target line ≡ some (pos (suc n), payload)
    → route env accounts line d ≡ (
        if is_client_connected (pos (suc n)) accounts
        then frame_send env (pos (suc n)) payload d
        else d)
unfolding route
route_parsed env accounts line n payload d e = rw (route, e) (ground arith)

route-line_of :
    (env : Env) (accounts : List ℤ) (r : Reply) (d : Device)
    → Fits r
    → route env accounts (line_of r) d ≡ (
        if is_client_connected (pos r.0) accounts
        then frame_send env (pos r.0) (r.1 ++ codes "\n") d
        else d)
unfolding decimal_ℤ
route-line_of env accounts (zero, text) d f = absurd (omega (arith, f.1))
route-line_of env accounts (suc n, text) d f =
    ap (λ t. route env accounts t d) (append_assoc (decimal (suc n)) (b':' ∷ text) (codes "\n"))
    ∙ route_parsed env accounts (decimal (suc n) ++ (b':' ∷ (text ++ codes "\n"))) n
        (text ++ codes "\n") d (parse_target-decimal_ℤ (suc n) (text ++ codes "\n") f.2)

route_all-answer :
    (env : Env) (accounts : List ℤ) (rs : List Reply) (d : Device)
    → Every Fits rs
    → route_all env accounts (map line_of rs) d ≡ answer env accounts rs d
unfolding route_all answer
route_all-answer env accounts [] d f = refl
route_all-answer env accounts (r ∷ rs) d f =
    ap (route_all env accounts (map line_of rs)) (route-line_of env accounts r d f.0)
    ∙ route_all-answer env accounts rs _ f.1

-- Replies whose texts hold no line end, to descriptors above 0, that were queued with
-- `send_raw_to_client` into an empty FIFO, whose lines are not cut and fit into it together, are
-- sent by the next round of the sending task in their order: each goes to its own socket, as
-- exactly its text with a line end, if that client is still connected.
pub response_send-send_all :
    (env : Env) (rs : List Reply) (c : Clients) (d : Device)
    → Every Fits rs
    → c.tcp_response_fifo ≡ Fifo.init
    → length (joined (map line_of rs)) ≤ fifo_size
    → (response_send env (send_all rs c) d).1 ≡ answer env c.accounts rs d
unfolding response_send
response_send-send_all env rs c d f e h =
    ap (λ t. (response_send env t d).1) (send_all-push_all rs c f)
    ∙ ap (λ t. route_all env c.accounts (split_lines t) d) drained
    ∙ ap (λ t. route_all env c.accounts t d) (split_lines-joined rs f)
    ∙ route_all-answer env c.accounts rs d f
  where
    drained :
        (Fifo.drain fifo_size (push_all (map line_of rs) c.tcp_response_fifo)).1
        ≡ joined (map line_of rs)
    drained =
        ap (λ t. (Fifo.drain fifo_size (push_all (map line_of rs) t)).1) e
        ∙ drain-push_all (map line_of rs) h
