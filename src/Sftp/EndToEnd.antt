-- ===== src/Sftp/EndToEnd.antt =====
-- From a client's call to the event that the server emits, through the framing of `push`.
use ssh.Common.{
  ℕ, ◌+◌, ◌≤◌, ◌<◌, ◌^◌, ◌≡◌, sym, ap, ◌∙◌, arith, Bool, Option, some, List, [], ◌∷◌, append-nil,
  length, length-append, drop, Bytes,
}
use ssh.Common.Int.{ℤ}
use ssh.Wire.{u32}
use ssh.Sftp.{between, Verdict, go_on, waiting, push}
use ssh.Sftp.Ids.{next_id, wire_id}
use ssh.Sftp.Asking.{Asked, Extensions}
use ssh.Sftp.Serving
use ssh.Sftp.Serving.{Served, serve}
use ssh.Sftp.Exchange.{SftpRequest, asked, told, FitsRequest, served}
use ssh.Sftp.Arrival.{serve-asked}
use ssh.Sftp.Stream.{framed, push-stream}
use ssh.Sftp.Sizes.{IsWholeAsked, asked-IsWhole}

-- What is written on the channel.
abbrev pub sent_bytes : Asked → Bytes
sent_bytes (Asked.asks i p) = p.payload
sent_bytes _ = []

-- A server that notes what it makes of every packet.
abbrev pub note : Bool → List (Option Served) → Bytes → Verdict (List (Option Served))
note open_ssh s b = go_on (serve open_ssh b ∷ s)

serve-some : (open_ssh : Bool) (b : Bytes) (x : Served) → serve open_ssh b ≡ some x → 0 < length b
unfolding serve
serve-some open_ssh [] x h = ground arith
serve-some open_ssh (b ∷ bs) x h = omega arith

module _ (open_ssh : Bool) (max_len : ℕ) (small : max_len < 2 ^ 31) where
  push-whole :
      (s : List (Option Served)) (a : Asked) (x : Served)
      → IsWholeAsked a
      → served open_ssh a ≡ some x
      → length (sent_bytes a) ≤ 4 + max_len
      → push max_len (note open_ssh) between s (sent_bytes a) ≡ some (waiting between (some x ∷ s))
  push-whole s (Asked.asks i p) x (size, whole) h fits =
      let body = drop 4 (p.payload) in
      let long : length (p.payload) ≡ 4 + length body =
        ap length whole ∙ omega (arith, length-append (u32 (length body)) body) in
      ap (push max_len (note open_ssh) between s) (whole ∙ sym (append-nil (framed body)))
      ∙ push-stream max_len small (note open_ssh) s (body ∷ [])
          ((serve-some open_ssh body x h, omega (arith, long)), tt)
      ∙ ap (λ o. some (waiting between (o ∷ s))) h
  push-whole s Asked.throws x w h fits = ground arith
  push-whole s Asked.done x w h fits = ground arith

  -- A request whose numbers and lengths fit, that asks its buffer for no more than it holds, whose
  -- extension was announced and whose packet is no longer than the server takes, once written and pushed as one piece, makes
  -- the server emit it once, with its number and its fields, and wait for the next packet.
  pub push-asked :
      (max_pkt : ℕ) (extensions : Extensions) (s : List (Option Served)) (last : ℤ)
      (r : SftpRequest)
      → FitsRequest open_ssh max_pkt extensions r
      → length (sent_bytes (asked open_ssh max_pkt extensions last r)) ≤ 4 + max_len
      → push max_len
          (note open_ssh)
          between
          s
          (sent_bytes (asked open_ssh max_pkt extensions last r))
        ≡ some (
            waiting between (
              some
                (Serving.emits (some (wire_id (next_id last))) (told open_ssh max_pkt extensions r))
              ∷ s))
  push-asked max_pkt extensions s last r h fits =
      push-whole s (asked open_ssh max_pkt extensions last r) _
        (asked-IsWhole open_ssh max_pkt extensions last r)
        (serve-asked open_ssh max_pkt extensions last r h) fits
