-- ===== src/Sftp/RequestTests.antt =====
-- The theorems of requests and responses at a small file and a request named 7.
use ssh.Common.{
  ◌<◌, ℕ, ◌+◌, ◌-◌, ◌==◌, if◌then◌else◌, ◌^◌, ◌≤◌, ◌≡◌, refl, arith, true, take, false, Option,
  none, some, List, [], ◌∷◌, ◌++◌, length, Bytes,
}
use ssh.Common.Int.{pos}
use ssh.Wire.Encode.{at}
use ssh.Sftp.{between, Verdict, go_on, stop, waiting, push}
use ssh.Sftp.Attrs.{Attrs, read_attrs}
use ssh.Sftp.AttrsBack.{kept, attrs_field, read_attrs-attrs_field}
use ssh.Sftp.Ids.{Asker, next_id, wire_id, found_by}
use ssh.Sftp.Asking.{Extensions}
use ssh.Sftp.Serving
use ssh.Sftp.Exchange.{SftpRequest, read, asked, told, FitsRequest}
use ssh.Sftp.Callbacks.{cut_short, others, hear-truncated}
use ssh.Sftp.Stream.{stream, taken, push-stream}
use ssh.Channel.Send.{joined}
use ssh.Sftp.Window.{Sender}
use ssh.Sftp.Keeping.{Act, send, credit, act_all}
use ssh.Sftp.InOrder.{act_all-overtakes}
use ssh.Sftp.EndToEnd.{sent_bytes, note, push-asked}

abbrev file : Attrs
file = record {
  size = some 70000;
  uid = some 1;
  gid = none;
  mode = some 33188;
  atime = some 5;
  mtime = some 6;
  extended = none;
}

read_attrs-attrs_field_example :
    read_attrs (at (7 ∷ []) (attrs_field file ++ 8 ∷ []))
    ≡ (some (kept file), at ((7 ∷ []) ++ attrs_field file) (8 ∷ []))
read_attrs-attrs_field_example =
    read_attrs-attrs_field (7 ∷ []) (8 ∷ []) file
      (omega arith, tt, omega arith, (omega arith, omega arith))

-- A client that has made 2 ^ 31 requests, one of which is open.
abbrev busy : Asker ℕ
busy = record { last = pos (2 ^ 31 - 1); requests = (pos 3, 30) ∷ [] }

-- The next request of `busy` is numbered below zero, and its answer reaches nobody.
next_lost : found_by {R = ℕ} (next_id (pos (2 ^ 31 - 1))) 7 ≡ none
unfolding next_id
next_lost = refl

abbrev no_buffer : ℕ → Option ℕ
no_buffer r = none

abbrev no_extension : ℕ → Option Bytes
no_extension r = none

hear-truncated_example :
    (cut_short no_buffer no_extension 101 3 busy ≡ some (others no_buffer no_extension 3 busy))
    × (cut_short no_buffer no_extension 102 3 busy ≡ some (others no_buffer no_extension 3 busy))
    × (cut_short no_buffer no_extension 103 3 busy ≡ some (others no_buffer no_extension 3 busy))
    × (cut_short no_buffer no_extension 104 3 busy ≡ some (others no_buffer no_extension 3 busy))
    × (cut_short no_buffer no_extension 105 3 busy ≡ some (others no_buffer no_extension 3 busy))
hear-truncated_example = hear-truncated no_buffer no_extension busy 3 (omega arith)

-- A reader that stops at a packet that begins with 9.
abbrev until_nine : List Bytes → Bytes → Verdict (List Bytes)
until_nine s [] = go_on s
until_nine s (b ∷ bs) = if b == 9 then stop s else go_on ((b ∷ bs) ∷ s)

push-stream_example :
    push 100 until_nine between [] (stream ((1 ∷ []) ∷ ((2 ∷ (3 ∷ [])) ∷ [])))
    ≡ some (taken 100 (omega arith) until_nine [] ((1 ∷ []) ∷ ((2 ∷ (3 ∷ [])) ∷ [])))
push-stream_example =
    push-stream 100 (omega arith) until_nine [] ((1 ∷ []) ∷ ((2 ∷ (3 ∷ [])) ∷ []))
      ((omega arith, omega arith), ((omega arith, omega arith), tt))

abbrev no_names : Extensions
no_names name = none

abbrev look : SftpRequest
look = read (1 ∷ []) 10 2 8 70000

look-Fits : FitsRequest false 34000 no_names look
unfolding FitsRequest
look-Fits = (omega arith, omega arith, omega arith, omega arith, omega arith)

look-short : length (sent_bytes (asked false 34000 no_names (pos 6) look)) ≤ 4 + 256
unfolding asked ssh.Sftp.Asking.read
look-short = omega arith

push-asked_example :
    push 256 (note false) between [] (sent_bytes (asked false 34000 no_names (pos 6) look))
    ≡ some (
        waiting between (
          some (Serving.emits (some (wire_id (next_id (pos 6)))) (told false 34000 no_names look))
          ∷ []))
push-asked_example =
    push-asked false 256 (omega arith) 34000 no_names [] (pos 6) look look-Fits look-short

abbrev opened : Sender
opened = record {
  is_open = true;
  window = 3;
  packet_size = 2;
  wait_window = false;
  draining = false;
  buffer = [];
  sent = [];
}

abbrev acts : List Act
acts = send (1 ∷ 2 ∷ []) ∷ send (3 ∷ 4 ∷ 5 ∷ []) ∷ send (6 ∷ []) ∷ credit 2 ∷ []

abbrev closed_off : Sender
closed_off = record opened { window = 0 }

act_all-overtakes_example :
    (t : Sender) × (rest : List Bytes) × (act_all
        (send (1 ∷ []) ∷ credit 9 ∷ send (2 ∷ 3 ∷ []) ∷ [])
        closed_off
      ≡ some t)
    × (t.buffer ≡ (1 ∷ []) ∷ rest)
    × (joined (t.sent) ≡ take 9 (2 ∷ 3 ∷ []))
    × (0 < length (joined (t.sent)))
    × (joined (t.sent) ++ joined rest ≡ 2 ∷ 3 ∷ [])
act_all-overtakes_example =
    act_all-overtakes (1 ∷ []) (2 ∷ 3 ∷ []) 9 closed_off (refl, omega arith, refl, refl, refl, refl)
      (omega arith) (omega arith)
