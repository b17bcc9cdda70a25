-- ===== src/Sftp/Tests.antt =====
-- Two packets, the first of them cut in two.
use ssh.Common.{ℕ, ◌+◌, ◌≡◌, arith, some, [], ◌∷◌, ◌++◌, length, Bytes}
use ssh.Common.Int.{pos}
use ssh.Sftp.{between, Verdict, go_on, push, type_error}
use ssh.Sftp.Bytewise.{feed}
use ssh.Sftp.Pushing.{measuring}
use ssh.Sftp.Cut.{rest_of_call, push-append, push_negative}

-- A handler that counts the bytes of the packets.
abbrev count : ℕ → Bytes → Verdict ℕ
count n b = go_on (n + length b)

abbrev first : Bytes
first = 0 ∷ (0 ∷ (0 ∷ (2 ∷ (1 ∷ []))))

abbrev second : Bytes
second = 9 ∷ (0 ∷ (0 ∷ (0 ∷ (1 ∷ (7 ∷ [])))))

push-append_example :
    (push 34000 count between 0 (first ++ second)
      ≡ rest_of_call 34000 count (push 34000 count between 0 first) second)
    × (push 34000 count between 0 (first ++ second)
        ≡ some (feed 34000 count between 0 (first ++ second)))
push-append_example =
    push-append 34000 count between 0 first second (measuring (pos 0) 0 (omega arith))

push_negative_example :
    push 34000 count between 0 (255 ∷ (255 ∷ (255 ∷ (255 ∷ (1 ∷ []))))) ≡ some (type_error 0)
push_negative_example =
    push_negative 34000 count 0 255 255 255 255 1 [] (omega arith) (omega arith) (omega arith)
      (omega arith) (omega arith)
