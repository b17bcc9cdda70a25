-- ===== src/Wire/Tests.antt =====
-- The theorems on the wire format at concrete inputs.
use ssh.Common.{◌≡◌, refl, arith, false, none, some, List, [], ◌∷◌, ◌++◌, codes, Bytes, All}
use ssh.Wire.{init, read_raw_throws, read_list}
use ssh.Wire.Bounds.{string_read, byte_read, u32_read, after_reads, IsWithin, after_reads-IsWithin}
use ssh.Wire.Encode.{at, str, IsName, joined, read_list-joined}

-- A packet of a type byte, a string that claims nine bytes, and two bytes.
abbrev short : Bytes
short = 5 ∷ (0 ∷ (0 ∷ (0 ∷ (9 ∷ (1 ∷ (2 ∷ []))))))

after_reads-IsWithin_example :
    IsWithin short 1 (after_reads (string_read none ∷ (byte_read ∷ (u32_read ∷ []))) (init short 1))
    × (read_raw_throws
          (after_reads (string_read none ∷ (byte_read ∷ (u32_read ∷ []))) (init short 1))
        ≡ false)
after_reads-IsWithin_example =
    after_reads-IsWithin short 1 (string_read none ∷ (byte_read ∷ (u32_read ∷ []))) (init short 1)
      (record { same = refl; after = omega arith; before = omega arith })

abbrev names : List Bytes
names = codes "aes128-ctr" ∷ (codes "aes256-ctr" ∷ [])

names-IsName : All IsName names
names-IsName = ground arith

read_list-joined_example :
    read_list (at (20 ∷ []) (str (joined names) ++ 7 ∷ []))
    ≡ (some names, at ((20 ∷ []) ++ str (joined names)) (7 ∷ []))
read_list-joined_example = read_list-joined (20 ∷ []) (7 ∷ []) names names-IsName (omega arith)
