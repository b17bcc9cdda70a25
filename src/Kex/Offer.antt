-- ===== src/Kex/Offer.antt =====
-- The class KexInit and the function `kexinit`, and the fields that `handleKexInit` reads.
use ssh.Common.{
  zero, suc, ◌+◌, ◌-◌, take, ℕ, ◌≡◌, refl, ap, ◌∙◌, arith, Bool, true, false, ◌&&◌, Option, none,
  some, List, [], ◌∷◌, ◌++◌, length, length-append, drop, codes, contains, get_or, ltb, ◌==◌,
  if◌then◌else◌, Bytes, IsU32, All,
}
use mathlib.Core.Path.{sym}
use mathlib.Core.List.{append_assoc}
use ssh.Wire.{Parser, init, then_read, read_list}
use ssh.Wire.Encode.{at, str, joined, IsName, read_list-joined}

-- `lists`, in the order of KEX_PROPERTY_NAMES.
pub record Lists : Type 0 where
  pub kex : List Bytes
  pub server_host_key : List Bytes
  pub cs_cipher : List Bytes
  pub sc_cipher : List Bytes
  pub cs_mac : List Bytes
  pub sc_mac : List Bytes
  pub cs_compress : List Bytes
  pub sc_compress : List Bytes
  pub cs_lang : List Bytes
  pub sc_lang : List Bytes

-- `lists.all`, in front of `rest`: each list joined, behind its length.
abbrev pub all_lists : Lists → Bytes → Bytes
all_lists l rest =
    str (joined l.kex)
    ++ (str (joined l.server_host_key)
        ++ (str (joined l.cs_cipher)
            ++ (str (joined l.sc_cipher)
                ++ (str (joined l.cs_mac)
                    ++ (str (joined l.sc_mac)
                        ++ (str (joined l.cs_compress)
                            ++ (str (joined l.sc_compress)
                                ++ (str (joined l.cs_lang)
                                    ++ (str (joined l.sc_lang) ++ rest)))))))))

-- The loop that splices the group exchanges out, and `found`.
unfoldable pub without_group_exchange : List Bytes → List Bytes
without_group_exchange [] = []
without_group_exchange (k ∷ ks) =
    let rest = without_group_exchange ks in
    if contains (codes "group-exchange") k then rest else k ∷ rest

unfoldable pub has_group_exchange : List Bytes → Bool
has_group_exchange [] = false
has_group_exchange (k ∷ ks) =
    let rest = has_group_exchange ks in if contains (codes "group-exchange") k then true else rest

-- `if (self._compatFlags & COMPAT.BAD_DHGEX)`, of `kexinit` and of `handleKexInit` alike.
abbrev pub local_kex : Bool → List Bytes → List Bytes
local_kex bad_dhgex ks = if bad_dhgex then without_group_exchange ks else ks

-- `Buffer.allocUnsafe(n)`: the bytes that the memory held.
abbrev pub alloc : (ℕ → ℕ) → ℕ → Bytes
alloc memory zero = []
alloc memory (suc n) = memory n ∷ alloc memory n

-- `buffer.set(bytes, p)`.
abbrev pub put : Bytes → ℕ → Bytes → Bytes
put buffer p bytes = take p buffer ++ (bytes ++ drop (p + length bytes) buffer)

abbrev pub zeros : Bytes
zeros = 0 ∷ (0 ∷ (0 ∷ (0 ∷ (0 ∷ []))))

-- The stores behind both branches: the type, the 16 random bytes of the cookie, and zeros in the last five.
abbrev pub zero_filled : Bytes → Bytes
zero_filled payload = put payload (length payload - 5) zeros

abbrev pub stamped : Bytes → Bytes → Bytes
stamped cookie payload = zero_filled (put (put payload 0 (20 ∷ [])) 1 cookie)

-- The payload of `kexinit`, from what the memory held. In the branch for BAD_DHGEX the lists are stored from
-- offset 0 of the new buffer, in the other one from 17.
unfoldable pub kexinit_payload : Bool → Bytes → (ℕ → ℕ) → Lists → Bytes
unfolding without_group_exchange has_group_exchange
kexinit_payload bad_dhgex cookie memory l =
    let filtered = all_lists (record l { kex = without_group_exchange l.kex }) [] in
    let all = all_lists l [] in
    if bad_dhgex && has_group_exchange l.kex
    then stamped cookie (put (alloc memory (1 + 16 + length filtered + 1 + 4)) 0 filtered)
    else stamped cookie (put (alloc memory (1 + 16 + length all + 1 + 4)) 17 all)

-- The reads of `handleKexInit`, which stop at the first list that is missing.
unfoldable pub read_lists : Parser → Option Lists × Parser
read_lists p₀ = then_read (read_list p₀) (λ kex p₁. then_read (read_list p₁) (λ server_host_key p₂.
    then_read (read_list p₂) (λ cs_cipher p₃. then_read (read_list p₃) (λ sc_cipher p₄.
      then_read (read_list p₄) (λ cs_mac p₅. then_read (read_list p₅) (λ sc_mac p₆.
        then_read (read_list p₆) (λ cs_compress p₇. then_read (read_list p₇) (λ sc_compress p₈.
          then_read (read_list p₈) (λ cs_lang p₉. then_read (read_list p₉) (λ sc_lang p. (
            some (record {
              kex = kex;
              server_host_key = server_host_key;
              cs_cipher = cs_cipher;
              sc_cipher = sc_cipher;
              cs_mac = cs_mac;
              sc_mac = sc_mac;
              cs_compress = cs_compress;
              sc_compress = sc_compress;
              cs_lang = cs_lang;
              sc_lang = sc_lang;
            }),
            p,
          )))))))))))

-- `pos < payload.length && payload[pos] === 1`.
abbrev first_follows : Bytes → ℕ → Bool
first_follows payload pos = ltb pos (length payload) && (get_or payload pos 0 == 1)

abbrev with_follows : Bytes → Option Lists × Parser → Option (Lists × Bool)
with_follows payload (none, p) = none
with_follows payload (some l, p) = some (l, first_follows payload p.pos)

-- The lists of a KEXINIT with `firstFollows`; `none` is a malformed one.
unfoldable pub parse_kexinit : Bytes → Option (Lists × Bool)
unfolding read_lists
parse_kexinit payload = with_follows payload (read_lists (init payload 17))

-- A list of names that fits its length field.
abbrev pub IsList : List Bytes → Type 0
IsList ns = All IsName ns × IsU32 (length (joined ns))

pub record IsOffer (l : Lists) : Type 0 where
  pub kex : IsList l.kex
  pub server_host_key : IsList l.server_host_key
  pub cs_cipher : IsList l.cs_cipher
  pub sc_cipher : IsList l.sc_cipher
  pub cs_mac : IsList l.cs_mac
  pub sc_mac : IsList l.sc_mac
  pub cs_compress : IsList l.cs_compress
  pub sc_compress : IsList l.sc_compress
  pub cs_lang : IsList l.cs_lang
  pub sc_lang : IsList l.sc_lang

-- The bytes of the lists up to each of them.
abbrev behind : Bytes → List (List Bytes) → Bytes
behind pre [] = pre
behind pre (ns ∷ nss) = behind (pre ++ str (joined ns)) nss

list_read :
    (pre rest : Bytes) (ns : List Bytes)
    → IsList ns
    → read_list (at pre (str (joined ns) ++ rest)) ≡ (some ns, at (pre ++ str (joined ns)) rest)
list_read pre rest ns (h, fits) = read_list-joined pre rest ns h fits

abbrev whole : Lists → List (List Bytes)
whole l =
    l.kex
    ∷ (l.server_host_key
        ∷ (l.cs_cipher
            ∷ (l.sc_cipher
                ∷ (l.cs_mac
                    ∷ (l.sc_mac
                        ∷ (l.cs_compress ∷ (l.sc_compress ∷ (l.cs_lang ∷ (l.sc_lang ∷ [])))))))))

pub read_lists-all_lists :
    (pre rest : Bytes) (l : Lists)
    → IsOffer l
    → read_lists (at pre (all_lists l rest)) ≡ (some l, at (behind pre (whole l)) rest)
unfolding read_lists
read_lists-all_lists pre rest l h = simp (
  list_read (behind pre ([])) _ (l.kex) (h.kex),
  list_read (behind pre (l.kex ∷ ([]))) _ (l.server_host_key) (h.server_host_key),
  list_read (behind pre (l.kex ∷ (l.server_host_key ∷ ([])))) _ (l.cs_cipher) (h.cs_cipher),
  list_read (behind pre (l.kex ∷ (l.server_host_key ∷ (l.cs_cipher ∷ ([]))))) _ (l.sc_cipher)
      (h.sc_cipher),
  list_read (behind pre (l.kex ∷ (l.server_host_key ∷ (l.cs_cipher ∷ (l.sc_cipher ∷ ([])))))) _
      (l.cs_mac) (h.cs_mac),
  list_read
      (behind pre (l.kex ∷ (l.server_host_key ∷ (l.cs_cipher ∷ (l.sc_cipher ∷ (l.cs_mac ∷ ([])))))))
      _ (l.sc_mac) (h.sc_mac),
  list_read
      (behind pre (
        l.kex
        ∷ (l.server_host_key ∷ (l.cs_cipher ∷ (l.sc_cipher ∷ (l.cs_mac ∷ (l.sc_mac ∷ ([]))))))))
      _ (l.cs_compress) (h.cs_compress),
  list_read
      (behind pre (
        l.kex
        ∷ (l.server_host_key
            ∷ (l.cs_cipher ∷ (l.sc_cipher ∷ (l.cs_mac ∷ (l.sc_mac ∷ (l.cs_compress ∷ ([])))))))))
      _ (l.sc_compress) (h.sc_compress),
  list_read
      (behind pre (
        l.kex
        ∷ (l.server_host_key
            ∷ (l.cs_cipher
                ∷ (l.sc_cipher
                    ∷ (l.cs_mac ∷ (l.sc_mac ∷ (l.cs_compress ∷ (l.sc_compress ∷ ([]))))))))))
      _ (l.cs_lang) (h.cs_lang),
  list_read
      (behind pre (
        l.kex
        ∷ (l.server_host_key
            ∷ (l.cs_cipher
                ∷ (l.sc_cipher
                    ∷ (l.cs_mac
                        ∷ (l.sc_mac ∷ (l.cs_compress ∷ (l.sc_compress ∷ (l.cs_lang ∷ ([])))))))))))
      _ (l.sc_lang) (h.sc_lang),
)

abbrev fields : List (List Bytes) → Bytes → Bytes
fields [] rest = rest
fields (ns ∷ nss) rest = str (joined ns) ++ fields nss rest

behind-fields :
    (pre rest : Bytes) (nss : List (List Bytes)) → pre ++ fields nss rest ≡ behind pre nss ++ rest
behind-fields pre rest [] = refl
behind-fields pre rest (ns ∷ nss) =
    sym (append_assoc pre (str (joined ns)) (fields nss rest))
    ∙ behind-fields (pre ++ str (joined ns)) rest nss

get_or-behind : (pre rest : Bytes) (b : ℕ) → get_or (pre ++ b ∷ rest) (length pre) 0 ≡ b
get_or-behind [] rest b = refl
get_or-behind (x ∷ pre) rest b = get_or-behind pre rest b

first_follows-behind : (pre rest : Bytes) → first_follows (pre ++ 0 ∷ rest) (length pre) ≡ false
first_follows-behind pre rest =
    rw (get_or-behind pre rest 0) (ground (arith, length-append pre (0 ∷ rest)))

abbrev four : Bytes
four = 0 ∷ (0 ∷ (0 ∷ (0 ∷ [])))

nothing_follows :
    (cookie : Bytes) (l : Lists)
    → first_follows
        (20 ∷ (cookie ++ all_lists l (0 ∷ four)))
        (length (behind (20 ∷ cookie) (whole l)))
      ≡ false
nothing_follows cookie l =
    ap (λ b. first_follows b (length (behind (20 ∷ cookie) (whole l))))
      (behind-fields (20 ∷ cookie) (0 ∷ four) (whole l))
    ∙ first_follows-behind (behind (20 ∷ cookie) (whole l)) four

pub parse_kexinit-lists :
    (cookie : Bytes) (l : Lists)
    → IsOffer l
    → length cookie ≡ 16
    → parse_kexinit (20 ∷ (cookie ++ all_lists l (0 ∷ four))) ≡ some (l, false)
unfolding parse_kexinit
parse_kexinit-lists cookie l h n =
    let payload = 20 ∷ (cookie ++ all_lists l (0 ∷ four)) in
    let start : length (20 ∷ cookie) ≡ 17 = omega (arith, n) in
    sym (ap (λ k. with_follows payload (read_lists (init payload k))) start)
    ∙ ap (with_follows payload) (read_lists-all_lists (20 ∷ cookie) (0 ∷ four) l h)
    ∙ ap (λ f. some (l, f)) (nothing_follows cookie l)
