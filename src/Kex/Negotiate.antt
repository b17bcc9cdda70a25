-- ===== src/Kex/Negotiate.antt =====
-- `handleKexInit`: the algorithms that both sides settle on, or the category without a match.
use ssh.Common.{
  ℕ, Bool, not, ◌&&◌, ◌||◌, Option, none, some, List, [], ◌∷◌, codes, same, has, ltb, if◌then◌else◌,
  Bytes,
}
use ssh.Kex.Offer.{Lists, local_kex, parse_kexinit}

-- The loop `for (i = 0; i < clientList.length && serverList.indexOf(clientList[i]) === -1; ++i)`: the
-- first algorithm of the client that the server has.
unfoldable pub choose : List Bytes → List Bytes → Option Bytes
choose [] server_list = none
choose (c ∷ cs) server_list =
    let next = choose cs server_list in if has server_list c then some c else next

-- The two lists, ordered by `self._server`.
abbrev pub agree : Bool → List Bytes → List Bytes → Option Bytes
agree server local remote = if server then choose remote local else choose local remote

-- `CIPHER_INFO[name].authLen`. The name is one of the local offer, which is known to CIPHER_INFO.
unfoldable pub auth_len : Bytes → ℕ
auth_len name =
    if same name (codes "chacha20-poly1305@openssh.com")
      || same name (codes "aes128-gcm")
      || same name (codes "aes256-gcm")
      || same name (codes "aes128-gcm@openssh.com")
      || same name (codes "aes256-gcm@openssh.com")
    then 16
    else 0

-- What a handshake failed for.
pub data Category : Type 0 where
  key_exchange host_key cs_cipher sc_cipher cs_mac sc_mac cs_compress sc_compress : Category

-- The rest of a chain of choices; each stops the handshake if there is no match.
pub data Result (A : Type 0) : Type 0 where
  done : A → Result A
  no_match : Category → Result A
  malformed : Result A

infixl 5 ◌>>=◌
abbrev pub ◌>>=◌ : {A B : Type 0} → Result A → (A → Result B) → Result B
done a >>= f = f a
no_match c >>= f = no_match c
malformed >>= f = malformed

abbrev found : Category → Option Bytes → Result Bytes
found c none = no_match c
found c (some a) = done a

-- `init`, filled in.
pub record Negotiated : Type 0 where
  pub kex : Bytes
  pub server_host_key : Bytes
  pub cs_cipher : Bytes
  pub sc_cipher : Bytes
  pub cs_mac : Bytes
  pub sc_mac : Bytes
  pub cs_compress : Bytes
  pub sc_compress : Bytes

-- A cipher that authenticates has no MAC, and none is looked for.
abbrev choose_mac : Category → Bool → Bytes → List Bytes → List Bytes → Result Bytes
choose_mac c server cipher local remote =
    if ltb 0 (auth_len cipher) then done [] else found c (agree server local remote)

-- The matching of the lists, in the order of the code; `local.kex` is filtered already.
unfoldable pub negotiate : Bool → Lists → Lists → Result Negotiated
negotiate server local remote = do
  k ← found key_exchange (agree server (local.kex) (remote.kex))
  h ← found host_key (agree server (local.server_host_key) (remote.server_host_key))
  cs ← found cs_cipher (agree server (local.cs_cipher) (remote.cs_cipher))
  sc ← found sc_cipher (agree server (local.sc_cipher) (remote.sc_cipher))
  cs_m ← choose_mac cs_mac server cs (local.cs_mac) (remote.cs_mac)
  sc_m ← choose_mac sc_mac server sc (local.sc_mac) (remote.sc_mac)
  cs_z ← found cs_compress (agree server (local.cs_compress) (remote.cs_compress))
  sc_z ← found sc_compress (agree server (local.sc_compress) (remote.sc_compress))
  done (record {
    kex = k;
    server_host_key = h;
    cs_cipher = cs;
    sc_cipher = sc;
    cs_mac = cs_m;
    sc_mac = sc_m;
    cs_compress = cs_z;
    sc_compress = sc_z;
  })

-- `firstFollows && (!remote.kex.length || clientList[i] !== remote.kex[0])`: the remote guessed wrong.
unfoldable pub wrong_guess : Bool → Bytes → List Bytes → Bool
wrong_guess first_follows k [] = first_follows
wrong_guess first_follows k (r ∷ _) = first_follows && not (same k r)

-- The result of the matching with `_skipNextInboundPacket`.
abbrev pub guessed : Bool → List Bytes → Negotiated → Negotiated × Bool
guessed first_follows ks n = (n, wrong_guess first_follows n.kex ks)

-- What follows the reads.
abbrev pub respond : Bool → Bool → Lists → Option (Lists × Bool) → Result (Negotiated × Bool)
respond server bad_dhgex offer none = malformed
respond server bad_dhgex offer (some (remote, first_follows)) =
    negotiate server (record offer { kex = local_kex bad_dhgex (offer.kex) }) remote
    >>= (λ n. done (guessed first_follows (remote.kex) n))

-- The whole handler.
unfoldable pub handle_kex_init : Bool → Bool → Lists → Bytes → Result (Negotiated × Bool)
handle_kex_init server bad_dhgex offer payload =
    respond server bad_dhgex offer (parse_kexinit payload)
