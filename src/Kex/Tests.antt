-- ===== src/Kex/Tests.antt =====
-- Two offers, and the theorems at them.
use ssh.Common.{
  ◌≤◌, ◌≡◌, refl, arith, true, false, some, List, [], ◌∷◌, codes, replicate, has, same, Bytes,
}
use ssh.Kex.Offer.{Lists, IsOffer, kexinit_payload}
use ssh.Kex.Negotiate.{choose, handle_kex_init}
use ssh.Kex.Choose.{IsChoice, choose-IsChoice}
use ssh.Kex.Agreement.{settled, handle_kex_init-agrees}
use ssh.Common.{ℕ, Bytes}
use ssh.Kex.Gate.{on_kex_payloads, kexinits, kexinits-on_kex_payloads}

abbrev offer : List Bytes → Lists
offer ciphers = record {
  kex = codes "dh-group-exchange" ∷ (codes "ecdh" ∷ []);
  server_host_key = codes "rsa" ∷ [];
  cs_cipher = ciphers;
  sc_cipher = ciphers;
  cs_mac = codes "sha1" ∷ [];
  sc_mac = codes "sha1" ∷ [];
  cs_compress = codes "none" ∷ [];
  sc_compress = codes "none" ∷ [];
  cs_lang = [];
  sc_lang = [];
}

abbrev client : Lists
client = offer (codes "ctr" ∷ (codes "cbc" ∷ []))

abbrev server : Lists
server = offer (codes "cbc" ∷ (codes "ctr" ∷ []))

client-IsOffer : IsOffer client
client-IsOffer = ground arith

server-IsOffer : IsOffer server
server-IsOffer = ground arith

choose-IsChoice_example :
    IsChoice (client.cs_cipher) (server.cs_cipher) (choose (client.cs_cipher) (server.cs_cipher))
choose-IsChoice_example = choose-IsChoice (client.cs_cipher) (server.cs_cipher)

-- The client's first cipher wins.
chosen : choose (client.cs_cipher) (server.cs_cipher) ≡ some (codes "ctr")
unfolding choose has same
chosen = refl

handle_kex_init-agrees_example :
    (handle_kex_init false false client (kexinit_payload false (replicate 16 7) (λ n. 0) server)
      ≡ handle_kex_init true false server (kexinit_payload false (replicate 16 9) (λ n. 0) client))
    × (handle_kex_init false false client (kexinit_payload false (replicate 16 7) (λ n. 0) server)
        ≡ settled client server)
handle_kex_init-agrees_example =
    handle_kex_init-agrees client server (replicate 16 9) (replicate 16 7) (λ n. 0) (λ n. 0)
      client-IsOffer server-IsOffer refl refl

abbrev blank : ℕ → ℕ
blank n = 0

-- A second KEXINIT in one exchange.
kexinits-on_kex_payloads_example :
    kexinits (
      on_kex_payloads
        (λ b. b)
        (record { skip_next = false; first_packet = true })
        ((20 ∷ []) ∷ ((20 ∷ []) ∷ [])))
    ≤ 1
kexinits-on_kex_payloads_example =
    kexinits-on_kex_payloads (λ b. b) (record { skip_next = false; first_packet = true })
      ((20 ∷ []) ∷ ((20 ∷ []) ∷ []))
