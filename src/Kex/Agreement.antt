-- ===== src/Kex/Agreement.antt =====
-- Both sides of a handshake, each with the KEXINIT of the other.
use ssh.Common.{ℕ, ◌≡◌, refl, sym, ap, ◌∙◌, Bool, true, false, List, [], ◌∷◌, length, Bytes}
use ssh.Kex.Offer.{Lists, IsOffer, kexinit_payload}
use ssh.Kex.Payload.{parse_kexinit-kexinit_payload}
use ssh.Kex.Negotiate.{
  Result, Negotiated, negotiate, guessed, respond, wrong_guess, handle_kex_init, done, no_match,
  malformed, ◌>>=◌,
}

not_wrong : (k : Bytes) (ks : List Bytes) → wrong_guess false k ks ≡ false
unfolding wrong_guess
not_wrong k [] = refl
not_wrong k (r ∷ rs) = refl

abbrev unskipped : Negotiated → Negotiated × Bool
unskipped n = (n, false)

-- What a client with `client` and a server with `server` settle on.
abbrev pub settled : Lists → Lists → Result (Negotiated × Bool)
settled client server = negotiate false client server >>= (λ n. done (unskipped n))

keep :
    (r : Result Negotiated) (ks : List Bytes)
    → (r >>= (λ n. done (guessed false ks n))) ≡ (r >>= (λ n. done (unskipped n)))
keep (done n) ks = ap (λ b. done (n, b)) (not_wrong (n.kex) ks)
keep (no_match c) ks = refl
keep malformed ks = refl

module _ (client server : Lists) (c_cookie s_cookie : Bytes) (c_memory s_memory : ℕ → ℕ)
    (hc : IsOffer client) (hs : IsOffer server) (nc : length c_cookie ≡ 16)
    (ns : length s_cookie ≡ 16) where
  client_side :
      handle_kex_init false false client (kexinit_payload false s_cookie s_memory server)
      ≡ settled client server
  unfolding handle_kex_init
  client_side =
      ap (respond false false client)
        (parse_kexinit-kexinit_payload false s_cookie s_memory server hs ns refl)
      ∙ keep (negotiate false client server) (server.kex)

  server_side :
      handle_kex_init true false server (kexinit_payload false c_cookie c_memory client)
      ≡ settled client server
  unfolding handle_kex_init negotiate
  server_side =
      ap (respond true false server)
        (parse_kexinit-kexinit_payload false c_cookie c_memory client hc nc refl)
      ∙ keep (negotiate true server client) (client.kex)

  -- For two offers whose names and lengths can be written, and cookies of 16 bytes: when each side reads
  -- the KEXINIT that the other sent, without the filter of COMPAT.BAD_DHGEX, both come to the same
  -- result, the same eight algorithms or a failure for the same category; neither is malformed, and
  -- neither skips a packet.
  pub handle_kex_init-agrees :
      (handle_kex_init false false client (kexinit_payload false s_cookie s_memory server)
        ≡ handle_kex_init true false server (kexinit_payload false c_cookie c_memory client))
      × (handle_kex_init false false client (kexinit_payload false s_cookie s_memory server)
          ≡ settled client server)
  handle_kex_init-agrees = (client_side ∙ sym server_side, client_side)
