-- ===== src/Auth/InStep.antt =====
-- The two queues of a conversation stay the same list, and every message is told as it was meant.
use ssh.Common.{
  ◌+◌, ◌≡◌, refl, ap, ◌∙◌, arith, true, Option, some, List, [], ◌∷◌, ◌++◌, map, length, codes, drop,
  drop-append, length-append, append_assoc, same, same→≡, Bytes, IsU32, All,
}
use ssh.Wire.{u32}
use ssh.Wire.Text.{Utf8Write}
use ssh.Wire.Encode.{str}
use ssh.Auth.Outbound
use ssh.Auth.Outbound.{
  Queue, PubKey, key_type, key_bytes, at_head, in_progress, signature_field, hostbased_request,
}
use ssh.Auth.Inbound
use ssh.Auth.Requests
use ssh.Auth.Answers
use ssh.Auth.Answers.{heard}
use ssh.Auth.Signed
use ssh.Auth.Dialogue.{
  AuthMessage, no_method, password, pk_check, pk_signed, hostbased, keyboard, info_res, failure,
  success, pk_ok, passwd_chg, info_req, sent, deliver, converse, next, told, FitsAuth, FitsAll,
  after_all, same_queue,
}

-- Type 60 goes where the head of the queue says.
on_60-password :
    (q : Queue) (p : Bytes)
    → at_head (codes "password") q ≡ true
    → Inbound.on_60 q p ≡ Inbound.on_passwd_changereq q p
unfolding Inbound.on_60
on_60-password [] p h = ground arith
on_60-password (a ∷ as') p h = rw h refl

on_60-publickey :
    (q : Queue) (p : Bytes)
    → at_head (codes "publickey") q ≡ true
    → Inbound.on_60 q p ≡ Inbound.on_pk_ok q p
unfolding Inbound.on_60 same
on_60-publickey [] p h = ground arith
on_60-publickey (a ∷ as') p h = rw (same→≡ a (codes "publickey") h) refl

on_60-keyboard :
    (q : Queue) (p : Bytes)
    → at_head (codes "keyboard-interactive") q ≡ true
    → Inbound.on_60 q p ≡ Inbound.on_info_request q p
unfolding Inbound.on_60 same
on_60-keyboard [] p h = ground arith
on_60-keyboard (a ∷ as') p h = rw (same→≡ a (codes "keyboard-interactive") h) refl

info_res_at :
    (q : Queue) (rs : List Bytes)
    → at_head (codes "keyboard-interactive") q ≡ true
    → IsU32 (length rs)
    → All (λ r. IsU32 (length r)) rs
    → Inbound.on_61 q (61 ∷ (u32 (length rs) ++ Outbound.strs rs))
      ≡ Inbound.calls q (Inbound.info_response rs)
info_res_at [] rs head h_rs h = ground arith
info_res_at (a ∷ as') rs head h_rs h =
    rw (same→≡ a (codes "keyboard-interactive") head) (Answers.info_res_round as' rs h_rs h)

-- Behind the session's id the blob holds the request.
behind_id : (session_id rest : Bytes) → drop (4 + length session_id) (str session_id ++ rest) ≡ rest
behind_id session_id rest =
    let size : 4 + length session_id ≡ length (str session_id) =
      omega (arith, length-append (u32 (length session_id)) session_id) in
    ap (λ n. drop n (str session_id ++ rest)) size ∙ drop-append (str session_id) rest

append_request :
    (user : Bytes) (key : PubKey) (hostname userlocal rest : Bytes)
    → hostbased_request user key hostname userlocal [] ++ rest
      ≡ hostbased_request user key hostname userlocal rest
append_request user key hostname userlocal rest = simp (append_assoc)

module _ (u : Utf8Write) (to_asn1 convert : Bytes → Bytes → Option Bytes) (session_id : Bytes) where
  -- A message whose lengths fit and that answers what is asked, sent while both queues are `q`, is told
  -- as it was meant and leaves the queue `next m q` at both ends.
  pub deliver-same_queue :
      (q : Queue) (m : AuthMessage)
      → FitsAuth to_asn1 convert q m
      → deliver u to_asn1 convert session_id m (same_queue q)
        ≡ some (told session_id m, same_queue (next m q))
  unfolding deliver sent FitsAuth next told Outbound.auth_none Outbound.auth_password
      Outbound.auth_pk_check Outbound.auth_pk_signed Outbound.auth_hostbased_blob
      Outbound.auth_hostbased_signed Outbound.auth_keyboard Outbound.auth_info_res
      Outbound.auth_failure Outbound.auth_success Outbound.auth_pk_ok Outbound.auth_passwd_chg
      Outbound.auth_info_req Inbound.on_success
  deliver-same_queue q (no_method user) h =
      rw (Requests.none_round to_asn1 session_id q user h) refl
  deliver-same_queue q (password user pass []) (h, h_pass, _) =
      rw (Requests.password_round to_asn1 session_id q user h pass h_pass) refl
  deliver-same_queue q (password user pass (c ∷ cs)) (h, h_pass, h_new) =
      rw (Requests.change_round to_asn1 session_id q user h pass (c ∷ cs) h_pass h_new) refl
  deliver-same_queue q (pk_check user key) (h, h_type, h_bytes) =
      rw
        (Requests.check_round to_asn1 session_id q user h (key_type key) (key_bytes key) h_type
          h_bytes)
        refl
  deliver-same_queue q (pk_signed user key sig wire)
        (h, h_type, h_bytes, h_wire, some_wire, there, back) =
      rw
        (
          there,
          Signed.pk_signed_round to_asn1 session_id q user wire sig key h h_type h_bytes h_wire
              some_wire back,
        )
        refl
  deliver-same_queue q (hostbased user key hostname userlocal sig wire)
        (h, h_type, h_bytes, h_wire, some_wire, there, back, h_host, h_local) =
      rw
        (
          behind_id session_id (hostbased_request user key hostname userlocal []),
          there,
          append_request user key hostname userlocal (signature_field (key_type key) wire),
          Signed.hostbased_round to_asn1 session_id q user wire sig key h h_type h_bytes h_wire
              some_wire back hostname userlocal h_host h_local,
        )
        refl
  deliver-same_queue q (keyboard user) h =
      rw (Requests.keyboard_round to_asn1 session_id q user h) refl
  deliver-same_queue q (info_res rs) (head, h_rs, h) = rw (info_res_at q rs head h_rs h) refl
  deliver-same_queue q (failure ms partial) (asked, h_ms, fits, plain) =
      rw (asked, Answers.failure_round u q ms partial h_ms fits plain) refl
  deliver-same_queue q success asked = rw asked refl
  deliver-same_queue q (pk_ok algo key) (head, h_algo, h_key) =
      rw (head, on_60-publickey q _ head, Answers.pk_ok_round q algo key h_algo h_key) refl
  deliver-same_queue q (passwd_chg prompt) (head, h) =
      rw (on_60-password q _ head, Answers.passwd_chg_round q prompt h) refl
  deliver-same_queue q (info_req name instructions ps) (head, h_name, h_instructions, h_ps, h) =
      rw
        (
          on_60-keyboard q _ head,
          Answers.info_req_round q name instructions ps h_name h_instructions h_ps h,
        )
        refl

  -- A conversation whose messages all fit their turns (and whose method names are plain, as in ASCII), begun with the same queue at both ends: every
  -- message is told as it was meant, and the two ends hold the same queue afterwards.
  pub converse-same_queue :
      (q : Queue) (ms : List AuthMessage)
      → FitsAll to_asn1 convert q ms
      → converse u to_asn1 convert session_id ms (same_queue q)
        ≡ some (map (told session_id) ms, same_queue (after_all ms q))
  unfolding converse FitsAll after_all
  converse-same_queue q [] h = refl
  converse-same_queue q (m ∷ ms) (h, hs) =
      rw (deliver-same_queue q m h, converse-same_queue (next m q) ms hs) refl
