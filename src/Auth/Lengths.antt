-- ===== src/Auth/Lengths.antt =====
-- The buffers that the authentication messages ask for.
use ssh.Common.{
  ◌≡◌, refl, arith, Bool, true, false, Option, none, some, List, [], ◌∷◌, length, length-append,
  codes, Bytes,
}
use ssh.Wire.{u32}
use ssh.Wire.Text.{Utf8Write, text_field}
use ssh.Wire.Encode.{str}
use ssh.Message.Outbound.{Packet, packet, flag}
use ssh.Auth.Outbound
use ssh.Auth.Outbound.{
  Queue, Sent, PubKey, key_type, key_bytes, strs, strs_length, prompt_fields, prompts_length,
  in_progress, at_head, offered, hostbased_request,
}
use ssh.Auth.Dialogue.{
  AuthMessage, no_method, password, pk_check, pk_signed, hostbased, keyboard, info_res, failure,
  success, pk_ok, passwd_chg, info_req, sent,
}

abbrev pub Exact : Sent → Type 0
Exact none = Unit
Exact (some (q, p)) = p.size ≡ length p.payload

length-strs : (rs : List Bytes) → length (strs rs) ≡ strs_length rs
length-strs [] = refl
length-strs (r ∷ rs) =
    omega (arith, length-append (str r) (strs rs), length-append (u32 (length r)) r, length-strs rs)

length-prompt_fields : (ps : List (Bytes × Bool)) → length (prompt_fields ps) ≡ prompts_length ps
length-prompt_fields [] = refl
length-prompt_fields ((prompt, echo) ∷ ps) = omega (
  arith,
  length-append (str prompt) (flag echo ∷ prompt_fields ps),
  length-append (u32 (length prompt)) prompt,
  length-prompt_fields ps,
)

then_send-Exact :
    (c : Option Bytes) (f : Bytes → Sent)
    → ((w : Bytes) → Exact (f w))
    → Exact (Outbound.then_send c f)
then_send-Exact none f h = tt
then_send-Exact (some w) f h = h w

from_server-Exact :
    (ready : Bool) (q : Queue) (p : Packet)
    → p.size ≡ length p.payload
    → Exact (Outbound.from_server true ready q p)
from_server-Exact true q p h = h
from_server-Exact false q p h = tt

module _ (u : Utf8Write) (convert : Bytes → Bytes → Option Bytes) (session_id : Bytes) where
  -- Whatever the queue and the message, what is sent fills the buffer that was asked for it exactly.
  pub sent-Exact : (q : Queue) (m : AuthMessage) → Exact (sent u convert session_id m q)
  unfolding text_field sent Outbound.auth_none Outbound.auth_password Outbound.auth_pk_check
      Outbound.auth_pk_signed Outbound.auth_hostbased_blob Outbound.auth_hostbased_signed
      Outbound.auth_keyboard Outbound.auth_info_res Outbound.auth_failure Outbound.auth_success
      Outbound.auth_pk_ok Outbound.auth_passwd_chg Outbound.auth_info_req
  sent-Exact q (no_method user) = grind (arith, length-append)
  sent-Exact q (password user pass []) = grind (arith, length-append)
  sent-Exact q (password user pass (c ∷ cs)) = grind (arith, length-append)
  sent-Exact q (pk_check user key) = grind (arith, length-append)
  sent-Exact q (pk_signed user key sig wire) =
      then_send-Exact (convert sig (key_type key)) _ (λ w. grind (arith, length-append))
  sent-Exact q (hostbased user key hostname userlocal sig wire) =
      then_send-Exact (convert sig (key_type key)) _ (λ w. grind (arith, length-append))
  sent-Exact q (keyboard user) = grind (arith, length-append)
  sent-Exact q (info_res rs) = grind (arith, length-append, length-strs)
  sent-Exact q (failure ms partial) =
      from_server-Exact (in_progress q) (Outbound.shift q) _ (grind (arith, length-append, u.sized))
  sent-Exact q success =
      from_server-Exact (in_progress q) (Outbound.shift q) (packet 1 (52 ∷ [])) refl
  sent-Exact q (pk_ok algo key) =
      from_server-Exact (at_head (codes "publickey") q) (Outbound.shift q) _
        (grind (arith, length-append))
  sent-Exact q (passwd_chg prompt) = grind (arith, length-append)
  sent-Exact q (info_req name instructions ps) = grind (arith, length-append, length-prompt_fields)
