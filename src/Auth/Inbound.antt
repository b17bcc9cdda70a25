-- ===== src/Auth/Inbound.antt =====
-- The ssh-userauth handlers of lib/protocol/handlers.misc.js. A handler gives the queue afterwards
-- and the call of the registered handler. What `doFatalError` does is `fatal`; `throws` is an exception.
use ssh.Common.{
  ℕ, ◌≡◌, refl, zero, suc, ◌+◌, Bool, true, false, ◌&&◌, Option, none, some, List, [], ◌∷◌, ◌++◌,
  length, take, drop, codes, same, ltb, if◌then◌else◌, Bytes,
}
use ssh.Wire.{
  Reading, pure, ◌>>=◌, init, read_u32, read_bool, read_string, read_list, read_raw, skip_string,
}
use ssh.Wire.Encode.{str, at}
use ssh.Message.Inbound.{is, map_option}
use ssh.Auth.Outbound.{Queue, shift, push}

pub data MethodData : Type 0 where
  null : MethodData
  password : Bytes → MethodData
  password_change : Bytes → Bytes → MethodData
  pk_check : Option Bytes → Option Bytes → MethodData
  pk_signed : Bytes → Option Bytes → Bytes → Bytes → MethodData
  hostbased : Bytes → Option Bytes → Bytes → Bytes → Option Bytes → Option Bytes → MethodData
  submethods : List Bytes → MethodData
  raw : Bytes → MethodData

pub data AuthCall : Type 0 where
  request : Option Bytes → Option Bytes → Bytes → MethodData → AuthCall
  failure : Option (List Bytes) → Bool → AuthCall
  success : AuthCall
  banner : Option Bytes → AuthCall
  passwd_changereq : Option Bytes → AuthCall
  pk_ok : Option Bytes → Bytes → AuthCall
  info_request : Option Bytes → Option Bytes → List (Option Bytes × Bool) → AuthCall
  info_response : List Bytes → AuthCall

pub data Outcome : Type 0 where
  throws fatal ignored : Outcome
  calls : Queue → AuthCall → Outcome

-- `methodData`: undefined, an exception on the way to it, or there.
pub data Method : Type 0 where
  undefined throwing : Method
  found : MethodData → Method

abbrev found_if : {A : Type 0} → (A → MethodData) → Option A → Method
found_if f none = undefined
found_if f (some a) = found (f a)

abbrev changed : Option Bytes → Reading Method
changed none = pure undefined
changed (some old) = do new ← read_string none; pure (found_if (password_change old) new)

abbrev password_with : Option Bool → Reading Method
password_with none = pure undefined
password_with (some true) = do old ← read_string none; changed old
password_with (some false) = do s ← read_string none; pure (found_if password s)

-- The signature without the algorithm's name, if it begins with it.
abbrev pub bare_signature : Bytes → Bytes → Bytes
bare_signature algo s =
    if ltb (4 + length algo + 4) (length s) && same (take (length algo) (drop 4 s)) algo
    then drop (4 + length algo + 4) s
    else s

-- `keyAlgo.length` throws where `keyAlgo` is undefined.
abbrev signed_part :
    (to_asn1 : Bytes → Bytes → Option Bytes)
    → Option Bytes
    → Option Bytes
    → (Bytes → Bytes → MethodData)
    → Method
signed_part to_asn1 algo none f = undefined
signed_part to_asn1 none (some s) f = throwing
signed_part to_asn1 (some a) (some s) f = found_if (f a) (to_asn1 (bare_signature a s) a)

-- `bufferParser.pos()`.
pub position : Reading ℕ
position p = (p.pos, p)

pub position-at : (pre rest : Bytes) → position (at pre rest) ≡ (length pre, at pre rest)
unfolding position
position-at pre rest = refl

-- What was signed: the session's id and the payload up to the signature.
abbrev pub signed_blob : Bytes → Bytes → ℕ → Bytes
signed_blob session_id payload blob_end = str session_id ++ take blob_end payload

-- The server's session id, the payload, and `sigSSHToASN1`.
module _ (to_asn1 : Bytes → Bytes → Option Bytes) (session_id payload : Bytes) where
  unfoldable pub pk_with : Option Bool → Reading Method
  pk_with none = pure undefined
  pk_with (some true) = do
    algo ← read_string none
    key ← read_string none
    blob_end ← position
    signature ← read_string none
    pure (
        signed_part to_asn1 algo signature
          (λ a s. pk_signed a key s (signed_blob session_id payload blob_end)))
  pk_with (some false) = do
    algo ← read_string none
    key ← read_string none
    pure (found (pk_check algo key))

  unfoldable pub host_data : Reading Method
  host_data = do
    algo ← read_string none
    key ← read_string none
    host ← read_string none
    user ← read_string none
    blob_end ← position
    signature ← read_string none
    pure (
        signed_part to_asn1 algo signature
          (λ a s. hostbased a key s (signed_blob session_id payload blob_end) host user))

  unfoldable pub method_data : Option Bytes → Reading Method
  method_data method =
      let of_password : Reading Method = (do change ← read_bool; password_with change) in
      let of_key : Reading Method = (do has_sig ← read_bool; pk_with has_sig) in
      let of_keyboard : Reading Method = do
        lang ← skip_string
        list ← read_list
        pure (found_if submethods list)
      in let other : Reading Method = do b ← read_raw none; pure (found_if raw b)
        in if is method (codes "none")
          then pure (found null)
          else if is method (codes "password")
          then of_password
          else if is method (codes "publickey")
          then of_key
          else if is method (codes "hostbased")
          then host_data
          else if is method (codes "keyboard-interactive")
          then of_keyboard
          else other

  abbrev requested : Queue → Option Bytes → Option Bytes → Option Bytes → Method → Outcome
  requested q user service method throwing = throws
  requested q user service method undefined = fatal
  requested q user service none (found d) = fatal
  requested q user service (some m) (found d) = calls (push m q) (request user service m d)

  unfoldable pub on_userauth_request : Queue → Outcome
  unfolding method_data
  on_userauth_request q =
      ((do
        user ← read_string none
        service ← read_string none
        method ← read_string none
        data' ← method_data method
        pure (requested q user service method data'))
        (init payload 1)).0

abbrev pub last : {A : Type 0} → Option A → (A → Outcome) → Outcome
last none f = fatal
last (some a) f = f a

abbrev run : Reading Outcome → Bytes → Outcome
run m payload = (m (init payload 1)).0

unfoldable pub on_failure : Queue → Bytes → Outcome
on_failure q = run (do
  methods ← read_list
  partial ← read_bool
  pure (last partial (λ b. calls (shift q) (failure methods b))))

unfoldable pub on_success : Queue → Bytes → Outcome
on_success q payload = calls (shift q) success

unfoldable pub on_banner : Queue → Bytes → Outcome
on_banner q = run (do
  msg ← read_string none
  lang ← read_string none
  pure (last lang (λ _. calls q (banner msg))))

abbrev then_prompt :
    Option Bytes
    → Option Bool
    → Reading (Option (List (Option Bytes × Bool)))
    → Reading (Option (List (Option Bytes × Bool)))
then_prompt prompt none more = pure none
then_prompt prompt (some echo) more = do ps ← more; pure (map_option (λ l. (prompt, echo) ∷ l) ps)

unfoldable pub read_prompts : ℕ → Reading (Option (List (Option Bytes × Bool)))
read_prompts zero p = (some [], p)
read_prompts (suc n) p =
    (do prompt ← read_string none; echo ← read_bool; then_prompt prompt echo (read_prompts n)) p

abbrev then_response : Option Bytes → Reading (Option (List Bytes)) → Reading (Option (List Bytes))
then_response none more = pure none
then_response (some r) more = do rs ← more; pure (map_option (λ l. r ∷ l) rs)

unfoldable pub read_responses : ℕ → Reading (Option (List Bytes))
read_responses zero p = (some [], p)
read_responses (suc n) p = (do r ← read_string none; then_response r (read_responses n)) p

abbrev pub counted : {A : Type 0} → (ℕ → Reading (Option A)) → Option ℕ → Reading (Option A)
counted f none = pure none
counted f (some n) = f n

unfoldable pub on_passwd_changereq : Queue → Bytes → Outcome
on_passwd_changereq q = run (do
  prompt ← read_string none
  lang ← read_string none
  pure (last lang (λ _. calls q (passwd_changereq prompt))))

unfoldable pub on_pk_ok : Queue → Bytes → Outcome
on_pk_ok q = run (do
  algo ← read_string none
  key ← read_string none
  pure (last key (λ k. calls (shift q) (pk_ok algo k))))

unfoldable pub on_info_request : Queue → Bytes → Outcome
on_info_request q = run (do
  name ← read_string none
  instructions ← read_string none
  lang ← read_string none
  n ← read_u32
  prompts ← counted read_prompts n
  pure (last prompts (λ ps. calls q (info_request name instructions ps))))

-- Type 60 means what the first method in the queue says.
unfoldable pub on_60 : Queue → Bytes → Outcome
on_60 [] payload = ignored
on_60 (a ∷ as') payload =
    if same a (codes "password")
    then on_passwd_changereq (a ∷ as') payload
    else if same a (codes "publickey")
    then on_pk_ok (a ∷ as') payload
    else if same a (codes "keyboard-interactive")
    then on_info_request (a ∷ as') payload
    else ignored

abbrev responses_of : Queue → Reading Outcome
responses_of q = do
  n ← read_u32
  responses ← counted read_responses n
  pure (last responses (λ rs. calls q (info_response rs)))

unfoldable pub on_61 : Queue → Bytes → Outcome
on_61 [] payload = ignored
on_61 (a ∷ as') payload =
    let rest = run (responses_of (a ∷ as')) payload in
    if same a (codes "keyboard-interactive") then rest else fatal
