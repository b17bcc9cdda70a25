-- ===== src/Auth/Answers.antt =====
-- What the two sides answer during authentication, as the other side's handler reads it.
use ssh.Common.{
  ◌≡◌, refl, arith, Bool, true, false, Option, some, List, [], ◌∷◌, ◌++◌, map, length, codes, same,
  Bytes, IsU32, All, if◌then◌else◌,
}
use ssh.Wire.{u32}
use ssh.Wire.Text.{Utf8Write, IsPlain, text_field, text_field-plain}
use ssh.Wire.Encode.{
  str, at, joined, IsName, read_u32-u32, read_list-joined, read_string-str, read_bool-cons,
}
use ssh.Message.Outbound.{flag, flag_lem}
use ssh.Auth.Outbound.{Queue, shift, strs, prompt_fields, offered, lower}
use ssh.Auth.Inbound
use ssh.Auth.Inbound.{read_prompts, read_responses}

if-All :
    (b : Bool) (xs ys : List Bytes)
    → All IsName xs
    → All IsName ys
    → All IsName (if b then xs else ys)
if-All true xs ys hx hy = hx
if-All false xs ys hx hy = hy

offered-IsName : (ms : List Bytes) → All IsName ms → All IsName (offered ms)
unfolding offered
offered-IsName [] h = h
offered-IsName (m ∷ ms) (h, hs) =
    if-All (same (map lower m) (codes "none")) (offered ms) (m ∷ offered ms) (offered-IsName ms hs)
      (h, offered-IsName ms hs)

abbrev pub heard : Bytes × Bool → Option Bytes × Bool
heard (prompt, echo) = (some prompt, echo)

abbrev pub IsPrompt : Bytes × Bool → Type 0
IsPrompt (prompt, echo) = IsU32 (length prompt)

read_prompts-prompt_fields :
    (pre : Bytes) (ps : List (Bytes × Bool))
    → All IsPrompt ps
    → (read_prompts (length ps) (at pre (prompt_fields ps))).0 ≡ some (map heard ps)
unfolding read_prompts
read_prompts-prompt_fields pre [] h = refl
read_prompts-prompt_fields pre ((prompt, echo) ∷ ps) (h, hs) = simp (
  read_string-str pre (flag echo ∷ prompt_fields ps) prompt h,
  read_bool-cons (pre ++ str prompt) (prompt_fields ps) (flag echo),
  flag_lem echo,
  read_prompts-prompt_fields ((pre ++ str prompt) ++ flag echo ∷ []) ps hs,
)

read_responses-strs :
    (pre : Bytes) (rs : List Bytes)
    → All (λ r. IsU32 (length r)) rs
    → (read_responses (length rs) (at pre (strs rs))).0 ≡ some rs
unfolding read_responses
read_responses-strs pre [] h = refl
read_responses-strs pre (r ∷ rs) (h, hs) =
    simp (read_string-str pre (strs rs) r h, read_responses-strs (pre ++ str r) rs hs)

pub failure_round :
    (u : Utf8Write) (q : Queue) (ms : List Bytes) (partial : Bool)
    → All IsName ms
    → IsU32 (length (joined (offered ms)))
    → IsPlain (joined (offered ms))
    → Inbound.on_failure q (51 ∷ (text_field u (joined (offered ms)) ++ (flag partial ∷ [])))
      ≡ Inbound.calls (shift q) (Inbound.failure (some (offered ms)) partial)
unfolding Inbound.on_failure
failure_round u q ms partial h fits plain = simp (
  text_field-plain u (joined (offered ms)) plain,
  read_list-joined (51 ∷ []) (flag partial ∷ []) (offered ms) (offered-IsName ms h) fits,
  read_bool-cons ((51 ∷ []) ++ str (joined (offered ms))) [] (flag partial),
  flag_lem partial,
)

pub pk_ok_round :
    (q : Queue) (algo key : Bytes)
    → IsU32 (length algo)
    → IsU32 (length key)
    → Inbound.on_pk_ok q (60 ∷ (str algo ++ (str key ++ [])))
      ≡ Inbound.calls (shift q) (Inbound.pk_ok (some algo) key)
unfolding Inbound.on_pk_ok
pk_ok_round q algo key h_algo h_key =
    simp (
      read_string-str (60 ∷ []) _ algo h_algo,
      read_string-str ((60 ∷ []) ++ str algo) [] key h_key,
    )

pub passwd_chg_round :
    (q : Queue) (prompt : Bytes)
    → IsU32 (length prompt)
    → Inbound.on_passwd_changereq q (60 ∷ (str prompt ++ (str [] ++ [])))
      ≡ Inbound.calls q (Inbound.passwd_changereq (some prompt))
unfolding Inbound.on_passwd_changereq
passwd_chg_round q prompt h = simp (
  read_string-str (60 ∷ []) _ prompt h,
  read_string-str ((60 ∷ []) ++ str prompt) [] [] (omega arith),
)

pub info_req_round :
    (q : Queue) (name instructions : Bytes) (ps : List (Bytes × Bool))
    → IsU32 (length name)
    → IsU32 (length instructions)
    → IsU32 (length ps)
    → All IsPrompt ps
    → Inbound.on_info_request q
        (60 ∷ (str name ++ (str instructions ++ (str [] ++ (u32 (length ps) ++ prompt_fields ps)))))
      ≡ Inbound.calls q (Inbound.info_request (some name) (some instructions) (map heard ps))
unfolding Inbound.on_info_request
info_req_round q name instructions ps h_name h_instructions h_ps h = simp (
  read_string-str (60 ∷ []) _ name h_name,
  read_string-str ((60 ∷ []) ++ str name) _ instructions h_instructions,
  read_string-str (((60 ∷ []) ++ str name) ++ str instructions) _ [] (omega arith),
  read_u32-u32 ((((60 ∷ []) ++ str name) ++ str instructions) ++ str []) (prompt_fields ps)
      (length ps) h_ps,
  read_prompts-prompt_fields
      (((((60 ∷ []) ++ str name) ++ str instructions) ++ str []) ++ u32 (length ps)) ps h,
)

pub info_res_round :
    (q : Queue) (rs : List Bytes)
    → IsU32 (length rs)
    → All (λ r. IsU32 (length r)) rs
    → Inbound.on_61 (codes "keyboard-interactive" ∷ q) (61 ∷ (u32 (length rs) ++ strs rs))
      ≡ Inbound.calls (codes "keyboard-interactive" ∷ q) (Inbound.info_response rs)
unfolding Inbound.on_61 same
info_res_round q rs h_rs h = simp (
  read_u32-u32 (61 ∷ []) (strs rs) (length rs) h_rs,
  read_responses-strs ((61 ∷ []) ++ u32 (length rs)) rs h,
)
