-- ===== src/Discovery/Reply.antt =====
-- The scan reply of src/udp_socket/udp_response_handler.c, as the app reads it.
use cything.Prelude.{
  take-append-drop, drop, ◌≤◌, ℕ, zero, suc, ◌-◌, ◌/◌, ◌<◌, ◌≡◌, ◌≢◌, refl, ap, ◌∙◌, arith, Bool,
  true, false, List, [], ◌∷◌, ◌++◌, ◌==◌, ltb, leb, if◌then◌else◌, length, take, take_of-le,
  length-take, Bool-cases, inl, inr,
}
use cything.Prelude.Bytes.{Bytes, codes, decimal, digits}
use cything.Prelude.Every.{Every, Every-append}
use cything.Discovery.{
  Facts, scan_fields, device_wifi_info, provisioning_caps, reply_fields, join_fields,
  udp_get_info_response,
}

-- A text without a comma.
abbrev pub NoComma : Bytes → Type 0
NoComma s = Every (λ c. c ≢ 44) s

-- The first of the fields, longer by a byte.
abbrev push_byte : ℕ → List Bytes → List Bytes
push_byte c [] = (c ∷ []) ∷ []
push_byte c (field ∷ rest) = (c ∷ field) ∷ rest

-- The fields of a line of comma-separated values.
unfoldable pub fields : Bytes → List Bytes
fields [] = [] ∷ []
fields (c ∷ s) = let rest = fields s in if c == 44 then [] ∷ rest else push_byte c rest

fields-plain : (s : Bytes) → NoComma s → fields s ≡ s ∷ []
unfolding fields
fields-plain [] h = refl
fields-plain (c ∷ s) h = ground (arith, h.0, fields-plain s h.1)

fields-comma : (s r : Bytes) → NoComma s → fields (s ++ (44 ∷ r)) ≡ s ∷ fields r
unfolding fields
fields-comma [] r h = refl
fields-comma (c ∷ s) r h = ground (arith, h.0, fields-comma s r h.1)

fields-join_fields :
    (x : Bytes) (xs : List Bytes)
    → NoComma x
    → Every NoComma xs
    → fields (join_fields (x ∷ xs)) ≡ x ∷ xs
unfolding join_fields
fields-join_fields x [] h k = fields-plain x h
fields-join_fields x (y ∷ xs) h k =
    fields-comma x (join_fields (y ∷ xs)) h ∙ ap (λ l. x ∷ l) (fields-join_fields y xs k.0 k.1)

digits-NoComma : (f n : ℕ) (acc : Bytes) → NoComma acc → NoComma (digits f n acc)
unfolding digits
digits-NoComma zero n acc h = h
digits-NoComma (suc f) n acc h = elim (Bool-cases (ltb n 10)) [
  | inl small ↦ rw (digits, small) ((λ e. omega arith), h)
  | inr large ↦ rw (digits, large) (digits-NoComma f (n / 10) _ ((λ e. omega arith), h))
]

decimal-NoComma : (n : ℕ) → NoComma (decimal n)
unfolding decimal
decimal-NoComma n = digits-NoComma (suc n) n [] tt

take-NoComma : (n : ℕ) (s : Bytes) → NoComma s → NoComma (take n s)
take-NoComma zero s h = tt
take-NoComma (suc n) [] h = tt
take-NoComma (suc n) (c ∷ s) h = (h.0, take-NoComma n s h.1)

-- The same as a test.
no_comma : Bytes → Bool
no_comma [] = true
no_comma (c ∷ s) = let rest = no_comma s in if c == 44 then false else rest

no_comma→NoComma : (s : Bytes) → no_comma s ≡ true → NoComma s
unfolding no_comma
no_comma→NoComma [] h = tt
no_comma→NoComma (c ∷ s) h = ((λ e. ground (arith, h, e)), no_comma→NoComma s (ground (arith, h)))

caps-NoComma : (claim set : Bool) → NoComma (provisioning_caps claim set)
unfolding provisioning_caps no_comma
caps-NoComma true true = no_comma→NoComma (provisioning_caps true true) refl
caps-NoComma true false = no_comma→NoComma (provisioning_caps true false) refl
caps-NoComma false true = no_comma→NoComma (provisioning_caps false true) refl
caps-NoComma false false = no_comma→NoComma (provisioning_caps false false) refl

address-NoComma : (a : ℕ × (ℕ × (ℕ × ℕ))) → NoComma (device_wifi_info a)
unfolding device_wifi_info
address-NoComma a = Every-append _ (decimal a.0) _ (decimal-NoComma a.0) (
  (λ e. cc),
  Every-append _ (decimal a.1.0) _ (decimal-NoComma a.1.0) (
    (λ e. cc),
    Every-append _ (decimal a.1.1.0) _ (decimal-NoComma a.1.1.0)
        ((λ e. cc), decimal-NoComma a.1.1.1),
  ),
)

-- The texts from the configuration and the identity have no comma of their own.
pub record IsPlain (f : Facts) : Type 0 where
  pub source_terminal_id : NoComma f.source_terminal_id
  pub device_id : NoComma f.device_id
  pub device_name : NoComma f.device_name
  pub device_type : NoComma f.device_type
  pub firmware_version : NoComma f.firmware_version
  pub hardware_version : NoComma f.hardware_version

scan_source-NoComma :
    (b : Bool) (s d : Bytes) → NoComma s → NoComma (scan_fields b s d).source_terminal_id
unfolding scan_fields
scan_source-NoComma true s d h = take-NoComma 39 s h
scan_source-NoComma false s d h = tt

scan_device-NoComma : (b : Bool) (s d : Bytes) → NoComma d → NoComma (scan_fields b s d).device_id
unfolding scan_fields
scan_device-NoComma true s d h = take-NoComma 39 d h
scan_device-NoComma false s d h = tt

scan_state-NoComma : (b : Bool) (s d : Bytes) → NoComma (scan_fields b s d).provision_state
unfolding scan_fields no_comma
scan_state-NoComma true s d = no_comma→NoComma (codes "claimed") refl
scan_state-NoComma false s d = no_comma→NoComma (codes "unprovisioned") refl

sent_length :
    (size : ℕ) (text : Bytes)
    → 0 < size
    → length (take (size - 1) text) ≡ (if leb size (length text) then size - 1 else length text)
sent_length size text some_space = ground (arith, some_space, length-take (size - 1) text)

-- Where the names, the ids, the type and the versions hold no comma, and the buffer is not empty: a
-- scan reply that fits the buffer is read by the app as the fields that the device meant; one that
-- does not fit is the beginning of the text that the buffer holds without its last byte. Either way
-- the length that is sent is that of the reply.
pub udp_get_info_response_lem :
    (f : Facts) (size : ℕ)
    → IsPlain f
    → 0 < size
    → (length (join_fields (reply_fields f)) < size
        → fields (udp_get_info_response f size).0 ≡ reply_fields f)
      × (size ≤ length (join_fields (reply_fields f))
          → (length (udp_get_info_response f size).0 ≡ size - 1)
            × ((rest : Bytes) × (udp_get_info_response f size).0 ++ rest
                  ≡ join_fields (reply_fields f)))
      × (length (udp_get_info_response f size).0 ≡ (udp_get_info_response f size).1)
unfolding udp_get_info_response reply_fields
udp_get_info_response_lem f size p some_space =
    let text = join_fields (reply_fields f) in
    let source =
      scan_source-NoComma f.is_active f.source_terminal_id f.device_id p.source_terminal_id in
    let device = scan_device-NoComma f.is_active f.source_terminal_id f.device_id p.device_id in
    let state = scan_state-NoComma f.is_active f.source_terminal_id f.device_id in
    let caps = caps-NoComma f.claim_present f.password_set in
    let read : fields text ≡ reply_fields f =
      fields-join_fields (device_wifi_info f.address) _ (address-NoComma f.address) (
        source,
        (
          p.device_name,
          (
            p.device_type,
            (device, (state, (p.firmware_version, (p.hardware_version, (caps, tt))))),
          ),
        ),
      ) in
    (
      λ fits. rw (take_of-le (size - 1) text (omega arith)) read,
      λ cut. (
        omega (arith, length-take (size - 1) text),
        (drop (size - 1) text, take-append-drop (size - 1) text),
      ),
      sent_length size text some_space,
    )
