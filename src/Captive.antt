-- ===== src/Captive.antt =====
-- components/captive_portal/dd_captive.c: the DNS server of the setup page, which answers every
-- question for an address with the gateway's. A datagram is the list of its bytes.
pub mod Names
pub mod Answer
mod Tests
use dingdong.Common.{
  ℕ, zero, suc, ◌+◌, ◌-◌, ◌*◌, ◌/◌, ◌%◌, Bool, true, false, not, Option, none, some, List, [], ◌∷◌,
  ◌++◌, length, take, drop, get_or, ltb, leb, ◌==◌, if◌then◌else◌, Err,
}

-- DNS_BUF_MAX, DNS_HDR_QR, DNS_HDR_AA, DNS_HDR_RCODE_OK, DNS_HDR_RCODE_FAIL, DNS_TYPE_A, DNS_CLASS_IN
abbrev pub dns_buf_max : ℕ
dns_buf_max = 512

abbrev pub dns_hdr_qr : ℕ
dns_hdr_qr = 0x8000

abbrev pub dns_hdr_aa : ℕ
dns_hdr_aa = 0x0400

abbrev pub dns_hdr_rcode_ok : ℕ
dns_hdr_rcode_ok = 0

abbrev pub dns_hdr_rcode_fail : ℕ
dns_hdr_rcode_fail = 2

abbrev pub dns_type_a : ℕ
dns_type_a = 1

abbrev pub dns_class_in : ℕ
dns_class_in = 1

-- sizeof(dns_hdr_t)
abbrev pub hdr_size : ℕ
hdr_size = 12

-- How skip_qname ends: with -1, or with the offset behind the name. The model also knows that the
-- fuel ran out.
pub data Skipped : Type 0 where
  out_of_fuel malformed : Skipped
  ended : ℕ → Skipped

-- skip_qname; a round reads one label, and the fuel is the number of rounds.
unfoldable pub skip_qname : ℕ → List ℕ → ℕ → ℕ → Skipped
skip_qname zero buf len pos = Skipped.out_of_fuel
skip_qname (suc fuel) buf len pos =
    let l = get_or buf pos 0 in
    let rest = skip_qname fuel buf len (pos + 1 + l) in
    if not (ltb pos len)
    then Skipped.malformed
    else if l == 0
    then Skipped.ended (pos + 1)
    else if not (l / 64 % 4 == 0)
    then Skipped.malformed
    else rest

-- A 16-bit number in network order, read and written.
abbrev pub read16 : List ℕ → ℕ → ℕ
read16 buf pos = get_or buf pos 0 * 256 + get_or buf (pos + 1) 0

abbrev pub write16 : ℕ → List ℕ
write16 n = n / 256 ∷ n % 256 ∷ []

-- The header of the answer: the id of the question, the flags and the four counts.
unfoldable pub answer_header : List ℕ → Bool → List ℕ
answer_header q is_a =
    (get_or q 0 0 ∷ get_or q 1 0 ∷ [])
    ++ (write16 (dns_hdr_qr + dns_hdr_aa + (if is_a then dns_hdr_rcode_ok else dns_hdr_rcode_fail))
        ++ (write16 1 ++ (write16 (if is_a then 1 else 0) ++ (write16 0 ++ write16 0))))

-- The answer record: a pointer to the name at offset 12, a TTL of 60 s and the address.
unfoldable pub answer_record : List ℕ → List ℕ
answer_record answer_ip =
    (0xC0 ∷ 0x0C ∷ 0 ∷ dns_type_a ∷ 0 ∷ dns_class_in ∷ 0 ∷ 0 ∷ 0 ∷ 60 ∷ 0 ∷ 4 ∷ []) ++ answer_ip

-- build_response, for a name that ends in front of `qend`
unfoldable pub respond : List ℕ → List ℕ → ℕ → ℕ → Option (List ℕ)
unfolding answer_header answer_record
respond answer_ip q outcap qend =
    let is_a = read16 q qend == dns_type_a in
    let question_total = qend + 4 - hdr_size in
    let total = hdr_size + question_total + (if is_a then 16 else 0) in
    if ltb (length q) (qend + 4)
    then none
    else if ltb outcap total
    then none
    else some (
        answer_header q is_a
        ++ (take question_total (drop hdr_size q)
            ++ (if is_a then answer_record answer_ip else [])))

-- build_response; `none` is -1, and `some` the bytes that it wrote. `answer_ip` is the four bytes
-- of s_answer_ip. A label takes one byte at least, so the fuel is enough.
unfoldable pub build_response : List ℕ → List ℕ → ℕ → Option (List ℕ)
unfolding skip_qname respond
build_response answer_ip q outcap =
    if ltb (length q) hdr_size
    then none
    else if not (read16 q 4 == 1)
    then none
    else elim (skip_qname (length q) q (length q) hdr_size) [
      | Skipped.ended qend ↦ respond answer_ip q outcap qend
      | _ ↦ none
    ]

-- A round of dns_task: what recvfrom gives, `none` where it gives no bytes, and what is sent.
unfoldable pub dns_round : List ℕ → Option (List ℕ) → Option (List ℕ)
unfolding build_response
dns_round answer_ip none = none
dns_round answer_ip (some datagram) =
    if length datagram == 0
    then none
    else build_response answer_ip (take dns_buf_max datagram) dns_buf_max

-- s_answer_ip, s_task
pub record Portal : Type 0 where
  pub answer_ip : List ℕ
  pub running : Bool

-- dd_captive_start; `created` is whether the task was created
unfoldable pub captive_start : List ℕ → Bool → Portal → Err × Portal
captive_start gateway_ip created p =
    if p.running
    then (Err.ok, record p { answer_ip = gateway_ip })
    else if created
    then (Err.ok, record { answer_ip = gateway_ip; running = true })
    else (Err.no_mem, record p { answer_ip = gateway_ip })
