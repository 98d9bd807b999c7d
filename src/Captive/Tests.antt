-- ===== src/Captive/Tests.antt =====
-- The DNS server at a question for the address of a name of one label, and at others.
use dingdong.Common.{
  ℕ, ◌+◌, ◌≤◌, ◌≡◌, ◌≢◌, ◌↔◌, refl, none, some, List, [], ◌∷◌, ◌++◌, length, arith, codes, true,
  Err,
}
use dingdong.Captive.{Skipped, skip_qname, build_response, dns_round, captive_start}
use dingdong.Captive.Names.{Name, IsBytes, skip_qname-ended}
use dingdong.Captive.Answer.{Question, Answers, build_response-Answers}

abbrev gateway : List ℕ
gateway = 192 ∷ 168 ∷ 4 ∷ 1 ∷ []

abbrev query_of : ℕ → List ℕ
query_of type =
    (0x12 ∷ 0x34 ∷ 1 ∷ 0 ∷ 0 ∷ 1 ∷ 0 ∷ 0 ∷ 0 ∷ 0 ∷ 0 ∷ 0 ∷ [])
    ++ ((2 ∷ codes "go") ++ (0 ∷ 0 ∷ type ∷ 0 ∷ 1 ∷ []))

query-IsBytes : IsBytes (query_of 1)
query-IsBytes = omega arith

address_given :
    dns_round gateway (some (query_of 1))
    ≡ some (
        (0x12 ∷ 0x34 ∷ 0x84 ∷ 0 ∷ 0 ∷ 1 ∷ 0 ∷ 1 ∷ 0 ∷ 0 ∷ 0 ∷ 0 ∷ [])
        ++ ((2 ∷ codes "go") ++ (0 ∷ 0 ∷ 1 ∷ 0 ∷ 1 ∷ []))
        ++ (0xC0 ∷ 0x0C ∷ 0 ∷ 1 ∷ 0 ∷ 1 ∷ 0 ∷ 0 ∷ 0 ∷ 60 ∷ 0 ∷ 4 ∷ gateway))
unfolding dns_round
address_given = refl

-- A question for an IPv6 address fails, and a pointer in the name, a name that does not end and a
-- datagram with no bytes get no reply.
others_refused :
    (dns_round gateway (some (query_of 28))
      ≡ some (
          (0x12 ∷ 0x34 ∷ 0x84 ∷ 2 ∷ 0 ∷ 1 ∷ 0 ∷ 0 ∷ 0 ∷ 0 ∷ 0 ∷ 0 ∷ [])
          ++ ((2 ∷ codes "go") ++ (0 ∷ 0 ∷ 28 ∷ 0 ∷ 1 ∷ []))))
    × (skip_qname 9 (0xC0 ∷ 12 ∷ []) 2 0 ≡ Skipped.malformed)
    × (skip_qname 9 (3 ∷ 1 ∷ []) 2 0 ≡ Skipped.malformed)
    × (dns_round gateway none ≡ none)
unfolding dns_round skip_qname
others_refused = (refl, refl, refl, refl)

skip_qname-ended_example :
    (skip_qname 21 (query_of 1) 20 12 ≢ Skipped.out_of_fuel)
    × ((skip_qname 21 (query_of 1) 20 12 ≡ Skipped.ended 16) ↔ Name (query_of 1) 20 16 12)
skip_qname-ended_example = skip_qname-ended 21 (query_of 1) 20 12 16 query-IsBytes (omega arith)

build_response-Answers_example :
    ((r : List ℕ)
      → build_response gateway (query_of 1) 512 ≡ some r
      → (stop : ℕ) × (length r ≤ 512)
        × Question (query_of 1) stop
        × Answers gateway (query_of 1) stop r)
    × ((stop : ℕ)
        → Question (query_of 1) stop
        → stop + 20 ≤ 512
        → (r : List ℕ) × (build_response gateway (query_of 1) 512 ≡ some r))
build_response-Answers_example = build_response-Answers gateway (query_of 1) 512 query-IsBytes refl

moved :
    captive_start gateway true (record { answer_ip = 0 ∷ 0 ∷ 0 ∷ 0 ∷ []; running = true })
    ≡ (Err.ok, record { answer_ip = gateway; running = true })
unfolding captive_start
moved = refl
