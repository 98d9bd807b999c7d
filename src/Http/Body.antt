-- ===== src/Http/Body.antt =====
-- The body of a request in components/http_app/dd_http.c, however it is cut into packets.
use dingdong.Common.{
  ℕ, zero, suc, ◌-◌, ◌≤◌, ◌<◌, ◌≡◌, refl, ap, ◌∙◌, true, false, Option, none, some, List, [], ◌∷◌,
  ◌++◌, length, take, length-append, length-take, take-all, take-append, ltb, ◌==◌, if◌then◌else◌,
  arith, Bool-cases, inl, inr, All, append-nil,
}
use dingdong.Stdio.Lines.{concat}
use dingdong.Http.{recv_loop, recv_json_body}

take-nil : (n : ℕ) → take {A = ℕ} n [] ≡ []
take-nil n = take-all n [] (omega arith)

take-append_ge :
    (xs ys : List ℕ) (n : ℕ) → length xs ≤ n → take n (xs ++ ys) ≡ xs ++ take (n - length xs) ys
take-append_ge [] ys n h = ap (λ (k : ℕ). take k ys) (omega arith)
take-append_ge (x ∷ xs) ys zero h = absurd (omega arith)
take-append_ge (x ∷ xs) ys (suc n) h =
    ap (λ r. x ∷ r)
      (take-append_ge xs ys n (omega arith) ∙ ap (λ (k : ℕ). xs ++ take k ys) (omega arith))

-- One packet that has bytes, with bytes to come.
recv_loop-packet :
    (left : ℕ) (p : List ℕ) (ps : List (List ℕ))
    → 0 < left
    → 0 < length p
    → recv_loop left (p ∷ ps) ≡ elim (recv_loop (left - length (take left p)) ps) [
      | none ↦ none
      | some bytes ↦ some (take left p ++ bytes)
    ]
unfolding recv_loop
recv_loop-packet left p ps more some_bytes =
    let go_on : (left == 0) ≡ false = ground arith in
    let got : (length p == 0) ≡ false = ground arith in rw (go_on, got) refl

recv_loop-done : (packets : List (List ℕ)) → recv_loop 0 packets ≡ some []
unfolding recv_loop
recv_loop-done [] = refl
recv_loop-done (p ∷ ps) = refl

recv_loop-none : (left : ℕ) → 0 < left → recv_loop left [] ≡ none
unfolding recv_loop
recv_loop-none left more = let go_on : (left == 0) ≡ false = ground arith in rw go_on refl

abbrev Received : ℕ → List ℕ → Option (List ℕ) → Type 0
Received left sent r = r ≡ (if ltb (length sent) left then none else some (take left sent))

recv_loop-concat :
    (packets : List (List ℕ)) (left : ℕ)
    → All (λ p. 0 < length p) packets
    → Received left (concat packets) (recv_loop left packets)
recv_loop-concat packets zero full = recv_loop-done packets ∙ ground arith
recv_loop-concat [] (suc left) full =
    let short : ltb 0 (suc left) ≡ true = ground arith in
    recv_loop-none (suc left) (omega arith) ∙ rw short refl
recv_loop-concat (p ∷ ps) (suc left) full = elim (Bool-cases (ltb (length p) (suc left))) [
  | inl whole ↦
      let all = take-all (suc left) p (ground arith) in
      let ih = recv_loop-concat ps (suc left - length p) full.1 in
      recv_loop-packet (suc left) p ps (omega arith) full.0
      ∙ rw (all, ih)
          (elim (Bool-cases (ltb (length (concat ps)) (suc left - length p))) [
            | inl short ↦
                let short' : ltb (length (p ++ concat ps)) (suc left) ≡ true =
                  ground (arith, length-append p (concat ps)) in
                rw (short, short') refl
            | inr enough ↦
                let enough' : ltb (length (p ++ concat ps)) (suc left) ≡ false =
                  ground (arith, length-append p (concat ps)) in
                rw (enough, enough', take-append_ge p (concat ps) (suc left) (ground arith), all)
                  refl
          ])
  | inr over ↦
      let used : suc left - length (take (suc left) p) ≡ 0 =
        ground (arith, length-take (suc left) p) in
      let enough : ltb (length (p ++ concat ps)) (suc left) ≡ false =
        ground (arith, length-append p (concat ps)) in
      recv_loop-packet (suc left) p ps (omega arith) full.0
      ∙ rw (used, recv_loop-done ps, enough, take-append p (concat ps) (suc left) (ground arith))
          (ap some (append-nil (take (suc left) p)))
]

-- A body of 1 to 8192 bytes for which there is memory is received whole, however it is cut into packets and
-- whatever follows it, and not at all where the connection ends before it is complete.
recv_json_body-concat :
    (total : ℕ) (packets : List (List ℕ))
    → 0 < total
    → total ≤ 8192
    → All (λ p. 0 < length p) packets
    → recv_json_body total true packets
      ≡ (if ltb (length (concat packets)) total then none else some (take total (concat packets)))
unfolding recv_json_body
recv_json_body-concat total packets some_body fits full =
    let some_length : (total == 0) ≡ false = ground arith in
    let in_cap : ltb 8192 total ≡ false = ground arith in
    rw (some_length, in_cap) (recv_loop-concat packets total full)
