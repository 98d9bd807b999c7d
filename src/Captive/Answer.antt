-- ===== src/Captive/Answer.antt =====
-- The answers of components/captive_portal/dd_captive.c: what stands in one, and when there is one.
use dingdong.Common.{
  ℕ, ◌+◌, ◌-◌, ◌≤◌, ◌≡◌, refl, sym, ap, ◌∙◌, ◌≢◌, ◌⊎◌, inl, inr, Bool, true, false, some, List, [],
  ◌∷◌, ◌++◌, length, take, drop, ltb, ◌==◌, arith, Bool-cases, if◌then◌else◌, length-append,
  length-take, length-drop, take-append, take-all, drop-append_ge, some_eq,
}
use mathlib.Core.Path.{subst}
use dingdong.Captive.{
  Skipped, skip_qname, read16, answer_header, answer_record, respond, build_response, hdr_size,
}
use dingdong.Captive.Names.{Name, IsBytes, skip_qname-ended, Name-end}

-- A datagram with one question, whose name ends in front of `stop`.
pub record Question (q : List ℕ) (stop : ℕ) : Type 0 where
  pub has_header : hdr_size ≤ length q
  pub one : read16 q 4 ≡ 1
  pub name : Name q (length q) stop hdr_size
  pub has_type : stop + 4 ≤ length q

-- The bytes of the question: the name, the type and the class.
abbrev pub question : List ℕ → ℕ → List ℕ
question q stop = take (stop + 4 - hdr_size) (drop hdr_size q)

-- A reply to a question: it has the question's id and one question, the same; a question for an
-- address has one record, which gives the address, and any other has none and fails; there are no records of
-- authorities and no additional ones.
pub record Answers (ip q : List ℕ) (stop : ℕ) (r : List ℕ) : Type 0 where
  pub id : read16 r 0 ≡ read16 q 0
  pub same : question r stop ≡ question q stop
  pub count : read16 r 4 ≡ 1
  pub authorities : read16 r 8 ≡ 0
  pub additional : read16 r 10 ≡ 0
  pub address :
      read16 q stop ≡ 1
      → (read16 r 2 ≡ 0x8400)
        × (read16 r 6 ≡ 1)
        × (drop (stop + 4 - hdr_size) (drop hdr_size r)
            ≡ (0xC0 ∷ 0x0C ∷ 0 ∷ 1 ∷ 0 ∷ 1 ∷ 0 ∷ 0 ∷ 0 ∷ 60 ∷ 0 ∷ 4 ∷ []) ++ ip)
  pub other :
      read16 q stop ≢ 1
      → (read16 r 2 ≡ 0x8402)
        × (read16 r 6 ≡ 0)
        × (drop (stop + 4 - hdr_size) (drop hdr_size r) ≡ [])

-- The tail of a reply.
abbrev tail_of : Bool → List ℕ → List ℕ
tail_of true ip = (0xC0 ∷ 0x0C ∷ 0 ∷ 1 ∷ 0 ∷ 1 ∷ 0 ∷ 0 ∷ 0 ∷ 60 ∷ 0 ∷ 4 ∷ []) ++ ip
tail_of false ip = []

abbrev reply_of : Bool → List ℕ → List ℕ → ℕ → List ℕ
reply_of a ip q stop = answer_header q a ++ (question q stop ++ tail_of a ip)

abbrev total_of : List ℕ → ℕ → ℕ
total_of q stop = hdr_size + (stop + 4 - hdr_size) + (if read16 q stop == 1 then 16 else 0)

respond-some :
    (ip q : List ℕ) (cap stop : ℕ)
    → stop + 4 ≤ length q
    → total_of q stop ≤ cap
    → respond ip q cap stop ≡ some (reply_of (read16 q stop == 1) ip q stop)
unfolding respond answer_record
respond-some ip q cap stop inside fits =
    let in_time : ltb (length q) (stop + 4) ≡ false = ground arith in
    let in_room : ltb cap (total_of q stop) ≡ false = ground arith in
    rw (in_time, in_room)
      (elim (Bool-cases (read16 q stop == 1)) [
        | inl is_a ↦ rw is_a refl
        | inr other ↦ rw other refl
      ])

some-respond :
    (ip q r : List ℕ) (cap stop : ℕ)
    → respond ip q cap stop ≡ some r
    → (stop + 4 ≤ length q) × (total_of q stop ≤ cap)
unfolding respond
some-respond ip q r cap stop = elim (Bool-cases (ltb (length q) (stop + 4))) [
  | inl short ↦ rw short (λ h. absurd cc)
  | inr inside ↦ rw inside (elim (Bool-cases (ltb cap (total_of q stop))) [
    | inl full ↦ rw full (λ h. absurd cc)
    | inr fits ↦ rw fits (λ h. (ground arith, ground arith))
  ])
]

length-question :
    (q : List ℕ) (stop : ℕ) → stop + 4 ≤ length q → length (question q stop) ≡ stop + 4 - hdr_size
length-question q stop inside =
    omega (arith, length-take (stop + 4 - hdr_size) (drop hdr_size q), length-drop hdr_size q)

module _ (a : Bool) (ip q : List ℕ) (stop : ℕ) (inside : stop + 4 ≤ length q) where
  body : drop hdr_size (reply_of a ip q stop) ≡ question q stop ++ tail_of a ip
  unfolding answer_header
  body = refl

  same_question : question (reply_of a ip q stop) stop ≡ question q stop
  same_question =
      ap (λ l. take (stop + 4 - hdr_size) l) body
      ∙ take-append (question q stop) (tail_of a ip) (stop + 4 - hdr_size)
          (omega (arith, length-question q stop inside))
      ∙ take-all (stop + 4 - hdr_size) (question q stop)
          (omega (arith, length-question q stop inside))

  tail_after : drop (stop + 4 - hdr_size) (drop hdr_size (reply_of a ip q stop)) ≡ tail_of a ip
  tail_after =
      ap (λ l. drop (stop + 4 - hdr_size) l) body
      ∙ drop-append_ge (question q stop) (tail_of a ip) (stop + 4 - hdr_size) 0
          (omega (arith, length-question q stop inside))

  length-reply :
      length ip ≡ 4
      → hdr_size ≤ stop
      → length (reply_of a ip q stop) ≡ hdr_size + (stop + 4 - hdr_size) + (if a then 16 else 0)
  unfolding answer_header
  length-reply four past = omega (
    arith,
    length-append (question q stop) (tail_of a ip),
    length-question q stop inside,
    length-tail,
  )
    where
      length-tail : length (tail_of a ip) ≡ (if a then 16 else 0)
      length-tail = elim a as (λ b. length (tail_of b ip) ≡ (if b then 16 else 0)) [
        | true ↦ omega arith
        | false ↦ refl
      ]

-- A reply answers its question, whichever it is.
reply-Answers :
    (ip q : List ℕ) (stop : ℕ)
    → stop + 4 ≤ length q
    → Answers ip q stop (reply_of (read16 q stop == 1) ip q stop)
unfolding answer_header
reply-Answers ip q stop inside = elim (Bool-cases (read16 q stop == 1)) [
  | inl is_a ↦ rw is_a (record {
    id = refl;
    same = same_question true ip q stop inside;
    count = refl;
    authorities = refl;
    additional = refl;
    address = λ e. (refl, refl, tail_after true ip q stop inside);
    other = λ ne. absurd (ne (ground arith));
  })
  | inr not_a ↦ rw not_a (record {
    id = refl;
    same = same_question false ip q stop inside;
    count = refl;
    authorities = refl;
    additional = refl;
    address = λ e. absurd (ground arith);
    other = λ ne. (refl, refl, tail_after false ip q stop inside);
  })
]

Skipped-cases :
    (s : Skipped)
    → (s ≡ Skipped.out_of_fuel) ⊎ (s ≡ Skipped.malformed) ⊎ ((stop : ℕ) × (s ≡ Skipped.ended stop))
Skipped-cases Skipped.out_of_fuel = inl refl
Skipped-cases Skipped.malformed = inr (inl refl)
Skipped-cases (Skipped.ended stop) = inr (inr (stop, refl))

module _ (ip q : List ℕ) (cap : ℕ) (bytes : IsBytes q) (four : length ip ≡ 4) where
  -- A question whose reply fits the buffer is answered.
  build_response-Question :
      (stop : ℕ)
      → Question q stop
      → total_of q stop ≤ cap
      → build_response ip q cap ≡ some (reply_of (read16 q stop == 1) ip q stop)
  unfolding build_response
  build_response-Question stop asks fits =
      let long : ltb (length q) hdr_size ≡ false = ground (arith, asks.has_header) in
      let one : (read16 q 4 == 1) ≡ true = ground (arith, asks.one) in
      let skipped =
        (skip_qname-ended (length q) q (length q) hdr_size stop bytes
            (omega (arith, asks.has_header))).1.1
          asks.name in
      rw (long, one, skipped) (respond-some ip q cap stop (asks.has_type) fits)

  -- Only a question is answered.
  some-build_response :
      (r : List ℕ)
      → build_response ip q cap ≡ some r
      → (stop : ℕ) × Question q stop × (total_of q stop ≤ cap)
  unfolding build_response
  some-build_response r = elim (Bool-cases (ltb (length q) hdr_size)) [
    | inl short ↦ rw short (λ h. absurd cc)
    | inr long ↦ rw long (elim (Bool-cases (read16 q 4 == 1)) [
      | inr many ↦ rw many (λ h. absurd cc)
      | inl one ↦ rw one (elim (Skipped-cases (skip_qname (length q) q (length q) hdr_size)) [
        | inl out ↦ rw out (λ h. absurd cc)
        | inr (inl bad) ↦ rw bad (λ h. absurd cc)
        | inr (inr (stop, skipped)) ↦ rw skipped (λ h.
            let sizes = some-respond ip q r cap stop h in
            let header : hdr_size ≤ length q = ground arith in
            let name =
              (skip_qname-ended (length q) q (length q) hdr_size stop bytes (omega arith)).1.0
                skipped in
            (
              stop,
              record { has_header = header; one = ground arith; name = name; has_type = sizes.0 },
              sizes.1,
            ))
      ])
    ])
  ]

  -- The server replies exactly to the datagrams with one question, and to the others, also those with several questions, not at all: every
  -- reply fits the buffer and
  -- answers the question of the datagram, and a question is replied to where 20 bytes more than it fit.
  pub build_response-Answers :
      ((r : List ℕ)
        → build_response ip q cap ≡ some r
        → (stop : ℕ) × (length r ≤ cap) × Question q stop × Answers ip q stop r)
      × ((stop : ℕ)
          → Question q stop
          → stop + 20 ≤ cap
          → (r : List ℕ) × (build_response ip q cap ≡ some r))
  build_response-Answers = (
    λ r h.
        let (stop, asks, fits) = some-build_response r h in
        let reply = reply_of (read16 q stop == 1) ip q stop in
        let same : reply ≡ r = some_eq (sym (build_response-Question stop asks fits) ∙ h) in
        let past = Name-end asks.name in
        let size =
          length-reply (read16 q stop == 1) ip q stop asks.has_type four (omega (arith, past)) in
        (
          stop,
          subst (λ l. length l ≤ cap) same (omega arith),
          asks,
          subst (λ l. Answers ip q stop l) same (reply-Answers ip q stop asks.has_type),
        ),
    λ stop asks fits.
        let past = Name-end asks.name in
        (reply_of (read16 q stop == 1) ip q stop, build_response-Question stop asks (ground arith)),
  )
