-- ===== src/Passive/Matching.antt =====
-- The order in which src/passive/Passive.cpp matches senders and receivers of the same tag and rank.
use gaspi_cxx.Common.{
  ◌≡◌, ◌⊎◌, inl, inr, refl, sym, ap, subst, ◌∙◌, true, if◌then◌else◌, List, [], ◌∷◌, ◌++◌,
  append_assoc, append_nil, Option, none, some, Result, ok, Result-cases, Bool-cases, Option-cases,
  ◌>>=◌, arith,
}
use gaspi_cxx.Contexts.Gaspi.{BufferDescription}
use gaspi_cxx.Passive.{Key, same_key, insert, erase, Waiting, match_src, match_rcv}

-- A call of `handleTaggedSrcBufferDesc` or `handleTaggedRcvBufferDesc`.
pub data Call : Type 0 where
  src_call rcv_call : Key → BufferDescription → Call

abbrev pub match_call :
    Call → Waiting → Result (Waiting × Option (BufferDescription × BufferDescription))
match_call (src_call key desc) w = match_src key desc w
match_call (rcv_call key desc) w = match_rcv key desc w

abbrev pub key_of : Call → Key
key_of (src_call key desc) = key
key_of (rcv_call key desc) = key

-- What communicates: the key, the source and the receiver.
abbrev pub Pairing : Type 0
Pairing = Key × BufferDescription × BufferDescription

abbrev note : Key → Option (BufferDescription × BufferDescription) → List Pairing
note key none = []
note key (some (src, rcv)) = (key, src, rcv) ∷ []

-- Calls one after another, in the order in which they get the mutex.
unfoldable pub run : List Call → Waiting → Result (Waiting × List Pairing)
run [] w = ok (w, [])
run (call ∷ calls) w = do
  (w', found) ← match_call call w
  (w'', pairings) ← run calls w'
  ok (w'', note (key_of call) found ++ pairings)

-- What of one key is called for, and what communicates.
abbrev pub sources_of : Key → List Call → List BufferDescription
sources_of k [] = []
sources_of k (src_call key desc ∷ calls) =
    let rest = sources_of k calls in if same_key k key then desc ∷ rest else rest
sources_of k (rcv_call key desc ∷ calls) = sources_of k calls

abbrev pub receivers_of : Key → List Call → List BufferDescription
receivers_of k [] = []
receivers_of k (src_call key desc ∷ calls) = receivers_of k calls
receivers_of k (rcv_call key desc ∷ calls) =
    let rest = receivers_of k calls in if same_key k key then desc ∷ rest else rest

abbrev pub paired_sources : Key → List Pairing → List BufferDescription
paired_sources k [] = []
paired_sources k ((key, src, rcv) ∷ pairings) =
    let rest = paired_sources k pairings in if same_key k key then src ∷ rest else rest

abbrev pub paired_receivers : Key → List Pairing → List BufferDescription
paired_receivers k [] = []
paired_receivers k ((key, src, rcv) ∷ pairings) =
    let rest = paired_receivers k pairings in if same_key k key then rcv ∷ rest else rest

abbrev pub optional : Option BufferDescription → List BufferDescription
optional none = []
optional (some desc) = desc ∷ []

-- At most one side waits.
abbrev pub OneSide : Key → Waiting → Type 0
OneSide k w = (w.src_target_buffers k ≡ none) ⊎ (w.rcv_target_buffers k ≡ none)

-- Of one key: the sources waiting before and called for are the sources paired and still waiting, in this
-- order, and the same for the receivers.
abbrev Balanced : Key → Waiting → List Call → List Pairing → Waiting → Type 0
Balanced k w calls pairings w' =
    (optional (w.src_target_buffers k) ++ sources_of k calls
      ≡ paired_sources k pairings ++ optional (w'.src_target_buffers k))
    × (optional (w.rcv_target_buffers k) ++ receivers_of k calls
        ≡ paired_receivers k pairings ++ optional (w'.rcv_target_buffers k))
    × OneSide k w'

same_key_eq : (a b : Key) → same_key a b ≡ true → a ≡ b
same_key_eq a b h =
    let tags : a.tag ≡ b.tag = ground arith in let ranks : a.rank ≡ b.rank = ground arith in cc

match_src_cases :
    (key : Key) (src : BufferDescription) (w w' : Waiting)
    (found : Option (BufferDescription × BufferDescription))
    → match_src key src w ≡ ok (w', found)
    → ((rcv : BufferDescription) × (w.rcv_target_buffers key ≡ some rcv)
        × (w' ≡ record w { rcv_target_buffers = erase key w.rcv_target_buffers })
        × (found ≡ some (src, rcv)))
      ⊎ ((w.rcv_target_buffers key ≡ none)
          × (w.src_target_buffers key ≡ none)
          × (w' ≡ record w { src_target_buffers = insert key src w.src_target_buffers })
          × (found ≡ none))
unfolding match_src
match_src_cases key src w w' found h = elim (Option-cases (w.rcv_target_buffers key)) [
  | inl nothing ↦ elim (Option-cases (w.src_target_buffers key)) [
    | inl free ↦ inr (nothing, free, ground (arith, nothing, free), ground (arith, nothing, free))
    | inr (old, taken) ↦ ground (arith, nothing, taken)
  ]
  | inr (rcv, waits) ↦ inl (rcv, waits, ground (arith, waits), ground (arith, waits))
]

match_rcv_cases :
    (key : Key) (mine : BufferDescription) (w w' : Waiting)
    (found : Option (BufferDescription × BufferDescription))
    → match_rcv key mine w ≡ ok (w', found)
    → ((theirs : BufferDescription) × (w.src_target_buffers key ≡ some theirs)
        × (w' ≡ record w { src_target_buffers = erase key w.src_target_buffers })
        × (found ≡ some (theirs, mine)))
      ⊎ ((w.src_target_buffers key ≡ none)
          × (w.rcv_target_buffers key ≡ none)
          × (w' ≡ record w { rcv_target_buffers = insert key mine w.rcv_target_buffers })
          × (found ≡ none))
unfolding match_rcv
match_rcv_cases key mine w w' found h = elim (Option-cases (w.src_target_buffers key)) [
  | inl nothing ↦ elim (Option-cases (w.rcv_target_buffers key)) [
    | inl free ↦ inr (nothing, free, ground (arith, nothing, free), ground (arith, nothing, free))
    | inr (old, taken) ↦ ground (arith, nothing, taken)
  ]
  | inr (src, waits) ↦ inl (src, waits, ground (arith, waits), ground (arith, waits))
]

-- One call of `handleTaggedSrcBufferDesc`, for the descriptions of one key.
match_src_lem :
    (k key : Key) (src : BufferDescription) (w w' : Waiting)
    (found : Option (BufferDescription × BufferDescription))
    → OneSide k w
    → match_src key src w ≡ ok (w', found)
    → Balanced k w (src_call key src ∷ []) (note key found) w'
match_src_lem k key src w w' found one h = elim (Bool-cases (same_key k key)) [
  | inl same ↦
      let eq = same_key_eq k key same in
      elim (match_src_cases key src w w' found h) [
        | inl (rcv, waits, ew, ef) ↦
            let waits' : w.rcv_target_buffers k ≡ some rcv =
              subst (λ x. w.rcv_target_buffers x ≡ some rcv) (sym eq) waits in
            let free : w.src_target_buffers k ≡ none = elim one [
              | inl none_waits ↦ none_waits
              | inr none_waits ↦ cc
            ] in
            rw (ef, ew, same, waits', free) (refl, refl, inl refl)
        | inr (no_rcv, no_src, ew, ef) ↦
            let no_rcv' : w.rcv_target_buffers k ≡ none =
              subst (λ x. w.rcv_target_buffers x ≡ none) (sym eq) no_rcv in
            let no_src' : w.src_target_buffers k ≡ none =
              subst (λ x. w.src_target_buffers x ≡ none) (sym eq) no_src in
            rw (ef, ew, same, no_rcv', no_src') (refl, refl, inr refl)
      ]
  | inr other ↦ elim (match_src_cases key src w w' found h) [
    | inl (rcv, waits, ew, ef) ↦
        rw (ef, ew, other)
          (
            append_nil (optional (w.src_target_buffers k)),
            append_nil (optional (w.rcv_target_buffers k)),
            one,
          )
    | inr (no_rcv, no_src, ew, ef) ↦
        rw (ef, ew, other)
          (
            append_nil (optional (w.src_target_buffers k)),
            append_nil (optional (w.rcv_target_buffers k)),
            one,
          )
  ]
]

-- One call of `handleTaggedRcvBufferDesc`, for the descriptions of one key.
match_rcv_lem :
    (k key : Key) (mine : BufferDescription) (w w' : Waiting)
    (found : Option (BufferDescription × BufferDescription))
    → OneSide k w
    → match_rcv key mine w ≡ ok (w', found)
    → Balanced k w (rcv_call key mine ∷ []) (note key found) w'
match_rcv_lem k key mine w w' found one h = elim (Bool-cases (same_key k key)) [
  | inl same ↦
      let eq = same_key_eq k key same in
      elim (match_rcv_cases key mine w w' found h) [
        | inl (theirs, waits, ew, ef) ↦
            let waits' : w.src_target_buffers k ≡ some theirs =
              subst (λ x. w.src_target_buffers x ≡ some theirs) (sym eq) waits in
            let free : w.rcv_target_buffers k ≡ none = elim one [
              | inl none_waits ↦ cc
              | inr none_waits ↦ none_waits
            ] in
            rw (ef, ew, same, waits', free) (refl, refl, inr refl)
        | inr (no_theirs, no_mine, ew, ef) ↦
            let no_theirs' : w.src_target_buffers k ≡ none =
              subst (λ x. w.src_target_buffers x ≡ none) (sym eq) no_theirs in
            let no_mine' : w.rcv_target_buffers k ≡ none =
              subst (λ x. w.rcv_target_buffers x ≡ none) (sym eq) no_mine in
            rw (ef, ew, same, no_theirs', no_mine') (refl, refl, inl refl)
      ]
  | inr other ↦ elim (match_rcv_cases key mine w w' found h) [
    | inl (theirs, waits, ew, ef) ↦
        rw (ef, ew, other)
          (
            append_nil (optional (w.src_target_buffers k)),
            append_nil (optional (w.rcv_target_buffers k)),
            one,
          )
    | inr (no_theirs, no_mine, ew, ef) ↦
        rw (ef, ew, other)
          (
            append_nil (optional (w.src_target_buffers k)),
            append_nil (optional (w.rcv_target_buffers k)),
            one,
          )
  ]
]

match_call_lem :
    (k : Key) (call : Call) (w w' : Waiting)
    (found : Option (BufferDescription × BufferDescription))
    → OneSide k w
    → match_call call w ≡ ok (w', found)
    → Balanced k w (call ∷ []) (note (key_of call) found) w'
match_call_lem k (src_call key desc) w w' found one h = match_src_lem k key desc w w' found one h
match_call_lem k (rcv_call key desc) w w' found one h = match_rcv_lem k key desc w w' found one h

chain :
    (a s1 p1 b s2 p2 c : List BufferDescription)
    → a ++ s1 ≡ p1 ++ b
    → b ++ s2 ≡ p2 ++ c
    → a ++ (s1 ++ s2) ≡ (p1 ++ p2) ++ c
chain a s1 p1 b s2 p2 c h h' =
    sym (append_assoc a s1 s2)
    ∙ ap (λ l. l ++ s2) h
    ∙ append_assoc p1 b s2
    ∙ ap (λ l. p1 ++ l) h'
    ∙ sym (append_assoc p1 p2 c)

sources_of_cons :
    (k : Key) (call : Call) (calls : List Call)
    → sources_of k (call ∷ calls) ≡ sources_of k (call ∷ []) ++ sources_of k calls
sources_of_cons k (src_call key desc) calls = ground arith
sources_of_cons k (rcv_call key desc) calls = refl

receivers_of_cons :
    (k : Key) (call : Call) (calls : List Call)
    → receivers_of k (call ∷ calls) ≡ receivers_of k (call ∷ []) ++ receivers_of k calls
receivers_of_cons k (src_call key desc) calls = refl
receivers_of_cons k (rcv_call key desc) calls = ground arith

paired_append :
    (k key : Key) (found : Option (BufferDescription × BufferDescription)) (others : List Pairing)
    → (paired_sources k (note key found ++ others)
        ≡ paired_sources k (note key found) ++ paired_sources k others)
      × (paired_receivers k (note key found ++ others)
          ≡ paired_receivers k (note key found) ++ paired_receivers k others)
paired_append k key none others = (refl, refl)
paired_append k key (some (src, rcv)) others = (ground arith, ground arith)

-- From any state of the maps in which at most one side of the key waits.
run_lem :
    (k : Key) (calls : List Call) (w w' : Waiting) (pairings : List Pairing)
    → OneSide k w
    → run calls w ≡ ok (w', pairings)
    → Balanced k w calls pairings w'
unfolding run
run_lem k [] w w' pairings one h =
    let nothing : pairings ≡ [] = ground arith in
    let same : w' ≡ w = ground arith in
    rw (nothing, same)
      (
        append_nil (optional (w.src_target_buffers k)),
        append_nil (optional (w.rcv_target_buffers k)),
        one,
      )
run_lem k (call ∷ calls) w w' pairings one h = elim (Result-cases (match_call call w)) [
  | inl (thrown, e) ↦ absurd (ground (arith, e))
  | inr ((w1, found), e) ↦ elim (Result-cases (run calls w1)) [
    | inl (thrown, e') ↦ absurd (ground (arith, e, e'))
    | inr ((w2, others), e') ↦
        let (s1, r1, one1) = match_call_lem k call w w1 found one e in
        let (s2, r2, one2) = run_lem k calls w1 w2 others one1 e' in
        let (sources, receivers) = paired_append k (key_of call) found others in
        let all : pairings ≡ note (key_of call) found ++ others = ground (arith, e, e') in
        let last : w' ≡ w2 = ground (arith, e, e') in
        rw
          (
            all,
            last,
            sources,
            receivers,
            sources_of_cons k call calls,
            receivers_of_cons k call calls,
          )
          (
            chain (optional (w.src_target_buffers k)) (sources_of k (call ∷ []))
                (paired_sources k (note (key_of call) found)) (optional (w1.src_target_buffers k))
                (sources_of k calls) (paired_sources k others) (optional (w2.src_target_buffers k))
                s1 s2,
            chain (optional (w.rcv_target_buffers k)) (receivers_of k (call ∷ []))
                (paired_receivers k (note (key_of call) found)) (optional (w1.rcv_target_buffers k))
                (receivers_of k calls) (paired_receivers k others)
                (optional (w2.rcv_target_buffers k)) r1 r2,
            one2,
          )
  ]
]

abbrev pub no_one : Waiting
no_one = record { src_target_buffers = λ k. none; rcv_target_buffers = λ k. none }

-- From empty maps, in whatever order senders and receivers come in, and for every tag and rank: when no
-- call throws, the sources that communicate and then the one that still waits are the sources in the order
-- of their calls, and so are the receivers; and at most one side still waits. So the i-th
-- source of a tag and rank communicates with the i-th receiver, none is lost and none is used twice.
pub matched_in_order :
    (k : Key) (calls : List Call) (w : Waiting) (pairings : List Pairing)
    → run calls no_one ≡ ok (w, pairings)
    → (sources_of k calls ≡ paired_sources k pairings ++ optional (w.src_target_buffers k))
      × (receivers_of k calls ≡ paired_receivers k pairings ++ optional (w.rcv_target_buffers k))
      × OneSide k w
matched_in_order k calls w pairings h = run_lem k calls no_one w pairings (inl refl) h
