-- ===== src/WritePsi/Carries.antt =====
-- What the one packet that `writePSI` fills carries of a section.
use libdvbtee.Base.{
  ℕ, zero, suc, ◌+◌, ◌-◌, ◌*◌, ◌/◌, ◌%◌, ◌≤◌, ◌<◌, ◌⊎◌, inl, inr, ◌≡◌, refl, ◌∙◌, ap, List, [], ◌∷◌,
  ◌++◌, arith, length, take, drop, replicate, length-append, length-take, length-drop,
  take_of_length-le, drop-drop,
}
use libdvbtee.WritePsi.{
  Section, Packet, pad, first_packet, next_packet, next_packets, write_section, write_sections,
  write_psi,
}

length-replicate : (n x : ℕ) → length (replicate n x) ≡ n
length-replicate zero x = refl
length-replicate (suc n) x = ap suc (length-replicate n x)

length-pad : (n : ℕ) (src : List ℕ) → length (pad n src) ≡ n
unfolding pad
length-pad n src =
    length-append (take n src) (replicate (n - length src) 0xff)
    ∙ omega (arith, length-take n src, length-replicate (n - length src) 0xff)

pad-short :
    (n : ℕ) (src : List ℕ) → length src ≤ n → pad n src ≡ src ++ replicate (n - length src) 0xff
unfolding pad
pad-short n src h = ap (λ xs. xs ++ replicate (n - length src) 0xff) (take_of_length-le n src h)

next_packets-nil :
    (fuel : ℕ) (rest : List ℕ) (p : Packet) → length rest ≡ 0 → next_packets fuel rest p ≡ p
unfolding next_packets
next_packets-nil fuel [] p h = refl
next_packets-nil fuel (x ∷ rest) p h = ground arith

write_section_short :
    (s : Section) (p : Packet) → length s ≤ 183 → write_section s p ≡ first_packet s p
unfolding write_section
write_section_short s p h =
    next_packets-nil (length s) (drop 183 s) (first_packet s p) (omega (arith, length-drop 183 s))

-- A section that fits is in the packet whole, behind a pointer field of 0, and the rest is filled up; the
-- packet is 188 bytes long, starts a payload unit, and has the next continuity counter.
pub write_psi_carries :
    (p : Packet) (s : Section)
    → length s ≤ 183
    → let q = write_psi p (s ∷ []) in
      (q.sync ≡ 0x47)
      × (q.body ≡ 0 ∷ s ++ replicate (183 - length s) 0xff)
      × (length q.body ≡ 184)
      × (q.flags / 64 % 2 ≡ 1)
      × (q.counter ≡ (p.counter + 1) % 16)
unfolding write_psi write_sections first_packet
write_psi_carries p s h =
    rw (write_section_short s (record p { sync = 0x47 }) h)
      (refl, ap (◌∷◌ 0) (pad-short 183 s h), ap suc (length-pad 183 s), ground arith, omega arith)

le-or-lt : (m n : ℕ) → (m ≤ n) ⊎ (n < m)
le-or-lt m n = ground arith

-- where the last round of the inner loop starts
next_packets-last :
    (fuel : ℕ) (rest : List ℕ) (p : Packet)
    → 0 < length rest
    → length rest ≤ fuel
    → let q = next_packets fuel rest p in
      (k : ℕ) × (q.body ≡ pad 184 (drop (184 * k) rest))
      × (184 * k < length rest)
      × (length rest ≤ 184 * k + 184)
      × (q.flags / 64 % 2 ≡ 0)
unfolding next_packets next_packet
next_packets-last fuel [] p h f = absurd (omega arith)
next_packets-last zero (x ∷ rest) p h f = absurd (omega arith)
next_packets-last (suc fuel) (x ∷ rest) p h f =
    let left = drop 184 (x ∷ rest) in
    let l : length left ≡ length (x ∷ rest) - 184 = length-drop 184 (x ∷ rest) in
    let q = next_packet (x ∷ rest) p in
    elim (le-or-lt (length (x ∷ rest)) 184) [
      | inl le ↦
          rw (next_packets-nil fuel left q (omega arith))
            (0, refl, omega arith, omega arith, ground arith)
      | inr lt ↦
          (let (k, body, below, above, flag) =
              next_packets-last fuel left q (omega arith) (omega arith) in
            (
              k + 1,
              body
                  ∙ ap (pad 184) (
                      drop-drop 184 (184 * k) (x ∷ rest)
                      ∙ ap (λ n. drop n (x ∷ rest)) {x = 184 + 184 * k} {y = 184 * (k + 1)}
                          (omega arith)),
              omega arith,
              omega arith,
              flag,
            ))
    ]

-- Of a section that does not fit only the end is in the packet: what the last round of the inner loop
-- copied, after at least its first 183 bytes, and the packet does not start a payload unit.
pub write_psi_loses :
    (p : Packet) (s : Section)
    → 183 < length s
    → let q = write_psi p (s ∷ []) in
      (k : ℕ) × (q.body ≡ pad 184 (drop (183 + 184 * k) s))
      × (183 + 184 * k < length s)
      × (length s ≤ 183 + 184 * k + 184)
      × (q.flags / 64 % 2 ≡ 0)
unfolding write_psi write_sections write_section
write_psi_loses p s h =
    let (k, body, below, above, flag) =
      next_packets-last (length s) (drop 183 s) (first_packet s (record p { sync = 0x47 }))
        (omega (arith, length-drop 183 s)) (omega (arith, length-drop 183 s)) in
    (
      k,
      body ∙ ap (pad 184) (drop-drop 183 (184 * k) s),
      omega (arith, length-drop 183 s),
      omega (arith, length-drop 183 s),
      flag,
    )
