-- ===== src/Relay/Framing/Flush.antt =====
-- The first frame of a buffer, and one round of the loop of `Write`.
use shell_watch.Base.{
  ℕ, zero, suc, ◌+◌, ◌≤◌, ◌<◌, ◌≡◌, refl, sym, ◌∙◌, Bool, true, false, none, some, List, [], ◌∷◌,
  ◌++◌, length, take, drop, length-append, length-drop, drop-append, take-append, Bool-cases,
  Option-cases, inl, inr, arith,
}
use shell_watch.Relay.Wire.{two_32, be32, be32-take, be32-append}
use shell_watch.Relay.Framing.{Writer, first_frame, flush}

-- A frame that is there whole has room in the buffer.
pub first_frame_inv :
    (buf frame rest : List ℕ)
    → first_frame buf ≡ some (frame, rest)
    → length buf < two_32
    → (4 ≤ length buf)
      × (4 + be32 buf ≤ length buf)
      × (frame ≡ take (4 + be32 buf) buf)
      × (rest ≡ drop (4 + be32 buf) buf)
unfolding first_frame
first_frame_inv buf frame rest e h = ground (arith, be32-take buf)

pub first_frame_whole :
    (buf : List ℕ)
    → 4 ≤ length buf
    → 4 + be32 buf ≤ length buf
    → length buf < two_32
    → first_frame buf ≡ some (take (4 + be32 buf) buf, drop (4 + be32 buf) buf)
unfolding first_frame
first_frame_whole buf h k l = ground (arith, be32-take buf)

-- More bytes do not change the first frame.
pub first_frame-append :
    (buf p frame rest : List ℕ)
    → first_frame buf ≡ some (frame, rest)
    → length (buf ++ p) < two_32
    → (first_frame (buf ++ p) ≡ some (frame, rest ++ p)) × (length rest + 4 ≤ length buf)
first_frame-append buf p frame rest e h =
    let size : length (buf ++ p) ≡ length buf + length p = length-append buf p in
    let v = first_frame_inv buf frame rest e (omega arith) in
    let same : be32 (buf ++ p) ≡ be32 buf = be32-append buf p v.0 in
    (
      first_frame_whole (buf ++ p) (omega arith) (omega arith) h
          ∙ rw (
            same,
            take-append (4 + be32 buf) buf p v.1,
            drop-append (4 + be32 buf) buf p v.1,
            sym v.2,
            sym v.3,
          ),
      rw v.3 (omega (arith, length-drop (4 + be32 buf) buf, v.1)),
    )

pub first_frame_short : (buf : List ℕ) → length buf < 4 → first_frame buf ≡ none
unfolding first_frame
first_frame_short buf h = ground arith

pub no_true : false ≡ true → ⊥
no_true e = cc

pub shorter :
    (buf frame rest : List ℕ)
    → first_frame buf ≡ some (frame, rest)
    → length buf < two_32
    → length rest + 4 ≤ length buf
shorter buf frame rest e h =
    let v = first_frame_inv buf frame rest e h in
    rw v.3 (omega (arith, length-drop (4 + be32 buf) buf, v.1))

pub rest_fits :
    (c : Writer) (p frame rest : List ℕ)
    → first_frame c.write_buf ≡ some (frame, rest)
    → length (c.write_buf ++ p) < two_32
    → (length (rest ++ p) < two_32)
      × (length (rest ++ p) + 4 ≤ length (c.write_buf ++ p))
      × (length rest + 4 ≤ length c.write_buf)
rest_fits c p frame rest e h =
    let v = (first_frame-append c.write_buf p frame rest e h).1 in
    (
      omega (arith, length-append rest p, length-append c.write_buf p),
      omega (arith, length-append rest p, length-append c.write_buf p),
      v,
    )

module _ (accepts : ℕ → Bool) where
  pub flush_done :
      (f : ℕ) (c : Writer) → first_frame c.write_buf ≡ none → flush accepts f c ≡ (c, true)
  unfolding flush
  flush_done zero c e = refl
  flush_done (suc f) c e = rw (e, flush)

  pub flush_sent :
      (f : ℕ) (c : Writer) (frame rest : List ℕ)
      → first_frame c.write_buf ≡ some (frame, rest)
      → accepts (length c.sent) ≡ true
      → flush accepts (suc f) c
        ≡ flush accepts f (record { write_buf = rest; sent = c.sent ++ frame ∷ [] })
  unfolding flush
  flush_sent f c frame rest e t = rw (e, t, flush)

  pub flush_refused :
      (f : ℕ) (c : Writer) (frame rest : List ℕ)
      → first_frame c.write_buf ≡ some (frame, rest)
      → accepts (length c.sent) ≡ false
      → flush accepts (suc f) c ≡ (c, false)
  unfolding flush
  flush_refused f c frame rest e t = rw (e, t, flush)

  pub flush_shrinks :
      (f : ℕ) (c : Writer)
      → length c.write_buf < two_32
      → length (flush accepts f c).0.write_buf ≤ length c.write_buf
  flush_shrinks zero c h = unfold flush in omega arith
  flush_shrinks (suc f) c h = elim (Option-cases (first_frame c.write_buf)) [
    | inl e ↦ rw (flush_done (suc f) c e) (omega arith)
    | inr (x, e) ↦ elim (Bool-cases (accepts (length c.sent))) [
      | inr t ↦ rw (flush_refused f c x.0 x.1 e t) (omega arith)
      | inl t ↦ rw (flush_sent f c x.0 x.1 e t) (
          omega (
            arith,
            shorter c.write_buf x.0 x.1 e h,
            flush_shrinks f (record { write_buf = x.1; sent = c.sent ++ x.0 ∷ [] }),
          ))
    ]
  ]

  -- Fuel beyond the length of the buffer changes nothing.
  pub flush_fuel :
      (f g : ℕ) (c : Writer)
      → length c.write_buf < two_32
      → length c.write_buf ≤ f
      → length c.write_buf ≤ g
      → flush accepts f c ≡ flush accepts g c
  flush_fuel zero g c h k l =
      flush_done zero c (first_frame_short c.write_buf (omega arith))
      ∙ sym (flush_done g c (first_frame_short c.write_buf (omega arith)))
  flush_fuel (suc f) zero c h k l =
      flush_done (suc f) c (first_frame_short c.write_buf (omega arith))
      ∙ sym (flush_done zero c (first_frame_short c.write_buf (omega arith)))
  flush_fuel (suc f) (suc g) c h k l = elim (Option-cases (first_frame c.write_buf)) [
    | inl e ↦ flush_done (suc f) c e ∙ sym (flush_done (suc g) c e)
    | inr (x, e) ↦ elim (Bool-cases (accepts (length c.sent))) [
      | inr t ↦ flush_refused f c x.0 x.1 e t ∙ sym (flush_refused g c x.0 x.1 e t)
      | inl t ↦
          let less : length x.1 + 4 ≤ length c.write_buf = shorter c.write_buf x.0 x.1 e h in
          flush_sent f c x.0 x.1 e t
          ∙ flush_fuel f g (record { write_buf = x.1; sent = c.sent ++ x.0 ∷ [] }) (omega arith)
              (omega arith) (omega arith)
          ∙ sym (flush_sent g c x.0 x.1 e t)
    ]
  ]

  -- The first frame goes out of a longer buffer as out of a shorter one.
  pub more_sent :
      (g : ℕ) (c : Writer) (p frame rest : List ℕ)
      → first_frame c.write_buf ≡ some (frame, rest)
      → accepts (length c.sent) ≡ true
      → length (c.write_buf ++ p) < two_32
      → length (c.write_buf ++ p) ≤ g
      → flush accepts g (record c { write_buf = c.write_buf ++ p })
        ≡ flush accepts g (record { write_buf = rest ++ p; sent = c.sent ++ frame ∷ [] })
  more_sent zero c p frame rest e t h l = absurd (omega (arith, (rest_fits c p frame rest e h).1))
  more_sent (suc g) c p frame rest e t h l =
      flush_sent g (record c { write_buf = c.write_buf ++ p }) frame (rest ++ p)
        (first_frame-append c.write_buf p frame rest e h).0 t
      ∙ flush_fuel g (suc g) (record { write_buf = rest ++ p; sent = c.sent ++ frame ∷ [] })
          (rest_fits c p frame rest e h).0 (omega (arith, (rest_fits c p frame rest e h).1))
          (omega (arith, (rest_fits c p frame rest e h).1))

  -- After a flush that did not fail, no whole frame is left.
  pub flush_empties :
      (f : ℕ) (c : Writer)
      → length c.write_buf < two_32
      → length c.write_buf ≤ f
      → (flush accepts f c).1 ≡ true
      → first_frame (flush accepts f c).0.write_buf ≡ none
  flush_empties zero c h k o =
      rw (flush_done zero c (first_frame_short c.write_buf (omega arith)))
        (first_frame_short c.write_buf (omega arith))
  flush_empties (suc f) c h k o = elim (Option-cases (first_frame c.write_buf)) [
    | inl e ↦ rw (flush_done (suc f) c e) e
    | inr (x, e) ↦ elim (Bool-cases (accepts (length c.sent))) [
      | inr t ↦ absurd (no_true (rw (flush_refused f c x.0 x.1 e t) at o))
      | inl t ↦
          let less : length x.1 + 4 ≤ length c.write_buf = shorter c.write_buf x.0 x.1 e h in
          rw (flush_sent f c x.0 x.1 e t) (
            flush_empties f (record { write_buf = x.1; sent = c.sent ++ x.0 ∷ [] }) (omega arith)
              (omega arith) (rw (flush_sent f c x.0 x.1 e t) at o))
    ]
  ]
