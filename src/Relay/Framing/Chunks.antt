-- ===== src/Relay/Framing/Chunks.antt =====
-- What goes out does not depend on how the server's writes cut the stream.
use mathlib.Core.List.{flatten}
use shell_watch.Base.{
  ℕ, zero, suc, ◌+◌, ◌≤◌, ◌<◌, ◌≡◌, refl, sym, ap, ◌∙◌, Bool, true, false, none, some, List, [],
  ◌∷◌, ◌++◌, append_assoc, append-nil, length, length-append, Bool-cases, Option-cases, inl, inr,
  arith,
}
use shell_watch.Relay.Wire.{two_32}
use shell_watch.Relay.Framing.{Writer, new_writer, first_frame, flush, write, write_all}
use shell_watch.Relay.Framing.Flush.{
  first_frame-append, first_frame_short, no_true, rest_fits, flush_done, flush_sent, flush_refused,
  flush_shrinks, flush_fuel, more_sent, flush_empties,
}

module _ (accepts : ℕ → Bool) where
  -- More bytes after a flush, or before it.
  flush_more :
      (f g : ℕ) (c : Writer) (p : List ℕ)
      → length (c.write_buf ++ p) < two_32
      → length c.write_buf ≤ f
      → length (c.write_buf ++ p) ≤ g
      → (flush accepts f c).1 ≡ true
      → flush accepts g
          (record (flush accepts f c).0 { write_buf = (flush accepts f c).0.write_buf ++ p })
        ≡ flush accepts g (record c { write_buf = c.write_buf ++ p })
  flush_more zero g c p h k l o =
      rw (flush_done accepts zero c (first_frame_short c.write_buf (omega arith))) refl
  flush_more (suc f) g c p h k l o = elim (Option-cases (first_frame c.write_buf)) [
    | inl e ↦ rw (flush_done accepts (suc f) c e) refl
    | inr (x, e) ↦ elim (Bool-cases (accepts (length c.sent))) [
      | inr t ↦ absurd (no_true (rw (flush_refused accepts f c x.0 x.1 e t) at o))
      | inl t ↦ rw (flush_sent accepts f c x.0 x.1 e t) (
          flush_more f g (record { write_buf = x.1; sent = c.sent ++ x.0 ∷ [] }) p
            (rest_fits c p x.0 x.1 e h).0 (ground (arith, rest_fits c p x.0 x.1 e h))
            (omega (arith, (rest_fits c p x.0 x.1 e h).1))
            (rw (flush_sent accepts f c x.0 x.1 e t) at o)
          ∙ sym (more_sent accepts g c p x.0 x.1 e t h l))
    ]
  ]

  more_refused :
      (g : ℕ) (c : Writer) (p frame rest : List ℕ)
      → first_frame c.write_buf ≡ some (frame, rest)
      → accepts (length c.sent) ≡ false
      → length (c.write_buf ++ p) < two_32
      → length (c.write_buf ++ p) ≤ g
      → flush accepts g (record c { write_buf = c.write_buf ++ p })
        ≡ (record c { write_buf = c.write_buf ++ p }, false)
  more_refused zero c p frame rest e t h l =
      absurd (omega (arith, (rest_fits c p frame rest e h).1))
  more_refused (suc g) c p frame rest e t h l =
      flush_refused accepts g (record c { write_buf = c.write_buf ++ p }) frame (rest ++ p)
        (first_frame-append c.write_buf p frame rest e h).0 t

  -- A flush that failed fails at the same frame with more bytes behind it.
  flush_more_refused :
      (f g : ℕ) (c : Writer) (p : List ℕ)
      → length (c.write_buf ++ p) < two_32
      → length c.write_buf ≤ f
      → length (c.write_buf ++ p) ≤ g
      → (flush accepts f c).1 ≡ false
      → ((flush accepts g (record c { write_buf = c.write_buf ++ p })).0.sent
          ≡ (flush accepts f c).0.sent)
        × ((flush accepts g (record c { write_buf = c.write_buf ++ p })).1 ≡ false)
  flush_more_refused zero g c p h k l o = absurd (
      no_true
        (sym (rw (flush_done accepts zero c (first_frame_short c.write_buf (omega arith))) at o)))
  flush_more_refused (suc f) g c p h k l o = elim (Option-cases (first_frame c.write_buf)) [
    | inl e ↦ absurd (no_true (sym (rw (flush_done accepts (suc f) c e) at o)))
    | inr (x, e) ↦ elim (Bool-cases (accepts (length c.sent))) [
      | inr t ↦
          rw (flush_refused accepts f c x.0 x.1 e t, more_refused g c p x.0 x.1 e t h l)
            (refl, refl)
      | inl t ↦
          rw (flush_sent accepts f c x.0 x.1 e t, more_sent accepts g c p x.0 x.1 e t h l)
            (flush_more_refused f g (record { write_buf = x.1; sent = c.sent ++ x.0 ∷ [] }) p
              (rest_fits c p x.0 x.1 e h).0 (ground (arith, rest_fits c p x.0 x.1 e h))
              (omega (arith, (rest_fits c p x.0 x.1 e h).1))
              (rw (flush_sent accepts f c x.0 x.1 e t) at o))
    ]
  ]

  write_more :
      (c : Writer) (p q : List ℕ)
      → length (c.write_buf ++ (p ++ q)) < two_32
      → (write accepts c p).1 ≡ true
      → write accepts (write accepts c p).0 q ≡ write accepts c (p ++ q)
  unfolding write
  write_more c p q h o =
      let c1 : Writer = record c { write_buf = c.write_buf ++ p } in
      let f : ℕ = length (c.write_buf ++ p) in
      let g : ℕ = length (c.write_buf ++ (p ++ q)) in
      let r : Writer = (flush accepts f c1).0 in
      let assoc : (c.write_buf ++ p) ++ q ≡ c.write_buf ++ (p ++ q) =
        append_assoc c.write_buf p q in
      let size : length (c1.write_buf ++ q) ≡ g = ap length assoc in
      let big : f + length q ≡ g = sym (length-append c1.write_buf q) ∙ size in
      let less : length r.write_buf ≤ f = flush_shrinks accepts f c1 (omega arith) in
      let now : length (r.write_buf ++ q) ≡ length r.write_buf + length q =
        length-append r.write_buf q in
      flush_fuel accepts (length (r.write_buf ++ q)) g (record r { write_buf = r.write_buf ++ q })
        (omega arith) (omega arith) (omega arith)
      ∙ flush_more f g c1 q (omega arith) (omega arith) (omega arith) o
      ∙ ap (λ (b : List ℕ). flush accepts g (record c { write_buf = b })) assoc

  write_more_refused :
      (c : Writer) (p q : List ℕ)
      → length (c.write_buf ++ (p ++ q)) < two_32
      → (write accepts c p).1 ≡ false
      → ((write accepts c (p ++ q)).0.sent ≡ (write accepts c p).0.sent)
        × ((write accepts c (p ++ q)).1 ≡ false)
  unfolding write
  write_more_refused c p q h o =
      let c1 : Writer = record c { write_buf = c.write_buf ++ p } in
      let f : ℕ = length (c.write_buf ++ p) in
      let g : ℕ = length (c.write_buf ++ (p ++ q)) in
      let assoc : (c.write_buf ++ p) ++ q ≡ c.write_buf ++ (p ++ q) =
        append_assoc c.write_buf p q in
      let size : length (c1.write_buf ++ q) ≡ g = ap length assoc in
      rw assoc at (flush_more_refused f g c1 q (omega arith) (omega arith) (omega arith) o)

  -- After a write that did not fail no whole frame is kept.
  write_empties :
      (c : Writer) (p : List ℕ)
      → length (c.write_buf ++ p) < two_32
      → (write accepts c p).1 ≡ true
      → first_frame (write accepts c p).0.write_buf ≡ none
  unfolding write
  write_empties c p h o =
      flush_empties accepts (length (c.write_buf ++ p)) (record c { write_buf = c.write_buf ++ p })
        h (omega arith) o

  write_grows :
      (c : Writer) (p q : List ℕ)
      → length (c.write_buf ++ (p ++ q)) < two_32
      → length ((write accepts c p).0.write_buf ++ q) < two_32
  unfolding write
  write_grows c p q h = omega (
    arith,
    length-append c.write_buf (p ++ q),
    length-append p q,
    length-append c.write_buf p,
    length-append (write accepts c p).0.write_buf q,
    flush_shrinks accepts (length (c.write_buf ++ p)) (record c { write_buf = c.write_buf ++ p }),
  )

  -- Write after write, or one write of all the bytes.
  write_all_once :
      (c : Writer) (ps : List (List ℕ))
      → first_frame c.write_buf ≡ none
      → length (c.write_buf ++ flatten ps) < two_32
      → ((write_all accepts c ps).0.sent ≡ (write accepts c (flatten ps)).0.sent)
        × ((write_all accepts c ps).1 ≡ (write accepts c (flatten ps)).1)
  unfolding write_all flatten
  write_all_once c [] e h =
      unfold write in rw (append-nil, flush_done accepts (length c.write_buf) c e) (refl, refl)
  write_all_once c (p ∷ ps) e h = elim (Bool-cases (write accepts c p).1) [
    | inl o ↦
        rw (o, write_all)
          (rw (sym (write_more c p (flatten ps) h o)) (
            write_all_once (write accepts c p).0 ps
              (write_empties c p
                (omega (
                  arith,
                  length-append c.write_buf (p ++ flatten ps),
                  length-append p (flatten ps),
                  length-append c.write_buf p,
                ))
                o)
              (write_grows c p (flatten ps) h)))
    | inr o ↦
        let v = write_more_refused c p (flatten ps) h o in rw (o, write_all) (sym v.0, sym v.1)
  ]

-- However the SSH agent server cuts its output into writes, the messages that go out, and whether
-- a write fails, are those of one write of all the bytes, if these are fewer than 2 ^ 32: whatever
-- the connection accepts.
pub write_all-flatten :
    (accepts : ℕ → Bool) (ps : List (List ℕ))
    → length (flatten ps) < two_32
    → ((write_all accepts new_writer ps).0.sent ≡ (write accepts new_writer (flatten ps)).0.sent)
      × ((write_all accepts new_writer ps).1 ≡ (write accepts new_writer (flatten ps)).1)
write_all-flatten accepts ps h =
    write_all_once accepts new_writer ps (first_frame_short [] (omega arith)) h
