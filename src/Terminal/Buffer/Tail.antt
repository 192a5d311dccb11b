-- ===== src/Terminal/Buffer/Tail.antt =====
-- `Tail`: the end of the ring, cut so that a renderer does not start inside an escape sequence.
use shell_watch.Base.{
  ℕ, zero, suc, ◌+◌, ◌-◌, ◌≤◌, ◌<◌, ◌≡◌, refl, ◌⊎◌, inl, inr, sym, drop_all, Bool, true, false,
  none, some, List, [], ◌∷◌, arith, ◌==◌, leb, length, drop, length-drop, drop-drop, contains,
  nat_eq, Bool-cases, Option-cases,
}
use shell_watch.Terminal.Buffer.{OutputBuffer, esc, index_byte, tail}

-- The list begins with the byte `c`.
abbrev pub begins_with : List ℕ → ℕ → Bool
begins_with [] c = false
begins_with (x ∷ _) c = x == c

index_byte-begins :
    (xs : List ℕ) (c i : ℕ) → index_byte xs c ≡ some i → begins_with (drop i xs) c ≡ true
unfolding index_byte
index_byte-begins [] c i h = cc
index_byte-begins (x ∷ xs) c i h = elim (Bool-cases (x == c)) [
  | inl hit ↦ ground arith
  | inr miss ↦ elim (Option-cases (index_byte xs c)) [
    | inl e ↦ ground arith
    | inr (k, e) ↦ ground (arith, index_byte-begins xs c k e)
  ]
]

index_byte-none : (xs : List ℕ) (c : ℕ) → index_byte xs c ≡ none → contains xs c ≡ false
unfolding index_byte
index_byte-none [] c h = refl
index_byte-none (x ∷ xs) c h = ground (arith, index_byte-none xs c)

-- A tail of `b` for a limit: an end of the ring within the limit, all of it where that fits, and else
-- one that begins with an escape, or the last bytes up to the limit with no escape among them.
pub record IsTail (b : OutputBuffer) (limit : ℕ) (t : List ℕ) : Type 0 where
  pub suffix : (k : ℕ) × (t ≡ drop k b.buf)
  pub within : length t ≤ limit
  pub whole : 0 < limit → length b.buf ≤ limit → t ≡ b.buf
  pub clean :
      limit < length b.buf
      → 0 < limit
      → (begins_with t esc ≡ true) ⊎ ((contains t esc ≡ false) × (length t ≡ limit))

tail_cut :
    (b : OutputBuffer) (limit : ℕ)
    → 0 < limit
    → limit < length b.buf
    → IsTail b limit (tail b limit)
tail_cut b limit p lt =
    let cut = length b.buf - limit in
    elim (Option-cases (index_byte (drop cut b.buf) esc)) [
      | inl e ↦ rw (whole_cut e) (record {
        suffix = (cut, refl);
        within = omega (arith, length-drop cut b.buf);
        whole = λ _ le. absurd (omega arith);
        clean = λ _ _.
            inr (index_byte-none (drop cut b.buf) esc e, omega (arith, length-drop cut b.buf));
      })
      | inr (i, e) ↦ rw (esc_cut i e) (record {
        suffix = (cut + i, drop-drop i cut b.buf);
        within = omega (arith, length-drop i (drop cut b.buf), length-drop cut b.buf);
        whole = λ _ le. absurd (omega arith);
        clean = λ _ _. inl (index_byte-begins (drop cut b.buf) esc i e);
      })
    ]
  where
    whole_cut :
        index_byte (drop (length b.buf - limit) b.buf) esc ≡ none
        → tail b limit ≡ drop (length b.buf - limit) b.buf
    whole_cut e = unfold tail in ground arith

    esc_cut :
        (i : ℕ)
        → index_byte (drop (length b.buf - limit) b.buf) esc ≡ some i
        → tail b limit ≡ drop i (drop (length b.buf - limit) b.buf)
    esc_cut i e = unfold tail in ground arith

-- `Tail` returns an end of the ring of at most `limit` bytes: all of the ring where it fits, and
-- where it must be cut, an end that begins with an escape, or the last `limit` bytes if there is
-- no escape among them.
pub tail-IsTail : (b : OutputBuffer) (limit : ℕ) → IsTail b limit (tail b limit)
tail-IsTail b zero = rw empty (record {
  suffix = (length b.buf, sym (drop_all (length b.buf) b.buf (omega arith)));
  within = omega arith;
  whole = λ p _. absurd (omega arith);
  clean = λ _ p. absurd (omega arith);
})
  where
    empty : tail b zero ≡ []
    empty = unfold tail in ground arith
tail-IsTail b (suc n) = elim (Bool-cases (leb (length b.buf) (suc n))) [
  | inl fits ↦ rw (all fits) (record {
    suffix = (0, refl);
    within = ground arith;
    whole = λ _ _. refl;
    clean = λ lt _. absurd (ground arith);
  })
  | inr cut ↦ tail_cut b (suc n) (omega arith) (ground arith)
]
  where
    all : leb (length b.buf) (suc n) ≡ true → tail b (suc n) ≡ b.buf
    all fits = unfold tail in ground arith
