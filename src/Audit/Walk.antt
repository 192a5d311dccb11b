-- ===== src/Audit/Walk.antt =====
-- A client that follows the cursors from the first page on.
use mathlib.Core.Option
use shell_watch.Base.{
  ℕ, zero, suc, ◌+◌, ◌≤◌, ◌<◌, ◌≡◌, refl, sym, ap, ◌∙◌, subst, Bool, true, false, ◌&&◌, Option,
  none, some, List, [], ◌∷◌, ◌++◌, leb, length, take, drop, nat_eq, arith, length-take, length-drop,
  take_all, take-append-drop, Bool-cases, inl, inr,
}
use shell_watch.Audit.{
  Key, Page, clamp_limit, precedes, is_past, where_rows, last_key, paginate, list_rows,
}

precedes_trans : (a b c : Key) → precedes a b ≡ true → precedes b c ≡ true → precedes a c ≡ true
unfolding precedes
precedes_trans a b c h k = ground arith

precedes_irrefl : (a : Key) → precedes a a ≡ false
unfolding precedes
precedes_irrefl a = ground arith

precedes_asym : (a b : Key) → precedes a b ≡ true → precedes b a ≡ false
unfolding precedes
precedes_asym a b h = ground arith

no_key : {k : Key} → none ≡ some k → ⊥
no_key e = cc

take-take_less {ℓ} : {A : Type ℓ} (n : ℕ) (xs : List A) → take n (take (suc n) xs) ≡ take n xs
take-take_less zero xs = refl
take-take_less (suc n) [] = refl
take-take_less (suc n) (x ∷ xs) = ap (◌∷◌ x) (take-take_less n xs)

too_long {ℓ} :
    {A : Type ℓ} (n : ℕ) (ys : List A) → n < length ys → leb (length (take (suc n) ys)) n ≡ false
too_long n ys h = ground (arith, length-take (suc n) ys)

and_true : (b : Bool) → (b && true) ≡ b
and_true true = refl
and_true false = refl

where_le {ℓ} : {A : Type ℓ} (p : A → Bool) (rs : List A) → length (where_rows p rs) ≤ length rs
where_le p [] = omega arith
where_le p (r ∷ rs) = ground (arith, where_le p rs)

clamp_limit_pos : (n : ℕ) → 0 < clamp_limit n
unfolding clamp_limit
clamp_limit_pos n = ground arith

module _ {ℓ} {A : Type ℓ} (key : A → Key) where
  -- Every row comes after the key, in a descending order.
  abbrev pub AreAfter : Key → List A → Type 0
  AreAfter k [] = Unit
  AreAfter k (r ∷ rs) = (precedes (key r) k ≡ true) × AreAfter k rs

  -- `ORDER BY created_at DESC, id DESC` over rows with different keys.
  abbrev pub IsDescending : List A → Type 0
  IsDescending [] = Unit
  IsDescending (r ∷ rs) = AreAfter (key r) rs × IsDescending rs

  all_past : (k : Key) (rs : List A) → AreAfter k rs → where_rows (λ r. precedes (key r) k) rs ≡ rs
  all_past k [] h = refl
  all_past k (r ∷ rs) h = rw h.0 (ap (◌∷◌ r) (all_past k rs h.1))

  -- The last of the first rows, and what the query leaves after it.
  last_after :
      (k l : Key) (n : ℕ) (rs : List A)
      → AreAfter k rs
      → last_key key (take n rs) ≡ some l
      → precedes l k ≡ true
  last_after k l zero rs h e = absurd (no_key e)
  last_after k l (suc n) [] h e = absurd (no_key e)
  last_after k l (suc zero) (r ∷ rs) h e = let q : key r ≡ l = cc in rw (sym q) h.0
  last_after k l (suc (suc n)) (r ∷ []) h e = let q : key r ≡ l = cc in rw (sym q) h.0
  last_after k l (suc (suc n)) (r ∷ t ∷ rs) h e = last_after k l (suc n) (t ∷ rs) h.1 e

  past_first :
      (l : Key) (r : A) (rs : List A)
      → AreAfter (key r) rs
      → key r ≡ l
      → where_rows (λ x. precedes (key x) l) (r ∷ rs) ≡ rs
  past_first l r rs h q =
      subst (λ k. where_rows (λ x. precedes (key x) k) (r ∷ rs) ≡ rs) q
        (rw (precedes_irrefl (key r)) (all_past (key r) rs h))

  past_last :
      (l : Key) (n : ℕ) (rs : List A)
      → IsDescending rs
      → last_key key (take n rs) ≡ some l
      → where_rows (λ r. precedes (key r) l) rs ≡ drop n rs
  past_last l zero rs d e = absurd (no_key e)
  past_last l (suc n) [] d e = absurd (no_key e)
  past_last l (suc zero) (r ∷ rs) d e = past_first l r rs d.0 (cc)
  past_last l (suc (suc n)) (r ∷ []) d e = past_first l r [] tt (cc)
  past_last l (suc (suc n)) (r ∷ t ∷ rs) d e =
      rw (precedes_asym l (key r) (last_after (key r) l (suc n) (t ∷ rs) d.0 e))
        (past_last l (suc n) (t ∷ rs) d.1 e)

  where_where :
      (p q : A → Bool) (rs : List A)
      → where_rows p (where_rows q rs) ≡ where_rows (λ r. q r && p r) rs
  where_where p q [] = refl
  where_where p q (r ∷ rs) = ground (arith, where_where p q rs)

  last_key-take :
      (n : ℕ) (rs : List A)
      → 0 < n
      → 0 < length rs
      → (l : Key) × (last_key key (take n rs) ≡ some l)
  last_key-take zero rs h k = absurd (omega arith)
  last_key-take (suc n) [] h k = absurd (omega arith)
  last_key-take (suc zero) (r ∷ rs) h k = (key r, refl)
  last_key-take (suc (suc n)) (r ∷ []) h k = (key r, refl)
  last_key-take (suc (suc n)) (r ∷ t ∷ rs) h k =
      last_key-take (suc n) (t ∷ rs) (omega arith) (omega arith)

  -- A page is all that is left, or the first rows of it and the key of the last.
  paginate_all :
      (ys : List A) (n : ℕ)
      → length ys ≤ n
      → paginate key (take (n + 1) ys) n ≡ record { rows = ys; next_cursor = none }
  unfolding paginate
  paginate_all ys n h = rw (take_all (n + 1) ys (omega arith)) (ground arith)

  paginate_first :
      (ys : List A) (n : ℕ)
      → n < length ys
      → paginate key (take (n + 1) ys) n
        ≡ record { rows = take n ys; next_cursor = last_key key (take n ys) }
  unfolding paginate
  paginate_first ys n h =
      let more : n + 1 ≡ suc n = omega arith in
      rw more (rw (too_long n ys h, take-take_less n ys) refl)

  where_same :
      (p q : A → Bool) (rs : List A) → ((r : A) → p r ≡ q r) → where_rows p rs ≡ where_rows q rs
  where_same p q [] h = refl
  where_same p q (r ∷ rs) h = rw (h r, where_same p q rs h) refl

  where-AreAfter :
      (p : A → Bool) (k : Key) (rs : List A) → AreAfter k rs → AreAfter k (where_rows p rs)
  where-AreAfter p k [] h = tt
  where-AreAfter p k (r ∷ rs) h = ground (arith, where-AreAfter p k rs h.1)

  where-IsDescending :
      (p : A → Bool) (rs : List A) → IsDescending rs → IsDescending (where_rows p rs)
  where-IsDescending p [] d = tt
  where-IsDescending p (r ∷ rs) d =
      ground (arith, where-IsDescending p rs d.1, where-AreAfter p (key r) rs d.0)

  selected-AreAfter :
      (conds : A → Bool) (c : Key) (rs : List A)
      → AreAfter c (where_rows (λ r. conds r && precedes (key r) c) rs)
  selected-AreAfter conds c [] = tt
  selected-AreAfter conds c (r ∷ rs) = ground (arith, selected-AreAfter conds c rs)

module _ {ℓ} {A : Type ℓ} (key : A → Key) (conds : A → Bool) (table : List A) (limit : ℕ) where
  -- `none` would be a walk that its fuel did not bring to the last page.
  pub walk : ℕ → Option Key → Option (List A)
  walk zero cursor = none
  walk (suc f) cursor =
      let p = list_rows key conds table cursor limit in
      elim p.next_cursor [
        | none ↦ some p.rows
        | some c ↦ Option.map (λ rest. p.rows ++ rest) (walk f (some c))
      ]

  -- What a query with a cursor selects.
  abbrev left : Option Key → List A
  left cursor = where_rows (λ r. conds r && is_past cursor (key r)) table

  -- The key of the last row of a page is past its cursor.
  last-is_past :
      (cursor : Option Key) (n : ℕ) (l : Key)
      → last_key key (take n (left cursor)) ≡ some l
      → is_past cursor l ≡ true
  last-is_past none n l e = refl
  last-is_past (some c) n l e =
      last_after key c l n (left (some c)) (selected-AreAfter key conds c table) e

  is_past-precedes :
      (cursor : Option Key) (l k : Key)
      → is_past cursor l ≡ true
      → precedes k l ≡ true
      → is_past cursor k ≡ true
  is_past-precedes none l k h p = refl
  is_past-precedes (some c) l k h p = precedes_trans k l c p h

  -- The next query selects what the page left.
  left_next :
      (cursor : Option Key) (n : ℕ) (l : Key)
      → IsDescending key table
      → last_key key (take n (left cursor)) ≡ some l
      → left (some l) ≡ drop n (left cursor)
  left_next cursor n l d e =
      let past = last-is_past cursor n l e in
      sym (
        where_where key (λ r. precedes (key r) l) (λ r. conds r && is_past cursor (key r)) table
        ∙ where_same key _ _ table (λ r.
          both (conds r) (is_past cursor (key r)) (precedes (key r) l)
            (is_past-precedes cursor l (key r) past)))
      ∙ past_last key l n (left cursor)
          (where-IsDescending key (λ r. conds r && is_past cursor (key r)) table d) e
    where
      both : (a b c : Bool) → (c ≡ true → b ≡ true) → ((a && b) && c) ≡ (a && c)
      both a b true h = rw (h refl) (ground arith)
      both a b false h = ground arith

  walk_done :
      (f : ℕ) (cursor : Option Key) (rs : List A)
      → list_rows key conds table cursor limit ≡ record { rows = rs; next_cursor = none }
      → walk (suc f) cursor ≡ some rs
  unfolding walk
  walk_done f cursor rs e = rw (e, walk) (ap (λ (p : Page A). some p.rows) e)

  walk_next :
      (f : ℕ) (cursor : Option Key) (rs ys : List A) (c : Key)
      → list_rows key conds table cursor limit ≡ record { rows = rs; next_cursor = some c }
      → walk f (some c) ≡ some ys
      → walk (suc f) cursor ≡ some (rs ++ ys)
  unfolding walk
  walk_next f cursor rs ys c e k = rw (e, walk) (rw k (ap (λ (p : Page A). some (p.rows ++ ys)) e))

  walk-left :
      (f : ℕ) (cursor : Option Key)
      → IsDescending key table
      → length (left cursor) < f
      → walk f cursor ≡ some (left cursor)
  unfolding list_rows
  walk-left zero cursor d h = absurd (omega arith)
  walk-left (suc f) cursor d h =
      let n : ℕ = clamp_limit limit in
      let ys : List A = left cursor in
      elim (Bool-cases (leb (length ys) n)) [
        | inl e ↦ walk_done f cursor ys (paginate_all key ys n (ground arith))
        | inr e ↦
            let more : n < length ys = ground arith in
            let l = last_key-take key n ys (clamp_limit_pos limit) (omega arith) in
            let next = left_next cursor n l.0 d l.1 in
            walk_next f cursor (take n ys) (drop n ys) l.0
              (paginate_first key ys n more ∙ rw l.1 refl)
              (walk-left f (some l.0) d
                  (rw next (omega (arith, length-drop n ys, clamp_limit_pos limit)))
                ∙ ap some next)
            ∙ ap some (take-append-drop n ys)
      ]

-- A table whose rows have different keys, in the order of the query. A client that reads the first
-- page and then follows each page's cursor comes to a page without one, and what it has read by
-- then is every row that meets the conditions, once and in order: whatever limit it asks for, and
-- whatever the conditions are.
pub walk_lem {ℓ} :
    {A : Type ℓ} (key : A → Key) (conds : A → Bool) (table : List A) (limit f : ℕ)
    → IsDescending key table
    → length table < f
    → walk key conds table limit f none ≡ some (where_rows conds table)
walk_lem key conds table limit f d h =
    walk-left key conds table limit f none d (rw same (omega (arith, where_le conds table)))
    ∙ ap some same
  where
    same : where_rows (λ r. conds r && true) table ≡ where_rows conds table
    same = where_same key _ conds table (λ r. and_true (conds r))
