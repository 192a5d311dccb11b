-- ===== src/Ephemeral/Invariant.antt =====
-- The store's two structures agree, and its capacity is kept.
use shell_watch.Base.{
  ltb, leb, ◌&&◌, ℕ, suc, ◌+◌, ◌≤◌, ◌<◌, ◌≡◌, refl, true, false, Option, none, some, List, [], ◌∷◌,
  ◌++◌, arith, Eq, if◌then◌else◌, length, contains, IsDistinct, remove_first, Dict, lookup, insert,
  erase, is_some, NodupKeys, lookup-insert, lookup-erase, insert-NodupKeys, erase-NodupKeys,
  length-insert, length-erase, length-remove_first, contains-remove_first, remove_first-IsDistinct,
  length-append, contains-append, append-IsDistinct, Option-cases, Bool-cases, inl, inr,
}
use shell_watch.Ephemeral.{
  Entry, Store, delete_locked, evict_oldest, make_room, note_order, put_ttl, get, consume,
  sweep_order, sweep, is_live,
}

-- An expired entry counts as absent.
abbrev pub drop_expired {ℓ} : {V : Type ℓ} → ℕ → Option (Entry V) → Option (Entry V)
drop_expired now none = none
drop_expired now (some x) = if is_live now x then some x else none

module _ {ℓ κ} {K : Type ℓ} {V : Type κ} ⦃e : Eq K⦄ where
  -- The order names each key of the map once.
  pub record Tracks (order : List K) (m : Dict K (Entry V)) : Type (ℓ ⊔ κ) where
    pub same : (k : K) → contains order k ≡ is_some (lookup k m)
    pub distinct : IsDistinct order
    pub nodup : NodupKeys m
    pub size : length order ≡ length m

  pub record IsValid (s : Store K V) : Type (ℓ ⊔ κ) where
    pub tracks : Tracks s.order s.m
    pub bounded : 0 < s.cap → length s.m ≤ s.cap

  Tracks-remove :
      (k : K) (order : List K) (m : Dict K (Entry V))
      → Tracks order m
      → is_some (lookup k m) ≡ true
      → Tracks (remove_first order k) (erase k m)
  Tracks-remove k order m t h = record {
    same = λ j.
        ground (arith, contains-remove_first order k j t.distinct, lookup-erase j k m, t.same j);
    distinct = remove_first-IsDistinct order k t.distinct;
    nodup = erase-NodupKeys k m t.nodup;
    size = ground (arith, t.size, t.same k, length-remove_first order k, length-erase k m t.nodup);
  }

  Tracks-insert :
      (k : K) (x : Entry V) (order : List K) (m : Dict K (Entry V))
      → Tracks order m
      → Tracks (if is_some (lookup k m) then order else order ++ k ∷ []) (insert k x m)
  Tracks-insert k x order m t = record {
    same = λ j.
        ground (arith, contains-append order (k ∷ []) j, lookup-insert j k x m, t.same j, t.same k);
    distinct = ground (arith, append-IsDistinct order k t.distinct, t.distinct, t.same k);
    nodup = insert-NodupKeys k x m t.nodup;
    size = ground (arith, t.size, length-insert k x m, length-append order (k ∷ []));
  }

  Tracks-evict_oldest :
      (order : List K) (m : Dict K (Entry V))
      → Tracks order m
      → Tracks (evict_oldest order m).0 (evict_oldest order m).1
        × (0 < length m → length m ≡ suc (length (evict_oldest order m).1))
  unfolding evict_oldest
  Tracks-evict_oldest [] m t = (t, λ h. absurd (omega (arith, t.size)))
  Tracks-evict_oldest (k ∷ ks) m t =
      let present : is_some (lookup k m) ≡ true = ground (arith, t.same k) in
      let rest : remove_first (k ∷ ks) k ≡ ks = ground arith in
      rw present (
        rw rest at (Tracks-remove k (k ∷ ks) m t present),
        λ h. ground (arith, length-erase k m t.nodup, present),
      )

  pub delete_locked-IsValid : (s : Store K V) (k : K) → IsValid s → IsValid (delete_locked s k)
  unfolding delete_locked
  delete_locked-IsValid s k v = elim (Bool-cases (is_some (lookup k s.m))) [
    | inl h ↦ rw h (record {
      tracks = Tracks-remove k s.order s.m v.tracks h;
      bounded = λ c. ground (arith, v.bounded c, h, length-erase k s.m v.tracks.nodup);
    })
    | inr h ↦ rw h v
  ]

  -- After making room there is a free place for a key that the map does not hold.
  abbrev HasRoom : Store K V → K → Type 0
  HasRoom s k = 0 < s.cap → is_some (lookup k s.m) ≡ false → length s.m < s.cap

  make_room-IsValid :
      (s : Store K V) (k : K) → IsValid s → IsValid (make_room s k) × HasRoom (make_room s k) k
  unfolding make_room
  make_room-IsValid s k v =
      let (t, shrinks) = Tracks-evict_oldest s.order s.m v.tracks in
      elim (Bool-cases (is_some (lookup k s.m))) [
        | inl h ↦ rw h (v, λ c absent. cc)
        | inr h ↦ rw h (elim (Bool-cases (ltb 0 s.cap && leb s.cap (length s.m))) [
          | inl full ↦ rw full (
            record { tracks = t; bounded = λ c. ground (arith, v.bounded c, shrinks) },
            λ c _. ground (arith, v.bounded c, shrinks),
          )
          | inr free ↦ rw free (v, λ c _. ground arith)
        ])
      ]

  insert-IsValid :
      (t : Store K V) (k : K) (x : Entry V)
      → IsValid t
      → HasRoom t k
      → IsValid (record (note_order t k) { m = insert k x (note_order t k).m })
  unfolding note_order
  insert-IsValid t k x v room =
      let tr = Tracks-insert k x t.order t.m v.tracks in
      elim (Bool-cases (is_some (lookup k t.m))) [
        | inl h ↦ rw h (record {
          tracks = rw h at tr;
          bounded = λ c. ground (arith, v.bounded c, h, length-insert k x t.m);
        })
        | inr h ↦ rw h (record {
          tracks = rw h at tr;
          bounded = λ c. ground (arith, room c h, h, length-insert k x t.m);
        })
      ]

  pub put_ttl-IsValid :
      (s : Store K V) (k : K) (x : V) (ttl now : ℕ) → IsValid s → IsValid (put_ttl s k x ttl now)
  unfolding put_ttl
  put_ttl-IsValid s k x ttl now v =
      let (w, room) = make_room-IsValid s k v in insert-IsValid (make_room s k) k _ w room

  pub get-IsValid : (s : Store K V) (k : K) (now : ℕ) → IsValid s → IsValid (get s k now).0
  unfolding get
  get-IsValid s k now v = elim (Option-cases (lookup k s.m)) [
    | inl h ↦ rw (h, get) v
    | inr (x, h) ↦ elim (Bool-cases (is_live now x)) [
      | inl live ↦ rw (h, get) (rw live v)
      | inr dead ↦ rw (h, get) (rw dead (delete_locked-IsValid s k v))
    ]
  ]

  pub consume-IsValid : (s : Store K V) (k : K) (now : ℕ) → IsValid s → IsValid (consume s k now).0
  unfolding consume
  consume-IsValid s k now v = delete_locked-IsValid s k v

  -- What the loop of `Sweep` leaves, over a part `ks` of the order whose keys are all present.
  record Swept (now : ℕ) (ks : List K) (m : Dict K (Entry V)) : Type (ℓ ⊔ κ) where
    found :
        (j : K)
        → lookup j (sweep_order now ks m).1
          ≡ (if contains ks j then drop_expired now (lookup j m) else lookup j m)
    kept :
        (j : K)
        → contains (sweep_order now ks m).0 j
          ≡ (contains ks j && is_some (drop_expired now (lookup j m)))
    distinct : IsDistinct (sweep_order now ks m).0
    nodup : NodupKeys (sweep_order now ks m).1
    size : length ks + length (sweep_order now ks m).1 ≡ length (sweep_order now ks m).0 + length m
    le : length (sweep_order now ks m).1 ≤ length m

  Swept-live :
      (now : ℕ) (k : K) (ks : List K) (m : Dict K (Entry V)) (x : Entry V)
      → lookup k m ≡ some x
      → is_live now x ≡ true
      → contains ks k ≡ false
      → Swept now ks m
      → Swept now (k ∷ ks) m
  Swept-live now k ks m x h live fresh w = record {
    found = λ j. rw eq (ground (arith, w.found j, h, live));
    kept = λ j. rw eq (ground (arith, w.kept j, h, live));
    distinct = rw eq (ground (arith, w.distinct, w.kept k, fresh));
    nodup = rw eq w.nodup;
    size = rw eq (omega (arith, w.size));
    le = rw eq w.le;
  }
    where
      eq : sweep_order now (k ∷ ks) m ≡ (k ∷ (sweep_order now ks m).0, (sweep_order now ks m).1)
      eq = unfold sweep_order in rw (h, sweep_order) (rw live refl)

  Swept-dead :
      (now : ℕ) (k : K) (ks : List K) (m : Dict K (Entry V)) (x : Entry V)
      → lookup k m ≡ some x
      → is_live now x ≡ false
      → contains ks k ≡ false
      → NodupKeys m
      → Swept now ks (erase k m)
      → Swept now (k ∷ ks) m
  Swept-dead now k ks m x h dead fresh u w = record {
    found = λ j. rw eq (ground (arith, w.found j, lookup-erase j k m, h, dead));
    kept = λ j. rw eq (ground (arith, w.kept j, lookup-erase j k m, h, dead));
    distinct = rw eq w.distinct;
    nodup = rw eq w.nodup;
    size = rw eq (ground (arith, w.size, length-erase k m u, h));
    le = rw eq (ground (arith, w.le, length-erase k m u, h));
  }
    where
      eq : sweep_order now (k ∷ ks) m ≡ sweep_order now ks (erase k m)
      eq = unfold sweep_order in rw (h, sweep_order) (rw dead refl)

  sweep_order-Swept :
      (now : ℕ) (ks : List K) (m : Dict K (Entry V))
      → IsDistinct ks
      → NodupKeys m
      → ((j : K) → contains ks j ≡ true → is_some (lookup j m) ≡ true)
      → Swept now ks m
  unfolding sweep_order
  sweep_order-Swept now [] m d u all = record {
    found = λ j. refl;
    kept = λ j. refl;
    distinct = tt;
    nodup = u;
    size = omega arith;
    le = omega arith;
  }
  sweep_order-Swept now (k ∷ ks) m d u all = elim (Option-cases (lookup k m)) [
    | inl h ↦ absurd (ground (arith, all k, h))
    | inr (x, h) ↦ elim (Bool-cases (is_live now x)) [
      | inl live ↦
          Swept-live now k ks m x h live d.0
            (sweep_order-Swept now ks m d.1 u (λ j c. ground (arith, all j)))
      | inr dead ↦ Swept-dead now k ks m x h dead d.0 u (
          sweep_order-Swept now ks (erase k m) d.1 (erase-NodupKeys k m u)
            (λ j c. ground (arith, all j, lookup-erase j k m, d.0)))
    ]
  ]

  -- A sweep removes the expired entries and no other.
  pub sweep-found :
      (s : Store K V) (now : ℕ)
      → IsValid s
      → (j : K) → lookup j (sweep s now).m ≡ drop_expired now (lookup j s.m)
  unfolding sweep
  sweep-found s now v j =
      let w =
        sweep_order-Swept now s.order s.m v.tracks.distinct v.tracks.nodup
          (λ i h. ground (arith, v.tracks.same i)) in
      ground (arith, w.found j, v.tracks.same j)

  pub sweep-IsValid : (s : Store K V) (now : ℕ) → IsValid s → IsValid (sweep s now)
  unfolding sweep
  sweep-IsValid s now v =
      let w =
        sweep_order-Swept now s.order s.m v.tracks.distinct v.tracks.nodup
          (λ j h. ground (arith, v.tracks.same j)) in
      record {
        tracks = record {
          same = λ j. ground (arith, w.found j, w.kept j, v.tracks.same j);
          distinct = w.distinct;
          nodup = w.nodup;
          size = omega (arith, w.size, v.tracks.size);
        };
        bounded = λ c. omega (arith, v.bounded c, w.le);
      }
