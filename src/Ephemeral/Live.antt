-- ===== src/Ephemeral/Live.antt =====
-- What a reader of the store sees: `live s now k` is the value that `Get` would return.
use shell_watch.Base.{
  ℕ, ◌+◌, ◌≤◌, ◌≡◌, refl, ◌∙◌, Bool, false, not, ◌&&◌, Option, none, some, List, [], ◌∷◌, arith,
  ltb, leb, Eq, ◌==◌, if◌then◌else◌, length, Dict, lookup, is_some, lookup-insert, lookup-erase,
  ==-refl, Option-cases, Bool-cases, inl, inr, nat_eq,
}
use shell_watch.Ephemeral.{
  Entry, Store, is_live, live_value, delete_locked, evict_oldest, evict_oldest_locked, make_room,
  note_order, put_ttl, put, get, consume, sweep,
}
use shell_watch.Ephemeral.Invariant.{Tracks, IsValid, sweep-found, drop_expired}

abbrev pub is_first {ℓ} : {K : Type ℓ} ⦃e : Eq K⦄ → List K → K → Bool
is_first [] k = false
is_first (x ∷ _) k = x == k

module _ {ℓ κ} {K : Type ℓ} {V : Type κ} ⦃e : Eq K⦄ where
  abbrev pub live : Store K V → ℕ → K → Option V
  live s now k = live_value now (lookup k s.m)

  -- The store is at its capacity and `k` is a new key.
  abbrev pub is_full : Store K V → K → Bool
  is_full s k = not (is_some (lookup k s.m)) && (ltb 0 s.cap && leb s.cap (length s.m))

  evict_oldest-found :
      (order : List K) (m : Dict K (Entry V)) (j : K)
      → Tracks order m
      → lookup j (evict_oldest order m).1 ≡ (if is_first order j then none else lookup j m)
  unfolding evict_oldest
  evict_oldest-found [] m j t = refl
  evict_oldest-found (k ∷ ks) m j t = ground (arith, t.same k, lookup-erase j k m)

  make_room-found :
      (s : Store K V) (k j : K)
      → IsValid s
      → lookup j (make_room s k).m
        ≡ (if is_full s k && is_first s.order j then none else lookup j s.m)
  unfolding make_room evict_oldest_locked
  make_room-found s k j w = ground (arith, evict_oldest-found s.order s.m j w.tracks)

  note_order-m : (s : Store K V) (k : K) → (note_order s k).m ≡ s.m
  unfolding note_order
  note_order-m s k = ground arith

  -- In a valid store, after a write the key has the new entry, a full store that did not have the
  -- key has forgotten the first key of its order, and every other key is found as before.
  pub put_ttl-found :
      (s : Store K V) (k : K) (v : V) (ttl now : ℕ) (j : K)
      → IsValid s
      → lookup j (put_ttl s k v ttl now).m ≡ (
          if k == j
          then some (record { value = v; expires_at = now + (if ttl == 0 then s.ttl else ttl) })
          else if is_full s k && is_first s.order j
          then none
          else lookup j s.m)
  unfolding put_ttl
  put_ttl-found s k v ttl now j w =
      rw
        (
          lookup-insert j k _ (note_order (make_room s k) k).m,
          note_order-m (make_room s k) k,
          make_room-found s k j w,
        )
        refl

  pub delete_locked-found :
      (s : Store K V) (k j : K)
      → lookup j (delete_locked s k).m ≡ (if k == j then none else lookup j s.m)
  unfolding delete_locked
  delete_locked-found s k j = ground (arith, lookup-erase j k s.m)

  pub consume-live :
      (s : Store K V) (k : K) (now : ℕ)
      → ((consume s k now).1 ≡ live s now k)
        × ((j : K) (t : ℕ) → live (consume s k now).0 t j ≡ (if k == j then none else live s t j))
  unfolding consume
  consume-live s k now = (refl, λ j t. ground (arith, delete_locked-found s k j))

  pub get-live :
      (s : Store K V) (k : K) (now : ℕ)
      → ((get s k now).1 ≡ live s now k)
        × ((j : K) (t : ℕ) → now ≤ t → live (get s k now).0 t j ≡ live s t j)
  unfolding get
  get-live s k now = elim (Option-cases (lookup k s.m)) [
    | inl h ↦ rw (h, get) (refl, λ j t _. refl)
    | inr (x, h) ↦ elim (Bool-cases (is_live now x)) [
      | inl l ↦ rw (h, get) (rw l (refl, λ j t _. refl))
      | inr l ↦ rw (h, get) (rw l (refl, λ j t le. ground (arith, delete_locked-found s k j, h)))
    ]
  ]

  pub sweep-live :
      (s : Store K V) (now : ℕ)
      → IsValid s
      → (j : K)
      → (lookup j (sweep s now).m ≡ drop_expired now (lookup j s.m))
        × ((t : ℕ) → now ≤ t → live (sweep s now) t j ≡ live s t j)
  sweep-live s now w j = (sweep-found s now w j, λ t le. ground (arith, sweep-found s now w j))

  pub put-found :
      (s : Store K V) (k : K) (v : V) (now : ℕ)
      → lookup k (put s k v now).m ≡ some (record { value = v; expires_at = now + s.ttl })
  unfolding put put_ttl
  put-found s k v now = elim (Bool-cases (s.ttl == 0)) [
    | inl z ↦ rw (lookup-insert k k _ (note_order (make_room s k) k).m, ==-refl k, z) refl
    | inr z ↦ rw (lookup-insert k k _ (note_order (make_room s k) k).m, ==-refl k, z) refl
  ]

  pub consume-gone : (s : Store K V) (k : K) (now : ℕ) → lookup k (consume s k now).0.m ≡ none
  unfolding consume
  consume-gone s k now = rw (delete_locked-found s k k, ==-refl k) refl

  pub consume-put :
      (s : Store K V) (k : K) (v : V) (now at_time : ℕ)
      → (consume (put s k v now) k at_time).1 ≡ (if ltb at_time (now + s.ttl) then some v else none)
  unfolding consume
  consume-put s k v now at_time = rw (put-found s k v now) refl

  pub consume-consume :
      (s : Store K V) (k : K) (now later : ℕ) → (consume (consume s k now).0 k later).1 ≡ none
  consume-consume s k now later =
      (consume-live (consume s k now).0 k later).0 ∙ rw (consume-gone s k now) refl
