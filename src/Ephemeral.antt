-- ===== src/Ephemeral.antt =====
-- internal/ephemeral/store.go: the generic TTL store behind challenges, step-up tokens and caches.
-- A mutex guards every method, so a method is one step on the record. The clock's reading is the
-- argument `now` of each call, in nanoseconds. A `ttl` that is not positive is 0 here, which the
-- code treats alike. `Janitor` is a ticker that calls `Sweep`; it has no state of its own.
pub mod Invariant
pub mod Live
pub mod Runs
pub mod SingleUse
pub mod Ideal
pub mod Examples
use shell_watch.Base.{
  ℕ, ◌+◌, Bool, true, false, not, ◌&&◌, Option, none, some, List, [], ◌∷◌, ◌++◌, ltb, leb, Eq, ◌==◌,
  if◌then◌else◌, length, remove_first, Dict, lookup, insert, erase, is_some, nat_eq,
}

pub record Entry {ℓ} (V : Type ℓ) : Type ℓ where
  pub value : V
  pub expires_at : ℕ

pub record Store {ℓ κ} (K : Type ℓ) (V : Type κ) : Type (ℓ ⊔ κ) where
  pub m : Dict K (Entry V)
  pub order : List K
  pub ttl : ℕ
  pub cap : ℕ

-- `e.expiresAt.After(now)`
abbrev pub is_live {ℓ} : {V : Type ℓ} → ℕ → Entry V → Bool
is_live now e = ltb now e.expires_at

-- The value of an entry that was found, if it is live.
abbrev pub live_value {ℓ} : {V : Type ℓ} → ℕ → Option (Entry V) → Option V
live_value now none = none
live_value now (some x) = if is_live now x then some x.value else none

module _ {ℓ κ} {K : Type ℓ} {V : Type κ} where
  unfoldable pub new : ℕ → ℕ → Store K V
  new ttl cap = record { m = []; order = []; ttl = ttl; cap = cap }

  -- Expired entries count until they are swept.
  pub len : Store K V → ℕ
  len s = length s.m

module _ {ℓ κ} {K : Type ℓ} {V : Type κ} ⦃e : Eq K⦄ where
  unfoldable pub delete_locked : Store K V → K → Store K V
  delete_locked s k =
      if is_some (lookup k s.m)
      then record s { m = erase k s.m; order = remove_first s.order k }
      else s

  -- The loop of `evictOldestLocked` over what is left of the order.
  unfoldable pub evict_oldest : List K → Dict K (Entry V) → List K × Dict K (Entry V)
  evict_oldest [] m = ([], m)
  evict_oldest (k ∷ ks) m = if is_some (lookup k m) then (ks, erase k m) else evict_oldest ks m

  unfoldable pub evict_oldest_locked : Store K V → Store K V
  unfolding evict_oldest
  evict_oldest_locked s = record s {
    m = (evict_oldest s.order s.m).1;
    order = (evict_oldest s.order s.m).0;
  }

  -- The two conditionals of `PutTTL` before the write.
  unfoldable pub make_room : Store K V → K → Store K V
  unfolding evict_oldest_locked
  make_room s k =
      if not (is_some (lookup k s.m)) && (ltb 0 s.cap && leb s.cap (length s.m))
      then evict_oldest_locked s
      else s

  unfoldable pub note_order : Store K V → K → Store K V
  note_order s k = if is_some (lookup k s.m) then s else record s { order = s.order ++ k ∷ [] }

  unfoldable pub put_ttl : Store K V → K → V → ℕ → ℕ → Store K V
  unfolding make_room note_order
  put_ttl s k v ttl now =
      let t = note_order (make_room s k) k in
      record t {
        m =
            insert k (record { value = v; expires_at = now + (if ttl == 0 then s.ttl else ttl) })
              t.m;
      }

  unfoldable pub put : Store K V → K → V → ℕ → Store K V
  unfolding put_ttl
  put s k v now = put_ttl s k v s.ttl now

  -- An expired entry is dropped on the way.
  unfoldable pub get : Store K V → K → ℕ → Store K V × Option V
  unfolding delete_locked
  get s k now = elim (lookup k s.m) [
    | none ↦ (s, none)
    | some x ↦ if is_live now x then (s, some x.value) else (delete_locked s k, none)
  ]

  unfoldable pub consume : Store K V → K → ℕ → Store K V × Option V
  unfolding delete_locked
  consume s k now = (delete_locked s k, live_value now (lookup k s.m))

  unfoldable pub delete : Store K V → K → Store K V
  unfolding delete_locked
  delete s k = delete_locked s k

  -- The loop of `Sweep`: the order that is kept, and the map.
  unfoldable pub sweep_order : ℕ → List K → Dict K (Entry V) → List K × Dict K (Entry V)
  sweep_order now [] m = ([], m)
  sweep_order now (k ∷ ks) m = elim (lookup k m) [
    | none ↦ sweep_order now ks m
    | some x ↦ elim (is_live now x) [
      | true ↦ (k ∷ (sweep_order now ks m).0, (sweep_order now ks m).1)
      | false ↦ sweep_order now ks (erase k m)
    ]
  ]

  unfoldable pub sweep : Store K V → ℕ → Store K V
  unfolding sweep_order
  sweep s now = record s {
    m = (sweep_order now s.order s.m).1;
    order = (sweep_order now s.order s.m).0;
  }
