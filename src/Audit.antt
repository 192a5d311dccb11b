-- ===== src/Audit.antt =====
-- The logs that an account reads page by page: internal/audit (signings.go, sessions.go and
-- oauthclients.go) and internal/notify, and the audit writer of sessions (writer.go). A table is the
-- list of its rows in the order of ORDER BY. Time stamps and ids are texts that the code compares
-- only: a number stands for the place of each. A cursor is a text that encodes the key of a row:
-- here it is the key, and `none` is an absent or unreadable one. Columns that no query looks at are
-- left out.
pub mod Readers
pub mod Walk
pub mod Writer
pub mod Examples
use shell_watch.Base.{
  ℕ, suc, ◌+◌, Bool, true, false, ◌&&◌, ◌||◌, Option, none, some, List, [], ◌∷◌, ltb, leb, ◌==◌,
  if◌then◌else◌, length, take, nat_eq,
}

-- The columns of the order and of the cursor.
pub record Key : Type 0 where
  pub created_at : ℕ
  pub id : ℕ

pub record Page {ℓ} (A : Type ℓ) : Type ℓ where
  pub rows : List A
  pub next_cursor : Option Key

abbrev pub page_limit_default : ℕ
page_limit_default = 50

abbrev pub page_limit_max : ℕ
page_limit_max = 500

-- The argument is Go's `int`; 0 stands for every value that is not positive.
unfoldable pub clamp_limit : ℕ → ℕ
clamp_limit n =
    if n == 0 then page_limit_default else if ltb page_limit_max n then page_limit_max else n

-- `(created_at < ? OR (created_at = ? AND id < ?))`
unfoldable pub precedes : Key → Key → Bool
precedes k c = ltb k.created_at c.created_at || (k.created_at == c.created_at && ltb k.id c.id)

-- The condition that a cursor adds.
abbrev pub is_past : Option Key → Key → Bool
is_past none k = true
is_past (some c) k = precedes k c

module _ {ℓ} {A : Type ℓ} where
  -- The rows that meet a condition.
  abbrev pub where_rows : (A → Bool) → List A → List A
  where_rows p [] = []
  where_rows p (r ∷ rs) = let rest = where_rows p rs in if p r then r ∷ rest else rest

  abbrev pub last_key : (A → Key) → List A → Option Key
  last_key key [] = none
  last_key key (r ∷ []) = some (key r)
  last_key key (_ ∷ r ∷ rs) = last_key key (r ∷ rs)

  -- `paginate`: one row more than the limit was asked for.
  unfoldable pub paginate : (A → Key) → List A → ℕ → Page A
  paginate key out limit =
      if leb (length out) limit
      then record { rows = out; next_cursor = none }
      else record { rows = take limit out; next_cursor = last_key key (take limit out) }

  -- The query and the page of it: `conds` are the conditions before that of the cursor.
  unfoldable pub list_rows : (A → Key) → (A → Bool) → List A → Option Key → ℕ → Page A
  unfolding paginate
  list_rows key conds table cursor limit =
      let n = clamp_limit limit in
      paginate key (take (n + 1) (where_rows (λ r. conds r && is_past cursor (key r)) table)) n
