-- ===== src/Audit/Readers.antt =====
-- The four `List` methods: their conditions over the rows of their tables.
use shell_watch.Base.{
  ℕ, Bool, true, ◌&&◌, ◌||◌, Option, none, some, String, List, leb, ◌==◌, string_eq,
}
use shell_watch.Audit.{Key, Page, list_rows}

pub record SigningRow : Type 0 where
  pub key : Key
  pub account_id : String
  pub source : String
  pub outcome : Option String

pub record SigningFilters : Type 0 where
  pub source : String
  pub outcome : String
  pub from : Option ℕ
  pub to : Option ℕ

-- `if f.X != "" { conds = append(conds, "x = ?") }`, where a null column equals nothing.
abbrev pub wants : String → Option String → Bool
wants f none = f == ""
wants f (some x) = f == "" || x == f

abbrev pub is_within : Option ℕ → Option ℕ → ℕ → Bool
is_within none none t = true
is_within none (some b) t = leb t b
is_within (some a) none t = leb a t
is_within (some a) (some b) t = leb a t && leb t b

abbrev pub signing_conds : String → SigningFilters → SigningRow → Bool
signing_conds account f r =
    (r.account_id == account && wants f.source (some r.source))
    && (wants f.outcome r.outcome && is_within f.from f.to r.key.created_at)

unfoldable pub list_signings :
    List SigningRow → String → SigningFilters → Option Key → ℕ → Page SigningRow
unfolding list_rows
list_signings table account f cursor limit =
    list_rows (λ (r : SigningRow). r.key) (signing_conds account f) table cursor limit

pub record SessionRow : Type 0 where
  pub key : Key
  pub account_id : String
  pub endpoint_id : String

pub record SessionFilters : Type 0 where
  pub endpoint_id : String
  pub from : Option ℕ
  pub to : Option ℕ

abbrev pub session_conds : String → SessionFilters → SessionRow → Bool
session_conds account f r =
    r.account_id == account
    && (wants f.endpoint_id (some r.endpoint_id) && is_within f.from f.to r.key.created_at)

unfoldable pub list_sessions :
    List SessionRow → String → SessionFilters → Option Key → ℕ → Page SessionRow
unfolding list_rows
list_sessions table account f cursor limit =
    list_rows (λ (r : SessionRow). r.key) (session_conds account f) table cursor limit

pub record Notification : Type 0 where
  pub key : Key
  pub account_id : String

unfoldable pub list_notifications : List Notification → String → Option Key → ℕ → Page Notification
unfolding list_rows
list_notifications table account cursor limit =
    list_rows (λ (r : Notification). r.key) (λ r. r.account_id == account) table cursor limit

pub record OauthClientRow : Type 0 where
  pub key : Key
  pub client_id : String
  pub origin : String
  pub event : String

pub record OauthClientFilter : Type 0 where
  pub client_id : String
  pub origin : String
  pub event : String
  pub cursor : Option Key
  pub limit : ℕ

abbrev pub oauth_conds : OauthClientFilter → OauthClientRow → Bool
oauth_conds f r =
    wants f.client_id (some r.client_id)
    && (wants f.origin (some r.origin) && wants f.event (some r.event))

unfoldable pub list_oauth_clients : List OauthClientRow → OauthClientFilter → Page OauthClientRow
unfolding list_rows
list_oauth_clients table f =
    list_rows (λ (r : OauthClientRow). r.key) (oauth_conds f) table f.cursor f.limit
