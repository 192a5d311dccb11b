-- ===== src/Sshx/Pins.antt =====
-- The pinned host keys of the endpoints table: internal/store/endpoints.go with its statements in
-- internal/store/queries/endpoints.sql. A row has the columns that these read or write; a statement is
-- atomic, and a failure of the database is not modelled.
use mathlib.Core.List
use shell_watch.Base.{
  ℕ, ◌≡◌, refl, ap, ◌∙◌, inl, inr, ◌≢◌, Bool, true, false, not, ◌&&◌, Option, none, some, String,
  List, arith, ◌==◌, ==→≡, Eq, if◌then◌else◌, Dict, lookup, insert, lookup-insert, ==-refl, is_some,
  nat_eq, string_eq, Bool-cases, Option-cases,
}

instance unfoldable pub bytes_eq : Eq (List ℕ)
unfolding nat_eq
bytes_eq = record { dec = List.List-discrete nat_eq.dec }

pub record HostKeyRecord : Type 0 where
  pub type_ : String
  pub key : List ℕ
  pub fingerprint : String

-- A fingerprint column that is not null is a pin.
pub record EndpointRow : Type 0 where
  pub account_id : String
  pub host : String
  pub port : ℕ
  pub pin : Option HostKeyRecord
  pub pinned_by : String

abbrev pub Endpoints : Type 0
Endpoints = Dict String EndpointRow

pub record PinHostKeyParams : Type 0 where
  pub id : String
  pub host : String
  pub port : ℕ
  pub record_ : HostKeyRecord
  pub pinned_by : String

pub data PinResult : Type 0 where
  pinned endpoint_not_found address_changed other_key_pinned : PinResult

-- The statement's WHERE clause on the row.
abbrev pub is_pinnable : EndpointRow → PinHostKeyParams → Bool
is_pinnable row p = not (is_some row.pin) && (row.host == p.host && row.port == p.port)

abbrev pub has_fingerprint : Option HostKeyRecord → String → Bool
has_fingerprint none f = false
has_fingerprint (some r) f = r.fingerprint == f

-- `PinHostKey` where the statement changed no row.
abbrev pub explain : EndpointRow → PinHostKeyParams → PinResult
explain row p =
    if not (row.host == p.host && row.port == p.port)
    then address_changed
    else if has_fingerprint row.pin p.record_.fingerprint
    then pinned
    else other_key_pinned

-- The UPDATE and the SELECT that explains it are one step: another write that came between them would
-- change the report, and nothing of what the UPDATE did.
unfoldable pub pin_host_key : Endpoints → PinHostKeyParams → Endpoints × PinResult
pin_host_key eps p = elim (lookup p.id eps) [
  | none ↦ (eps, endpoint_not_found)
  | some row ↦
      if is_pinnable row p
      then (insert p.id (record row { pin = some p.record_; pinned_by = p.pinned_by }) eps, pinned)
      else (eps, explain row p)
]

-- The CASE expressions: the pin survives only at the same address.
abbrev pub moved_to : EndpointRow → String → ℕ → EndpointRow
moved_to row host port =
    let same = row.host == host && row.port == port in
    record row {
      host = host;
      port = port;
      pin = if same then row.pin else none;
      pinned_by = if same then row.pinned_by else "";
    }

-- `Update`, of the address and the pin.
unfoldable pub update_endpoint : Endpoints → String → String → String → ℕ → Endpoints × Bool
update_endpoint eps id account host port = elim (lookup id eps) [
  | none ↦ (eps, false)
  | some row ↦
      if not (row.account_id == account)
      then (eps, false)
      else (insert id (moved_to row host port) eps, true)
]

unfoldable pub get_host_key : Endpoints → String → Option HostKeyRecord
get_host_key eps id = elim (lookup id eps) [ none ↦ none | some row ↦ row.pin ]

unfoldable pub clear_host_key : Endpoints → String → String → Endpoints × Bool
clear_host_key eps id account = elim (lookup id eps) [
  | none ↦ (eps, false)
  | some row ↦
      if row.account_id == account && is_some row.pin
      then (insert id (record row { pin = none; pinned_by = "" }) eps, true)
      else (eps, false)
]

-- A pin that is reported as written or already there stands, with the observed fingerprint, on the row
-- of the address that was observed; any other report leaves the table as it was; and the pin that a
-- row had before is never another one afterwards.
pub pin_host_key-pins :
    (eps : Endpoints) (p : PinHostKeyParams)
    → let (eps', r) = pin_host_key eps p in
      (r ≡ pinned
        → (row : EndpointRow) × (lookup p.id eps' ≡ some row)
          × (row.host ≡ p.host)
          × (row.port ≡ p.port)
          × (has_fingerprint row.pin p.record_.fingerprint ≡ true))
      × (r ≢ pinned → eps' ≡ eps)
      × ((id : String) (k : HostKeyRecord)
          → get_host_key eps id ≡ some k
          → get_host_key eps' id ≡ some k)
unfolding pin_host_key get_host_key
pin_host_key-pins eps p = elim (Option-cases (lookup p.id eps)) [
  | inl e ↦ rw (e, pin_host_key) (λ h. cc, λ n. refl, λ id k h. h)
  | inr (row, e) ↦ elim (Bool-cases (is_pinnable row p)) [
    | inl free ↦
        let row' = record row { pin = some p.record_; pinned_by = p.pinned_by } in
        rw (e, pin_host_key)
          (rw free (
            λ h. (
              row',
              lookup-insert p.id p.id row' eps ∙ rw (==-refl p.id) refl,
              ground (arith, ==→≡ row.host p.host),
              ground (arith, ==→≡ row.port p.port),
              ==-refl p.record_.fingerprint,
            ),
            λ n. absurd (n refl),
            λ id k h. ground (arith, lookup-insert id p.id row' eps, ==→≡ p.id id),
          ))
    | inr taken ↦
        rw (e, pin_host_key)
          (rw taken (
            λ h. (
              row,
              e,
              ground (arith, ==→≡ row.host p.host),
              ground (arith, ==→≡ row.port p.port),
              ground arith,
            ),
            λ n. refl,
            λ id k h. h,
          ))
  ]
]

moved-keeps :
    (old new : EndpointRow) (host : String) (port : ℕ) (k : HostKeyRecord)
    → moved_to old host port ≡ new
    → new.pin ≡ some k
    → (old.pin ≡ some k)
      × (old.host ≡ new.host)
      × (old.port ≡ new.port)
      × (new.host ≡ host)
      × (new.port ≡ port)
moved-keeps old new host port k is_new h =
    let pin : (moved_to old host port).pin ≡ some k = ap (λ (r : EndpointRow). r.pin) is_new ∙ h in
    let at_host : host ≡ new.host = ap (λ (r : EndpointRow). r.host) is_new in
    let at_port : port ≡ new.port = ap (λ (r : EndpointRow). r.port) is_new in
    ground (arith, pin, at_host, at_port, ==→≡ old.host host, ==→≡ old.port port)

-- After an update that finds its row, a pin of the row is one that it had at the same host and port.
pub update_endpoint-forgets :
    (eps : Endpoints) (id account host : String) (port : ℕ) (old new : EndpointRow)
    (k : HostKeyRecord)
    → (update_endpoint eps id account host port).1 ≡ true
    → lookup id eps ≡ some old
    → lookup id (update_endpoint eps id account host port).0 ≡ some new
    → new.pin ≡ some k
    → (old.pin ≡ some k)
      × (old.host ≡ new.host)
      × (old.port ≡ new.port)
      × (new.host ≡ host)
      × (new.port ≡ port)
unfolding update_endpoint
update_endpoint-forgets eps id account host port old new k done e e' h =
    elim (Bool-cases (old.account_id == account)) [
      | inr foreign ↦ absurd (ground (arith, e, foreign))
      | inl own ↦
          let stored : lookup id (update_endpoint eps id account host port).0
              ≡ some (moved_to old host port) =
            rw (e, update_endpoint)
              (rw own (lookup-insert id id (moved_to old host port) eps ∙ rw (==-refl id) refl)) in
          let is_new : moved_to old host port ≡ new = ground (arith, stored, e') in
          moved-keeps old new host port k is_new h
    ]
