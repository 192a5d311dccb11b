-- ===== src/Agent/Cap.antt =====
-- The cap on the live sessions of one client.
use shell_watch.Base.{
  ℕ, suc, ◌+◌, ◌≤◌, ◌<◌, ◌≡◌, refl, sym, ap, subst, ◌∙◌, ◌≢◌, ≢→==, true, false, some, String, List,
  [], ◌∷◌, arith, leb, ◌==◌, Dict, lookup, insert, lookup-insert, contains, string_eq, Bool-cases,
  Option-cases, inl, inr, ==-refl,
}
use shell_watch.Terminal.{Source-discrete, Status-discrete, Session, EndpointRef}
use shell_watch.Terminal.Buffer.{new_output_buffer}
use shell_watch.Terminal.Manager.{
  Managed, Manager, register, registered, snapshot, list_sessions, session_of_trigger, CreateError,
  shutting_down,
}
use shell_watch.Agent.{
  AgentSession, owned_live, trigger_of, Created, creating, cap_reached, refused_by_manager,
  create_session,
}

Bool-apart : true ≢ false
Bool-apart e = cc

==-sym : (x y : String) → (x == y) ≡ false → (y == x) ≡ false
==-sym x y h = ≢→== y x (λ e. Bool-apart (sym (subst (λ z. (z == y) ≡ true) e (==-refl y)) ∙ h))

snapshot-insert :
    (d : Dict String Managed) (id : String) (g : Managed) (ids : List String)
    → contains ids id ≡ false
    → snapshot (insert id g d) ids ≡ snapshot d ids
unfolding snapshot
snapshot-insert d id g [] h = refl
snapshot-insert d id g (j ∷ ids) h = elim (Bool-cases (j == id)) [
  | inl same ↦ absurd (ground arith)
  | inr other ↦
      let found : lookup j (insert id g d) ≡ lookup j d =
        lookup-insert j id g d ∙ rw (==-sym j id other) refl in
      let rest = snapshot-insert d id g ids (ground arith) in
      elim (Option-cases (lookup j d)) [
        | inl e ↦ rw (found ∙ e, snapshot) (rw (e, snapshot) rest)
        | inr (x, e) ↦
            rw (found ∙ e, snapshot)
              (rw (e, snapshot) (ap (λ (l : List Session). x.session ∷ l) rest))
      ]
]

-- The object that `register` makes.
abbrev pub opened : AgentSession → Manager → EndpointRef → String → String → ℕ → Managed
opened a m ep reason id now = record {
  session = session_of_trigger id ep (trigger_of a reason) now;
  has_transport = false;
  output = new_output_buffer m.max_buffer_size;
  abandoned = false;
  can_cancel_setup = true;
}

abbrev pub with_object : Manager → String → Managed → Manager
with_object m id g = record m { objects = insert id g m.objects; terminals = id ∷ m.terminals }

list_sessions-with_object :
    (a : AgentSession) (m : Manager) (ep : EndpointRef) (reason id : String) (now : ℕ)
    → contains m.terminals id ≡ false
    → let g = opened a m ep reason id now in
      list_sessions (with_object m id g) ≡ g.session ∷ list_sessions m
unfolding list_sessions snapshot Status-discrete
list_sessions-with_object a m ep reason id now fresh =
    let g = opened a m ep reason id now in
    let found : lookup id (insert id g m.objects) ≡ some g =
      lookup-insert id id g m.objects ∙ rw (==-refl id) refl in
    rw (found, snapshot) (rw (snapshot-insert m.objects id g m.terminals fresh) refl)

owned_live-with_object :
    (a : AgentSession) (m : Manager) (ep : EndpointRef) (reason id : String) (now : ℕ)
    → contains m.terminals id ≡ false
    → (ep.account_id == a.account_id) ≡ true
    → owned_live a (with_object m id (opened a m ep reason id now)) ≡ suc (owned_live a m)
unfolding owned_live Source-discrete Status-discrete
owned_live-with_object a m ep reason id now fresh own =
    rw (list_sessions-with_object a m ep reason id now fresh, own, ==-refl a.client_id) refl

register-opened :
    (a : AgentSession) (m : Manager) (ep : EndpointRef) (reason id : String) (now : ℕ)
    → contains m.terminals id ≡ false
    → (ep.account_id == a.account_id) ≡ true
    → m.destroyed ≡ false
    → register m ep a.account_id (trigger_of a reason) id now
      ≡ registered (with_object m id (opened a m ep reason id now))
unfolding register
register-opened a m ep reason id now fresh own alive = rw (own, alive, fresh) refl

creating_inj : (x y : Manager) → creating x ≡ creating y → x ≡ y
creating_inj x y e = ap from_creating e
  where
    from_creating : Created → Manager
    from_creating (creating z) = z
    from_creating _ = x

-- A session that is created under an id that the registry does not have adds one to the client's live
-- sessions. It leaves the client with at most its cap and the live sessions that it gained between
-- the count and the registration: none where no other call comes between.
pub create_session-caps :
    (a : AgentSession) (counted m m' : Manager) (ep : EndpointRef) (reason id : String)
    (now gained : ℕ)
    → contains m.terminals id ≡ false
    → create_session a counted m (some ep) reason id now ≡ creating m'
    → owned_live a m ≤ owned_live a counted + gained
    → (owned_live a m' ≡ suc (owned_live a m)) × (owned_live a m' ≤ a.max_owned + gained)
unfolding create_session
create_session-caps a counted m m' ep reason id now gained fresh made few =
    elim (Bool-cases (leb a.max_owned (owned_live a counted))) [
      | inl full ↦
          let refusal : cap_reached ≡ creating m' = rw full at made in absurd (ground arith)
      | inr room ↦ elim (Bool-cases (ep.account_id == a.account_id)) [
        | inr foreign ↦
            let refusal : refused_by_manager CreateError.unknown_endpoint ≡ creating m' =
              unfold register in (rw (room, foreign) at made) in
            absurd (ground arith)
        | inl own ↦ elim (Bool-cases m.destroyed) [
          | inl gone ↦
              let refusal : refused_by_manager shutting_down ≡ creating m' =
                unfold register in (rw (room, own, gone) at made) in
              absurd (ground arith)
          | inr alive ↦
              let is_new : creating (with_object m id (opened a m ep reason id now)) ≡ creating m' =
                rw (room, register-opened a m ep reason id now fresh own alive) at made in
              let same = creating_inj (with_object m id (opened a m ep reason id now)) m' is_new in
              let grown : owned_live a m' ≡ suc (owned_live a m) =
                sym (ap (owned_live a) same)
                ∙ owned_live-with_object a m ep reason id now fresh own in
              (grown, ground (arith, grown, room, few))
        ]
      ]
    ]

create_session-opened :
    (a : AgentSession) (counted m : Manager) (ep : EndpointRef) (reason id : String) (now : ℕ)
    → owned_live a counted < a.max_owned
    → contains m.terminals id ≡ false
    → (ep.account_id == a.account_id) ≡ true
    → m.destroyed ≡ false
    → create_session a counted m (some ep) reason id now
      ≡ creating (with_object m id (opened a m ep reason id now))
unfolding create_session
create_session-opened a counted m ep reason id now room fresh own alive =
    let less : leb a.max_owned (owned_live a counted) ≡ false = ground arith in
    rw (less, register-opened a m ep reason id now fresh own alive) refl

-- Two calls of one client that has room for one more session, both of which count before either
-- registers: both create a session, and the client has one more than its cap.
create_session_overshoots :
    (a : AgentSession) (m : Manager) (ep : EndpointRef) (reason id id' : String) (now : ℕ)
    → suc (owned_live a m) ≡ a.max_owned
    → (ep.account_id == a.account_id) ≡ true
    → m.destroyed ≡ false
    → contains m.terminals id ≡ false
    → contains (id ∷ m.terminals) id' ≡ false
    → (m' : Manager) × (m'' : Manager) × (create_session a m m (some ep) reason id now
        ≡ creating m')
      × (create_session a m m' (some ep) reason id' now ≡ creating m'')
      × (owned_live a m'' ≡ suc a.max_owned)
create_session_overshoots a m ep reason id id' now room own alive fresh fresh' =
    let m' = with_object m id (opened a m ep reason id now) in
    (
      m',
      with_object m' id' (opened a m' ep reason id' now),
      create_session-opened a m m ep reason id now (omega (arith, room)) fresh own alive,
      create_session-opened a m m' ep reason id' now (omega (arith, room)) fresh' own alive,
      owned_live-with_object a m' ep reason id' now fresh' own
          ∙ ap suc (owned_live-with_object a m ep reason id now fresh own ∙ room),
    )
