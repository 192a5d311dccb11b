-- ===== src/Terminal/Manager/Closing/Creates.antt =====
-- How a creation ends, when no other section comes between.
use shell_watch.Base.{
  ◌≡◌, refl, ◌∙◌, inl, inr, ◌≢◌, Bool, true, false, not, ◌&&◌, none, some, String, arith,
  if◌then◌else◌, lookup, lookup-insert, contains, IsDistinct, string_eq, Bool-cases, ==-refl,
}
use shell_watch.Terminal.{opening, open_now, Status-discrete, transport_error}
use shell_watch.Terminal.Manager.{
  Managed, Manager, adopt, set_status, is_status, is_ignored, with_status, stamp,
}
use shell_watch.Terminal.Manager.Closing.{finish_close, opened, finish_create}
use shell_watch.Terminal.Manager.Closing.Keeps.{set_status-terminals}
use shell_watch.Terminal.Manager.Closing.Ends.{IsClosedDown, finish_close-IsClosedDown}

abbrev adopted : Managed → Bool → Managed
adopted g ok = record g {
  can_cancel_setup = false;
  has_transport = if ok && is_status g.session.status opening then true else g.has_transport;
}

adopt-adopted :
    (m : Manager) (id : String) (ok : Bool) (g : Managed)
    → lookup id m.objects ≡ some g
    → let (m', aborted) = adopt m id ok in
      (m'.terminals ≡ m.terminals)
      × (lookup id m'.objects ≡ some (adopted g ok))
      × (aborted ≡ not (is_status g.session.status opening))
unfolding adopt
adopt-adopted m id ok g e =
    rw (e, adopt)
      (
        refl,
        lookup-insert id id _ m.objects ∙ rw (==-refl id) (unfold Status-discrete in ground arith),
        refl,
      )

set_open-opens :
    (m : Manager) (id : String) (g : Managed)
    → lookup id m.objects ≡ some g
    → is_status g.session.status opening ≡ true
    → lookup id (set_status m id open_now none).0.objects
      ≡ some (with_status g open_now (stamp none g.session.close_reason))
unfolding set_status
set_open-opens m id g e h = elim (Bool-cases (is_ignored g.session.status open_now)) [
  | inl ig ↦ absurd (unfold Status-discrete in ground arith)
  | inr go ↦
      rw (e, set_status)
        (rw go (
          lookup-insert id id (with_status g open_now (stamp none g.session.close_reason)) m.objects
          ∙ rw (==-refl id) refl))
]

-- A creation in which no other section, such as a close or a removal of the account, comes between
-- the adoption of its transport and its end. Of a registered session, in a registry that names each
-- session once: a creation whose factory
-- returned a transport, while the session was still opening, ends with the
-- session open, registered and with the transport; any other ends with the session closed down:
-- out of the registry, dead, without output, its removal the last event.
pub finish_create-ends :
    (m : Manager) (id : String) (ok : Bool) (g : Managed)
    → IsDistinct m.terminals
    → contains m.terminals id ≡ true
    → lookup id m.objects ≡ some g
    → let (m', how, es) = finish_create m id ok in
      ((ok && is_status g.session.status opening) ≡ true
        → (how ≡ opened)
          × (contains m'.terminals id ≡ true)
          × ((g' : Managed) × (lookup id m'.objects ≡ some g')
              × (g'.session.status ≡ open_now)
              × (g'.has_transport ≡ true)))
      × ((ok && is_status g.session.status opening) ≡ false
          → (how ≢ opened) × IsClosedDown id m' es)
unfolding finish_create finish_close
finish_create-ends m id false g d here e =
    let (same, found, _) = adopt-adopted m id false g e in
    (
      λ h. cc,
      λ _. (
        λ h. cc,
        finish_close-IsClosedDown (adopt m id false).0 id (some transport_error) (adopted g false)
            (rw same d) (rw same here) found,
      ),
    )
finish_create-ends m id true g d here e =
    let (same, found, ab) = adopt-adopted m id true g e in
    let m' = (adopt m id true).0 in
    elim (Bool-cases (is_status g.session.status opening)) [
      | inl opens ↦
          rw (ab, opens)
            (
              λ _. (
                refl,
                rw (set_status-terminals m' id open_now none, same) here,
                (_, set_open-opens m' id (adopted g true) found opens, refl, rw opens refl),
              ),
              λ h. cc,
            )
      | inr late ↦
          rw (ab, late)
            (
              λ h. cc,
              λ _. (
                λ h. cc,
                finish_close-IsClosedDown m' id none (adopted g true) (rw same d) (rw same here)
                    found,
              ),
            )
    ]
