-- ===== src/Terminal/Manager/Registers.antt =====
-- A registration, and with it every section: what its events say, and that each object keeps its name.
use shell_watch.Base.{
  ℕ, ◌≡◌, refl, sym, ◌∙◌, true, false, none, some, String, [], ◌∷◌, arith, ◌==◌, lookup,
  lookup-insert, insert, string_eq, Bool-cases, inl, inr,
}
use shell_watch.Terminal.{open_now, closed, error, Status-discrete, EndpointRef, Trigger}
use shell_watch.Terminal.Buffer.{new_output_buffer}
use shell_watch.Terminal.Manager.{Manager, register, mark_destroyed, session_of_trigger}
use shell_watch.Terminal.Manager.Steps.{
  Section, registers, adopts, opens, fails, finishes, begins_closing, removes, pumps, touches,
  abandons, removes_account, destroys, after_register, perform, NeverRegisters, IsNamed, chain,
  Follows,
}
use shell_watch.Terminal.Manager.Follows.{
  begin_closing-Follows, adopt-Follows, remove_entry-Follows, pump_output-Follows,
  touch_activity-Follows, abandon-Follows, remove_for_account-Follows,
}
use shell_watch.Terminal.Manager.Quiet.{quiet-Follows, set_status-Follows}

register-found :
    (m : Manager) (id : String) (ep : EndpointRef) (account : String) (t : Trigger) (j : String)
    (now : ℕ)
    → (j == id) ≡ false
    → lookup id (after_register m (register m ep account t j now)).objects ≡ lookup id m.objects
unfolding register
register-found m id ep account t j now h = elim (Bool-cases (ep.account_id == account)) [
  | inr foreign ↦ rw foreign refl
  | inl own ↦ elim (Bool-cases m.destroyed) [
    | inl gone ↦ rw (own, gone) refl
    | inr alive ↦ rw (own, alive) (lookup-insert id j _ m.objects ∙ (rw h refl))
  ]
]

register-IsNamed :
    (m : Manager) (ep : EndpointRef) (account : String) (t : Trigger) (j : String) (now : ℕ)
    → IsNamed m
    → IsNamed (after_register m (register m ep account t j now))
register-IsNamed m ep account t j now n id g e = elim (Bool-cases (j == id)) [
  | inr other ↦ n id g (sym (register-found m id ep account t j now other) ∙ e)
  | inl same ↦ elim (Bool-cases (ep.account_id == account)) [
    | inr foreign ↦ n id g (unfold register in (rw foreign at e))
    | inl own ↦ elim (Bool-cases m.destroyed) [
      | inl gone ↦ n id g (unfold register in (rw (own, gone) at e))
      | inr alive ↦ named (unfold register in (rw (own, alive) at e)) same
    ]
  ]
]
  where
    named :
        lookup id (
            insert j
              (record {
                session = session_of_trigger j ep t now;
                has_transport = false;
                output = new_output_buffer m.max_buffer_size;
                abandoned = false;
                can_cancel_setup = true;
              })
              m.objects)
          ≡ some g
        → (j == id) ≡ true
        → g.session.session_id ≡ id
    named e h = ground (
      arith,
      lookup-insert id j
          (record {
            session = session_of_trigger j ep t now;
            has_transport = false;
            output = new_output_buffer m.max_buffer_size;
            abandoned = false;
            can_cancel_setup = true;
          })
          m.objects,
      e,
      h,
    )

pub perform-Follows :
    (m : Manager) (id : String) (c : Section)
    → IsNamed m
    → NeverRegisters id (c ∷ [])
    → Follows id (lookup id m.objects) (lookup id (perform m c).0.objects) (perform m c).1
unfolding perform register mark_destroyed
perform-Follows m id (registers ep account t j now) n fresh =
    rw (register-found m id ep account t j now fresh.0)
      (quiet-Follows m id [] n (λ s. unfold chain in refl))
perform-Follows m id (adopts j ok) n _ = adopt-Follows m id j ok n
perform-Follows m id (opens j) n _ =
    set_status-Follows m id j open_now none (λ s h. unfold Status-discrete in ground arith) n
perform-Follows m id (fails j reason) n _ =
    set_status-Follows m id j error reason (λ s h. unfold Status-discrete in ground arith) n
perform-Follows m id (finishes j reason) n _ =
    set_status-Follows m id j closed reason (λ s h. unfold Status-discrete in ground arith) n
perform-Follows m id (begins_closing j reason) n _ = begin_closing-Follows m id j reason n
perform-Follows m id (removes j) n _ = remove_entry-Follows m id j n
perform-Follows m id (pumps j bytes now) n _ = pump_output-Follows m id j bytes now n
perform-Follows m id (touches j now) n _ = touch_activity-Follows m id j now n
perform-Follows m id (abandons j) n _ = abandon-Follows m id j n
perform-Follows m id (removes_account account) n _ = remove_for_account-Follows m id account n
perform-Follows m id destroys n _ = quiet-Follows m id [] n (λ s. unfold chain in refl)

pub perform-IsNamed : (m : Manager) (c : Section) → IsNamed m → IsNamed (perform m c).0
perform-IsNamed m (registers ep account t j now) n =
    unfold perform in register-IsNamed m ep account t j now n
perform-IsNamed m (adopts j ok) n = λ id. (perform-Follows m id (adopts j ok) n tt).named
perform-IsNamed m (opens j) n = λ id. (perform-Follows m id (opens j) n tt).named
perform-IsNamed m (fails j r) n = λ id. (perform-Follows m id (fails j r) n tt).named
perform-IsNamed m (finishes j r) n = λ id. (perform-Follows m id (finishes j r) n tt).named
perform-IsNamed m (begins_closing j r) n =
    λ id. (perform-Follows m id (begins_closing j r) n tt).named
perform-IsNamed m (removes j) n = λ id. (perform-Follows m id (removes j) n tt).named
perform-IsNamed m (pumps j b now) n = λ id. (perform-Follows m id (pumps j b now) n tt).named
perform-IsNamed m (touches j now) n = λ id. (perform-Follows m id (touches j now) n tt).named
perform-IsNamed m (abandons j) n = λ id. (perform-Follows m id (abandons j) n tt).named
perform-IsNamed m (removes_account a) n =
    λ id. (perform-Follows m id (removes_account a) n tt).named
perform-IsNamed m destroys n = λ id. (perform-Follows m id destroys n tt).named
