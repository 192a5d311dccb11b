-- ===== src/Terminal/Manager/Quiet.antt =====
-- What a change of one object does to the status of one session, and what a section that changes none does.
use shell_watch.Base.{
  ◌≡◌, refl, sym, ap, ◌∙◌, ==→≡, true, false, Option, some, String, List, [], arith, ◌==◌, lookup,
  lookup-insert, string_eq, Option-cases, Bool-cases, inl, inr,
}
use shell_watch.Terminal.{Status, CloseReason}
use shell_watch.Terminal.Manager.{
  Managed, Manager, Event, set_status, is_ignored, change, put_object, with_status, stamp,
}
use shell_watch.Terminal.Manager.Steps.{IsNamed, edge, chain, Follows}

-- An object is replaced by one of the same session, status and reason or later reason.
pub put-Follows :
    (m : Manager) (id j : String) (g g' : Managed) (es : List Event)
    → IsNamed m
    → lookup j m.objects ≡ some g
    → g'.session.session_id ≡ g.session.session_id
    → ((r : CloseReason) → g.session.close_reason ≡ some r → g'.session.close_reason ≡ some r)
    → ((j == id) ≡ true → chain id g.session.status es ≡ some g'.session.status)
    → ((j == id) ≡ false → (s : Status) → chain id s es ≡ some s)
    → Follows id (lookup id m.objects) (lookup id (put_object m j g').objects) es
put-Follows m id j g g' es n e same kept mine other = elim (Bool-cases (j == id)) [
  | inl h ↦
      let here : lookup id m.objects ≡ some g =
        ap (λ k. lookup k m.objects) (sym (==→≡ j id h)) ∙ e in
      rw (lookup-insert id j g' m.objects, h, here)
        (record {
          named = λ x k. ground (arith, same, n id g here);
          led = λ s k. ground (arith, mine h);
          kept = λ x k. (g', refl, λ r l. kept r (ground arith));
        })
  | inr h ↦
      rw (lookup-insert id j g' m.objects, h)
        (record {
          named = λ x k. n id x k;
          led = λ s k. other h s ∙ sym k;
          kept = λ x k. (x, k, λ r l. l);
        })
]

-- Nothing happens to the session `id`.
pub quiet-Follows :
    (m : Manager) (id : String) (es : List Event)
    → IsNamed m
    → ((s : Status) → chain id s es ≡ some s)
    → Follows id (lookup id m.objects) (lookup id m.objects) es
quiet-Follows m id es n q = record {
  named = λ g h. n id g h;
  led = λ s h. q s ∙ sym h;
  kept = λ g h. (g, h, λ r k. k);
}

pub change-Follows :
    (m : Manager) (id j : String) (g : Managed) (st : Status) (reason : Option CloseReason)
    → IsNamed m
    → lookup j m.objects ≡ some g
    → edge g.session.status st ≡ true
    → let (m', es) = change m j g st reason in
      Follows id (lookup id m.objects) (lookup id m'.objects) es
unfolding chain
change-Follows m id j g st reason n e ok =
    put-Follows m id j g (with_status g st (stamp reason g.session.close_reason)) _ n e refl
      (λ r h. rw h refl) (λ h. ground (arith, n j g e)) (λ h s. ground (arith, n j g e))

pub set_status-Follows :
    (m : Manager) (id j : String) (st : Status) (reason : Option CloseReason)
    → ((s : Status) → is_ignored s st ≡ false → edge s st ≡ true)
    → IsNamed m
    → let (m', es) = set_status m j st reason in
      Follows id (lookup id m.objects) (lookup id m'.objects) es
unfolding set_status
set_status-Follows m id j st reason allowed n = elim (Option-cases (lookup j m.objects)) [
  | inl e ↦ rw (e, set_status) (quiet-Follows m id [] n (λ s. unfold chain in refl))
  | inr (g, e) ↦ elim (Bool-cases (is_ignored g.session.status st)) [
    | inl ig ↦ rw (e, set_status) (rw ig (quiet-Follows m id [] n (λ s. unfold chain in refl)))
    | inr go ↦
        rw (e, set_status)
          (rw go (change-Follows m id j g st reason n e (allowed g.session.status go)))
  ]
]
