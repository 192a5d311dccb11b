-- ===== src/Terminal/Manager/Follows.antt =====
-- Each section, for one session: its status events lead along the transitions from the status before
-- to the status after.
use shell_watch.Base.{
  ℕ, ◌≡◌, refl, ◌∙◌, ==→≡, contains, Bool, true, false, ◌&&◌, ◌||◌, Option, none, some, String,
  List, [], ◌∷◌, arith, ◌==◌, Dict, lookup, lookup-insert, string_eq, Option-cases, Bool-cases, inl,
  inr,
}
use shell_watch.Terminal.{Status, closing, closed, Status-discrete, CloseReason}
use shell_watch.Terminal.Buffer.{clear}
use shell_watch.Terminal.Manager.{
  Managed, Manager, removed, adopt, begin_closing, remove_entry, pump_output, touch_activity,
  abandon, remove_for_account, remove_dead, is_status, is_dead,
}
use shell_watch.Terminal.Manager.Steps.{IsNamed, edge, chain, Follows}
use shell_watch.Terminal.Manager.Quiet.{put-Follows, quiet-Follows, change-Follows}

pub begin_closing-Follows :
    (m : Manager) (id j : String) (reason : Option CloseReason)
    → IsNamed m
    → let (m', _, es) = begin_closing m j reason in
      Follows id (lookup id m.objects) (lookup id m'.objects) es
unfolding begin_closing
begin_closing-Follows m id j reason n = elim (Option-cases (lookup j m.objects)) [
  | inl e ↦ rw (e, begin_closing) (quiet-Follows m id [] n (λ s. unfold chain in refl))
  | inr (g, e) ↦
      elim (Bool-cases (is_status g.session.status closed || is_status g.session.status closing)) [
        | inl no_op ↦
            rw (e, begin_closing) (rw no_op (quiet-Follows m id [] n (λ s. unfold chain in refl)))
        | inr go ↦
            rw (e, begin_closing)
              (rw go (change-Follows m id j g closing reason n e (closable g.session.status go)))
      ]
]
  where
    closable :
        (s : Status) → (is_status s closed || is_status s closing) ≡ false → edge s closing ≡ true
    closable s h = unfold Status-discrete in ground arith

pub adopt-Follows :
    (m : Manager) (id j : String) (ok : Bool)
    → IsNamed m
    → Follows id (lookup id m.objects) (lookup id (adopt m j ok).0.objects) []
unfolding adopt chain
adopt-Follows m id j ok n = elim (Option-cases (lookup j m.objects)) [
  | inl e ↦ rw (e, adopt) (quiet-Follows m id [] n (λ s. refl))
  | inr (g, e) ↦
      rw (e, adopt) (put-Follows m id j g _ [] n e refl (λ r h. h) (λ h. refl) (λ h s. refl))
]

pub remove_entry-Follows :
    (m : Manager) (id j : String)
    → IsNamed m
    → Follows id (lookup id m.objects) (lookup id (remove_entry m j).0.objects) (remove_entry m j).1
unfolding remove_entry chain
remove_entry-Follows m id j n = elim (Bool-cases (contains m.terminals j)) [
  | inr absent ↦ rw absent (quiet-Follows m id [] n (λ s. refl))
  | inl here ↦ elim (Option-cases (lookup j m.objects)) [
    | inl e ↦ rw here (rw e (quiet-Follows m id (removed j ∷ []) n (λ s. refl)))
    | inr (g, e) ↦ rw here (
        rw e (
          put-Follows m id j g (record g { output = clear g.output }) (removed j ∷ []) n e refl
            (λ r h. h) (λ h. refl) (λ h s. refl)))
  ]
]

pub pump_output-Follows :
    (m : Manager) (id j : String) (bytes : List ℕ) (now : ℕ)
    → IsNamed m
    → let (m', es) = pump_output m j bytes now in
      Follows id (lookup id m.objects) (lookup id m'.objects) es
unfolding pump_output chain
pump_output-Follows m id j bytes now n = elim (Option-cases (lookup j m.objects)) [
  | inl e ↦ rw (e, pump_output) (quiet-Follows m id [] n (λ s. refl))
  | inr (g, e) ↦ elim (Bool-cases g.abandoned) [
    | inl b ↦ rw (e, pump_output) (rw b (quiet-Follows m id [] n (λ s. refl)))
    | inr b ↦
        rw (e, pump_output)
          (rw b (put-Follows m id j g _ _ n e refl (λ r h. h) (λ h. refl) (λ h s. refl)))
  ]
]

pub touch_activity-Follows :
    (m : Manager) (id j : String) (now : ℕ)
    → IsNamed m
    → Follows id (lookup id m.objects) (lookup id (touch_activity m j now).objects) []
unfolding touch_activity chain
touch_activity-Follows m id j now n = elim (Option-cases (lookup j m.objects)) [
  | inl e ↦ rw (e, touch_activity) (quiet-Follows m id [] n (λ s. refl))
  | inr (g, e) ↦
      rw (e, touch_activity)
        (put-Follows m id j g _ [] n e refl (λ r h. h) (λ h. refl) (λ h s. refl))
]

pub abandon-Follows :
    (m : Manager) (id j : String)
    → IsNamed m
    → Follows id (lookup id m.objects) (lookup id (abandon m j).objects) []
unfolding abandon chain
abandon-Follows m id j n = elim (Option-cases (lookup j m.objects)) [
  | inl e ↦ rw (e, abandon) (quiet-Follows m id [] n (λ s. refl))
  | inr (g, e) ↦
      rw (e, abandon) (put-Follows m id j g _ [] n e refl (λ r h. h) (λ h. refl) (λ h s. refl))
]

remove_dead-found :
    (account id : String) (ids : List String) (objects : Dict String Managed) (g : Managed)
    → lookup id objects ≡ some g
    → let (_, objects', _) = remove_dead account ids objects in
      (g' : Managed) × (lookup id objects' ≡ some g') × (g'.session ≡ g.session)
unfolding remove_dead
remove_dead-found account id [] objects g h = (g, h, refl)
remove_dead-found account id (j ∷ ids) objects g h =
    let (g', found, same) = remove_dead-found account id ids objects g h in
    elim (Option-cases (lookup j objects)) [
      | inl e ↦ rw (e, remove_dead) (g', found, same)
      | inr (x, e) ↦ elim (Bool-cases (x.session.account_id == account && is_dead x.session)) [
        | inr stays ↦ rw (e, remove_dead) (rw stays (g', found, same))
        | inl goes ↦
            rw (e, remove_dead)
              (rw goes (elim (Bool-cases (j == id)) [
                | inl here ↦ (
                  record x { output = clear x.output },
                  ground (
                    arith,
                    lookup-insert id j (record x { output = clear x.output })
                        (remove_dead account ids objects).1,
                    here,
                  ),
                  ground (arith, ==→≡ j id here),
                )
                | inr other ↦ (
                  g',
                  ground (
                    arith,
                    lookup-insert id j (record x { output = clear x.output })
                        (remove_dead account ids objects).1,
                    other,
                    found,
                  ),
                  same,
                )
              ]))
      ]
    ]

remove_dead-silent :
    (account id : String) (ids : List String) (objects : Dict String Managed) (s : Status)
    → let (_, _, es) = remove_dead account ids objects in chain id s es ≡ some s
unfolding remove_dead chain
remove_dead-silent account id [] objects s = refl
remove_dead-silent account id (j ∷ ids) objects s = elim (Option-cases (lookup j objects)) [
  | inl e ↦ rw (e, remove_dead) (remove_dead-silent account id ids objects s)
  | inr (x, e) ↦ elim (Bool-cases (x.session.account_id == account && is_dead x.session)) [
    | inl goes ↦ rw (e, remove_dead) (rw goes (remove_dead-silent account id ids objects s))
    | inr stays ↦ rw (e, remove_dead) (rw stays (remove_dead-silent account id ids objects s))
  ]
]

remove_dead-absent :
    (account id : String) (ids : List String) (objects : Dict String Managed)
    → lookup id objects ≡ none
    → lookup id (remove_dead account ids objects).1 ≡ none
unfolding remove_dead
remove_dead-absent account id [] objects h = h
remove_dead-absent account id (j ∷ ids) objects h =
    let rest = remove_dead-absent account id ids objects h in
    elim (Option-cases (lookup j objects)) [
      | inl e ↦ rw (e, remove_dead) rest
      | inr (x, e) ↦ elim (Bool-cases (x.session.account_id == account && is_dead x.session)) [
        | inr stays ↦ rw (e, remove_dead) (rw stays rest)
        | inl goes ↦
            rw (e, remove_dead)
              (rw goes (
                ground (
                  arith,
                  lookup-insert id j (record x { output = clear x.output })
                      (remove_dead account ids objects).1,
                  h,
                  e,
                )))
      ]
    ]

pub remove_for_account-Follows :
    (m : Manager) (id account : String)
    → IsNamed m
    → let (m', es) = remove_for_account m account in
      Follows id (lookup id m.objects) (lookup id m'.objects) es
unfolding remove_for_account
remove_for_account-Follows m id account n = elim (Option-cases (lookup id m.objects)) [
  | inl e ↦
      rw (remove_dead-absent account id m.terminals m.objects e, e)
        (record { named = λ g h. cc; led = λ s h. cc; kept = λ g h. cc })
  | inr (g, e) ↦
      let (g', found, same) = remove_dead-found account id m.terminals m.objects g e in
      rw (found, e)
        (record {
          named = λ x h. ground (arith, n id g e, same);
          led = λ s h. remove_dead-silent account id m.terminals m.objects s ∙ ground (arith, same);
          kept = λ x h. (g', refl, λ r k. ground (arith, same));
        })
]
