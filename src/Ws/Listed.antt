-- ===== src/Ws/Listed.antt =====
-- The list of an account's sessions names no session of another account.
use shell_watch.Base.{
  ◌≡◌, refl, ap, ◌∙◌, true, false, some, String, List, [], ◌∷◌, ◌==◌, map, ==→≡, contains, lookup,
  string_eq, arith, Bool-cases, Option-cases, inl, inr,
}
use shell_watch.Terminal.Manager.{
  Managed, Manager, get_session, snapshot, select, is_listed_for, list_for_account,
}
use shell_watch.Terminal.Manager.Steps.{IsNamed}
use shell_watch.Ws.{Conn}
use shell_watch.Ws.Hub.{entry_of}
use shell_watch.Ws.Lives.{lists}
use shell_watch.Ws.Untold.{IsForeign}

module _ (id account : String) (m : Manager) (c : Conn) (n : IsNamed m)
    (f : IsForeign id account m) where
  found_apart :
      (j : String) (g : Managed)
      → contains m.terminals j ≡ true
      → lookup j m.objects ≡ some g
      → is_listed_for account g.session ≡ true
      → (g.session.session_id == id) ≡ false
  unfolding get_session
  found_apart j g here e own = elim (Bool-cases (g.session.session_id == id)) [
    | inr a ↦ a
    | inl q ↦
        let same : j ≡ id = ap (λ s. s) (sym_named j g e) ∙ ==→≡ g.session.session_id id q in
        let there : contains m.terminals id ≡ true = rw same at here in
        let at : lookup id m.objects ≡ some g = rw same at e in
        let got : get_session m id ≡ some g.session = rw (there, at) refl in
        absurd (ground (arith, f g.session got, own))
  ]
    where
      sym_named :
          (j : String) (g : Managed) → lookup j m.objects ≡ some g → j ≡ g.session.session_id
      sym_named j g e = let q = n j g e in cc

  listed_apart :
      (ids : List String)
      → ((j : String) → contains ids j ≡ true → contains m.terminals j ≡ true)
      → lists id (map (entry_of c) (select (is_listed_for account) (snapshot m.objects ids)))
        ≡ false
  unfolding snapshot lists
  listed_apart [] h = refl
  listed_apart (j ∷ ids) h =
      let rest = listed_apart ids (λ k e. h k (ground arith)) in
      elim (Option-cases (lookup j m.objects)) [
        | inl e ↦ rw (e, snapshot) rest
        | inr (g, e) ↦ elim (Bool-cases (is_listed_for account g.session)) [
          | inr o ↦ rw (e, snapshot) (rw o rest)
          | inl o ↦
              let apart = found_apart j g (h j (ground arith)) e o in
              rw (e, snapshot) (rw (o, apart) rest)
        ]
      ]

  pub list_for_account_apart : lists id (map (entry_of c) (list_for_account m account)) ≡ false
  unfolding list_for_account
  list_for_account_apart = listed_apart m.terminals (λ j e. e)
