-- ===== src/ComputerUse/Session/Starts.antt =====
-- What `startOperation` does when it does not throw.
use useful.Common.{
  ℕ, Bool, not, Option, none, some, ok, bind-eq-ok, then-eq-ok, ◌≡◌, refl, sym, ◌∙◌,
}
use useful.ComputerUse.Base.{cancelled}
use useful.ComputerUse.Policy.{Policy}
use useful.ComputerUse.Session.{
  Work, Operation, Session, Bound, bounded_options, check_free, occupied, start_operation,
}

pub check_free-none : (running : Option Operation) → check_free running ≡ ok tt → running ≡ none
unfolding check_free
check_free-none none e = refl
check_free-none (some o) e = cc

pub start_operation-occupied :
    (p : Policy) (s : Session) (work : Work) (now : ℕ) (aborted : Bool) {t : Session}
    → start_operation p s work now aborted ≡ ok t
    → (s.operation ≡ none)
      × ((bound : Bound) × (start_operation p s work now aborted ≡ ok (occupied s work bound)))
unfolding start_operation
start_operation-occupied p s work now aborted e =
    let (_, free, e1) = bind-eq-ok (check_free s.operation) _ e in
    let (calm, e2) = then-eq-ok (not aborted) cancelled _ e1 in
    let (bound, _, e3) = bind-eq-ok (bounded_options p s now) _ e2 in
    (check_free-none s.operation free, (bound, e ∙ sym e3))
