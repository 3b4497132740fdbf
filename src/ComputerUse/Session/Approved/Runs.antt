-- ===== src/ComputerUse/Session/Approved/Runs.antt =====
-- Every sequence of events keeps the approvals complete.
use useful.Common.{List, [], ◌∷◌, ◌≡◌, ◌⊎◌}
use useful.Js.Value.{Value}
use useful.ComputerUse.Policy.{Policy}
use useful.ComputerUse.Session.{Session}
use useful.ComputerUse.Session.Step.{returned, Event, answer}

-- The value is one that an await of the run was answered with.
abbrev pub IsAnswered : Value → List Event → Type 0
IsAnswered v [] = ⊥
IsAnswered v (e ∷ es) = (e ≡ answer (returned v)) ⊎ IsAnswered v es
