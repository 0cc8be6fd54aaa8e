-- ===== src/Domain/IncidentState.antt =====
-- src/domain/incident-state.ts: the transition table of an incident.
use template_security_incide.Prelude.{Bool, List, [], ◌∷◌, any, ◌==◌}
use template_security_incide.Schemas.Incident.{
  IncidentStatus, received, investigating, awaiting_approval, approved, rejected, containing,
  contained, failed, closed, status_eq,
}

abbrev pub incident_transitions : IncidentStatus → List IncidentStatus
incident_transitions received = investigating ∷ failed ∷ []
incident_transitions investigating = awaiting_approval ∷ failed ∷ closed ∷ []
incident_transitions awaiting_approval = approved ∷ rejected ∷ failed ∷ []
incident_transitions approved = containing ∷ failed ∷ []
incident_transitions rejected = closed ∷ []
incident_transitions containing = contained ∷ failed ∷ []
incident_transitions contained = closed ∷ []
incident_transitions failed = investigating ∷ containing ∷ closed ∷ []
incident_transitions closed = []

unfoldable pub can_transition : IncidentStatus → IncidentStatus → Bool
unfolding any
can_transition from to = any (λ s. s == to) (incident_transitions from)
