-- ===== src/Approvals/Bound.antt =====
-- The foreign key of approval_resume_tokens: a token has the decision of its approval.
use template_security_incide.Prelude.{◌≡◌, some, ◌∈◌}
use template_security_incide.Store.Rows.{Db, ApprovalRow, ResumeTokenRow, DecisionColumns}

-- The approval of a token, which has been decided as the token says.
abbrev pub IsBound : Db → ResumeTokenRow → Type 0
IsBound db t =
    (a : ApprovalRow) × (c : DecisionColumns) × (db.approvals t.approval_id ≡ some a)
    × (a.decided ≡ some c)
    × (c.decision ≡ t.decision)
    × (a.expires_at ≡ t.expires_at)

abbrev pub TokensBound : Db → Type 0
TokensBound db = (t : ResumeTokenRow) → t ∈ db.approval_resume_tokens → IsBound db t
